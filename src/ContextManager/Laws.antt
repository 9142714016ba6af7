-- ===== src/ContextManager/Laws.antt =====
-- EtsiMec/appcontextmanager.cpp: what the application learns about its reference URI.
use etsimec.Prelude.{
  assert, ◌||◌, ap, sym, ◌∙◌, str, ℕ, true, false, not, Str, str, empty, none, some, Outcome, ok,
  ◌>>=◌, throw_if, ◌++◌, returned, Option-cases, inl, inr, List, if◌then◌else◌, ◌≡◌, arith, Str-eq,
  ◌==◌,
}
use etsimec.Prelude.Dict.{lookup, insert, lookup-insert}
use etsimec.Rest.{Rest}
use etsimec.Rest.Laws.{IsLawful}
use etsimec.Notify.{notification_event}
use etsimec.AppInfo.{message, is_request}
use etsimec.ContextManager.{
  Desc, Manager, get_reference_uri, open_context, set_reference_uri, context_create,
  handle_notification, creation_request, read_creation, last,
}

-- A context that is opened under a new ID has the reference URI that the proxy gave, and the other
-- ones stay.
pub open_context_lem :
    (id j : Str) (d : Desc) (m : Manager)
    → lookup id m.contexts ≡ none
    → get_reference_uri j (open_context id d m)
      ≡ (if id == j then ok d.reference_uri else get_reference_uri j m)
unfolding get_reference_uri open_context
open_context_lem id j d m h = ground (arith, lookup-insert id j d m.contexts)

pub set_reference_uri_lem :
    (id j uri : Str) (m m' : Manager)
    → set_reference_uri id uri m ≡ ok m'
    → get_reference_uri j m' ≡ (if id == j then ok uri else get_reference_uri j m)
unfolding get_reference_uri set_reference_uri
set_reference_uri_lem id j uri m m' h = elim (Option-cases (lookup id m.contexts)) [
  | inl e ↦ cc
  | inr (d, e) ↦ ground (arith, lookup-insert id j (record d { reference_uri = uri }) m.contexts)
]

set_reference_uri-known :
    (id uri : Str) (d : Desc) (m : Manager)
    → lookup id m.contexts ≡ some d
    → set_reference_uri id uri m
      ≡ ok (record m { contexts = insert id (record d { reference_uri = uri }) m.contexts })
unfolding set_reference_uri
set_reference_uri-known id uri d m k = ground arith

module _ ⦃R : Rest⦄ where
  open R use {Value, object, text, is_object, has_string_field, at, as_string}

  -- A context that was created under a new ID is known by the reference URI that the call returned,
  -- and all other applications keep theirs.
  pub context_create-get_reference_uri :
      (problem_string : Value → Str) (post : Str → Value → Outcome (ℕ × Value))
      (id j given uri : Str) (info : Value) (m m' : Manager)
      → lookup id m.contexts ≡ none
      → context_create problem_string post id info m ≡ ok ((given, uri), m')
      → (given ≡ id)
        × (get_reference_uri j m' ≡ (if id == j then ok uri else get_reference_uri j m))
  unfolding context_create
  context_create-get_reference_uri problem_string post id j given uri info m m' fresh h =
      let (kind, e1, h1) = returned _ (message info) h in
      let (u, e2, h2) = returned _ (throw_if (not (is_request kind)) _) h1 in
      let (req, e3, h3) = returned _ (creation_request id info m) h2 in
      let (reply, e4, h4) = returned _ (post (m.proxy_uri ++ str "/mx2/v1/app_contexts") req) h3 in
      let (d, e5, h5) = returned _ (read_creation problem_string reply.0 reply.1) h4 in
      let opened = open_context_lem id j d m fresh in grind arith

  pub notification_event-fields :
      IsLawful R
      → (uri : Str) (body : Value) → notification_event uri ≡ ok body
      → (is_object body ≡ true)
        × (has_string_field body (str "referenceURI") ≡ true)
        × ((at body (str "referenceURI") >>= as_string) ≡ ok uri)
  unfolding notification_event
  notification_event-fields L uri body e =
      let h1 = L.is_object-object in
      let h2 = L.is_object-set object (text uri) (str "referenceURI") h1 in
      let h3 =
        L.has_string_field-set object (text uri) (str "referenceURI") (str "referenceURI") h1 in
      let h4 = L.at-set object (text uri) (str "referenceURI") (str "referenceURI") h1 in
      let h5 = L.is_string-text uri in let h6 = L.as_string-text uri in ground arith

  -- What a notification that is accepted does to the manager, and would do to another one.
  pub handle_notification-set_reference_uri :
      (split : Str → Str → List Str) (path : Str) (body : Value) (m m' : Manager) (status : ℕ)
      → handle_notification split path body m ≡ ok (status, m')
      → (id uri : Str) × (set_reference_uri id uri m ≡ ok m')
        × ((n n' : Manager)
            → set_reference_uri id uri n ≡ ok n'
            → handle_notification split path body n ≡ ok (status, n'))
  unfolding handle_notification
  handle_notification-set_reference_uri split path body m m' status e =
      elim (Option-cases (last (split path (str "/")))) [
        | inl nameless ↦ absurd (ground arith)
        | inr (id, named) ↦
            let (x, e1, f1) =
              returned _
                (throw_if (not (is_object body) || not (has_string_field body (str "referenceURI")))
                  _)
                (rw (named, handle_notification) at e) in
            let (y, e2, f2) = returned _ (assert (not (empty id))) f1 in
            let (v, e3, f3) = returned _ (at body (str "referenceURI")) f2 in
            let (uri, e4, f4) = returned _ (as_string v) f3 in
            let (m1, e5, f5) = returned _ (set_reference_uri id uri m) f4 in
            let same : m1 ≡ m' = ground arith in
            let ends : status ≡ 204 = ground arith in
            (
              id,
              uri,
              e5 ∙ ap ok same,
              λ n n' set.
                  rw (named, handle_notification)
                    (rw (e1, e2, e3, e4, set) (ap (λ x. ok (x, n')) (sym ends))),
            )
      ]

  -- Over a lawful REST library, a notification of the proxy for an application that is known is
  -- accepted, and from then on the application has the reference URI notified; all others keep
  -- theirs.
  pub handle_notification-notification_event :
      IsLawful R
      → (split : Str → Str → List Str) (path id uri : Str) (body : Value) (d : Desc) (m : Manager)
      → last (split path (str "/")) ≡ some id
      → empty id ≡ false
      → lookup id m.contexts ≡ some d
      → notification_event uri ≡ ok body
      → (m' : Manager) × (handle_notification split path body m ≡ ok (204, m'))
        × ((j : Str) → get_reference_uri j m' ≡ (if id == j then ok uri else get_reference_uri j m))
  unfolding handle_notification notification_event
  handle_notification-notification_event L split path id uri body d m p n k e =
      let (object_, field, value) = notification_event-fields L uri body e in
      let m' : Manager = record m {
        contexts = insert id (record d { reference_uri = uri }) m.contexts;
      } in
      let set : set_reference_uri id uri m ≡ ok m' = set_reference_uri-known id uri d m k in
      (m', grind arith, λ j. set_reference_uri_lem id j uri m m' set)
