-- ===== src/Joint/Opening.antt =====
-- `contextCreate` of a manager answered by the proxy: the application learns its router, and the two
-- are up to date with one another.
use etsimec.Prelude.{
  ℕ, Bool, true, not, Str, str, none, some, Option, Outcome, ok, List, [], ◌∷◌, ◌++◌, Str-eq, ◌≡◌,
  ◌≢◌, refl, arith, inl, inr, sym, ap,
}
use mathlib.Core.Path.{subst}
use etsimec.Prelude.Dict.{lookup}
use etsimec.Rest.{Rest}
use etsimec.Rest.Laws.{IsLawful}
use etsimec.AppInfo.{message, reference_uri, app_info_request, app_context_response}
use etsimec.AppInfo.Accepts.{app_info_request-IsRequestInfo}
use etsimec.AppContext.{
  app_context_request, response, type, context_id, app_info, app_context_of_json,
}
use etsimec.AppContext.RoundTrip.{
  IsContext-app_info, IsContext-app_context_of_json, IsContext-type, app_context_request-IsContext,
}
use etsimec.LcmProxy.{Applications, exists, handle_context_create}
use etsimec.StaticProxy.{Desc, Routes, route}
use etsimec.StaticProxy.Index.{add-IsConsistent}
use etsimec.StaticProxy.Handlers.{static}
use etsimec.StaticProxy.Creation.{with_context, empty-eq-false, handle_context_create-static}
use etsimec.ContextManager.{
  Manager, get_reference_uri, last, open_context, creation_request, read_creation, context_create,
}
use etsimec.ContextManager.Laws.{open_context_lem}
use etsimec.Joint.{callback_of}
use etsimec.Joint.Follows.{Follows}
use etsimec.Joint.Deliver.{Follows-other}
use etsimec.Joint.Others.{lookup-insert-cases}
use etsimec.Joint.Turns.{UpToDate}

append-ne : (s t : Str) → t ≢ [] → s ++ t ≢ []
append-ne [] t h = h
append-ne (c ∷ s) t h = λ e. cc

module _ ⦃R : Rest⦄ where
  open R use {Value}

  read_creation-response :
      (problem_string : Value → Str) (r made : Value) (id uri : Str)
      → app_context_of_json r ≡ ok r
      → app_info r ≡ ok made
      → type r ≡ ok response
      → message made ≡ ok app_context_response
      → reference_uri made ≡ ok uri
      → context_id r ≡ id
      → read_creation problem_string 201 r ≡ ok (record { reference_uri = uri; context_id = id })
  unfolding read_creation
  read_creation-response problem_string r made id uri e1 e2 e3 e4 e5 e6 = grind arith

  context_create-parts :
      (problem_string : Value → Str) (post : Str → Value → Outcome (ℕ × Value)) (id : Str)
      (info req r : Value) (m : Manager) (d : etsimec.ContextManager.Desc)
      → message info ≡ ok etsimec.AppInfo.app_context_request
      → creation_request id info m ≡ ok req
      → post (m.proxy_uri ++ str "/mx2/v1/app_contexts") req ≡ ok (201, r)
      → read_creation problem_string 201 r ≡ ok d
      → context_create problem_string post id info m
        ≡ ok ((id, d.reference_uri), open_context id d m)
  unfolding context_create
  context_create-parts problem_string post id info req r m d e1 e2 e3 e4 = ground arith

  -- What the network does with the request of the manager: it hands it to the proxy, and the reply
  -- back.
  abbrev pub Carries :
      (Str → Value → Outcome (ℕ × Value)) → Str → Str → Str → Applications → Routes → Type 0
  Carries post url uuid client apps s =
      (req body : Value) (status : ℕ) (s' : Applications × Routes)
      → handle_context_create static uuid client req (apps, s)
        ≡ ok (record { status = status; body = some body }, s')
      → post url req ≡ ok (status, body)

  module _ (L : IsLawful R) (recipient : Str → Option Str) (split : Str → Str → List Str)
      (validate : Str → Bool) (problem_string : Value → Str)
      (post : Str → Value → Outcome (ℕ × Value)) (n p v q o id uuid client router : Str)
      (info : Value) (apps : Applications) (s : Routes) (m : Manager) where
    abbrev pub opened_context : Desc
    opened_context = record {
      ue_app_id = id;
      callback = callback_of m id;
      client_address = client;
      app_name = n;
      edge_router = router;
    }

    -- The application after it was opened.
    abbrev pub opened : Manager
    opened = open_context id (record { reference_uri = router; context_id = uuid }) m

    opened-Follows :
        id ≢ []
        → uuid ≢ []
        → lookup id m.contexts ≡ none
        → ((path : Str)
            → recipient (callback_of m id) ≡ some path
            → (validate (callback_of m id) ≡ true) × (last (split path (str "/")) ≡ some id))
        → Follows recipient split validate opened uuid opened_context
    opened-Follows i d new back =
        let told =
          open_context_lem id id (record { reference_uri = router; context_id = uuid }) m new in
        (
          d,
          append-ne m.notification_uri (str "/" ++ id ++ []) (λ e. cc),
          λ path h.
              let (valid, known) = back path h in
              (valid, known, empty-eq-false id i, (router, ground (arith, told), inr refl)),
        )

    -- The proxy after the creation, and the manager with the new application.
    opened-UpToDate :
        id ≢ []
        → uuid ≢ []
        → route client n s.table ≡ some router
        → lookup uuid s.by_context ≡ none
        → lookup id s.by_ue_app ≡ none
        → lookup id m.contexts ≡ none
        → ((path : Str)
            → recipient (callback_of m id) ≡ some path
            → (validate (callback_of m id) ≡ true) × (last (split path (str "/")) ≡ some id))
        → UpToDate L recipient split validate s m
        → UpToDate L recipient split validate (with_context uuid opened_context s) opened
    opened-UpToDate i d routed fresh free new back u = record {
      consistent = add-IsConsistent uuid opened_context s fresh free (ground arith) u.consistent;
      tracks = λ c e found. elim (lookup-insert-cases uuid c opened_context e s.by_context found) [
        | inl (same, value) ↦
            let P = Follows recipient split validate opened in
            subst (λ (x : Str). P x e) same
              (subst (λ (x : Desc). P uuid x) value (opened-Follows i d new back))
        | inr there ↦
            let other : id ≢ e.ue_app_id = λ q. let w = u.consistent.indexed c e there in cc in
            let stays =
              open_context_lem id e.ue_app_id (record { reference_uri = router; context_id = uuid })
                m new in
            Follows-other L recipient split validate m opened c e (ground (arith, stays))
              (u.tracks c e there)
      ];
    }

    creation_request-request :
        (req : Value)
        → app_context_request id (callback_of m id) info ≡ ok req
        → creation_request id info m ≡ ok req
    unfolding creation_request
    creation_request-request req e = e

    -- Over a lawful REST library: a manager that is up to date with a proxy opens an application
    -- with a constructed `AppInfo`, and the network carries its request to the proxy and the reply
    -- back. If the proxy offers the application and has a router for the client, the two IDs are
    -- fresh and not empty, and the callback leads back to the manager if it reaches it, then the
    -- proxy replies 201 and has the context, the application gets the router as its reference URI,
    -- and the two are up to date with one another.
    pub context_create-opens :
        app_info_request n p v q o ≡ ok info
        → id ≢ []
        → uuid ≢ []
        → exists info apps ≡ ok true
        → route client n s.table ≡ some router
        → lookup uuid s.by_context ≡ none
        → lookup id s.by_ue_app ≡ none
        → lookup id m.contexts ≡ none
        → ((path : Str)
            → recipient (callback_of m id) ≡ some path
            → (validate (callback_of m id) ≡ true) × (last (split path (str "/")) ≡ some id))
        → Carries post (m.proxy_uri ++ str "/mx2/v1/app_contexts") uuid client apps s
        → UpToDate L recipient split validate s m
        → (req : Value) × (r : Value) × (creation_request id info m ≡ ok req)
          × (handle_context_create static uuid client req (apps, s)
              ≡ ok (
                record { status = 201; body = some r },
                (apps, with_context uuid opened_context s),
              ))
          × (context_create problem_string post id info m ≡ ok ((id, router), opened))
          × UpToDate L recipient split validate (with_context uuid opened_context s) opened
    context_create-opens known i d offered routed fresh free new back carries u =
        let cb = callback_of m id in
        let i' = app_info_request-IsRequestInfo L n p v q o info known in
        let (req, made_req, c) = app_context_request-IsContext L n p v q o id cb info known i in
        let (r, made, created, rc, k) =
          handle_context_create-static L n p v q o id cb uuid client router info req apps s known c
            i d u.consistent offered routed fresh free in
        let asked = creation_request-request req made_req in
        let read =
          read_creation-response problem_string r made uuid router
            (IsContext-app_context_of_json L r uuid id cb made rc i k.accepted)
            (IsContext-app_info L r uuid id cb made rc k.accepted)
            (IsContext-type L r uuid id cb made rc response _ k.accepted k.kind
              (sym (ap not (empty-eq-false uuid d))) refl)
            k.kind k.uri rc.id_text in
        (
          req,
          r,
          asked,
          created,
          context_create-parts problem_string post id info req r m _ i'.kind asked
              (carries req r 201 _ created) read,
          opened-UpToDate i d routed fresh free new back u,
        )
