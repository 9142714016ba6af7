-- ===== src/Joint/Fifo/Opens.antt =====
-- A manager that opens an application while notifications are on their way to it.
use etsimec.Prelude.{
  ℕ, Bool, true, not, Str, str, Option, none, some, Outcome, ok, throw_if, List, [], ◌∷◌, ◌++◌,
  Str-eq, ◌≡◌, ◌≢◌, refl, sym, ap, ◌∙◌, arith, inl, inr, Option-cases, returned,
}
use etsimec.Prelude.Dict.{lookup, lookup-insert, insert-insert_absent}
use etsimec.Rest.{Rest}
use etsimec.Rest.Laws.{IsLawful}
use etsimec.AppInfo.{message, is_request, app_info_request}
use etsimec.LcmProxy.{Applications, Reply, exists, handle_context_create}
use etsimec.StaticProxy.{Routes, route}
use etsimec.StaticProxy.Handlers.{static}
use etsimec.Notify.{Post}
use etsimec.ContextManager.{
  Desc, Manager, open_context, set_reference_uri, creation_request, read_creation, context_create,
  handle_notification,
}
use etsimec.ContextManager.Laws.{handle_notification-set_reference_uri}
use etsimec.Joint.{deliver}
use etsimec.Joint.Opening.{Carries}
use etsimec.Joint.Turns.{UpToDate}
use etsimec.Joint.Session.{LeadsBack}
use etsimec.Joint.Session.Kept.{opens-leaves}

-- Managers at the same addresses.
abbrev pub SameAddresses : Manager → Manager → Type 0
SameAddresses m n = (n.notification_uri ≡ m.notification_uri) × (n.proxy_uri ≡ m.proxy_uri)

-- A change of another application comes before or after.
set_reference_uri-open_context :
    (u uri id : Str) (d : Desc) (m m' : Manager)
    → set_reference_uri u uri m ≡ ok m'
    → lookup id m.contexts ≡ none
    → (set_reference_uri u uri (open_context id d m) ≡ ok (open_context id d m'))
      × (lookup id m'.contexts ≡ none)
      × SameAddresses m m'
unfolding set_reference_uri open_context
set_reference_uri-open_context u uri id d m m' e new = elim (Option-cases (lookup u m.contexts)) [
  | inl absent ↦ absurd (ground arith)
  | inr (w, there) ↦
      let w' : Desc = record w { reference_uri = uri } in
      let i = lookup-insert id u d m.contexts in
      let j = lookup-insert u id w' m.contexts in
      let k = insert-insert_absent u id w' d w m.contexts there new in
      (ground arith, ground arith, (ground arith, ground arith))
]

module _ ⦃R : Rest⦄ where
  deliver-open_context :
      (recipient : Str → Option Str) (split : Str → Str → List Str) (ps : List Post) (id : Str)
      (d : Desc) (m m' : Manager)
      → deliver recipient split ps m ≡ ok m'
      → lookup id m.contexts ≡ none
      → (deliver recipient split ps (open_context id d m) ≡ ok (open_context id d m'))
        × (lookup id m'.contexts ≡ none)
        × SameAddresses m m'
  unfolding deliver
  deliver-open_context recipient split [] id d m m' e new =
      let same : m ≡ m' = ground arith in rw (sym same) (refl, new, (refl, refl))
  deliver-open_context recipient split (p ∷ ps) id d m m' e new =
      elim (Option-cases (recipient p.to)) [
        | inl elsewhere ↦
            let ih =
              deliver-open_context recipient split ps id d m m' (rw (elsewhere, deliver) at e)
                new in
            let (rest, new', at') = ih in (rw (elsewhere, deliver) rest, new', at')
        | inr (path, mine) ↦
            let ((status, m1), e1, f1) =
              returned _ (handle_notification split path p.body m) (rw (mine, deliver) at e) in
            let (u, uri, set, others) =
              handle_notification-set_reference_uri split path p.body m m1 status e1 in
            let (set', new1, at1) = set_reference_uri-open_context u uri id d m m1 set new in
            let (rest, new2, at2) = deliver-open_context recipient split ps id d m1 m' f1 new1 in
            (
              rw (mine, deliver)
                  (rw (others (open_context id d m) (open_context id d m1) set') rest),
              new2,
              (at2.0 ∙ at1.0, at2.1 ∙ at1.1),
            )
      ]

  creation_request-SameAddresses :
      (id : Str) (info req : R.Value) (m n : Manager)
      → SameAddresses m n
      → creation_request id info m ≡ ok req
      → creation_request id info n ≡ ok req
  unfolding creation_request
  creation_request-SameAddresses id info req m n (a, b) e = rw a e

  -- What `contextCreate` returns depends on the addresses of the manager, and not on its contexts.
  context_create-SameAddresses :
      (problem_string : R.Value → Str) (post : Str → R.Value → Outcome (ℕ × R.Value)) (id : Str)
      (info : R.Value) (told : Str × Str) (m m' n : Manager)
      → SameAddresses m n
      → context_create problem_string post id info m ≡ ok (told, m')
      → (d : Desc) × (m' ≡ open_context id d m)
        × (context_create problem_string post id info n ≡ ok (told, open_context id d n))
  unfolding context_create
  context_create-SameAddresses problem_string post id info told m m' n (a, b) h =
      let (kind, e1, h1) = returned _ (message info) h in
      let (x, e2, h2) = returned _ (throw_if (not (is_request kind)) _) h1 in
      let (req, e3, h3) = returned _ (creation_request id info m) h2 in
      let (reply, e4, h4) = returned _ (post (m.proxy_uri ++ str "/mx2/v1/app_contexts") req) h3 in
      let (d, e5, h5) = returned _ (read_creation problem_string reply.0 reply.1) h4 in
      let e3' = creation_request-SameAddresses id info req m n (a, b) e3 in
      let e4' : post (n.proxy_uri ++ str "/mx2/v1/app_contexts") req ≡ ok reply = rw b e4 in
      let same : told ≡ (id, d.reference_uri) = ground arith in (d, ground arith, grind arith)

module _ ⦃R : Rest⦄ (L : IsLawful R) (recipient : Str → Option Str) (split : Str → Str → List Str)
    (validate : Str → Bool) (problem_string : R.Value → Str) where
  -- The application is opened before or after the notifications that are on their way.
  pub opens-deliver :
      (post : Str → R.Value → Outcome (ℕ × R.Value)) (n p v k o id uuid client router : Str)
      (info req : R.Value) (reply : Reply) (apps apps' : Applications) (s s' : Routes)
      (told : Str × Str) (ps : List Post) (m m' last : Manager)
      → deliver recipient split ps m ≡ ok last
      → UpToDate L recipient split validate s last
      → app_info_request n p v k o ≡ ok info
      → id ≢ []
      → uuid ≢ []
      → exists info apps ≡ ok true
      → route client n s.table ≡ some router
      → lookup uuid s.by_context ≡ none
      → lookup id s.by_ue_app ≡ none
      → lookup id m.contexts ≡ none
      → LeadsBack recipient split validate problem_string m id
      → Carries post (m.proxy_uri ++ str "/mx2/v1/app_contexts") uuid client apps s
      → creation_request id info m ≡ ok req
      → handle_context_create static uuid client req (apps, s) ≡ ok (reply, (apps', s'))
      → context_create problem_string post id info m ≡ ok (told, m')
      → (last' : Manager) × (deliver recipient split ps m' ≡ ok last')
        × UpToDate L recipient split validate s' last'
  opens-deliver post n p v k o id uuid client router info req reply apps apps' s s' told ps m m'
        last arrives u known i d offered routed fresh free new back carries asked replied opened =
      let nothing : Desc = record { reference_uri = []; context_id = [] } in
      let (x, new', (a, b)) =
        deliver-open_context recipient split ps id nothing m last arrives new in
      let (desc, same, opened') =
        context_create-SameAddresses problem_string post id info told m m' last (a, b) opened in
      let (arrives', y, z) = deliver-open_context recipient split ps id desc m last arrives new in
      let (q1, q2, u') =
        opens-leaves L recipient split validate problem_string post n p v k o id uuid client router
          info req reply apps apps' s s' told last (open_context id desc last) u known i d offered
          routed fresh free new' (rw a back) (rw b carries)
          (creation_request-SameAddresses id info req m last (a, b) asked) replied opened' in
      (open_context id desc last, ap (deliver recipient split ps) same ∙ arrives', rw (q1, q2) u')
