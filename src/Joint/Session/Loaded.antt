-- ===== src/Joint/Session/Loaded.antt =====
-- A session that starts with a proxy whose table is read from a file (EtsiMec/staticfileueapplcmproxy.cpp).
use etsimec.Prelude.{
  ℕ, Bool, true, false, not, ◌&&◌, Str, str, empty, Option, none, some, Outcome, ok, assert, List,
  [], ◌∷◌, ◌++◌, Str-eq, ◌≡◌, ◌≢◌, refl, arith, inl, inr, returned, sym, ◌∙◌,
}
use etsimec.Prelude.Dict.{lookup, insert}
use etsimec.Rest.{Rest}
use etsimec.Rest.Laws.{IsLawful}
use etsimec.AppInfo.{app_info_request}
use etsimec.LcmProxy.{Applications, exists}
use etsimec.StaticProxy.{
  AddressAppKey, AddressAppKey-eq, key, Notification, Routes, initial, route, associate_address,
}
use etsimec.StaticProxy.Routing.{reroute, notices}
use etsimec.FileProxy.{words, address_of, load_words, load}
use etsimec.FileProxy.Laws.{entries, last_router, load-table}
use etsimec.Notify.{answered, notify_clients}
use etsimec.ContextManager.{Manager, manager, get_reference_uri, context_create}
use etsimec.ContextManager.Laws.{open_context_lem}
use etsimec.Joint.{deliver}
use etsimec.Joint.Opening.{Carries, context_create-opens}
use etsimec.Joint.Turns.{associate_address-cases}
use etsimec.Joint.Session.{Session, LeadsBack, starts, associates, opens}
use etsimec.Joint.Session.Kept.{Session-UpToDate}

-- The router that a file gives to a client of an application: that of the client, or else that of
-- the wildcard, each the last one of the file.
abbrev pub file_router : Str → Str → List (AddressAppKey × Str) → Option Str
file_router client n es = elim (last_router (key client n) es none) [
  | some router ↦ some router
  | none ↦ last_router (key [] n) es none
]

module _ ⦃R : Rest⦄ (L : IsLawful R) (recipient : Str → Option Str) (split : Str → Str → List Str)
    (validate : Str → Bool) (problem_string : R.Value → Str) where
  associates-Session :
      (a n router : Str) (s s' : Routes) (m : Manager) (out : List Notification)
      → Session recipient split validate problem_string s m
      → s.by_context ≡ []
      → associate_address a n router s ≡ ok (s', out)
      → Session recipient split validate problem_string s' m × (s'.by_context ≡ [])
  unfolding notify_clients deliver reroute notices
  associates-Session a n router s s' m out r alone e =
      let v = (Session-UpToDate L recipient split validate problem_string s m r).consistent in
      let t = insert (key a n) router s.table in
      let rerouted : reroute t s.by_context ≡ [] = rw alone refl in
      let unnoticed : notices t s.by_context ≡ [] = rw alone refl in
      let (quiet, left) : (out ≡ []) × (s'.by_context ≡ []) =
        elim (associate_address-cases a n router s s' out v e) [
          | inl (p, q) ↦ (q, rw p alone)
          | inr (p, q) ↦ (q ∙ unnoticed, rw p rerouted)
        ] in
      (associates (λ x. answered 204) a n router s s' s' m m out [] r e (rw quiet refl) refl, left)

  load_words-Session :
      (path : Str) (ws : List Str) (none_yet done : Bool) (s s' : Routes) (m : Manager)
      → Session recipient split validate problem_string s m
      → s.by_context ≡ []
      → load_words path ws none_yet s ≡ ok (done, s')
      → Session recipient split validate problem_string s' m × (s'.by_context ≡ [])
  unfolding load_words
  load_words-Session path [] none_yet done s s' m r alone e =
      let same : s ≡ s' = ground arith in rw (sym same) (r, alone)
  load_words-Session path (a ∷ []) none_yet done s s' m r alone e = absurd cc
  load_words-Session path (a ∷ n ∷ []) none_yet done s s' m r alone e = absurd cc
  load_words-Session path (a ∷ n ∷ q ∷ ws) none_yet done s s' m r alone e =
      let (x, e1, f1) = returned _ (assert (not (empty n) && not (empty q))) e in
      let ((s1, out), e2, f2) = returned _ (associate_address (address_of a) n q s) f1 in
      let (r1, alone1) = associates-Session (address_of a) n q s s1 m out r alone e2 in
      load_words-Session path ws false done s1 s' m r1 alone1 f2

  -- A proxy that is read from a file, and a manager that has no contexts yet.
  pub load-Session :
      (path content notification proxy : Str) (s : Routes)
      → load path (some content) ≡ ok s
      → Session recipient split validate problem_string s (manager notification proxy)
  unfolding load
  load-Session path content notification proxy s e =
      let ((none_yet, s1), e1, f1) = returned _ (load_words path (words content) true initial) e in
      let (r, alone) =
        load_words-Session path (words content) true none_yet initial s1
          (manager notification proxy) (starts notification proxy) refl e1 in
      let same : s1 ≡ s = ground arith in rw (sym same) r

  file_router-route :
      (client n : Str) (es : List (AddressAppKey × Str)) (s : Routes)
      → ((k : AddressAppKey) → lookup k s.table ≡ last_router k es none)
      → route client n s.table ≡ file_router client n es
  unfolding route
  file_router-route client n es s last =
      let own = last (key client n) in let default = last (key [] n) in ground arith

  -- Over a lawful REST library: a proxy reads its table from a file with at least one entry (an
  -- address or the wildcard, an application and a router), and a
  -- manager that has no contexts yet opens an application with a constructed `AppInfo`, which the
  -- proxy offers; the network carries the request to the proxy and the reply back, the two IDs are
  -- not empty, and the callback leads back to the manager if it reaches it. If the file gives a
  -- router to the client and the application, then the manager is told that router: that of the
  -- client or else that of the wildcard, each the last one of the file. The two are then in a session.
  pub load-context_create :
      (post : Str → R.Value → Outcome (ℕ × R.Value))
      (path content notification proxy n p v q o id uuid client router : Str) (info : R.Value)
      (first : AddressAppKey × Str) (es : List (AddressAppKey × Str)) (apps : Applications)
      (s : Routes)
      → entries (words content) ≡ some (first ∷ es)
      → load path (some content) ≡ ok s
      → file_router client n (first ∷ es) ≡ some router
      → app_info_request n p v q o ≡ ok info
      → id ≢ []
      → uuid ≢ []
      → exists info apps ≡ ok true
      → LeadsBack recipient split validate problem_string (manager notification proxy) id
      → Carries post (proxy ++ str "/mx2/v1/app_contexts") uuid client apps s
      → (s' : Routes) × (m' : Manager) × (context_create problem_string post id info
            (manager notification proxy)
          ≡ ok ((id, router), m'))
        × (get_reference_uri id m' ≡ ok router)
        × Session recipient split validate problem_string s' m'
  unfolding manager lookup
  load-context_create post path content notification proxy n p v q o id uuid client router info
        first es apps s spelled loaded given known i d offered back carries =
      let m = manager notification proxy in
      let (t, loads, last) = load-table path content first es spelled in
      let same : s ≡ record { table = t; by_context = []; by_ue_app = [] } = ground arith in
      let r = load-Session path content notification proxy s loaded in
      let u = Session-UpToDate L recipient split validate problem_string s m r in
      let routed : route client n s.table ≡ some router =
        file_router-route client n (first ∷ es) s (λ k. rw same (last k)) ∙ given in
      let fresh : lookup uuid s.by_context ≡ none = rw same refl in
      let free : lookup id s.by_ue_app ≡ none = rw same refl in
      let (req, body, asked, replied, opened, u') =
        context_create-opens L recipient split validate problem_string post n p v q o id uuid client
          router info apps s m known i d offered routed fresh free refl back carries u in
      (
        _,
        _,
        opened,
        (let told =
              open_context_lem id id (record { reference_uri = router; context_id = uuid }) m
                refl in
            ground arith),
        opens post n p v q o id uuid client router info req _ apps apps s _ (id, router) m _ r known
            i d offered routed fresh free refl back carries asked replied opened,
      )
