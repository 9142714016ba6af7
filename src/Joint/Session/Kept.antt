-- ===== src/Joint/Session/Kept.antt =====
-- In every session the manager is up to date with the proxy.
use etsimec.Prelude.{
  ℕ, true, Outcome, none, str, ◌++◌, Bool, Str, Option, some, ok, List, [], Str-eq, ◌≡◌, ◌≢◌, arith,
}
use etsimec.Prelude.Dict.{lookup}
use etsimec.Rest.{Rest}
use etsimec.Rest.Laws.{IsLawful}
use etsimec.AppInfo.{app_info_request}
use etsimec.LcmProxy.{Applications, Reply, exists, handle_context_create}
use etsimec.StaticProxy.Handlers.{static}
use etsimec.StaticProxy.{AddressAppKey-eq, Desc, Notification, Routes, initial, route}
use etsimec.StaticProxy.Invariant.{initial-IsConsistent}
use etsimec.Notify.{Answer, Post, notify_clients}
use etsimec.ContextManager.{Manager, manager, open_context, creation_request, context_create}
use etsimec.StaticProxy.Creation.{with_context}
use etsimec.Joint.{callback_of, answered_by, deliver}
use etsimec.Joint.Turns.{UpToDate, Settles, associate_address-UpToDate, remove_address-UpToDate}
use etsimec.Joint.Opening.{Carries, context_create-opens}
use etsimec.Joint.Others.{create_context-UpToDate, update_context-UpToDate, delete_context-UpToDate}
use etsimec.Joint.Session.{
  LeadsBack, Session, starts, associates, removes, opens, creates, updates, deletes,
}

module _ ⦃R : Rest⦄ (L : IsLawful R) (recipient : Str → Option Str) (split : Str → Str → List Str)
    (validate : Str → Bool) (problem_string : R.Value → Str) where
  initial-UpToDate :
      (notification proxy : Str)
      → UpToDate L recipient split validate initial (manager notification proxy)
  unfolding lookup
  initial-UpToDate notification proxy = record {
    consistent = initial-IsConsistent;
    tracks = λ c d e. absurd cc;
  }

  -- Runs give one result.
  Settles-UpToDate :
      (answer : Notification → Answer) (s1 s2 : Routes) (out : List Notification) (m m' : Manager)
      (sent : List Post)
      → notify_clients validate (answered_by answer out) s1 ≡ ok (s2, sent)
      → deliver recipient split sent m ≡ ok m'
      → Settles L recipient split validate answer s1 out m
      → UpToDate L recipient split validate s2 m'
  Settles-UpToDate answer s1 s2 out m m' sent e f (sent', s', m'', sends, delivered, u, same) =
      let p : s2 ≡ s' = ground arith in
      let q : sent ≡ sent' = ground arith in let r : m' ≡ m'' = ground arith in rw (p, r) u

  -- What a manager that opens an application leaves of the proxy and of itself.
  pub opens-leaves :
      (post : Str → R.Value → Outcome (ℕ × R.Value)) (n p v q o id uuid client router : Str)
      (info req : R.Value) (reply : Reply) (apps apps' : Applications) (s s' : Routes)
      (told : Str × Str) (m m' : Manager)
      → UpToDate L recipient split validate s m
      → app_info_request n p v q o ≡ ok info
      → id ≢ []
      → uuid ≢ []
      → exists info apps ≡ ok true
      → route client n s.table ≡ some router
      → lookup uuid s.by_context ≡ none
      → lookup id s.by_ue_app ≡ none
      → lookup id m.contexts ≡ none
      → LeadsBack recipient split validate problem_string m id
      → Carries post (m.proxy_uri ++ str "/mx2/v1/app_contexts") uuid client apps s
      → creation_request id info m ≡ ok req
      → handle_context_create static uuid client req (apps, s) ≡ ok (reply, (apps', s'))
      → context_create problem_string post id info m ≡ ok (told, m')
      → let d : Desc = record {
        ue_app_id = id;
        callback = callback_of m id;
        client_address = client;
        app_name = n;
        edge_router = router;
      } in
        let opened = open_context id (record { reference_uri = router; context_id = uuid }) m in
        (s' ≡ with_context uuid d s)
        × (m' ≡ opened)
        × UpToDate L recipient split validate (with_context uuid d s) opened
  opens-leaves post n p v q o id uuid client router info req reply apps apps' s s' told m m' u known
        i d offered routed fresh free new back carries asked replied opened =
      let (req', body, asked', replied', opened', u') =
        context_create-opens L recipient split validate problem_string post n p v q o id uuid client
          router info apps s m known i d offered routed fresh free new back carries u in
      (ground arith, ground arith, u')

  pub Session-UpToDate :
      (s : Routes) (m : Manager)
      → Session recipient split validate problem_string s m
      → UpToDate L recipient split validate s m
  Session-UpToDate _ _ (starts notification proxy) = initial-UpToDate notification proxy
  Session-UpToDate _ _ (associates answer a n router s s1 s2 m m' out sent r e f g) =
      Settles-UpToDate answer s1 s2 out m m' sent f g (
        associate_address-UpToDate L recipient split validate answer a n router s s1 m out
          (Session-UpToDate s m r) e)
  Session-UpToDate _ _ (removes answer a n s s1 s2 m m' out sent r e f g) =
      Settles-UpToDate answer s1 s2 out m m' sent f g (
        remove_address-UpToDate L recipient split validate answer a n s s1 m out
          (Session-UpToDate s m r) e)
  Session-UpToDate _ _
        (opens post n p v q o id uuid client router info req reply apps apps' s s' told m m' r known
          i d offered routed fresh free new back carries asked replied opened) =
      let (p, q, u) =
        opens-leaves post n p v q o id uuid client router info req reply apps apps' s s' told m m'
          (Session-UpToDate s m r) known i d offered routed fresh free new back carries asked
          replied opened in
      rw (p, q) u
  Session-UpToDate _ _ (creates uuid client req response apps apps' s s' m r k other e) =
      create_context-UpToDate L recipient split validate m uuid client req response apps apps' s s'
        k other e (Session-UpToDate s m r)
  Session-UpToDate _ _ (updates req done s s' m r k other e) =
      update_context-UpToDate L recipient split validate m req done s s' k other e
        (Session-UpToDate s m r)
  Session-UpToDate _ _ (deletes id done s s' m r e) =
      delete_context-UpToDate L recipient split validate m id done s s' e (Session-UpToDate s m r)
