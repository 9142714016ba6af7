-- ===== src/Joint/Early.antt =====
-- `contextCreate` stores a context only after the reply of the proxy, which may notify it before.
use etsimec.Prelude.{
  ℕ, Bool, true, false, Str, str, empty, Option, none, some, Outcome, ok, throws, List, [], ◌∷◌,
  ◌++◌, Str-eq, ◌≡◌, ◌≢◌, refl, sym, arith,
}
use etsimec.Prelude.Dict.{lookup, insert}
use etsimec.Rest.{Rest}
use etsimec.Rest.Laws.{IsLawful}
use etsimec.AppInfo.{app_info_request}
use etsimec.AppInfo.RoundTrip.{app_info_request-ok}
use etsimec.LcmProxy.{Applications, exists, handle_context_create}
use etsimec.StaticProxy.{
  AddressAppKey-eq, Desc, Table, Notification, Routes, route, associate_address,
}
use etsimec.StaticProxy.Routing.{expected, route-insert}
use etsimec.StaticProxy.Invariant.{IsConsistent, associate_address-IsConsistent}
use etsimec.StaticProxy.Handlers.{static}
use etsimec.StaticProxy.Creation.{empty-eq-false}
use etsimec.Notify.{Answer, is_refusal, Post, notification_event, notify_clients}
use etsimec.Notify.Laws.{notify_clients_lem}
use etsimec.ContextManager.{
  Manager, get_reference_uri, last, creation_request, context_create, set_reference_uri,
  handle_notification,
}
use etsimec.ContextManager.Laws.{notification_event-fields, open_context_lem}
use etsimec.Joint.{callback_of, answered_by}
use etsimec.Joint.Follows.{lookup-head}
use etsimec.Joint.Turns.{UpToDate}
use etsimec.Joint.Opening.{Carries, context_create-opens}
use etsimec.Joint.Overtaking.{one_context, notice, associated, associate_address-one_context}

abbrev pub no_contexts : Table → Routes
no_contexts t = record { table = t; by_context = []; by_ue_app = [] }

module _ ⦃R : Rest⦄ (L : IsLawful R) where
  notification_event-ok :
      (uri : Str)
      → uri ≢ []
      → notification_event uri ≡ ok (R.set R.object (str "referenceURI") (R.text uri))
  unfolding notification_event
  notification_event-ok [] h = absurd (h refl)
  notification_event-ok (c ∷ uri) h = refl

  handle_notification-unknown :
      (split : Str → Str → List Str) (path id uri : Str) (body : R.Value) (m : Manager)
      → last (split path (str "/")) ≡ some id
      → empty id ≡ false
      → lookup id m.contexts ≡ none
      → notification_event uri ≡ ok body
      → handle_notification split path body m
        ≡ throws (str "Received notification for unknown UE application " ++ id)
  unfolding handle_notification set_reference_uri
  handle_notification-unknown split path id uri body m named i unknown e =
      let (is_map, field, value) = notification_event-fields L uri body e in ground arith

  module _ (recipient : Str → Option Str) (split : Str → Str → List Str) (validate : Str → Bool)
      (problem_string : R.Value → Str) where
    no_contexts-UpToDate :
        (t : Table) (m : Manager)
        → IsConsistent (no_contexts t)
        → UpToDate L recipient split validate (no_contexts t) m
    unfolding lookup
    no_contexts-UpToDate t m v = record { consistent = v; tracks = λ c d e. absurd cc }

    -- Over a lawful REST library: a manager asks a consistent proxy without contexts for one, with a
    -- constructed `AppInfo` for an application that is offered to a client that has a router; the
    -- network carries the request to the proxy and the reply back, the IDs are fresh and not empty,
    -- and the callback leads back to the manager. Between the creation and its reply the client gets
    -- another router that is not empty, and every client that is notified replies with an error.
    -- Then the manager throws on the notification, since it does not know the application yet; the
    -- context is purged; and `contextCreate` returns, so that the manager tells the old router.
    pub context_create-early :
        (post : Str → R.Value → Outcome (ℕ × R.Value)) (answer : Notification → Answer)
        (n p v k o id uuid client router q path : Str) (info : R.Value) (apps : Applications)
        (t : Table) (m : Manager)
        → app_info_request n p v k o ≡ ok info
        → id ≢ []
        → uuid ≢ []
        → exists info apps ≡ ok true
        → IsConsistent (no_contexts t)
        → route client n t ≡ some router
        → lookup id m.contexts ≡ none
        → recipient (callback_of m id) ≡ some path
        → validate (callback_of m id) ≡ true
        → last (split path (str "/")) ≡ some id
        → Carries post (m.proxy_uri ++ str "/mx2/v1/app_contexts") uuid client apps (no_contexts t)
        → q ≢ []
        → router ≢ q
        → ((e : Notification) → is_refusal (answer e) ≡ true)
        → (req r body : R.Value) × (s s1 s2 : Routes) × (e : Notification) × (sent : List Post)
          × (m' : Manager) × (creation_request id info m ≡ ok req)
          × (handle_context_create static uuid client req (apps, no_contexts t)
              ≡ ok (record { status = 201; body = some r }, (apps, s)))
          × (associate_address client n q s ≡ ok (s1, e ∷ []))
          × (notification_event e.reference_uri ≡ ok body)
          × (handle_notification split path body m
              ≡ throws (str "Received notification for unknown UE application " ++ id))
          × (notify_clients validate (answered_by answer (e ∷ [])) s1 ≡ ok (s2, sent))
          × (context_create problem_string post id info m ≡ ok ((id, router), m'))
          × (get_reference_uri id m' ≡ ok router)
          × (route client n s2.table ≡ some q)
          × (lookup uuid s2.by_context ≡ none)
    unfolding lookup insert
    context_create-early post answer n p v k o id uuid client router q path info apps t m known i d
          offered consistent routed new mine valid named carries some_q other refuses =
        let (req, r, asked, replied, opened, u) =
          context_create-opens L recipient split validate problem_string post n p v k o id uuid
            client router info apps (no_contexts t) m known i d offered routed refl refl new
            (λ path' h. (valid, (let p : path ≡ path' = ground arith in rw (sym p) named))) carries
            (no_contexts-UpToDate t m consistent) in
        let desc : Desc = record {
          ue_app_id = id;
          callback = callback_of m id;
          client_address = client;
          app_name = n;
          edge_router = router;
        } in
        let follows = u.tracks uuid desc (lookup-head uuid desc []) in
        let told_of : notification_event q ≡ ok (R.set R.object (str "referenceURI") (R.text q)) =
          notification_event-ok q some_q in
        let at_table : router ≡ expected client n t = ground arith in
        let (is_valid, same) = app_info_request-ok L n p v k o info known in
        let changed =
          associate_address-one_context uuid router q desc t at_table is_valid.named some_q other in
        let v1 =
          associate_address-IsConsistent client n q (one_context t uuid desc router) _ _
            u.consistent changed in
        let e = notice uuid desc q in
        let (s2, sends, v2, kept, table) =
          notify_clients_lem validate (answered_by answer (e ∷ []))
            (one_context (associated desc q t) uuid desc q) ((follows.1, some_q, d), tt) v1 in
        let told =
          open_context_lem id id (record { reference_uri = router; context_id = uuid }) m new in
        (
          req,
          r,
          R.set R.object (str "referenceURI") (R.text q),
          one_context t uuid desc router,
          one_context (associated desc q t) uuid desc q,
          s2,
          e,
          _,
          _,
          asked,
          replied,
          changed,
          told_of,
          handle_notification-unknown split path id q _ m named (empty-eq-false id i) new told_of,
          sends,
          opened,
          ground (arith, told),
          rw table (route-insert client n q t),
          ground (arith, kept uuid, refuses e),
        )
