-- ===== src/Joint/Session/Reads.antt =====
-- In every session the manager tells its applications the routers of the table.
use etsimec.Prelude.{
  Bool, false, Str, Option, some, ok, List, [], Str-eq, ◌≡◌, ◌≢◌, arith, inl, inr, Option-cases,
  Str-discrete,
}
use etsimec.Prelude.Dict.{lookup, insert}
use etsimec.Rest.{Rest}
use etsimec.Rest.Laws.{IsLawful}
use etsimec.StaticProxy.{
  AddressAppKey-eq, key, Desc, Notification, Routes, route, associate_address,
}
use etsimec.StaticProxy.Routing.{
  Routed, reroute, notices, stranded, Routed-lookup, route-associated, route-insert,
}
use etsimec.StaticProxy.Reroute.{associate_address-reroute, route-HasRouters}
use etsimec.Notify.{Answer, Post, notify_clients}
use etsimec.ContextManager.{Manager, get_reference_uri}
use etsimec.Joint.{answered_by, deliver}
use etsimec.Joint.Turns.{UpToDate, associate_address-UpToDate}
use etsimec.Joint.Session.{Session}
use etsimec.Joint.Session.Kept.{Session-UpToDate}

-- An association that is accepted, with its notifications to come.
associate_address-routes :
    (a n router : Str) (s : Routes)
    → Routed s.table s.by_context
    → n ≢ []
    → router ≢ []
    → stranded n (insert (key a n) router s.table) s.by_context ≡ false
    → (s' : Routes) × (out : List Notification) × (associate_address a n router s ≡ ok (s', out))
      × (route a n s'.table ≡ some router)
associate_address-routes a n router s v h k q =
    let e = associate_address-reroute a n router s v in
    let t = insert (key a n) router s.table in
    elim (Option-cases (lookup (key a n) s.table)) [
      | inl absent ↦ (
        record s { table = t; by_context = reroute t s.by_context },
        notices t s.by_context,
        ground (arith, e),
        route-insert a n router s.table,
      )
      | inr (old, there) ↦ elim (Str-discrete router old) [
        | yes p ↦ (s, [], ground (arith, e), route-associated a n router s.table (ground arith))
        | no other ↦ (
          record s { table = t; by_context = reroute t s.by_context },
          notices t s.by_context,
          ground (arith, e),
          route-insert a n router s.table,
        )
      ]
    ]

module _ ⦃R : Rest⦄ (L : IsLawful R) (recipient : Str → Option Str) (split : Str → Str → List Str)
    (validate : Str → Bool) (problem_string : R.Value → Str) where
  pub UpToDate-get_reference_uri :
      (s : Routes) (m : Manager) (c router path : Str) (d : Desc)
      → UpToDate L recipient split validate s m
      → lookup c s.by_context ≡ some d
      → recipient d.callback ≡ some path
      → route d.client_address d.app_name s.table ≡ some router
      → get_reference_uri d.ue_app_id m ≡ ok router
  UpToDate-get_reference_uri s m c router path d u found mine routed =
      let some_router =
        route-HasRouters d.client_address d.app_name s.table u.consistent.has_routers router
          routed in
      let at_table = Routed-lookup c d s.table s.by_context u.consistent.routed found in
      let (i, k, f) = u.tracks c d found in
      let (valid, back, named, (uri, told, agrees)) = f path mine in
      let same : d.edge_router ≡ router = ground (arith, at_table) in
      elim agrees [ inl none_told ↦ absurd (some_router cc) | inr told_it ↦ ground arith ]

  -- Over a lawful REST library, in every session, where other clients create and update contexts only
  -- with a callback that is not empty and does not reach the manager, and the notifications of a call
  -- are all sent before the next: for a context of the proxy whose callback reaches
  -- the manager, if the table gives the context's client a router for its application, then the
  -- manager tells that router for the context's UE application.
  pub Session-get_reference_uri :
      (s : Routes) (m : Manager) (c router path : Str) (d : Desc)
      → Session recipient split validate problem_string s m
      → lookup c s.by_context ≡ some d
      → recipient d.callback ≡ some path
      → route d.client_address d.app_name s.table ≡ some router
      → get_reference_uri d.ue_app_id m ≡ ok router
  Session-get_reference_uri s m c router path d r =
      UpToDate-get_reference_uri s m c router path d
        (Session-UpToDate L recipient split validate problem_string s m r)

  -- Over a lawful REST library, in every session, where other clients create and update contexts only
  -- with a callback that is not empty and does not reach the manager, and the notifications of a call
  -- are all sent before the next: an association with a name and a router that are
  -- not empty, which leaves no context of the name without a router, returns. Its notifications are
  -- sent, whatever is answered to them, and the manager accepts those that reach it. Afterwards it
  -- tells that router for every context of that client and name whose callback reaches it.
  pub Session-associate_address :
      (answer : Notification → Answer) (a n router : Str) (s : Routes) (m : Manager)
      → Session recipient split validate problem_string s m
      → n ≢ []
      → router ≢ []
      → stranded n (insert (key a n) router s.table) s.by_context ≡ false
      → (s1 : Routes) × (out : List Notification) × (s2 : Routes) × (sent : List Post)
        × (m' : Manager) × (associate_address a n router s ≡ ok (s1, out))
        × (notify_clients validate (answered_by answer out) s1 ≡ ok (s2, sent))
        × (deliver recipient split sent m ≡ ok m')
        × ((c path : Str) (d : Desc)
            → lookup c s2.by_context ≡ some d
            → d.client_address ≡ a
            → d.app_name ≡ n
            → recipient d.callback ≡ some path
            → get_reference_uri d.ue_app_id m' ≡ ok router)
  Session-associate_address answer a n router s m r h k q =
      let u = Session-UpToDate L recipient split validate problem_string s m r in
      let (s1, out, e, routed) = associate_address-routes a n router s u.consistent.routed h k q in
      let (sent, s2, m', sends, delivered, u', same) =
        associate_address-UpToDate L recipient split validate answer a n router s s1 m out u e in
      (
        s1,
        out,
        s2,
        sent,
        m',
        e,
        sends,
        delivered,
        λ c path d found p q mine.
            UpToDate-get_reference_uri s2 m' c router path d u' found mine (rw (p, q, same) routed),
      )
