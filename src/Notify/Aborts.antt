-- ===== src/Notify/Aborts.antt =====
-- `notifyClients` of EtsiMec/staticueapplcmproxy.cpp asserts that a callback is not empty, though a
-- request need not have one.
use etsimec.Prelude.{
  Bool, false, ◌||◌, Str, empty, some, ok, aborts, List, [], ◌∷◌, ◌==◌, Str-eq, ◌≡◌, ◌≢◌, refl,
  arith, ◌⊎◌, inl, inr, Bool-cases,
}
use etsimec.Prelude.Dict.{lookup, lookup-cons-cases, insert}
use etsimec.Rest.{Rest}
use etsimec.StaticProxy.{
  AddressAppKey-eq, key, Desc, Table, Contexts, Notification, Routes, associate_address,
  same_association,
}
use etsimec.StaticProxy.Routing.{
  expected, reroute, notices, stranded, route-insert, Routed-lookup, same_association-route,
}
use etsimec.StaticProxy.Reroute.{associate_address-reroute}
use etsimec.StaticProxy.Invariant.{IsConsistent, associate_address-IsConsistent}
use etsimec.System.Invariant.{notify_one-IsConsistent}
use etsimec.Notify.Laws.{posts, notify_one_lem}
use etsimec.Notify.{Answer, Post, notify_one, notify_clients}
use etsimec.Joint.{answered_by}

-- Some notification has no callback.
abbrev pub HasSilent : List (Notification × Answer) → Type 0
HasSilent [] = ⊥
HasSilent ((e, a) ∷ es) = (e.callback ≡ []) ⊎ HasSilent es

ne_of_empty : (s : Str) → empty s ≡ false → s ≢ []
ne_of_empty [] h = absurd (ground arith)
ne_of_empty (c ∷ s) h = λ e. cc

module _ ⦃R : Rest⦄ (validate : Str → Bool) where
  notify_one-silent :
      (e : Notification) (a : Answer) (s : Routes)
      → e.callback ≡ []
      → notify_one validate e a s ≡ aborts
  unfolding notify_one
  notify_one-silent e a s h = ground arith

  -- In a consistent proxy a round returns or aborts.
  notify_one-cases :
      (e : Notification) (a : Answer) (s : Routes)
      → IsConsistent s
      → ((s' : Routes) × (sent : List Post) × (notify_one validate e a s ≡ ok (s', sent)))
        ⊎ (notify_one validate e a s ≡ aborts)
  unfolding notify_one
  notify_one-cases e a s v = elim (Bool-cases (empty e.callback)) [
    | inl silent ↦ inr (ground arith)
    | inr h ↦ elim (Bool-cases (empty e.reference_uri)) [
      | inl routerless ↦ inr (ground arith)
      | inr k ↦ elim (Bool-cases (empty e.context_id)) [
        | inl nameless ↦ inr (ground arith)
        | inr i ↦
            let (s', one, v', kept, same) =
              notify_one_lem validate e a s (ne_of_empty _ h, ne_of_empty _ k, ne_of_empty _ i) v in
            inl (s', posts validate ((e, a) ∷ []), one)
      ]
    ]
  ]

  notify_clients-silent :
      (es : List (Notification × Answer)) (s : Routes)
      → HasSilent es
      → IsConsistent s
      → notify_clients validate es s ≡ aborts
  unfolding notify_clients
  notify_clients-silent [] s h v = absurd h
  notify_clients-silent ((e, a) ∷ es) s (inl silent) v = rw (notify_one-silent e a s silent) refl
  notify_clients-silent ((e, a) ∷ es) s (inr later) v = elim (notify_one-cases e a s v) [
    | inl (s', sent, one) ↦ rw one (
        rw
          (notify_clients-silent es s' later (notify_one-IsConsistent validate e a s s' sent v one))
          refl)
    | inr now ↦ rw now refl
  ]

HasSilent-notices :
    (answer : Notification → Answer) (t : Table) (c : Str) (d : Desc) (cs : Contexts)
    → lookup c cs ≡ some d
    → d.callback ≡ []
    → (expected d.client_address d.app_name t == d.edge_router
        || empty (expected d.client_address d.app_name t))
      ≡ false
    → HasSilent (answered_by answer (notices t cs))
unfolding lookup notices
HasSilent-notices answer t c d [] e h m = absurd cc
HasSilent-notices answer t c d ((j, w) ∷ cs) e h m = elim (lookup-cons-cases j c w d cs e) [
  | inl (key_eq, same) ↦ rw same (rw m (inl h))
  | inr later ↦
      let rest = HasSilent-notices answer t c d cs later h m in
      let r = expected w.client_address w.app_name t in
      elim (Bool-cases (r == w.edge_router || empty r)) [
        | inl quiet ↦ rw quiet rest
        | inr moved ↦ rw moved (inr rest)
      ]
]

module _ ⦃R : Rest⦄ (validate : Str → Bool) (answer : Notification → Answer) where
  -- In a consistent proxy: a context without a callback whose router is changed by an association
  -- that is accepted. The call aborts the program when it notifies its clients.
  pub associate_address-silent :
      (c r : Str) (d : Desc) (s : Routes)
      → IsConsistent s
      → lookup c s.by_context ≡ some d
      → d.callback ≡ []
      → d.app_name ≢ []
      → r ≢ []
      → d.edge_router ≢ r
      → let t = insert (key d.client_address d.app_name) r s.table in
        stranded d.app_name t s.by_context ≡ false
        → (s' : Routes) × (out : List Notification) × (associate_address d.client_address d.app_name
              r s
            ≡ ok (s', out))
          × (notify_clients validate (answered_by answer out) s' ≡ aborts)
  associate_address-silent c r d s v found silent n k other q =
      let a = d.client_address in
      let t = insert (key a d.app_name) r s.table in
      let now = route-insert a d.app_name r s.table in
      let before = Routed-lookup c d s.table s.by_context v.routed found in
      let fresh : same_association r (lookup (key a d.app_name) s.table) ≡ false =
        ground (arith, same_association-route a d.app_name r s.table) in
      let e : associate_address a d.app_name r s
          ≡ ok (
            record s { table = t; by_context = reroute t s.by_context },
            notices t s.by_context,
          ) =
        ground (arith, associate_address-reroute a d.app_name r s v.routed) in
      let moved : (expected a d.app_name t == d.edge_router || empty (expected a d.app_name t))
          ≡ false =
        ground arith in
      (
        record s { table = t; by_context = reroute t s.by_context },
        notices t s.by_context,
        e,
        notify_clients-silent validate _ _
            (HasSilent-notices answer t c d s.by_context found silent moved)
            (associate_address-IsConsistent a d.app_name r s _ _ v e),
      )
