-- ===== src/Joint/Turns.antt =====
-- A change of the table, with all its notifications delivered: the clients are up to date again.
use etsimec.Prelude.{
  Bool, ◌||◌, Str, empty, Option, ok, List, [], ◌∷◌, ◌==◌, Str-eq, ◌≡◌, ◌≢◌, refl, arith, ◌⊎◌, inl,
  inr, Bool-cases,
}
use etsimec.Prelude.Dict.{insert, erase}
use etsimec.Rest.{Rest}
use etsimec.Rest.Laws.{IsLawful}
use etsimec.StaticProxy.{
  AddressAppKey-eq, key, Desc, Table, Contexts, Notification, Routes, associate_address,
  remove_address,
}
use etsimec.StaticProxy.Routing.{expected, reroute, notices}
use etsimec.StaticProxy.Reroute.{associate_address-reroute, remove_address-reroute}
use etsimec.StaticProxy.Invariant.{
  IsConsistent, associate_address-IsConsistent, remove_address-IsConsistent,
}
use etsimec.Notify.{Answer, Post, notify_clients}
use etsimec.Notify.Laws.{AllComplete, posts, notify_clients_lem}
use etsimec.ContextManager.{Manager}
use etsimec.Joint.{answered_by, deliver}
use etsimec.Joint.Follows.{Follows, Tracks, All, All-lookup, lookup-All, IsConsistent-OneEach}
use etsimec.Joint.Deliver.{notified_ne, deliver-notices}

-- The contexts can be notified.
notices-AllComplete :
    (answer : Notification → Answer) (P : Str → Desc → Type 0) (t : Table) (cs : Contexts)
    → ((id : Str) (d : Desc) → P id d → (id ≢ []) × (d.callback ≢ []))
    → All P cs
    → AllComplete (answered_by answer (notices t cs))
unfolding notices
notices-AllComplete answer P t [] f h = tt
notices-AllComplete answer P t ((id, d) ∷ cs) f (p, h) =
    let r = expected d.client_address d.app_name t in
    let rest = notices-AllComplete answer P t cs f h in
    let (a, b) = f id d p in
    elim (Bool-cases (r == d.edge_router || empty r)) [
      | inl quiet ↦ rw quiet rest
      | inr moved ↦ rw moved ((b, notified_ne r d.edge_router moved, a), rest)
    ]

-- What the calls that change the table leave, and the notifications that they make.
pub associate_address-cases :
    (a n router : Str) (s s' : Routes) (out : List Notification)
    → IsConsistent s
    → associate_address a n router s ≡ ok (s', out)
    → let t = insert (key a n) router s.table in
      ((s' ≡ s) × (out ≡ []))
      ⊎ ((s' ≡ record s { table = t; by_context = reroute t s.by_context })
          × (out ≡ notices t s.by_context))
associate_address-cases a n router s s' out v e =
    let f = associate_address-reroute a n router s v.routed in ground arith

pub remove_address-cases :
    (a n : Str) (s s' : Routes) (out : List Notification)
    → IsConsistent s
    → remove_address a n s ≡ ok (s', out)
    → let t = erase (key a n) s.table in
      (s' ≡ record s { table = t; by_context = reroute t s.by_context })
      × (out ≡ notices t s.by_context)
remove_address-cases a n s s' out v e =
    let f = remove_address-reroute a n s v.table_distinct v.has_routers v.routed in ground arith

module _ ⦃R : Rest⦄ (L : IsLawful R) (recipient : Str → Option Str) (split : Str → Str → List Str)
    (validate : Str → Bool) where
  -- The proxy is consistent, and the manager is up to date with it.
  pub record UpToDate (s : Routes) (m : Manager) : Type 0 where
    pub consistent : IsConsistent s
    pub tracks : Tracks recipient split validate m s

  -- What becomes of the notifications of a call: the proxy sends them, whatever is answered, and the
  -- manager accepts those that reach it.
  abbrev pub Settles : (Notification → Answer) → Routes → List Notification → Manager → Type 0
  Settles answer s out m =
      (sent : List Post) × (s' : Routes) × (m' : Manager) × (notify_clients validate
          (answered_by answer out) s
        ≡ ok (s', sent))
      × (deliver recipient split sent m ≡ ok m')
      × UpToDate s' m'
      × (s'.table ≡ s.table)

  settle_notices :
      (answer : Notification → Answer) (t : Table) (s : Routes) (m : Manager)
      → UpToDate s m
      → let s1 = record s { table = t; by_context = reroute t s.by_context } in
        IsConsistent s1 → Settles answer s1 (notices t s.by_context) m
  settle_notices answer t s m u v1 =
      let P = Follows recipient split validate m in
      let follows = All-lookup P s.by_context u.consistent.contexts_distinct u.tracks in
      let complete = notices-AllComplete answer P t s.by_context (λ id d p. (p.0, p.1)) follows in
      let es = answered_by answer (notices t s.by_context) in
      let s1 : Routes = record s { table = t; by_context = reroute t s.by_context } in
      let (s2, sent, v2, kept, same) = notify_clients_lem validate es s1 complete v1 in
      let (m', delivered, follows', others) =
        deliver-notices L recipient split validate answer t s.by_context m follows
          (IsConsistent-OneEach s u.consistent) in
      (
        posts validate es,
        s2,
        m',
        sent,
        delivered,
        record {
          consistent = v2;
          tracks = λ c d e.
              lookup-All (Follows recipient split validate m') (reroute t s.by_context) follows' c d
                (ground (arith, kept c));
        },
        same,
      )

  settle_quiet :
      (answer : Notification → Answer) (s : Routes) (m : Manager)
      → UpToDate s m
      → Settles answer s [] m
  unfolding notify_clients deliver
  settle_quiet answer s m u = ([], s, m, refl, refl, u, refl)

  -- A call of `associateAddress` that returns, and its notifications.
  pub associate_address-UpToDate :
      (answer : Notification → Answer) (a n router : Str) (s s' : Routes) (m : Manager)
      (out : List Notification)
      → UpToDate s m
      → associate_address a n router s ≡ ok (s', out)
      → Settles answer s' out m
  associate_address-UpToDate answer a n router s s' m out u e =
      let v = associate_address-IsConsistent a n router s s' out u.consistent e in
      elim (associate_address-cases a n router s s' out u.consistent e) [
        | inl (p, q) ↦ rw (p, q) (settle_quiet answer s m u)
        | inr (p, q) ↦
            rw (p, q) (settle_notices answer (insert (key a n) router s.table) s m u (rw p at v))
      ]

  -- A call of `removeAddress` that returns, and its notifications.
  pub remove_address-UpToDate :
      (answer : Notification → Answer) (a n : Str) (s s' : Routes) (m : Manager)
      (out : List Notification)
      → UpToDate s m
      → remove_address a n s ≡ ok (s', out)
      → Settles answer s' out m
  remove_address-UpToDate answer a n s s' m out u e =
      let (p, q) = remove_address-cases a n s s' out u.consistent e in
      let v = remove_address-IsConsistent a n s s' out u.consistent e in
      rw (p, q) (settle_notices answer (erase (key a n) s.table) s m u (rw p at v))
