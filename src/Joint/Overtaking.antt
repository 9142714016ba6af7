-- ===== src/Joint/Overtaking.antt =====
-- `notifyClients` holds no mutex, so the notifications of a change may be sent after those of a later
-- one. A client then keeps the router of the earlier change.
use etsimec.Prelude.{
  Bool, true, false, Str, Option, some, ok, List, [], ◌∷◌, ◌++◌, Str-eq, ◌≡◌, ◌≢◌, arith, inl, inr,
  ◌∙◌,
}
use etsimec.Prelude.Dict.{lookup, insert}
use etsimec.Rest.{Rest}
use etsimec.Rest.Laws.{IsLawful}
use etsimec.StaticProxy.{
  AddressAppKey-eq, key, Desc, Table, Notification, Routes, route, associate_address,
  same_association,
}
use etsimec.StaticProxy.Routing.{
  expected, reroute, notices, stranded, route-insert, same_association-route,
}
use etsimec.StaticProxy.Reroute.{associate_address-reroute}
use etsimec.StaticProxy.Invariant.{associate_address-IsConsistent}
use etsimec.Notify.{Answer, Post, notify_clients}
use etsimec.Notify.Laws.{posts, notify_clients_lem}
use etsimec.ContextManager.{Manager, get_reference_uri}
use etsimec.Joint.{answered_by, deliver}
use etsimec.Joint.Follows.{Follows, lookup-head}
use etsimec.Joint.Deliver.{deliver_one, deliver-nil}
use etsimec.Joint.Turns.{UpToDate}

-- A proxy with one context, that of a router.
abbrev pub one_context : Table → Str → Desc → Str → Routes
one_context t c d r = record {
  table = t;
  by_context = (c, record d { edge_router = r }) ∷ [];
  by_ue_app = (d.ue_app_id, c) ∷ [];
}

abbrev pub notice : Str → Desc → Str → Notification
notice c d r = record { callback = d.callback; reference_uri = r; context_id = c }

abbrev pub associated : Desc → Str → Table → Table
associated d r t = insert (key d.client_address d.app_name) r t

-- A new router for the only context.
pub associate_address-one_context :
    (c old r : Str) (d : Desc) (t : Table)
    → old ≡ expected d.client_address d.app_name t
    → d.app_name ≢ []
    → r ≢ []
    → old ≢ r
    → associate_address d.client_address d.app_name r (one_context t c d old)
      ≡ ok (one_context (associated d r t) c d r, notice c d r ∷ [])
unfolding notices reroute stranded
associate_address-one_context c old r d t v h k other =
    let e =
      associate_address-reroute d.client_address d.app_name r (one_context t c d old) (v, tt) in
    let now = route-insert d.client_address d.app_name r t in
    let same = same_association-route d.client_address d.app_name r t in
    let fresh : same_association r (lookup (key d.client_address d.app_name) t) ≡ false =
      ground arith in
    ground arith

module _ ⦃R : Rest⦄ (L : IsLawful R) (recipient : Str → Option Str) (split : Str → Str → List Str)
    (validate : Str → Bool) where
  posts-two :
      (e f : Notification) (a b : Answer)
      → validate e.callback ≡ true
      → posts validate ((e, a) ∷ []) ++ posts validate ((f, b) ∷ [])
        ≡ posts validate ((e, a) ∷ (f, b) ∷ [])
  unfolding posts
  posts-two e f a b h = ground arith

  -- Two notifications of one context, delivered one after the other: the manager tells the latter.
  deliver-two :
      (c r q : Str) (d : Desc) (a b : Answer) (m : Manager) (path : Str)
      → r ≢ []
      → q ≢ []
      → recipient d.callback ≡ some path
      → Follows recipient split validate m c d
      → (m' : Manager) × (deliver recipient split
            (posts validate ((notice c d r, a) ∷ []) ++ posts validate ((notice c d q, b) ∷ []))
            m
          ≡ ok m')
        × (get_reference_uri d.ue_app_id m' ≡ ok q)
  deliver-two c r q d a b m path h k mine f =
      let (m1, one, f1, others) = deliver_one L recipient split validate c r d m h f in
      let (m2, two, f2, others') =
        deliver_one L recipient split validate c q (record d { edge_router = r }) m1 k f1 in
      let (valid, back, named, (uri, told, agrees)) = f2.2 path mine in
      (
        m2,
        rw (posts-two (notice c d r) (notice c d q) a b valid)
            (one a ((notice c d q, b) ∷ []) ∙ two b [] ∙ deliver-nil L recipient split validate m2),
        elim agrees [ inl empty_router ↦ absurd (k empty_router) | inr same ↦ rw same at told ],
      )

  -- Over a lawful REST library: a proxy has one context, whose callback reaches a manager that is
  -- up to date with it. Its router is changed to `r` and then to `q`, each time to another one that
  -- is not empty, and the second change is notified before the first. All calls return and all
  -- notifications are accepted; afterwards the table gives `q`, and the manager tells `r`.
  pub associate_address-overtaken :
      (answer : Notification → Answer) (t : Table) (c old r q path : Str) (d : Desc) (m : Manager)
      → UpToDate L recipient split validate (one_context t c d old) m
      → recipient d.callback ≡ some path
      → d.app_name ≢ []
      → r ≢ []
      → q ≢ []
      → old ≢ r
      → r ≢ q
      → (s1 s2 s3 s4 : Routes) × (out1 out2 : List Notification) × (sent1 sent2 : List Post)
        × (m' : Manager) × (associate_address d.client_address d.app_name r (one_context t c d old)
            ≡ ok (s1, out1))
        × (associate_address d.client_address d.app_name q s1 ≡ ok (s2, out2))
        × (notify_clients validate (answered_by answer out2) s2 ≡ ok (s3, sent2))
        × (notify_clients validate (answered_by answer out1) s3 ≡ ok (s4, sent1))
        × (deliver recipient split (sent2 ++ sent1) m ≡ ok m')
        × (route d.client_address d.app_name s4.table ≡ some q)
        × (get_reference_uri d.ue_app_id m' ≡ ok r)
  associate_address-overtaken answer t c old r q path d m u mine n h k new other =
      let a0 = d.client_address in
      let n0 = d.app_name in
      let d0 : Desc = record d { edge_router = old } in
      let t1 = associated d r t in
      let t2 = associated d q t1 in
      let s1 = one_context t1 c d r in
      let s2 = one_context t2 c d q in
      let first = associate_address-one_context c old r d t u.consistent.routed.0 n h new in
      let between = route-insert a0 n0 r t in
      let second = associate_address-one_context c r q d t1 (ground (arith, between)) n k other in
      let v1 =
        associate_address-IsConsistent a0 n0 r (one_context t c d old) s1 _ u.consistent first in
      let v2 = associate_address-IsConsistent a0 n0 q s1 s2 _ v1 second in
      let f0 = u.tracks c d0 (lookup-head c d0 []) in
      let later = answered_by answer (notice c d q ∷ []) in
      let earlier = answered_by answer (notice c d r ∷ []) in
      let (s3, sends2, v3, kept2, same3) =
        notify_clients_lem validate later s2 ((f0.1, k, f0.0), tt) v2 in
      let (s4, sends1, v4, kept1, same4) =
        notify_clients_lem validate earlier s3 ((f0.1, h, f0.0), tt) v3 in
      let (m', delivered, told) =
        deliver-two c q r d0 (answer (notice c d q)) (answer (notice c d r)) m path k h mine f0 in
      (
        s1,
        s2,
        s3,
        s4,
        notice c d r ∷ [],
        notice c d q ∷ [],
        posts validate earlier,
        posts validate later,
        m',
        first,
        second,
        sends2,
        sends1,
        delivered,
        rw (same4 ∙ same3) (route-insert a0 n0 q t1),
        told,
      )
