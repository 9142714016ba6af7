-- ===== src/Joint/Owners.antt =====
-- The contexts that a proxy has for a manager are among those that the manager has.
use etsimec.Prelude.{
  ℕ, Bool, Str, Option, some, ok, List, [], ◌∷◌, Str-eq, Str-discrete, ◌≡◌, refl, sym, ap, ◌∙◌, ◌⊎◌,
  arith, inl, inr, Option-cases, returned,
}
use etsimec.Prelude.Dict.{lookup, lookup-insert}
use etsimec.Rest.{Rest}
use etsimec.StaticProxy.{Contexts, Notification, Routes, Table}
use etsimec.StaticProxy.Routing.{reroute}
use etsimec.StaticProxy.Invariant.{IsConsistent, lookup-reroute}
use etsimec.StaticProxy.Methods.{delete_context_lem, purge-eq-delete_context}
use etsimec.System.Invariant.{notify_one-IsConsistent}
use etsimec.Notify.{Answer, Post, notify_one, notify_clients, post_event}
use etsimec.ContextManager.{Desc, Manager, open_context, set_reference_uri, handle_notification}
use etsimec.ContextManager.Laws.{handle_notification-set_reference_uri}
use etsimec.Joint.{deliver}

-- The manager has the context of the application.
abbrev Owns : (Str → Option Str) → Manager → Str → etsimec.StaticProxy.Desc → Type 0
Owns recipient m c d =
    (path : Str)
    → recipient d.callback ≡ some path
    → (e : Desc) × (lookup d.ue_app_id m.contexts ≡ some e) × (e.context_id ≡ c)

abbrev pub OwnsAll : (Str → Option Str) → Contexts → Manager → Type 0
OwnsAll recipient cs m =
    (c : Str) (d : etsimec.StaticProxy.Desc) → lookup c cs ≡ some d → Owns recipient m c d

-- The manager keeps its applications, each with its context.
abbrev pub KeepsContexts : Manager → Manager → Type 0
KeepsContexts m m' =
    (u : Str) (e : Desc)
    → lookup u m.contexts ≡ some e
    → (e' : Desc) × (lookup u m'.contexts ≡ some e') × (e'.context_id ≡ e.context_id)

-- No new contexts, and no new applications or callbacks of those.
abbrev pub Within : Contexts → Contexts → Type 0
Within cs cs' =
    (c : Str) (d' : etsimec.StaticProxy.Desc)
    → lookup c cs' ≡ some d'
    → (d : etsimec.StaticProxy.Desc) × (lookup c cs ≡ some d)
      × (d.ue_app_id ≡ d'.ue_app_id)
      × (d.callback ≡ d'.callback)

pub OwnsAll-Within :
    (recipient : Str → Option Str) (cs cs' : Contexts) (m m' : Manager)
    → Within cs cs'
    → KeepsContexts m m'
    → OwnsAll recipient cs m
    → OwnsAll recipient cs' m'
OwnsAll-Within recipient cs cs' m m' w k o c d' there path mine =
    let (d, before, u, cb) = w c d' there in
    let (e, has, same) = o c d before path (ap recipient cb ∙ mine) in
    let (e', has', same') = k d.ue_app_id e has in
    (e', ap (λ x. lookup x m'.contexts) (sym u) ∙ has', same' ∙ same)

pub Within-refl : (cs : Contexts) → Within cs cs
Within-refl cs c d there = (d, there, refl, refl)

pub KeepsContexts-refl : (m : Manager) → KeepsContexts m m
KeepsContexts-refl m u e there = (e, there, refl)

KeepsContexts-trans :
    (m m1 m2 : Manager) → KeepsContexts m m1 → KeepsContexts m1 m2 → KeepsContexts m m2
KeepsContexts-trans m m1 m2 k k' u e there =
    let (e1, t1, same1) = k u e there in let (e2, t2, same2) = k' u e1 t1 in (e2, t2, same2 ∙ same1)

pub Within-trans : (cs cs1 cs2 : Contexts) → Within cs cs1 → Within cs1 cs2 → Within cs cs2
Within-trans cs cs1 cs2 w w' c d' there =
    let (d1, t1, u1, cb1) = w' c d' there in
    let (d, t, u, cb) = w c d1 t1 in (d, t, ground arith, ground arith)

pub reroute-Within : (t : Table) (cs : Contexts) → Within cs (reroute t cs)
reroute-Within t cs c d' there = elim (Option-cases (lookup c cs)) [
  | inl absent ↦ absurd (ground (arith, lookup-reroute t cs c))
  | inr (d, found) ↦ let e = lookup-reroute t cs c in (d, found, ground arith, ground arith)
]

set_reference_uri-KeepsContexts :
    (id uri : Str) (m m' : Manager) → set_reference_uri id uri m ≡ ok m' → KeepsContexts m m'
unfolding set_reference_uri
set_reference_uri-KeepsContexts id uri m m' e u w there =
    elim (Option-cases (lookup id m.contexts)) [
      | inl absent ↦ absurd (ground arith)
      | inr (d, found) ↦
          let i = lookup-insert id u (record d { reference_uri = uri }) m.contexts in
          elim (Str-discrete id u) [
            | yes p ↦ (record d { reference_uri = uri }, ground arith, ground arith)
            | no other ↦ (w, ground arith, refl)
          ]
    ]

pub open_context-KeepsContexts :
    (id : Str) (d : Desc) (m : Manager) → KeepsContexts m (open_context id d m)
unfolding open_context
open_context-KeepsContexts id d m u e there =
    let i = lookup-insert id u d m.contexts in (e, ground arith, refl)

module _ ⦃R : Rest⦄ where
  handle_notification-KeepsContexts :
      (split : Str → Str → List Str) (path : Str) (body : R.Value) (m m' : Manager) (status : ℕ)
      → handle_notification split path body m ≡ ok (status, m')
      → KeepsContexts m m'
  handle_notification-KeepsContexts split path body m m' status e =
      let (id, uri, set, others) =
        handle_notification-set_reference_uri split path body m m' status e in
      set_reference_uri-KeepsContexts id uri m m' set

  pub deliver-KeepsContexts :
      (recipient : Str → Option Str) (split : Str → Str → List Str) (ps : List Post)
      (m m' : Manager)
      → deliver recipient split ps m ≡ ok m'
      → KeepsContexts m m'
  unfolding deliver
  deliver-KeepsContexts recipient split [] m m' e =
      let same : m ≡ m' = ground arith in rw same (KeepsContexts-refl m')
  deliver-KeepsContexts recipient split (p ∷ ps) m m' e = elim (Option-cases (recipient p.to)) [
    | inl elsewhere ↦ deliver-KeepsContexts recipient split ps m m' (rw (elsewhere, deliver) at e)
    | inr (path, mine) ↦
        let ((status, m1), e1, f1) =
          returned _ (handle_notification split path p.body m) (rw (mine, deliver) at e) in
        KeepsContexts-trans m m1 m'
          (handle_notification-KeepsContexts split path p.body m m1 status e1)
          (deliver-KeepsContexts recipient split ps m1 m' f1)
  ]

  notify_one-Within :
      (validate : Str → Bool) (n : Notification) (a : Answer) (s s' : Routes) (sent : List Post)
      → IsConsistent s
      → notify_one validate n a s ≡ ok (s', sent)
      → Within s.by_context s'.by_context
  unfolding notify_one post_event
  notify_one-Within validate n a s s' sent v e c d' there =
      let (t, deleted, v', gone, same) = delete_context_lem n.context_id s v in
      let purged = purge-eq-delete_context n.context_id s v in
      let left : (s' ≡ s) ⊎ (s' ≡ t) = ground arith in
      elim left [
        | inl kept ↦ (d', ground arith, refl, refl)
        | inr dropped ↦ let g = gone c in (d', ground arith, refl, refl)
      ]

  pub notify_clients-Within :
      (validate : Str → Bool) (es : List (Notification × Answer)) (s s' : Routes) (sent : List Post)
      → IsConsistent s
      → notify_clients validate es s ≡ ok (s', sent)
      → Within s.by_context s'.by_context
  unfolding notify_clients
  notify_clients-Within validate [] s s' sent v e =
      let same : s ≡ s' = ground arith in rw same (Within-refl s'.by_context)
  notify_clients-Within validate ((n, a) ∷ es) s s' sent v e =
      let ((s1, one), e1, f1) = returned _ (notify_one validate n a s) e in
      let ((s2, more), e2, f2) = returned _ (notify_clients validate es s1) f1 in
      let v1 = notify_one-IsConsistent validate n a s s1 one v e1 in
      let w1 = notify_one-Within validate n a s s1 one v e1 in
      let w2 = notify_clients-Within validate es s1 s2 more v1 e2 in
      let same : s2 ≡ s' = ground arith in
      rw (sym same) (Within-trans s.by_context s1.by_context s2.by_context w1 w2)
