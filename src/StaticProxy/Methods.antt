-- ===== src/StaticProxy/Methods.antt =====
-- The methods on contexts, in a consistent proxy.
use etsimec.Prelude.{
  Bool, true, false, Str, Option, none, some, ok, if◌then◌else◌, ◌==◌, Str-eq, ◌≡◌, refl, arith,
  inl, inr, Option-cases, length, returned,
}
use etsimec.Prelude.Dict.{lookup, insert, erase, lookup-insert, lookup-erase, erase-insert_absent}
use etsimec.Rest.{Rest}
use etsimec.AppContext.{context_id, associate_ue_app_id, callback_reference, make_response}
use etsimec.LcmProxy.{Applications}
use etsimec.StaticProxy.{Desc, Routes, route, find, num_contexts}
use etsimec.StaticProxy.Contexts.{
  create_routed, register, delete_context, purge, create_context, update_context,
}
use etsimec.StaticProxy.Routing.{expected}
use etsimec.StaticProxy.Invariant.{IsConsistent}
use etsimec.StaticProxy.Index.{add-IsConsistent, drop-IsConsistent, change-IsConsistent}

abbrev pub is_present {ℓ} : {A : Type ℓ} → Option A → Bool
is_present none = false
is_present (some a) = true

register-IsConsistent :
    (id : Str) (d : Desc) (s s' : Routes)
    → d.edge_router ≡ expected d.client_address d.app_name s.table
    → IsConsistent s
    → register id d s ≡ ok s'
    → IsConsistent s'
unfolding register
register-IsConsistent id d s s' r v e = ground (arith, add-IsConsistent id d s)

-- In a consistent proxy a deletion never aborts. It answers whether the context was there, and
-- afterwards the context is gone and every other one is as it was.
pub delete_context_lem :
    (id : Str) (s : Routes)
    → IsConsistent s
    → (s' : Routes) × (delete_context id s ≡ ok (is_present (lookup id s.by_context), s'))
      × IsConsistent s'
      × ((c : Str) → lookup c s'.by_context ≡ (if id == c then none else lookup c s.by_context))
      × (s'.table ≡ s.table)
unfolding delete_context
delete_context_lem id s v = elim (Option-cases (lookup id s.by_context)) [
  | inl absent ↦ (s, ground arith, v, λ c. ground arith, refl)
  | inr (d, found) ↦ (
    record s { by_context = erase id s.by_context; by_ue_app = erase d.ue_app_id s.by_ue_app },
    ground (arith, v.indexed id d found),
    drop-IsConsistent id d s found v,
    λ c. lookup-erase id c s.by_context v.contexts_distinct,
    refl,
  )
]

-- `purge` does what `deleteContext` does: its further assert, on the sizes, never fails.
pub purge-eq-delete_context :
    (id : Str) (s : Routes) → IsConsistent s → purge id s ≡ delete_context id s
unfolding purge delete_context
purge-eq-delete_context id s v = elim (Option-cases (lookup id s.by_context)) [
  | inl absent ↦ ground arith
  | inr (d, found) ↦ ground (arith, v.indexed id d found, (drop-IsConsistent id d s found v).sizes)
]

-- The assert of `numContexts` holds, and the call counts the contexts.
num_contexts-IsConsistent :
    (s : Routes) → IsConsistent s → num_contexts s ≡ ok (length s.by_context)
unfolding num_contexts
num_contexts-IsConsistent s v = ground (arith, v.sizes)

-- Deleting the context just registered gives back the proxy as it was.
pub delete_context-register :
    (id : Str) (d : Desc) (s s' : Routes)
    → register id d s ≡ ok s'
    → delete_context id s' ≡ ok (true, s)
unfolding register delete_context
delete_context-register id d s s' e = ground (
  arith,
  lookup-insert id id d s.by_context,
  lookup-insert d.ue_app_id d.ue_app_id id s.by_ue_app,
  erase-insert_absent id d s.by_context,
  erase-insert_absent d.ue_app_id id s.by_ue_app,
)

module _ ⦃R : Rest⦄ where
  open R use {Value}

  create_routed-IsConsistent :
      (uuid client n router : Str) (req response : Value) (s s' : Routes)
      → route client n s.table ≡ some router
      → IsConsistent s
      → create_routed uuid client req n router s ≡ ok (response, s')
      → IsConsistent s'
  unfolding create_routed
  create_routed-IsConsistent uuid client n router req response s s' found v e =
      let (r, e1, f1) = returned _ (make_response req uuid router) e in
      let (u, e2, f2) = returned _ (associate_ue_app_id req) f1 in
      let d : Desc = record {
        ue_app_id = u;
        callback = callback_reference req;
        client_address = client;
        app_name = n;
        edge_router = router;
      } in
      let (t, e3, f3) = returned _ (register (context_id r) d s) f2 in
      ground (arith, register-IsConsistent (context_id r) d s t (ground arith) v e3)

  -- Whatever the request, a creation that returns leaves the applications alone and the tables
  -- consistent.
  pub create_context-IsConsistent :
      (uuid client : Str) (req response : Value) (apps apps' : Applications) (s s' : Routes)
      → IsConsistent s
      → create_context uuid client req (apps, s) ≡ ok (response, (apps', s'))
      → IsConsistent s' × (apps' ≡ apps)
  unfolding create_context find
  create_context-IsConsistent uuid client req response apps apps' s s' v e =
      grind (arith, create_routed-IsConsistent)

  -- An update that finds the UE application changes the callback of its context, and nothing else;
  -- it never meets a dangling iterator.
  pub update_context_lem :
      (req : Value) (s : Routes) (u : Str)
      → IsConsistent s
      → associate_ue_app_id req ≡ ok u
      → (s' : Routes) × (update_context req s ≡ ok (is_present (lookup u s.by_ue_app), s'))
        × IsConsistent s'
        × ((c : Str) (d : Desc)
            → lookup c s.by_context ≡ some d
            → lookup c s'.by_context
              ≡ some
                  (if d.ue_app_id == u then record d { callback = callback_reference req } else d))
        × (s'.by_ue_app ≡ s.by_ue_app)
  unfolding update_context
  update_context_lem req s u v e = elim (Option-cases (lookup u s.by_ue_app)) [
    | inl absent ↦ (s, ground arith, v, λ c d h. ground (arith, v.indexed c d h), refl)
    | inr (id, found) ↦
        let (d, there, same) = v.denotes u id found in
        let d' : Desc = record d { callback = callback_reference req } in
        (
          record s { by_context = insert id d' s.by_context },
          ground arith,
          change-IsConsistent id (callback_reference req) d s there v,
          λ c x h. ground (arith, lookup-insert id c d' s.by_context, v.indexed c x h),
          refl,
        )
  ]
