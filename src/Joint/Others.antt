-- ===== src/Joint/Others.antt =====
-- What other clients do to the proxy: a manager that is up to date stays so.
use etsimec.Prelude.{
  Bool, Str, Option, none, some, ok, List, [], Str-eq, Str-discrete, ◌≡◌, ◌≢◌, refl, arith, ◌⊎◌,
  inl, inr, Option-cases, returned, sym, ap, ◌∙◌,
}
use mathlib.Core.Path.{subst}
use etsimec.Prelude.Dict.{lookup, insert, lookup-insert}
use etsimec.Rest.{Rest}
use etsimec.Rest.Laws.{IsLawful}
use etsimec.AppContext.{context_id, associate_ue_app_id, callback_reference, make_response}
use etsimec.AppContext.Identified.{make_response-context_id}
use etsimec.LcmProxy.{Applications}
use etsimec.StaticProxy.{Desc, Contexts, Routes, find}
use etsimec.StaticProxy.Contexts.{
  register, create_routed, create_context, update_context, delete_context,
}
use etsimec.StaticProxy.Creation.{with_context}
use etsimec.StaticProxy.Invariant.{IsConsistent}
use etsimec.System.Invariant.{update_context-IsConsistent}
use etsimec.StaticProxy.Methods.{create_context-IsConsistent, delete_context_lem}
use etsimec.ContextManager.{Manager}
use etsimec.Joint.Follows.{Follows}
use etsimec.Joint.Turns.{UpToDate}

-- The contexts with one more are the new one and those that were there.
pub lookup-insert-cases :
    (c j : Str) (d e : Desc) (cs : Contexts)
    → lookup j (insert c d cs) ≡ some e
    → ((c ≡ j) × (d ≡ e)) ⊎ (lookup j cs ≡ some e)
lookup-insert-cases c j d e cs h =
    let i = lookup-insert c j d cs in
    elim (Str-discrete c j) [ yes p ↦ inl (p, ground (arith, i)) | no n ↦ inr (ground (arith, i)) ]

register-eq :
    (id : Str) (d : Desc) (s s' : Routes) → register id d s ≡ ok s' → s' ≡ with_context id d s
unfolding register
register-eq id d s s' e = ground arith

module _ ⦃R : Rest⦄ where
  open R use {Value}

  create_routed-context :
      (L : IsLawful R) (uuid client n router : Str) (req response : Value) (s s' : Routes)
      → create_routed uuid client req n router s ≡ ok (response, s')
      → (d : Desc) × (d.callback ≡ callback_reference req)
        × (s' ≡ with_context (context_id response) d s)
        × (context_id response ≢ [])
  unfolding create_routed
  create_routed-context L uuid client n router req response s s' e =
      let (r, e1, f1) = returned _ (make_response req uuid router) e in
      let (u, e2, f2) = returned _ (associate_ue_app_id req) f1 in
      let d : Desc = record {
        ue_app_id = u;
        callback = callback_reference req;
        client_address = client;
        app_name = n;
        edge_router = router;
      } in
      let (t, e3, f3) = returned _ (register (context_id r) d s) f2 in
      let (same, drawn) = make_response-context_id L req r uuid router e1 in
      let is_response : response ≡ r = ground arith in
      (
        d,
        refl,
        ground (arith, register-eq (context_id r) d s t e3),
        λ none. drawn (sym same ∙ ap context_id (sym is_response) ∙ none),
      )

  -- A creation adds a context with an ID and the callback of the request, or nothing.
  pub create_context-cases :
      (L : IsLawful R) (uuid client : Str) (req response : Value) (apps apps' : Applications)
      (s s' : Routes)
      → create_context uuid client req (apps, s) ≡ ok (response, (apps', s'))
      → (s' ≡ s)
        ⊎ ((d : Desc) × (d.callback ≡ callback_reference req)
            × (s' ≡ with_context (context_id response) d s)
            × (context_id response ≢ []))
  unfolding create_context find
  create_context-cases L uuid client req response apps apps' s s' e =
      grind (arith, create_routed-context L)

  -- An update changes the callback of a context, or nothing.
  pub update_context-cases :
      (req : Value) (done : Bool) (s s' : Routes)
      → update_context req s ≡ ok (done, s')
      → (s' ≡ s)
        ⊎ ((id : Str) × (d : Desc) × (lookup id s.by_context ≡ some d)
            × (s' ≡ record s {
              by_context = insert id (record d { callback = callback_reference req }) s.by_context;
            }))
  unfolding update_context
  update_context-cases req done s s' e =
      let (u, e1, f1) = returned _ (associate_ue_app_id req) e in
      elim (Option-cases (lookup u s.by_ue_app)) [
        | inl absent ↦ inl (ground arith)
        | inr (id, found) ↦ elim (Option-cases (lookup id s.by_context)) [
          | inl absent ↦ absurd (ground arith)
          | inr (d, there) ↦ inr (id, d, there, ground arith)
        ]
      ]

  module _ (L : IsLawful R) (recipient : Str → Option Str) (split : Str → Str → List Str)
      (validate : Str → Bool) (m : Manager) where
    -- A context of another client.
    foreign-Follows :
        (id : Str) (d : Desc)
        → id ≢ []
        → d.callback ≢ []
        → recipient d.callback ≡ none
        → Follows recipient split validate m id d
    foreign-Follows id d i k other = (i, k, λ path mine. absurd cc)

    -- A context of another client comes to the table.
    foreign-UpToDate :
        (id : Str) (d : Desc) (s s' : Routes)
        → id ≢ []
        → d.callback ≢ []
        → recipient d.callback ≡ none
        → s'.by_context ≡ insert id d s.by_context
        → IsConsistent s'
        → UpToDate L recipient split validate s m
        → UpToDate L recipient split validate s' m
    foreign-UpToDate id d s s' i k other same v u = record {
      consistent = v;
      tracks = λ c e found.
          elim (lookup-insert-cases id c d e s.by_context (ground (arith, same))) [
            | inl (p, q) ↦
                let P = Follows recipient split validate m in
                subst (λ (x : Str). P x e) p
                  (subst (λ (x : Desc). P id x) q (foreign-Follows id d i k other))
            | inr there ↦ u.tracks c e there
          ];
    }

    pub create_context-UpToDate :
        (uuid client : Str) (req response : Value) (apps apps' : Applications) (s s' : Routes)
        → callback_reference req ≢ []
        → recipient (callback_reference req) ≡ none
        → create_context uuid client req (apps, s) ≡ ok (response, (apps', s'))
        → UpToDate L recipient split validate s m
        → UpToDate L recipient split validate s' m
    create_context-UpToDate uuid client req response apps apps' s s' k other e u =
        let v =
          create_context-IsConsistent uuid client req response apps apps' s s' u.consistent e in
        elim (create_context-cases L uuid client req response apps apps' s s' e) [
          | inl same ↦ rw same u
          | inr (d, cb, same, i) ↦
              foreign-UpToDate (context_id response) d s s' i (rw cb k) (rw cb other) (rw same refl)
                v.0 u
        ]

    pub update_context-UpToDate :
        (req : Value) (done : Bool) (s s' : Routes)
        → callback_reference req ≢ []
        → recipient (callback_reference req) ≡ none
        → update_context req s ≡ ok (done, s')
        → UpToDate L recipient split validate s m
        → UpToDate L recipient split validate s' m
    update_context-UpToDate req done s s' k other e u =
        let v = update_context-IsConsistent req s s' done u.consistent e in
        elim (update_context-cases req done s s' e) [
          | inl same ↦ rw same u
          | inr (id, d, there, same) ↦
              foreign-UpToDate id (record d { callback = callback_reference req }) s s'
                (u.tracks id d there).0 k other (rw same refl) v u
        ]

    pub delete_context-UpToDate :
        (id : Str) (done : Bool) (s s' : Routes)
        → delete_context id s ≡ ok (done, s')
        → UpToDate L recipient split validate s m
        → UpToDate L recipient split validate s' m
    delete_context-UpToDate id done s s' e u =
        let (t, deleted, v, gone, same) = delete_context_lem id s u.consistent in
        let eq : s' ≡ t = ground arith in
        record { consistent = rw eq v; tracks = λ c d found. u.tracks c d (ground (arith, gone c)) }
