-- ===== src/StaticProxy/Index.antt =====
-- The contexts and their index under creation, update and deletion.
use etsimec.Prelude.{Str, none, some, [], ◌∷◌, Str-eq, Str-discrete, ◌≡◌, arith, length}
use etsimec.Prelude.Dict.{
  lookup, insert, erase, insert-Distinct, erase-Distinct, lookup-insert, lookup-erase,
  length-insert, length-erase,
}
use etsimec.StaticProxy.{AddressAppKey-eq, Desc, Table, Contexts, Routes}
use etsimec.StaticProxy.Routing.{Routed, expected}
use etsimec.StaticProxy.Invariant.{IsConsistent}

Routed-insert :
    (t : Table) (id : Str) (d : Desc) (cs : Contexts)
    → d.edge_router ≡ expected d.client_address d.app_name t
    → Routed t cs
    → Routed t (insert id d cs)
unfolding insert
Routed-insert t id d [] h r = (h, tt)
Routed-insert t id d ((j, w) ∷ cs) h r = ground (arith, Routed-insert t id d cs h r.1)

Routed-erase : (t : Table) (id : Str) (cs : Contexts) → Routed t cs → Routed t (erase id cs)
unfolding erase
Routed-erase t id [] r = tt
Routed-erase t id ((j, w) ∷ cs) r = ground (arith, Routed-erase t id cs r.1)

-- A new context under a new UE application.
pub add-IsConsistent :
    (id : Str) (d : Desc) (s : Routes)
    → lookup id s.by_context ≡ none
    → lookup d.ue_app_id s.by_ue_app ≡ none
    → d.edge_router ≡ expected d.client_address d.app_name s.table
    → IsConsistent s
    → IsConsistent (record s {
      by_context = insert id d s.by_context;
      by_ue_app = insert d.ue_app_id id s.by_ue_app;
    })
add-IsConsistent id d s fresh free r v = record {
  table_distinct = v.table_distinct;
  has_routers = v.has_routers;
  contexts_distinct = insert-Distinct id d s.by_context v.contexts_distinct;
  index_distinct = insert-Distinct d.ue_app_id id s.by_ue_app v.index_distinct;
  routed = Routed-insert s.table id d s.by_context r v.routed;
  indexed = λ c e h. ground (
    arith,
    lookup-insert id c d s.by_context,
    lookup-insert d.ue_app_id e.ue_app_id id s.by_ue_app,
    v.indexed c e,
  );
  denotes = λ q c e. elim (Str-discrete d.ue_app_id q) [
    | yes p ↦ (
      d,
      ground (arith, lookup-insert id c d s.by_context, lookup-insert d.ue_app_id q id s.by_ue_app),
      p,
    )
    | no n ↦
        let (d', found, same) =
          v.denotes q c (ground (arith, lookup-insert d.ue_app_id q id s.by_ue_app)) in
        (d', ground (arith, lookup-insert id c d s.by_context), same)
  ];
  sizes = omega (
    arith,
    length-insert id d s.by_context fresh,
    length-insert d.ue_app_id id s.by_ue_app free,
    v.sizes,
  );
}

-- A context goes, with the entry of its UE application.
pub drop-IsConsistent :
    (id : Str) (d : Desc) (s : Routes)
    → lookup id s.by_context ≡ some d
    → IsConsistent s
    → IsConsistent
        (record s { by_context = erase id s.by_context; by_ue_app = erase d.ue_app_id s.by_ue_app })
drop-IsConsistent id d s found v =
    let own = v.indexed id d found in
    record {
      table_distinct = v.table_distinct;
      has_routers = v.has_routers;
      contexts_distinct = erase-Distinct id s.by_context v.contexts_distinct;
      index_distinct = erase-Distinct d.ue_app_id s.by_ue_app v.index_distinct;
      routed = Routed-erase s.table id s.by_context v.routed;
      indexed = λ c e h. ground (
        arith,
        lookup-erase id c s.by_context v.contexts_distinct,
        lookup-erase d.ue_app_id e.ue_app_id s.by_ue_app v.index_distinct,
        v.indexed c e,
      );
      denotes = λ q c e.
          let erased = lookup-erase d.ue_app_id q s.by_ue_app v.index_distinct in
          let (d', there, same) = v.denotes q c (ground (arith, erased)) in
          (d', ground (arith, erased, lookup-erase id c s.by_context v.contexts_distinct), same);
      sizes = omega (
        arith,
        length-erase id s.by_context (λ e. ground arith),
        length-erase d.ue_app_id s.by_ue_app (λ e. ground arith),
        v.sizes,
      );
    }

Routed-change :
    (t : Table) (id c : Str) (d : Desc) (cs : Contexts)
    → lookup id cs ≡ some d
    → Routed t cs
    → Routed t (insert id (record d { callback = c }) cs)
unfolding lookup insert
Routed-change t id c d [] e r = cc
Routed-change t id c d ((j, w) ∷ cs) e r = ground (arith, Routed-change t id c d cs)

length-change :
    (id : Str) (d w : Desc) (cs : Contexts)
    → lookup id cs ≡ some d
    → length (insert id w cs) ≡ length cs
unfolding lookup insert
length-change id d w [] e = cc
length-change id d w ((j, x) ∷ cs) e = ground (arith, length-change id d w cs)

-- A context gets another callback.
pub change-IsConsistent :
    (id callback : Str) (d : Desc) (s : Routes)
    → lookup id s.by_context ≡ some d
    → IsConsistent s
    → IsConsistent
        (record s { by_context = insert id (record d { callback = callback }) s.by_context })
change-IsConsistent id callback d s found v =
    let d' : Desc = record d { callback = callback } in
    record {
      table_distinct = v.table_distinct;
      has_routers = v.has_routers;
      contexts_distinct = insert-Distinct id d' s.by_context v.contexts_distinct;
      index_distinct = v.index_distinct;
      routed = Routed-change s.table id callback d s.by_context found v.routed;
      indexed = λ c e h.
          ground (arith, lookup-insert id c d' s.by_context, v.indexed c e, v.indexed id d found);
      denotes = λ q c e.
          let (x, there, same) = v.denotes q c e in
          elim (Str-discrete id c) [
            | yes p ↦ (d', ground (arith, lookup-insert id c d' s.by_context), ground arith)
            | no n ↦ (x, ground (arith, lookup-insert id c d' s.by_context), same)
          ];
      sizes = omega (arith, length-change id d d' s.by_context found, v.sizes);
    }
