-- ===== src/StaticProxy/Invariant.antt =====
-- The tables of the proxy stay consistent: every context has the router of the table, and the index
-- by UE application and the contexts mirror one another.
use etsimec.Prelude.{
  Str, Option, none, some, ok, List, [], ◌∷◌, Str-eq, ◌≡◌, refl, ap, arith, inl, inr, Option-cases,
  length, suc,
}
use etsimec.Prelude.Dict.{lookup, insert, erase, Distinct, insert-Distinct, erase-Distinct}
use etsimec.StaticProxy.{
  AddressAppKey-eq, key, Desc, Table, Contexts, Notification, Routes, initial, associate_address,
  remove_address,
}
use etsimec.StaticProxy.Routing.{Routed, reroute, expected, HasRouters, reroute-Routed}
use etsimec.StaticProxy.Reroute.{
  associate_address-reroute, remove_address-reroute, insert-HasRouters, erase-HasRouters,
}

-- A context of the table of contexts is the one that its UE application's entry denotes.
abbrev pub Indexed : Routes → Type 0
Indexed s =
    (c : Str) (d : Desc) → lookup c s.by_context ≡ some d → lookup d.ue_app_id s.by_ue_app ≡ some c

-- An entry of the index denotes a context of that UE application.
abbrev pub Denotes : Routes → Type 0
Denotes s =
    (u c : Str)
    → lookup u s.by_ue_app ≡ some c
    → (d : Desc) × (lookup c s.by_context ≡ some d) × (d.ue_app_id ≡ u)

pub record IsConsistent (s : Routes) : Type 0 where
  pub table_distinct : Distinct s.table
  pub has_routers : HasRouters s.table
  pub contexts_distinct : Distinct s.by_context
  pub index_distinct : Distinct s.by_ue_app
  pub routed : Routed s.table s.by_context
  pub indexed : Indexed s
  pub denotes : Denotes s
  pub sizes : length s.by_context ≡ length s.by_ue_app

pub initial-IsConsistent : IsConsistent initial
unfolding lookup
initial-IsConsistent = record {
  table_distinct = tt;
  has_routers = tt;
  contexts_distinct = tt;
  index_distinct = tt;
  routed = tt;
  indexed = λ c d e. cc;
  denotes = λ u c e. absurd (cc);
  sizes = refl;
}

abbrev at_table : Table → Desc → Desc
at_table t d = record d { edge_router = expected d.client_address d.app_name t }

abbrev at_table? : Table → Option Desc → Option Desc
at_table? t none = none
at_table? t (some d) = some (at_table t d)

pub lookup-reroute :
    (t : Table) (cs : Contexts) (c : Str) → lookup c (reroute t cs) ≡ at_table? t (lookup c cs)
unfolding lookup reroute
lookup-reroute t [] c = refl
lookup-reroute t ((id, d) ∷ cs) c = ground (arith, lookup-reroute t cs c)

reroute-Distinct : (t : Table) (cs : Contexts) → Distinct cs → Distinct (reroute t cs)
unfolding reroute
reroute-Distinct t [] u = tt
reroute-Distinct t ((id, d) ∷ cs) (fresh, u) =
    (rw (lookup-reroute t cs id, fresh) refl, reroute-Distinct t cs u)

length-reroute : (t : Table) (cs : Contexts) → length (reroute t cs) ≡ length cs
unfolding reroute
length-reroute t [] = refl
length-reroute t ((id, d) ∷ cs) = ap suc (length-reroute t cs)

-- Any new table with its contexts recomputed.
pub reroute-IsConsistent :
    (t : Table) (s : Routes)
    → Distinct t
    → HasRouters t
    → IsConsistent s
    → IsConsistent (record s { table = t; by_context = reroute t s.by_context })
reroute-IsConsistent t s u k v = record {
  table_distinct = u;
  has_routers = k;
  contexts_distinct = reroute-Distinct t s.by_context v.contexts_distinct;
  index_distinct = v.index_distinct;
  routed = reroute-Routed t s.by_context;
  indexed = λ c d e. elim (Option-cases (lookup c s.by_context)) [
    | inl absent ↦ absurd (ground (arith, lookup-reroute t s.by_context c))
    | inr (d', found) ↦ ground (arith, lookup-reroute t s.by_context c, v.indexed c d' found)
  ];
  denotes = λ q c e.
      let (d, found, same) = v.denotes q c e in
      (at_table t d, rw (lookup-reroute t s.by_context c, found) refl, same);
  sizes = rw (length-reroute t s.by_context) v.sizes;
}

-- Neither call of the table breaks consistency, whatever it returns.
pub associate_address-IsConsistent :
    (a n router : Str) (s s' : Routes) (out : List Notification)
    → IsConsistent s
    → associate_address a n router s ≡ ok (s', out)
    → IsConsistent s'
associate_address-IsConsistent a n router s s' out v e =
    let t = insert (key a n) router s.table in
    ground (
      arith,
      associate_address-reroute a n router s v.routed,
      reroute-IsConsistent t s (insert-Distinct (key a n) router s.table v.table_distinct),
      insert-HasRouters (key a n) router s.table,
    )

pub remove_address-IsConsistent :
    (a n : Str) (s s' : Routes) (out : List Notification)
    → IsConsistent s
    → remove_address a n s ≡ ok (s', out)
    → IsConsistent s'
remove_address-IsConsistent a n s s' out v e =
    let t = erase (key a n) s.table in
    ground (
      arith,
      remove_address-reroute a n s v.table_distinct v.has_routers v.routed,
      reroute-IsConsistent t s (erase-Distinct (key a n) s.table v.table_distinct)
          (erase-HasRouters (key a n) s.table v.has_routers) v,
    )
