-- ===== src/StaticProxy/Routing.antt =====
-- The loops of `associateAddress` and `removeAddress` against a recomputation of every context.
use etsimec.Prelude.{
  Bool, true, false, ◌||◌, ◌&&◌, Str, empty, Option, none, some, ok, aborts, List, [], ◌∷◌,
  if◌then◌else◌, ◌==◌, Str-eq, ◌≡◌, ◌≢◌, refl, arith, ◌⊎◌, inl, inr, Option-cases,
}
use etsimec.Prelude.Dict.{lookup, insert, erase, Distinct, lookup-insert, lookup-erase}
use etsimec.StaticProxy.{
  same_association, AddressAppKey-eq, key, Desc, Table, Contexts, Notification, route, find,
  visit_associated, visit_removed,
}

-- The router that the table gives to a client of an application, empty if none.
abbrev pub or_empty : Option Str → Str
or_empty none = []
or_empty (some r) = r

abbrev pub expected : Str → Str → Table → Str
expected a n t = or_empty (route a n t)

-- Every context has the router that the table gives to its client and application.
abbrev pub Routed : Table → Contexts → Type 0
Routed t [] = Unit
Routed t ((id, d) ∷ cs) = (d.edge_router ≡ expected d.client_address d.app_name t) × Routed t cs

-- All contexts, each with the router of the table.
unfoldable pub reroute : Table → Contexts → Contexts
reroute t [] = []
reroute t ((id, d) ∷ cs) =
    (id, record d { edge_router = expected d.client_address d.app_name t }) ∷ reroute t cs

-- One notification for each context whose router becomes another, in the order of the contexts.
unfoldable pub notices : Table → Contexts → List Notification
notices t [] = []
notices t ((id, d) ∷ cs) =
    let r = expected d.client_address d.app_name t in
    let rest = notices t cs in
    if r == d.edge_router || empty r
    then rest
    else record { callback = d.callback; reference_uri = r; context_id = id } ∷ rest

-- Some context of the application has no router in the table.
unfoldable pub stranded : Str → Table → Contexts → Bool
stranded n t [] = false
stranded n t ((id, d) ∷ cs) =
    (d.app_name == n && elim (route d.client_address d.app_name t) [ none ↦ true | some r ↦ false ])
    || stranded n t cs

abbrev pub HasRouters : Table → Type 0
HasRouters [] = Unit
HasRouters ((k, r) ∷ t) = (r ≢ []) × HasRouters t

pub reroute-Routed : (t : Table) (cs : Contexts) → Routed t (reroute t cs)
unfolding reroute
reroute-Routed t [] = tt
reroute-Routed t ((id, d) ∷ cs) = (refl, reroute-Routed t cs)

pub reroute-eq : (t : Table) (cs : Contexts) → Routed t cs → reroute t cs ≡ cs
unfolding reroute
reroute-eq t [] h = refl
reroute-eq t ((id, d) ∷ cs) h = ground (arith, reroute-eq t cs h.1)

route-insert_other :
    (a n r c m : Str) (t : Table) → m ≢ n → route c m (insert (key a n) r t) ≡ route c m t
unfolding route
route-insert_other a n r c m t h =
    ground (arith, lookup-insert (key a n) (key c m) r t, lookup-insert (key a n) (key [] m) r t)

route-insert_same :
    (a n r c : Str) (t : Table)
    → (route c n (insert (key a n) r t) ≡ some r) ⊎ (route c n (insert (key a n) r t) ≡ route c n t)
unfolding route
route-insert_same a n r c t =
    ground (arith, lookup-insert (key a n) (key c n) r t, lookup-insert (key a n) (key [] n) r t)

route-erase_other :
    (a n c m : Str) (t : Table) → Distinct t → m ≢ n → route c m (erase (key a n) t) ≡ route c m t
unfolding route
route-erase_other a n c m t u h =
    ground (arith, lookup-erase (key a n) (key c m) t u, lookup-erase (key a n) (key [] m) t u)

-- The spec of one round of a loop: what happens to a context under the new table.
abbrev pub rerouted : Table → Str → Desc → Desc × List Notification
rerouted t id d =
    let r = expected d.client_address d.app_name t in
    (
      record d { edge_router = r },
      if r == d.edge_router || empty r
          then []
          else record { callback = d.callback; reference_uri = r; context_id = id } ∷ [],
    )

pub visit_associated_lem :
    (a n router : Str) (t : Table) (id : Str) (d : Desc)
    → n ≢ []
    → router ≢ []
    → d.edge_router ≡ expected d.client_address d.app_name t
    → let t' = insert (key a n) router t in
      visit_associated n router t' id d ≡ (
        if d.app_name == n
          && elim (route d.client_address d.app_name t') [ none ↦ true | some r ↦ false ]
        then aborts
        else ok (rerouted t' id d))
unfolding visit_associated find
visit_associated_lem a n router t id d h k e = ground (
  arith,
  route-insert_other a n router d.client_address d.app_name t,
  route-insert_same a n router d.client_address t,
)

pub visit_removed_lem :
    (a n : Str) (t : Table) (id : Str) (d : Desc)
    → n ≢ []
    → Distinct t
    → ((r : Str) → route d.client_address n (erase (key a n) t) ≡ some r → r ≢ [])
    → d.edge_router ≡ expected d.client_address d.app_name t
    → visit_removed n (erase (key a n) t) id d ≡ ok (rerouted (erase (key a n) t) id d)
unfolding visit_removed find
visit_removed_lem a n t id d h u k e =
    elim (Option-cases (route d.client_address n (erase (key a n) t))) [
      | inl stray ↦ ground (arith, route-erase_other a n d.client_address d.app_name t u)
      | inr (r, found) ↦ ground (arith, k r, route-erase_other a n d.client_address d.app_name t u)
    ]

pub route-insert_elsewhere :
    (b n r c : Str) (t : Table) → b ≢ [] → b ≢ c → route c n (insert (key b n) r t) ≡ route c n t
unfolding route
route-insert_elsewhere b n r c t h k =
    ground (arith, lookup-insert (key b n) (key c n) r t, lookup-insert (key b n) (key [] n) r t)

pub Routed-lookup :
    (c : Str) (d : Desc) (t : Table) (cs : Contexts)
    → Routed t cs
    → lookup c cs ≡ some d
    → d.edge_router ≡ expected d.client_address d.app_name t
unfolding lookup
Routed-lookup c d t [] h e = cc
Routed-lookup c d t ((j, w) ∷ cs) h e = ground (arith, Routed-lookup c d t cs)

pub route-associated :
    (a n router : Str) (t : Table) → lookup (key a n) t ≡ some router → route a n t ≡ some router
unfolding route
route-associated a n router t e = ground arith

pub route-insert :
    (a n router : Str) (t : Table) → route a n (insert (key a n) router t) ≡ some router
route-insert a n router t =
    route-associated a n router (insert (key a n) router t)
      (ground (arith, lookup-insert (key a n) (key a n) router t))

pub same_association-route :
    (a n router : Str) (t : Table)
    → same_association router (lookup (key a n) t) ≡ true
    → route a n t ≡ some router
same_association-route a n router t h = elim (Option-cases (lookup (key a n) t)) [
  | inl absent ↦ absurd (ground arith)
  | inr (old, there) ↦ route-associated a n router t (ground arith)
]
