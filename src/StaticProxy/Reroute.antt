-- ===== src/StaticProxy/Reroute.antt =====
-- `associateAddress` and `removeAddress` bring every context up to date with the new table.
use etsimec.Prelude.{
  Str, str, some, none, true, ok, throws, aborts, [], ◌∷◌, if◌then◌else◌, ◌==◌, Str-eq, ◌≡◌, ◌≢◌,
  refl, arith,
}
use etsimec.Prelude.Dict.{lookup, insert, erase, Distinct}
use etsimec.StaticProxy.{
  AddressAppKey, AddressAppKey-eq, key, Desc, Table, Contexts, Routes, route, visit_associated,
  visit_removed, visit_all, same_association, associate_address, remove_address,
}
use etsimec.StaticProxy.Routing.{
  Routed, reroute, notices, stranded, HasRouters, visit_associated_lem, visit_removed_lem,
  route-insert_elsewhere,
}

visit_all-associated :
    (a n router : Str) (t : Table) (cs : Contexts)
    → n ≢ []
    → router ≢ []
    → Routed t cs
    → let t' = insert (key a n) router t in
      visit_all (visit_associated n router t') cs
      ≡ (if stranded n t' cs then aborts else ok (reroute t' cs, notices t' cs))
unfolding visit_all stranded reroute notices
visit_all-associated a n router t [] h k e = refl
visit_all-associated a n router t ((id, d) ∷ cs) h k e =
    rw
      (visit_associated_lem a n router t id d h k e.0, visit_all-associated a n router t cs h k e.1)
      (ground arith)

lookup-HasRouters :
    (k : AddressAppKey) (t : Table) → HasRouters t → (r : Str) → lookup k t ≡ some r → r ≢ []
unfolding lookup
lookup-HasRouters k [] h r e = cc
lookup-HasRouters k ((j, q) ∷ t) h r e = ground (arith, lookup-HasRouters k t h.1 r)

pub route-HasRouters :
    (c n : Str) (t : Table) → HasRouters t → (r : Str) → route c n t ≡ some r → r ≢ []
unfolding route
route-HasRouters c n t h r e =
    ground (arith, lookup-HasRouters (key c n) t h r, lookup-HasRouters (key [] n) t h r)

pub insert-HasRouters :
    (k : AddressAppKey) (r : Str) (t : Table) → r ≢ [] → HasRouters t → HasRouters (insert k r t)
unfolding insert
insert-HasRouters k r [] n h = (n, tt)
insert-HasRouters k r ((j, q) ∷ t) n h = ground (arith, insert-HasRouters k r t n h.1)

pub erase-HasRouters : (k : AddressAppKey) (t : Table) → HasRouters t → HasRouters (erase k t)
unfolding erase
erase-HasRouters k [] h = tt
erase-HasRouters k ((j, q) ∷ t) h = ground (arith, erase-HasRouters k t h.1)

visit_all-removed :
    (a n : Str) (t : Table) (cs : Contexts)
    → n ≢ []
    → Distinct t
    → HasRouters t
    → Routed t cs
    → let t' = erase (key a n) t in
      visit_all (visit_removed n t') cs ≡ ok (reroute t' cs, notices t' cs)
unfolding visit_all reroute notices
visit_all-removed a n t [] h u k e = refl
visit_all-removed a n t ((id, d) ∷ cs) h u k e =
    rw
      (
        visit_removed_lem a n t id d h u
            (route-HasRouters d.client_address n _ (erase-HasRouters (key a n) t k)) e.0,
        visit_all-removed a n t cs h u k e.1,
      )
      (ground arith)

-- What `associateAddress` does, on every branch, where each context has the router of the table.
-- A missing argument is refused. An association that is there already is ignored. Otherwise the
-- call aborts if some context of the application has no router in the new table, and else every
-- context of the proxy gets its router anew and the changed ones are notified.
pub associate_address-reroute :
    (a n router : Str) (s : Routes)
    → Routed s.table s.by_context
    → let t = insert (key a n) router s.table in
      associate_address a n router s ≡ (
        if n == []
        then throws (str "Empty application name")
        else if router == []
        then throws (str "Empty edge router end-point")
        else if same_association router (lookup (key a n) s.table)
        then ok (s, [])
        else if stranded n t s.by_context
        then aborts
        else ok
            (record s { table = t; by_context = reroute t s.by_context }, notices t s.by_context))
unfolding associate_address
associate_address-reroute a [] router s e = ground arith
associate_address-reroute a (c ∷ n) [] s e = ground arith
associate_address-reroute a (c ∷ n) (b ∷ router) s e =
    rw (visit_all-associated a (c ∷ n) (b ∷ router) s.table s.by_context (λ x. cc) (λ x. cc) e)
      (ground arith)

-- What `removeAddress` does, on every branch: it never aborts, and brings all contexts up to date.
pub remove_address-reroute :
    (a n : Str) (s : Routes)
    → Distinct s.table
    → HasRouters s.table
    → Routed s.table s.by_context
    → let t = erase (key a n) s.table in
      remove_address a n s ≡ (
        if n == []
        then throws (str "Empty application name")
        else ok
            (record s { table = t; by_context = reroute t s.by_context }, notices t s.by_context))
unfolding remove_address
remove_address-reroute a [] s u k e = ground arith
remove_address-reroute a (c ∷ n) s u k e =
    rw (visit_all-removed a (c ∷ n) s.table s.by_context (λ x. cc) u k e) (ground arith)

stranded-lookup :
    (id n : Str) (t : Table) (d : Desc) (cs : Contexts)
    → lookup id cs ≡ some d
    → d.app_name ≡ n
    → route d.client_address d.app_name t ≡ none
    → stranded n t cs ≡ true
unfolding lookup stranded
stranded-lookup id n t d [] e h k = cc
stranded-lookup id n t d ((j, w) ∷ cs) e h k = ground (arith, stranded-lookup id n t d cs)

-- The assert of `associateAddress` can fail: once a client with a context of an application has no
-- router left, associating another client with that application aborts.
pub associate_address_stranded :
    (id b router : Str) (d : Desc) (s : Routes)
    → Routed s.table s.by_context
    → lookup id s.by_context ≡ some d
    → d.app_name ≢ []
    → route d.client_address d.app_name s.table ≡ none
    → b ≢ []
    → b ≢ d.client_address
    → router ≢ []
    → lookup (key b d.app_name) s.table ≡ none
    → associate_address b d.app_name router s ≡ aborts
associate_address_stranded id b router d s v found named lost h other r fresh =
    rw (associate_address-reroute b d.app_name router s v) (
      ground (
        arith,
        stranded-lookup id d.app_name (insert (key b d.app_name) router s.table) d s.by_context
            found,
        route-insert_elsewhere b d.app_name router d.client_address s.table,
      ))
