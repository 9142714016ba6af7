-- ===== src/Grpc/Laws.antt =====
-- The calls of EtsiMec/grpcueapplcmproxyclient.cpp on the service of
-- EtsiMec/grpcueapplcmproxy.cpp, where the stub hands the message to the handler and its reply back.
use etsimec.Prelude.{
  Str, str, ok, throws, List, [], ◌∷◌, if◌then◌else◌, ◌≡◌, refl, arith, length, ◌==◌, Str-eq,
}
use Prim.Native.Nat.{◌^◌, ◌%◌}
use etsimec.StaticProxy.{
  Routes, associate_address, remove_address, num_contexts, address_associations, contexts,
}
use etsimec.StaticProxy.Invariant.{IsConsistent}
use etsimec.StaticProxy.Reroute.{associate_address-reroute, remove_address-reroute}
use etsimec.Grpc.{
  associate, remove, count, table, context_tuples, fill_table, fill_contexts, catch_all,
}
use etsimec.Grpc.Client

read_table-fill_table : (es : List (Str × Str × Str)) → Client.read_table (fill_table es) ≡ es
unfolding Client.read_table fill_table
read_table-fill_table [] = refl
read_table-fill_table (e ∷ es) = grind (arith, read_table-fill_table es)

read_contexts-fill_contexts :
    (es : List (Str × Str × Str)) → Client.read_contexts (fill_contexts es) ≡ es
unfolding Client.read_contexts fill_contexts
read_contexts-fill_contexts [] = refl
read_contexts-fill_contexts (e ∷ es) = grind (arith, read_contexts-fill_contexts es)

-- What a client reads is what the proxy has: the associations, the contexts, and their number as a
-- 32-bit integer.
pub queries-agree :
    (s : Routes)
    → IsConsistent s
    → (Client.table (ok (table s)) ≡ ok (address_associations s))
      × (Client.contexts (ok (context_tuples s)) ≡ ok (contexts s))
      × (Client.num_contexts (count s) ≡ ok (length s.by_context % 2 ^ 32))
unfolding Client.table table Client.contexts context_tuples Client.num_contexts count num_contexts
queries-agree s v =
    let h1 = read_table-fill_table (address_associations s) in
    let h2 = read_contexts-fill_contexts (contexts s) in let h3 = v.sizes in ground arith

-- A call of the client to associate a router refuses an empty name or router itself, and otherwise
-- does what the proxy behind the service does: the service has no exception to swallow.
associate_address-associate :
    (a n router : Str) (s : Routes)
    → IsConsistent s
    → Client.associate_address (λ req. associate req s) a n router ≡ (
        if n == []
        then throws (str "Invalid empty application name")
        else if router == []
        then throws (str "Invalid empty edge router address")
        else associate_address a n router s)
unfolding Client.associate_address associate catch_all
associate_address-associate a [] router s v = ground arith
associate_address-associate a (c ∷ n) [] s v = ground arith
associate_address-associate a (c ∷ n) (b ∷ router) s v =
    rw (associate_address-reroute a (c ∷ n) (b ∷ router) s v.routed) (ground arith)

-- A call of the client to remove an association refuses an empty name itself, and otherwise does
-- what the proxy does: the message satisfies the asserts of the service, and there is no exception.
remove_address-remove :
    (a n : Str) (s : Routes)
    → IsConsistent s
    → Client.remove_address (λ req. remove req s) a n
      ≡ (if n == [] then throws (str "Invalid empty application name") else remove_address a n s)
unfolding Client.remove_address remove catch_all
remove_address-remove a [] s v = ground arith
remove_address-remove a (c ∷ n) s v =
    rw (remove_address-reroute a (c ∷ n) s v.table_distinct v.has_routers v.routed) (ground arith)
