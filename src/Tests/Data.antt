-- ===== src/Tests/Data.antt =====
-- A proxy with a default router, a router for one client, and one context of that client.
use etsimec.Prelude.{ℕ, Str, str, [], ◌∷◌, ◌≢◌, refl, Str-eq, Str-discrete}
use etsimec.Prelude.Dict.{lookup, insert}
use etsimec.StaticProxy.{
  AddressAppKey-eq, AddressAppKey-discrete, key, Desc, Table, Routes, initial, route,
}
use etsimec.StaticProxy.Routing.{reroute}
use etsimec.StaticProxy.Invariant.{IsConsistent, initial-IsConsistent, reroute-IsConsistent}
use etsimec.StaticProxy.Index.{add-IsConsistent}

abbrev pub table : Table
table = (key [] (str "f"), str "edge0") ∷ (key (str "u") (str "f"), str "edge1") ∷ []

abbrev pub empty_proxy : Routes
empty_proxy = record { table = table; by_context = []; by_ue_app = [] }

abbrev pub context : Desc
context = record {
  ue_app_id = str "1";
  callback = str "http://u";
  client_address = str "u";
  app_name = str "f";
  edge_router = str "edge1";
}

abbrev pub proxy : Routes
proxy = record {
  table = table;
  by_context = (str "id1", context) ∷ [];
  by_ue_app = (str "1", str "id1") ∷ [];
}

pub not_empty : {c : ℕ} {s : Str} → c ∷ s ≢ []
not_empty e = cc

pub empty_proxy-IsConsistent : IsConsistent empty_proxy
unfolding reroute lookup AddressAppKey-discrete
empty_proxy-IsConsistent =
    reroute-IsConsistent table initial (refl, (refl, tt)) (not_empty, (not_empty, tt))
      initial-IsConsistent

pub proxy-IsConsistent : IsConsistent proxy
unfolding lookup insert AddressAppKey-discrete route Str-discrete
proxy-IsConsistent =
    add-IsConsistent (str "id1") context empty_proxy refl refl refl empty_proxy-IsConsistent
