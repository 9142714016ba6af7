-- ===== src/Tests/Proxy.antt =====
-- The proxy: its tables, contexts, notifications and interleavings.
use etsimec.Prelude.{
  true, false, Str, str, ◌||◌, none, Outcome, ok, aborts, [], ◌∷◌, if◌then◌else◌, ◌==◌, Str-eq,
  Str-discrete, ◌≡◌, ◌≢◌, refl, arith,
}
use etsimec.Prelude.Dict.{lookup, insert, erase}
use etsimec.Rest.Sample.{Json, sample, get, put}
use etsimec.AppInfo.{app_info_request}
use etsimec.AppContext.{app_context_request, make_response, context_id, app_info}
use etsimec.LcmProxy.{Applications, exists}
use etsimec.StaticProxy.{
  AddressAppKey-eq, AddressAppKey-discrete, key, Routes, Notification, initial, route, find,
  associate_address, remove_address,
}
use etsimec.StaticProxy.Contexts.{register, create_routed, create_context, delete_context}
use etsimec.StaticProxy.Routing.{reroute, notices, stranded}
use etsimec.StaticProxy.Reroute.{
  associate_address-reroute, remove_address-reroute, associate_address_stranded,
}
use etsimec.StaticProxy.Invariant.{IsConsistent}
use etsimec.StaticProxy.Methods.{delete_context-register, create_context-IsConsistent}
use etsimec.Notify.{answered, notify_clients}
use etsimec.Notify.Laws.{notify_clients_lem, posts}
use etsimec.System.{System, associates, deletes, here, next}
use etsimec.System.Invariant.{Reach-IsConsistent}
use etsimec.Tests.Data.{table, context, empty_proxy, proxy, proxy-IsConsistent, not_empty}

-- The client's own router changes, and it is told.
associate_moves :
    associate_address (str "u") (str "f") (str "edge2") proxy
    ≡ ok (
      record {
        table = (key [] (str "f"), str "edge0") ∷ (key (str "u") (str "f"), str "edge2") ∷ [];
        by_context = (str "id1", record context { edge_router = str "edge2" }) ∷ [];
        by_ue_app = (str "1", str "id1") ∷ [];
      },
      record { callback = str "http://u"; reference_uri = str "edge2"; context_id = str "id1" }
          ∷ [],
    )
unfolding associate_address find lookup insert AddressAppKey-discrete
associate_moves = refl

associate_address-reroute_example : associate_address [] (str "f") (str "edge3") proxy ≡ (
    let t = insert (key [] (str "f")) (str "edge3") table in
    ok (
      record proxy { table = t; by_context = reroute t proxy.by_context },
      notices t proxy.by_context,
    ))
unfolding lookup insert AddressAppKey-discrete stranded route
associate_address-reroute_example =
    associate_address-reroute [] (str "f") (str "edge3") proxy proxy-IsConsistent.routed

-- Without its own router the client falls back on the default, and is told.
remove_falls_back :
    remove_address (str "u") (str "f") proxy
    ≡ ok (
      record {
        table = (key [] (str "f"), str "edge0") ∷ [];
        by_context = (str "id1", record context { edge_router = str "edge0" }) ∷ [];
        by_ue_app = (str "1", str "id1") ∷ [];
      },
      record { callback = str "http://u"; reference_uri = str "edge0"; context_id = str "id1" }
          ∷ [],
    )
unfolding remove_address find lookup erase AddressAppKey-discrete
remove_falls_back = refl

remove_address-reroute_example : remove_address (str "u") (str "f") proxy ≡ (
    let t = erase (key (str "u") (str "f")) table in
    ok (
      record proxy { table = t; by_context = reroute t proxy.by_context },
      notices t proxy.by_context,
    ))
unfolding Str-discrete
remove_address-reroute_example =
    remove_address-reroute (str "u") (str "f") proxy proxy-IsConsistent.table_distinct
      proxy-IsConsistent.has_routers proxy-IsConsistent.routed

other_client : str "v" ≢ str "u"
other_client e = ground arith

-- The context is left with no router after both associations are removed.
abbrev lost : Routes
lost = record proxy {
  table = [];
  by_context = (str "id1", record context { edge_router = [] }) ∷ [];
}

associate_address_stranded_example :
    associate_address (str "v") (str "f") (str "edge4") lost ≡ aborts
unfolding lookup route Str-discrete
associate_address_stranded_example =
    associate_address_stranded (str "id1") (str "v") (str "edge4")
      (record context { edge_router = [] }) lost (refl, tt) refl not_empty refl not_empty
      other_client not_empty refl

delete_context-register_example : delete_context (str "id1") proxy ≡ ok (true, empty_proxy)
unfolding register lookup insert Str-discrete
delete_context-register_example = delete_context-register (str "id1") context empty_proxy proxy refl

abbrev value_or : Outcome Json → Json
value_or (ok v) = v
value_or _ = sample.object

request_info : Json
request_info = value_or (app_info_request (str "f") (str "p") (str "1.0") [] [])

request : Json
request = value_or (app_context_request (str "2") (str "http://w") request_info)

update : Json
update = value_or (app_context_request (str "1") (str "http://new") request_info)

abbrev apps : Applications
apps = (str "f+p+1.0", sample.object) ∷ []

abbrev created : Outcome (Json × (Applications × Routes))
created = create_context (str "id2") (str "w") request (apps, proxy)

abbrev response_of : Outcome (Json × (Applications × Routes)) → Json
response_of (ok (v, rest)) = v
response_of _ = sample.object

abbrev routes_of : Outcome (Json × (Applications × Routes)) → Routes
routes_of (ok (v, (a, s))) = s
routes_of _ = initial

create_context_default :
    (routes_of created).by_context
    ≡ (str "id1", context)
      ∷ (
        str "id2",
        record {
          ue_app_id = str "2";
          callback = str "http://w";
          client_address = str "w";
          app_name = str "f";
          edge_router = str "edge0";
        },
      )
      ∷ []
unfolding create_context create_routed request request_info app_info_request app_context_request
    app_info make_response exists find register get put lookup insert AddressAppKey-discrete
    context_id
create_context_default = refl

create_context-IsConsistent_example : IsConsistent (routes_of created) × (apps ≡ apps)
unfolding create_context create_routed request request_info app_info_request app_context_request
    app_info make_response exists find register get put lookup insert AddressAppKey-discrete
    context_id
create_context-IsConsistent_example =
    create_context-IsConsistent (str "id2") (str "w") request (response_of created) apps apps proxy
      (routes_of created) proxy-IsConsistent refl

abbrev move : Notification
move = record { callback = str "http://u"; reference_uri = str "edge2"; context_id = str "id1" }

notify_clients_lem_example :
    (s' : Routes) × (notify_clients (λ uri. true) ((move, answered 500) ∷ []) proxy
      ≡ ok (s', posts (λ uri. true) ((move, answered 500) ∷ [])))
    × IsConsistent s'
    × ((c : Str)
        → lookup c s'.by_context
          ≡ (if str "id1" == c || false then none else lookup c proxy.by_context))
    × (s'.table ≡ proxy.table)
notify_clients_lem_example =
    notify_clients_lem (λ uri. true) ((move, answered 500) ∷ []) proxy
      ((not_empty, not_empty, not_empty), tt) proxy-IsConsistent

-- An association, and then a deletion that finds nothing.
abbrev two_calls : System
two_calls = record {
  apps = [];
  routes = record { table = (key [] (str "f"), str "edge0") ∷ []; by_context = []; by_ue_app = [] };
  pending = [] ∷ [];
}

Reach-IsConsistent_example : IsConsistent two_calls.routes
unfolding associate_address insert lookup delete_context
Reach-IsConsistent_example =
    Reach-IsConsistent (λ uri. true) two_calls
      (next (next here (associates [] (str "f") (str "edge0") two_calls.routes [] refl))
        (deletes (str "id1") false two_calls.routes refl))
