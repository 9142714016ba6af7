-- ===== src/StaticProxy/Duplicate.antt =====
-- `createContext` of EtsiMec/staticueapplcmproxy.cpp asserts that the UE application is new, though
-- its ID is chosen by the client.
use etsimec.Prelude.{true, Str, some, ok, aborts, ◌∙◌, [], Str-eq, ◌≡◌, ◌≢◌, refl, arith}
use etsimec.Prelude.Dict.{lookup}
use etsimec.Rest.{Rest}
use etsimec.Rest.Laws.{IsLawful}
use etsimec.AppInfo.{app_info_request}
use etsimec.AppInfo.Accepts.{app_info_request-IsRequestInfo}
use etsimec.AppContext.{associate_ue_app_id, app_context_of_json, make_response}
use etsimec.AppContext.RoundTrip.{
  IsContext, IsContext-app_info, IsContext-associate_ue_app_id, IsContext-app_context_of_json,
  make_response-IsContext,
}
use etsimec.LcmProxy.{Applications, exists, handle_context_create}
use etsimec.StaticProxy.{Desc, Routes, route}
use etsimec.StaticProxy.Contexts.{register, create_routed, create_context}
use etsimec.StaticProxy.Reroute.{route-HasRouters}
use etsimec.StaticProxy.Invariant.{IsConsistent}
use etsimec.StaticProxy.Handlers.{static}
use etsimec.StaticProxy.Creation.{create_context-routed}

register-duplicate :
    (id other : Str) (d : Desc) (s : Routes)
    → lookup d.ue_app_id s.by_ue_app ≡ some other
    → register id d s ≡ aborts
unfolding register
register-duplicate id other d s e = ground arith

module _ ⦃R : Rest⦄ where
  open R use {Value}

  create_routed-duplicate :
      (uuid client u n router other : Str) (req r : Value) (s : Routes)
      → make_response req uuid router ≡ ok r
      → associate_ue_app_id req ≡ ok u
      → lookup u s.by_ue_app ≡ some other
      → create_routed uuid client req n router s ≡ aborts
  unfolding create_routed register
  create_routed-duplicate uuid client u n router other req r s e1 e2 h = ground arith

  handle_context_create-aborts :
      (uuid client : Str) (req : Value) (apps : Applications) (s : Routes)
      → app_context_of_json req ≡ ok req
      → create_context uuid client req (apps, s) ≡ aborts
      → handle_context_create static uuid client req (apps, s) ≡ aborts
  unfolding handle_context_create
  handle_context_create-aborts uuid client req apps s e1 e2 = ground arith

  -- Over a lawful REST library and a consistent proxy: a request with a constructed `AppInfo` for an
  -- application that is offered, from a client with a router, where the context ID drawn is not
  -- empty, aborts the program if the UE application of the request has a context already.
  pub handle_context_create-duplicate :
      (L : IsLawful R) (n p v d q u cb uuid client router other : Str) (info req : Value)
      (apps : Applications) (s : Routes)
      → app_info_request n p v d q ≡ ok info
      → IsContext L req [] u cb info
      → u ≢ []
      → uuid ≢ []
      → IsConsistent s
      → exists info apps ≡ ok true
      → route client n s.table ≡ some router
      → lookup u s.by_ue_app ≡ some other
      → handle_context_create static uuid client req (apps, s) ≡ aborts
  handle_context_create-duplicate L n p v d q u cb uuid client router other info req apps s
        made_info c named drawn k offered routed taken =
      let i = app_info_request-IsRequestInfo L n p v d q info made_info in
      let some_router = route-HasRouters client n s.table k.has_routers router routed in
      let (r, made, e, rc, m) =
        make_response-IsContext L n p v d q u cb info made_info named req uuid router c drawn
          some_router in
      handle_context_create-aborts uuid client req apps s
        (IsContext-app_context_of_json L req [] u cb info c named i.accepted)
        (create_context-routed uuid client n router req info apps s
            (IsContext-app_info L req [] u cb info c i.accepted) offered i.name i.named routed
          ∙ rw
              (create_routed-duplicate uuid client u n router other req r s e
                (IsContext-associate_ue_app_id L req [] u cb info c named) taken)
              refl)
