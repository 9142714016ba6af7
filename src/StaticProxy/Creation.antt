-- ===== src/StaticProxy/Creation.antt =====
-- `createContext` of EtsiMec/staticueapplcmproxy.cpp and the reply of EtsiMec/ueapplcmproxy.cpp, for a
-- request that the proxy accepts.
use etsimec.Prelude.{
  true, false, not, Str, empty, none, some, ok, [], ◌∷◌, sym, ap, ◌>>=◌, ◌∙◌, Str-eq, ◌≡◌, ◌≢◌,
  refl, arith,
}
use etsimec.Prelude.Dict.{lookup, insert}
use etsimec.Rest.{Rest}
use etsimec.Rest.Laws.{IsLawful}
use etsimec.AppInfo.{app_info_request, app_name, reference_uri}
use etsimec.AppInfo.Accepts.{IsResponseInfo, app_info_request-IsRequestInfo}
use etsimec.AppContext.{
  response, associate_ue_app_id, callback_reference, app_info, app_context_of_json, make_response,
  context_id, type,
}
use etsimec.AppContext.RoundTrip.{
  IsContext, IsContext-app_info, IsContext-associate_ue_app_id, IsContext-app_context_of_json,
  IsContext-type, make_response-IsContext,
}
use etsimec.LcmProxy.{Applications, exists, handle_context_create, creation_reply}
use etsimec.StaticProxy.{Desc, Routes, route, find}
use etsimec.StaticProxy.Contexts.{register, create_routed, create_context}
use etsimec.StaticProxy.Reroute.{route-HasRouters}
use etsimec.StaticProxy.Invariant.{IsConsistent}
use etsimec.StaticProxy.Handlers.{static}

-- The proxy with one more context.
abbrev pub with_context : Str → Desc → Routes → Routes
with_context id d s = record s {
  by_context = insert id d s.by_context;
  by_ue_app = insert d.ue_app_id id s.by_ue_app;
}

pub empty-eq-false : (s : Str) → s ≢ [] → empty s ≡ false
empty-eq-false [] h = absurd (h refl)
empty-eq-false (c ∷ s) h = refl

register-fresh :
    (id : Str) (d : Desc) (s : Routes)
    → lookup id s.by_context ≡ none
    → lookup d.ue_app_id s.by_ue_app ≡ none
    → register id d s ≡ ok (with_context id d s)
unfolding register
register-fresh id d s e f = ground arith

module _ ⦃R : Rest⦄ where
  open R use {Value}

  create_routed-parts :
      (uuid client u cb n router : Str) (req r : Value) (s : Routes)
      → make_response req uuid router ≡ ok r
      → associate_ue_app_id req ≡ ok u
      → callback_reference req ≡ cb
      → context_id r ≡ uuid
      → lookup uuid s.by_context ≡ none
      → lookup u s.by_ue_app ≡ none
      → let d : Desc = record {
        ue_app_id = u;
        callback = cb;
        client_address = client;
        app_name = n;
        edge_router = router;
      } in
        create_routed uuid client req n router s ≡ ok (r, with_context uuid d s)
  unfolding create_routed
  create_routed-parts uuid client u cb n router req r s e1 e2 e3 e4 f1 f2 =
      let d : Desc = record {
        ue_app_id = u;
        callback = cb;
        client_address = client;
        app_name = n;
        edge_router = router;
      } in
      grind (arith, register-fresh uuid d s f1 f2)

  -- The call up to the router that was found.
  pub create_context-routed :
      (uuid client n router : Str) (req info : Value) (apps : Applications) (s : Routes)
      → app_info req ≡ ok info
      → exists info apps ≡ ok true
      → app_name info ≡ ok n
      → n ≢ []
      → route client n s.table ≡ some router
      → create_context uuid client req (apps, s)
        ≡ (do (r, s') ← create_routed uuid client req n router s; ok (r, (apps, s')))
  unfolding create_context find
  create_context-routed uuid client n router req info apps s e1 e2 e3 h e4 = grind arith

  creation_reply-response :
      (r info : Value) (uri : Str)
      → type r ≡ ok response
      → app_info r ≡ ok info
      → reference_uri info ≡ ok uri
      → empty (context_id r) ≡ false
      → empty uri ≡ false
      → creation_reply static r ≡ ok (record { status = 201; body = some r })
  unfolding creation_reply
  creation_reply-response r info uri e1 e2 e3 f1 f2 = grind arith

  handle_context_create-parts :
      (uuid client : Str) (req r : Value) (apps : Applications) (s s' : Routes)
      → app_context_of_json req ≡ ok req
      → create_context uuid client req (apps, s) ≡ ok (r, (apps, s'))
      → creation_reply static r ≡ ok (record { status = 201; body = some r })
      → handle_context_create static uuid client req (apps, s)
        ≡ ok (record { status = 201; body = some r }, (apps, s'))
  unfolding handle_context_create
  handle_context_create-parts uuid client req r apps s s' e1 e2 e3 = ground arith

  module _ (L : IsLawful R) (n p v d q u cb uuid client router : Str) (info req : Value)
      (apps : Applications) (s : Routes) (made_info : app_info_request n p v d q ≡ ok info)
      (c : IsContext L req [] u cb info) (named : u ≢ []) (drawn : uuid ≢ []) where
    abbrev pub new_context : Desc
    new_context = record {
      ue_app_id = u;
      callback = cb;
      client_address = client;
      app_name = n;
      edge_router = router;
    }

    -- Over a lawful REST library and a consistent proxy: a request with a constructed `AppInfo` and
    -- a UE application ID that is not empty and has no context, for an application that is offered,
    -- from a client with a router, where the context ID drawn is fresh and not empty, is answered
    -- 201. The body is a response with that context ID and the UE application ID and callback of the
    -- request; its `AppInfo` has the name, provider, version, description and package source of the
    -- request, and the router as its reference URI. The proxy has the context, and all else is as it was.
    pub handle_context_create-static :
        IsConsistent s
        → exists info apps ≡ ok true
        → route client n s.table ≡ some router
        → lookup uuid s.by_context ≡ none
        → lookup u s.by_ue_app ≡ none
        → (r made : Value) × (handle_context_create static uuid client req (apps, s)
            ≡ ok (record { status = 201; body = some r }, (apps, with_context uuid new_context s)))
          × IsContext L r uuid u cb made
          × IsResponseInfo L made n p v d q router
    handle_context_create-static k offered routed fresh free =
        let i = app_info_request-IsRequestInfo L n p v d q info made_info in
        let some_router = route-HasRouters client n s.table k.has_routers router routed in
        let (r, made, e, rc, m) =
          make_response-IsContext L n p v d q u cb info made_info named req uuid router c drawn
            some_router in
        let accepted = IsContext-app_context_of_json L req [] u cb info c named i.accepted in
        let registered =
          create_routed-parts uuid client u cb n router req r s e
            (IsContext-associate_ue_app_id L req [] u cb info c named) c.callback_text rc.id_text
            fresh free in
        let created : create_context uuid client req (apps, s)
            ≡ ok (r, (apps, with_context uuid new_context s)) =
          create_context-routed uuid client n router req info apps s
            (IsContext-app_info L req [] u cb info c i.accepted) offered i.name i.named routed
          ∙ rw registered refl in
        let replied =
          creation_reply-response r made router
            (IsContext-type L r uuid u cb made rc response _ m.accepted m.kind
              (sym (ap not (empty-eq-false uuid drawn))) refl)
            (IsContext-app_info L r uuid u cb made rc m.accepted) m.uri
            (rw rc.id_text (empty-eq-false uuid drawn)) (empty-eq-false router some_router) in
        (
          r,
          made,
          handle_context_create-parts uuid client req r apps s _ accepted created replied,
          rc,
          m,
        )
