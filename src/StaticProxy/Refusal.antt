-- ===== src/StaticProxy/Refusal.antt =====
-- `createContext` of EtsiMec/staticueapplcmproxy.cpp refuses a request by returning it, and
-- EtsiMec/ueapplcmproxy.cpp tells from the form of what it returns whether a context was created.
use etsimec.Prelude.{
  Bool, true, false, not, Str, str, empty, none, some, ok, [], sym, ap, Str-eq, ◌≡◌, ◌≢◌, refl,
  arith,
}
use mathlib.Core.Path.{subst}
use etsimec.Rest.{Rest}
use etsimec.Rest.Laws.{IsLawful}
use etsimec.AppInfo.{app_info_request, make_app_context_response, app_name, reference_uri}
use etsimec.AppInfo.Accepts.{
  IsResponseInfo, app_info_request-IsRequestInfo, make_app_context_response-IsResponseInfo,
}
use etsimec.AppContext.{
  ContextType, request, response, type, app_info, context_id, app_context_of_json,
}
use etsimec.AppContext.RoundTrip.{
  IsContext, IsContext-app_info, IsContext-app_context_of_json, IsContext-type,
}
use etsimec.LcmProxy.{Reply, problem, Applications, exists, creation_reply, handle_context_create}
use etsimec.StaticProxy.{Routes, route, find}
use etsimec.StaticProxy.Contexts.{create_context}
use etsimec.StaticProxy.Handlers.{static}
use etsimec.StaticProxy.Creation.{empty-eq-false}

module _ ⦃R : Rest⦄ where
  open R use {Value}

  -- A context ID, the application name, and the `AppInfo` that a context carries: of a request that
  -- was constructed, without a context ID, or of the response made from one, with a context ID.
  pub data HasForm : ContextType → Str → Str → Value → Type 0 where
    of_request :
        (n p v d q : Str) (info : Value)
        → app_info_request n p v d q ≡ ok info
        → HasForm request [] n info
    of_response :
        (n p v d q uri id : Str) (asked info : Value)
        → app_info_request n p v d q ≡ ok asked
        → make_app_context_response asked uri ≡ ok info
        → uri ≢ []
        → id ≢ []
        → HasForm response id n info

  -- The reply to what is returned as it came.
  abbrev echo : ContextType → Value → Reply
  echo request req = problem 403 (
      str
        "Could not create the requested UE application context because of the current status of the mobile edge system")
  echo response req = record { status = 201; body = some req }

  create_context-refused :
      (uuid client n : Str) (req info : Value) (apps : Applications) (s : Routes) (offered : Bool)
      → app_info req ≡ ok info
      → app_name info ≡ ok n
      → n ≢ []
      → exists info apps ≡ ok offered
      → (offered ≡ true → route client n s.table ≡ none)
      → create_context uuid client req (apps, s) ≡ ok (req, (apps, s))
  unfolding create_context find
  create_context-refused uuid client n req info apps s false e1 e2 h e3 k = grind arith
  create_context-refused uuid client n req info apps s true e1 e2 h e3 k =
      let unrouted = k refl in grind arith

  handle_context_create-returned :
      (uuid client : Str) (req : Value) (apps : Applications) (s : Routes) (reply : Reply)
      → app_context_of_json req ≡ ok req
      → create_context uuid client req (apps, s) ≡ ok (req, (apps, s))
      → creation_reply static req ≡ ok reply
      → handle_context_create static uuid client req (apps, s) ≡ ok (reply, (apps, s))
  unfolding handle_context_create
  handle_context_create-returned uuid client req apps s reply e1 e2 e3 = ground arith

  creation_reply-request :
      (req : Value) → type req ≡ ok request → creation_reply static req ≡ ok (echo request req)
  unfolding creation_reply
  creation_reply-request req e = ground arith

  creation_reply-echo :
      (req info : Value) (uri : Str)
      → type req ≡ ok response
      → app_info req ≡ ok info
      → reference_uri info ≡ ok uri
      → empty (context_id req) ≡ false
      → empty uri ≡ false
      → creation_reply static req ≡ ok (echo response req)
  unfolding creation_reply
  creation_reply-echo req info uri e1 e2 e3 f1 f2 = grind arith

  module _ (L : IsLawful R) where
    -- Over a lawful REST library, let what is posted carry a UE application ID that is not empty and
    -- an `AppInfo` of an application that the proxy does not offer, or for which the client has no
    -- router. Nothing is created: the state of the proxy is as it was. The reply is 403 if the
    -- `AppInfo` is that of a constructed request and there is no context ID; it is 201 with what was
    -- posted as its body if that is a response, with a context ID that is not empty and an `AppInfo`
    -- made of a constructed request and a reference URI that is not empty.
    pub handle_context_create-refused :
        (t : ContextType) (id n u cb uuid client : Str) (info req : Value) (apps : Applications)
        (s : Routes) (offered : Bool)
        → HasForm t id n info
        → IsContext L req id u cb info
        → u ≢ []
        → exists info apps ≡ ok offered
        → (offered ≡ true → route client n s.table ≡ none)
        → handle_context_create static uuid client req (apps, s) ≡ ok (echo t req, (apps, s))
    handle_context_create-refused _ _ _ u cb uuid client info req apps s offered
          (of_request n p v d q _ made) c named e k =
        let i = app_info_request-IsRequestInfo L n p v d q info made in
        handle_context_create-returned uuid client req apps s (echo request req)
          (IsContext-app_context_of_json L req [] u cb info c named i.accepted)
          (create_context-refused uuid client n req info apps s offered
            (IsContext-app_info L req [] u cb info c i.accepted) i.name i.named e k)
          (creation_reply-request req
            (IsContext-type L req [] u cb info c request _ i.accepted i.kind refl refl))
    handle_context_create-refused _ _ _ u cb uuid client info req apps s offered
          (of_response n p v d q uri id asked _ made told some_uri some_id) c named e k =
        let i = app_info_request-IsRequestInfo L n p v d q asked made in
        let (info', told', m') =
          make_app_context_response-IsResponseInfo L n p v d q uri asked made some_uri in
        let same : info' ≡ info = cc in
        let m : IsResponseInfo L info n p v d q uri =
          subst (λ (x : Value). IsResponseInfo L x n p v d q uri) same m' in
        let about = IsContext-app_info L req id u cb info c m.accepted in
        handle_context_create-returned uuid client req apps s (echo response req)
          (IsContext-app_context_of_json L req id u cb info c named m.accepted)
          (create_context-refused uuid client n req info apps s offered about m.name i.named e k)
          (creation_reply-echo req info uri
            (IsContext-type L req id u cb info c response _ m.accepted m.kind
              (sym (ap not (empty-eq-false id some_id))) refl)
            about m.uri (rw c.id_text (empty-eq-false id some_id)) (empty-eq-false uri some_uri))
