-- ===== src/AppContext/RoundTrip.antt =====
-- What goes into an `AppContext` comes out of it: through the accessors, through JSON, and into the
-- response made from a request.
use etsimec.Prelude.{
  true, false, not, ◌&&◌, Str, str, empty, ok, List, [], ◌∷◌, Str-eq, Str-discrete, ◌≡◌, ◌≢◌, refl,
  arith,
}
use etsimec.Rest.{Rest}
use etsimec.Rest.Laws.{IsLawful}
use etsimec.Rest.Build.{string_or_empty-set_object, build, build-is_object, has_string_field-build}
use etsimec.AppInfo.{
  make_app_context_response, Message, message, app_info_request, app_info_of_json,
}
use etsimec.AppInfo.Laws.{check-ok, built, or_empty}
use etsimec.AppInfo.Accepts.{
  IsResponseInfo, app_info_request-IsRequestInfo, make_app_context_response-IsResponseInfo,
}
use etsimec.AppContext.{
  ContextType, request, response, is_response_type, wrong_app_info, app_context,
  app_context_request, context_checks, app_context_of_json, context_id, associate_ue_app_id,
  callback_reference, app_info, type, make_response,
}

abbrev pub context_fields : Str → Str → Str → List (Str × Str)
context_fields id u cb =
    (str "contextId", id) ∷ (str "associateUeAppId", u) ∷ (str "callbackReference", cb) ∷ []

module _ ⦃R : Rest⦄ (L : IsLawful R) where
  open R use {
    Value, object, set, is_object, is_string, string_or_empty, has_string_field, has_object_field,
    at, as_string,
  }

  -- The JSON of a context: its texts, and its `appInfo`.
  pub record IsContext (o : Value) (id u cb : Str) (info : Value) : Type 0 where
    pub id_text : context_id o ≡ id
    pub id_field : has_string_field o (str "contextId") ≡ not (empty id)
    pub ue_text : string_or_empty o (str "associateUeAppId") ≡ u
    pub callback_text : callback_reference o ≡ cb
    pub info_field : has_object_field o (str "appInfo") ≡ true
    pub info_value : at o (str "appInfo") ≡ ok info

  pub built-IsContext :
      (id u cb : Str) (info : Value)
      → is_object info ≡ true
      → IsContext (set (build (context_fields id u cb) object) (str "appInfo") info) id u cb info
  unfolding context_id callback_reference Str-discrete
  built-IsContext id u cb info m =
      let kvs = context_fields id u cb in
      let o = build kvs object in
      let is_map = build-is_object L kvs object L.is_object-object in
      let other = λ (j : Str). string_or_empty-set_object L o info (str "appInfo") j is_map m in
      record {
        id_text =
            rw (other (str "contextId") refl) (built L kvs (str "contextId") id (or_empty L id));
        id_field = ground (
          arith,
          L.has_string_field-set o info (str "appInfo") (str "contextId") is_map,
          has_string_field-build L kvs object (str "contextId") L.is_object-object,
          L.has_string_field-object (str "contextId"),
        );
        ue_text =
            rw (other (str "associateUeAppId") refl)
              (built L kvs (str "associateUeAppId") u (or_empty L u));
        callback_text =
            rw (other (str "callbackReference") refl)
              (built L kvs (str "callbackReference") cb (or_empty L cb));
        info_field = rw (L.has_object_field-set o info (str "appInfo") (str "appInfo") is_map) m;
        info_value = L.at-set o info (str "appInfo") (str "appInfo") is_map;
      }

  app_context-IsContext :
      (id u cb : Str) (info : Value) (t : ContextType) (m : Message)
      → u ≢ []
      → (is_response_type t && empty id) ≡ false
      → is_object info ≡ true
      → message info ≡ ok m
      → wrong_app_info t m ≡ false
      → (o : Value) × (app_context id u cb info t ≡ ok o) × IsContext o id u cb info
  unfolding app_context
  app_context-IsContext id u cb info t m n i is_map e w =
      let t1 =
        R.report (R.thrower (str "Invalid AppContext: ")) (is_response_type t && empty id)
          (str "contextId missing") in
      let t2 = R.report t1 (empty u) (str "associateUeAppId missing") in
      let t3 = R.report t2 (wrong_app_info t m) (str "wrong appInfo structure used") in
      let accepted = check-ok L t3 (simp (L.passes-report, L.passes-thrower) (ground arith)) in
      (
        set (build (context_fields id u cb) object) (str "appInfo") info,
        ground (arith, e, accepted),
        built-IsContext id u cb info is_map,
      )

  -- The accessors of a context.
  module _ (o : Value) (id u cb : Str) (info : Value) (c : IsContext o id u cb info) where
    pub IsContext-associate_ue_app_id : u ≢ [] → associate_ue_app_id o ≡ ok u
    unfolding associate_ue_app_id
    IsContext-associate_ue_app_id n = rw c.ue_text (ground arith)

    pub IsContext-app_info : app_info_of_json info ≡ ok info → app_info o ≡ ok info
    unfolding app_info
    IsContext-app_info e = ground (arith, c.info_field, c.info_value, e)

    pub IsContext-type :
        (t : ContextType) (m : Message)
        → app_info_of_json info ≡ ok info
        → message info ≡ ok m
        → is_response_type t ≡ not (empty id)
        → wrong_app_info t m ≡ false
        → type o ≡ ok t
    unfolding type
    IsContext-type t m e f g w = ground (arith, c.info_field, c.info_value, c.id_field, e, f, g, w)

    pub IsContext-app_context_of_json :
        u ≢ [] → app_info_of_json info ≡ ok info → app_context_of_json o ≡ ok o
    unfolding app_context_of_json context_checks context_id
    IsContext-app_context_of_json n e =
        let t = context_checks o in
        let accepted = check-ok L t (
          simp
            (L.passes-report, L.passes-not_empty, L.passes-not_empty_if_present, L.passes-thrower)
            (ground (arith, c.id_text, c.id_field, c.ue_text, c.info_field))) in
        ground (arith, accepted, c.info_value, e)

  make_response-parts :
      (o info made r : Value) (id uri u : Str)
      → type o ≡ ok request
      → associate_ue_app_id o ≡ ok u
      → app_info o ≡ ok info
      → make_app_context_response info uri ≡ ok made
      → app_context id u (callback_reference o) made response ≡ ok r
      → id ≢ []
      → uri ≢ []
      → make_response o id uri ≡ ok r
  unfolding make_response
  make_response-parts o info made r id uri u e1 e2 e3 e4 e5 k h = ground arith

  module _ (n p v d s u cb : Str) (info : Value) (known : app_info_request n p v d s ≡ ok info)
      (named : u ≢ []) where
    -- A request that is constructed succeeds, and its accessors give back the arguments.
    pub app_context_request-IsContext :
        (o : Value) × (app_context_request u cb info ≡ ok o) × IsContext o [] u cb info
    unfolding app_context_request
    app_context_request-IsContext =
        let r = app_info_request-IsRequestInfo L n p v d s info known in
        app_context-IsContext [] u cb info request _ named refl r.is_map r.kind refl

    -- The response that `makeResponse` makes of it.
    pub make_response-IsContext :
        (o : Value) (id uri : Str)
        → IsContext o [] u cb info
        → id ≢ []
        → uri ≢ []
        → (r made : Value) × (make_response o id uri ≡ ok r)
          × IsContext r id u cb made
          × IsResponseInfo L made n p v d s uri
    make_response-IsContext o id uri c k h =
        let q = app_info_request-IsRequestInfo L n p v d s info known in
        let (made, e1, m) = make_app_context_response-IsResponseInfo L n p v d s uri info known h in
        let (r, e2, rc) =
          app_context-IsContext id u cb made response _ named (ground arith) m.is_map m.kind refl in
        let f1 = IsContext-type o [] u cb info c request _ q.accepted q.kind refl refl in
        let f2 = IsContext-associate_ue_app_id o [] u cb info c named in
        let f3 = IsContext-app_info o [] u cb info c q.accepted in
        (
          r,
          made,
          make_response-parts o info made r id uri u f1 f2 f3 e1 (rw c.callback_text e2) k h,
          rc,
          m,
        )
