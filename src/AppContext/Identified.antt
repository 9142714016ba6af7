-- ===== src/AppContext/Identified.antt =====
-- EtsiMec/appcontext.cpp: whatever the request, what `makeResponse` returns has the context ID that it
-- is given, which is not empty.
use etsimec.Prelude.{
  Bool, not, true, false, Str, str, empty, Outcome, ok, throw_if, ◌>>◌, [], returned, ◌≡◌, ◌≢◌,
  refl, ap, ◌∙◌, arith,
}
use etsimec.Rest.{Rest}
use etsimec.Rest.Laws.{IsLawful}
use etsimec.Rest.Build.{build, build-is_object}
use etsimec.AppInfo.{
  is_request, app_info_response, app_name, app_provider, app_soft_version, app_description,
  app_package_source, make_app_context_response, message,
}
use etsimec.AppInfo.Laws.{response_fields}
use etsimec.AppContext.{
  ContextType, response, is_response_type, app_context, context_id, associate_ue_app_id,
  callback_reference, app_info, type, make_response,
}
use etsimec.AppContext.RoundTrip.{context_fields, built-IsContext}

-- Where a test does not throw, the call goes on.
passed :
    {A : Type 0} (test : Bool) (why : Str) (rest : Outcome A) {result : A}
    → (throw_if test why >> rest) ≡ ok result
    → (test ≡ false) × (rest ≡ ok result)
passed true why rest e = absurd cc
passed false why rest e = (refl, e)

module _ ⦃R : Rest⦄ where
  open R use {Value, object, set, is_object}

  app_context-eq :
      (id u cb : Str) (info o : Value) (t : ContextType)
      → app_context id u cb info t ≡ ok o
      → o ≡ set (build (context_fields id u cb) object) (str "appInfo") info
  unfolding app_context
  app_context-eq id u cb info o t e = ground arith

  app_info_response-eq :
      (n p v d u s : Str) (o : Value)
      → app_info_response n p v d u s ≡ ok o
      → o ≡ build (response_fields n p v d u s) object
  unfolding app_info_response
  app_info_response-eq n p v d u s o e = ground arith

  make_app_context_response-made :
      (o made : Value) (uri : Str)
      → make_app_context_response o uri ≡ ok made
      → (n p : Str) × (app_info_response n p
            (app_soft_version o)
            (app_description o)
            uri
            (app_package_source o)
          ≡ ok made)
  unfolding make_app_context_response
  make_app_context_response-made o made uri e =
      let (m, e1, f1) = returned _ (message o) e in
      let f2 = passed (not (is_request m)) (str "Invalid AppContext structure type") _ f1 in
      let f3 = passed (empty uri) (str "referenceURI cannot be empty") _ f2.1 in
      let (n, e4, f4) = returned _ (app_name o) f3.1 in
      let (p, e5, f5) = returned _ (app_provider o) f4 in (n, p, f5)

  make_response-made :
      (o r : Value) (id uri : Str)
      → make_response o id uri ≡ ok r
      → (info made : Value) × (u : Str) × (make_app_context_response info uri ≡ ok made)
        × (app_context id u (callback_reference o) made response ≡ ok r)
        × (empty id ≡ false)
  unfolding make_response
  make_response-made o r id uri e =
      let (t, e1, f1) = returned _ (type o) e in
      let f2 = passed (is_response_type t) (str "Invalid AppContext structure type") _ f1 in
      let f3 = passed (empty id) (str "contextId cannot be empty") _ f2.1 in
      let f4 = passed (empty uri) (str "referenceURI cannot be empty") _ f3.1 in
      let (u, e5, f5) = returned _ (associate_ue_app_id o) f4.1 in
      let (info, e6, f6) = returned _ (app_info o) f5 in
      let (made, e7, f7) = returned _ (make_app_context_response info uri) f6 in
      (info, made, u, e7, f7, f3.0)

  module _ (L : IsLawful R) where
    pub make_response-context_id :
        (o r : Value) (id uri : Str)
        → make_response o id uri ≡ ok r
        → (context_id r ≡ id) × (id ≢ [])
    make_response-context_id o r id uri e =
        let (info, made, u, e1, e2, drawn) = make_response-made o r id uri e in
        let (n, p, e3) = make_app_context_response-made info made uri e1 in
        let kvs =
          response_fields n p (app_soft_version info) (app_description info) uri
            (app_package_source info) in
        let same =
          app_info_response-eq n p (app_soft_version info) (app_description info) uri
            (app_package_source info) made e3 in
        let is_map = build-is_object L kvs object L.is_object-object in
        let c = built-IsContext L id u (callback_reference o) made (rw same is_map) in
        (
          ap context_id (app_context-eq id u (callback_reference o) made r response e2) ∙ c.id_text,
          λ none. ground arith,
        )
