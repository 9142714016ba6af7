-- ===== src/AppInfo/Accepts.antt =====
-- EtsiMec/appinfo.cpp: the JSON objects of requests and responses, as a context carries them.
use etsimec.Prelude.{true, false, Str, str, ok, [], Str-discrete, ◌≡◌, ◌≢◌, arith}
use etsimec.Rest.{Rest}
use etsimec.Rest.Laws.{IsLawful, passes}
use etsimec.Rest.Build.{build, build-is_object, has_object_field-build}
use etsimec.AppInfo.{
  app_context_request, app_context_response, app_info_request, message, reference_uri, app_name,
  app_provider, app_soft_version, app_description, app_package_source, make_app_context_response,
  app_info_of_json, json_checks,
}
use etsimec.AppInfo.Laws.{
  IsValidInfo, request_fields, response_fields, check-ok, Describes, response-Describes,
  response-message, built, or_empty, present,
}
use etsimec.AppInfo.RoundTrip.{
  app_info_request-ok, Describes-accessors, app_info_request-fields, app_info_response-ok,
  response-reference_uri, app_info_of_json-request,
}

module _ ⦃R : Rest⦄ (L : IsLawful R) where
  open R use {Value, object, is_object, has_string_field, has_object_field}

  -- The JSON of a request.
  pub record IsRequestInfo (o : Value) (n p v : Str) : Type 0 where
    pub is_map : is_object o ≡ true
    pub kind : message o ≡ ok app_context_request
    pub accepted : app_info_of_json o ≡ ok o
    pub name : app_name o ≡ ok n
    pub named : n ≢ []
    pub provider : app_provider o ≡ ok p
    pub version : app_soft_version o ≡ v

  -- The JSON of a response with these texts and a reference URI.
  pub record IsResponseInfo (o : Value) (n p v d s u : Str) : Type 0 where
    pub is_map : is_object o ≡ true
    pub kind : message o ≡ ok app_context_response
    pub accepted : app_info_of_json o ≡ ok o
    pub uri : reference_uri o ≡ ok u
    pub name : app_name o ≡ ok n
    pub provider : app_provider o ≡ ok p
    pub version : app_soft_version o ≡ v
    pub description : app_description o ≡ d
    pub source : app_package_source o ≡ s

  pub app_info_request-IsRequestInfo :
      (n p v d s : Str) (o : Value) → app_info_request n p v d s ≡ ok o → IsRequestInfo o n p v
  app_info_request-IsRequestInfo n p v d s o e =
      let (valid, same) = app_info_request-ok L n p v d s o e in
      let (m, name, provider, version, description, source) =
        app_info_request-fields L n p v d s o e in
      record {
        is_map = rw same (build-is_object L (request_fields n p v d s) object L.is_object-object);
        kind = m;
        accepted = app_info_of_json-request L n p v d s o e;
        name = name;
        named = valid.named;
        provider = provider;
        version = version;
      }

  response-passes :
      (o : Value) (n p v d u s : Str)
      → Describes L o n p v d s
      → IsValidInfo n p v d
      → has_string_field o (str "referenceURI") ≡ true
      → R.string_or_empty o (str "referenceURI") ≡ u
      → u ≢ []
      → has_object_field o (str "appCharcs") ≡ false
      → passes (json_checks o) ≡ true
  unfolding json_checks
  response-passes o n p v d u s r valid h e k c =
      rw (h, c, json_checks)
        (simp
          (
            L.passes-report, L.passes-too_long, L.passes-not_empty, L.passes-thrower, r.name,
            r.provider, r.version, r.description, e,
          )
          (ground (
            arith, valid.named, valid.provided, valid.short_name, valid.short_provider,
            valid.short_version, valid.short_description,
          )))

  app_info_of_json-response :
      (n p v d u s : Str)
      → IsValidInfo n p v d
      → u ≢ []
      → let o = build (response_fields n p v d u s) object in app_info_of_json o ≡ ok o
  unfolding app_info_of_json Str-discrete
  app_info_of_json-response n p v d u s valid k =
      let kvs = response_fields n p v d u s in
      let o = build kvs object in
      let uri = built L kvs (str "referenceURI") u (or_empty L u) in
      let has = present L o (str "referenceURI") u uri k in
      let charcs : has_object_field o (str "appCharcs") ≡ false =
        rw (has_object_field-build L kvs object (str "appCharcs") L.is_object-object)
          (L.has_object_field-object (str "appCharcs")) in
      rw
        (check-ok L (json_checks o)
          (response-passes o n p v d u s (response-Describes L n p v d u s) valid has uri k charcs))
        (ground (arith, charcs))

  -- What `makeAppContextResponse` makes of a request.
  pub make_app_context_response-IsResponseInfo :
      (n p v d s u : Str) (o : Value)
      → app_info_request n p v d s ≡ ok o
      → u ≢ []
      → (r : Value) × (make_app_context_response o u ≡ ok r) × IsResponseInfo r n p v d s u
  unfolding make_app_context_response
  make_app_context_response-IsResponseInfo n p v d s u o e h =
      let (valid, same) = app_info_request-ok L n p v d s o e in
      let (m, name, provider, version, description, source) =
        app_info_request-fields L n p v d s o e in
      let made = app_info_response-ok L n p v d u s valid h in
      let kvs = response_fields n p v d u s in
      let (a, b, c, g, k) =
        Describes-accessors L _ n p v d s (response-Describes L n p v d u s) valid in
      (
        build kvs object,
        ground arith,
        record {
          is_map = build-is_object L kvs object L.is_object-object;
          kind = response-message L n p v d u s h;
          accepted = app_info_of_json-response n p v d u s valid h;
          uri = response-reference_uri L n p v d u s h;
          name = a;
          provider = b;
          version = c;
          description = g;
          source = k;
        },
      )
