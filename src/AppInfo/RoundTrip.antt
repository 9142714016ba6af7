-- ===== src/AppInfo/RoundTrip.antt =====
-- What goes into an `AppInfo` comes out of it: through the accessors, through the response made
-- from a request, and through JSON.
use etsimec.Prelude.{
  true, false, Str, str, empty, ok, [], Str-eq, Str-discrete, ◌≡◌, ◌≢◌, refl, arith,
}
use etsimec.Rest.{Rest}
use etsimec.Rest.Laws.{IsLawful, passes}
use etsimec.Rest.Build.{build}
use etsimec.AppInfo.{
  app_context_request, app_context_response, common_checks, app_info_request, app_info_response,
  message, app_name, app_provider, app_soft_version, app_description, app_package_source,
  reference_uri, make_app_context_response, app_info_of_json, json_checks,
}
use etsimec.AppInfo.Laws.{
  IsValidInfo, request_fields, response_fields, valid_tests_iff, passes-common_checks, check-ok,
  Describes, request-Describes, response-Describes, request-message, response-message,
  request-flags, mandatory_lem, app_info_request-accepts, built, or_empty,
}

module _ ⦃R : Rest⦄ (L : IsLawful R) where
  open R use {Value, object, string_or_empty, has_string_field, has_object_field}

  pub app_info_request-ok :
      (n p v d s : Str) (o : Value)
      → app_info_request n p v d s ≡ ok o
      → IsValidInfo n p v d × (o ≡ build (request_fields n p v d s) object)
  unfolding app_info_request
  app_info_request-ok n p v d s o e =
      ((app_info_request-accepts L n p v d s).0 (o, e), ground arith)

  pub Describes-accessors :
      (o : Value) (n p v d s : Str)
      → Describes L o n p v d s
      → IsValidInfo n p v d
      → (app_name o ≡ ok n)
        × (app_provider o ≡ ok p)
        × (app_soft_version o ≡ v)
        × (app_description o ≡ d)
        × (app_package_source o ≡ s)
  unfolding app_name app_provider app_soft_version app_description app_package_source
  Describes-accessors o n p v d s r valid = (
    mandatory_lem L o (str "appName") n r.name valid.named,
    mandatory_lem L o (str "appProvider") p r.provider valid.provided,
    r.version,
    r.description,
    r.package_source,
  )

  -- The accessors of a request give back the arguments of its constructor, and its message is that
  -- of a request.
  pub app_info_request-fields :
      (n p v d s : Str) (o : Value)
      → app_info_request n p v d s ≡ ok o
      → (message o ≡ ok app_context_request)
        × (app_name o ≡ ok n)
        × (app_provider o ≡ ok p)
        × (app_soft_version o ≡ v)
        × (app_description o ≡ d)
        × (app_package_source o ≡ s)
  app_info_request-fields n p v d s o e =
      let (valid, same) = app_info_request-ok n p v d s o e in
      let (a, b, c, g, h) = Describes-accessors _ n p v d s (request-Describes L n p v d s) valid in
      rw same (request-message L n p v d s, a, b, c, g, h)

  pub app_info_response-ok :
      (n p v d u s : Str)
      → IsValidInfo n p v d
      → u ≢ []
      → app_info_response n p v d u s ≡ ok (build (response_fields n p v d u s) object)
  unfolding app_info_response
  app_info_response-ok n p v d u s valid h =
      let t =
        R.report (R.thrower (str "Invalid AppInfo: ")) (empty u) (str "referenceURI missing") in
      rw
        (check-ok L (common_checks n p v d t) (
          ground (
            arith,
            passes-common_checks L n p v d t,
            (valid_tests_iff L n p v d).1 valid,
            L.passes-report (R.thrower (str "Invalid AppInfo: ")) (empty u)
                (str "referenceURI missing"),
            L.passes-thrower (str "Invalid AppInfo: "),
          )))
        refl

  pub response-reference_uri :
      (n p v d u s : Str)
      → u ≢ []
      → reference_uri (build (response_fields n p v d u s) object) ≡ ok u
  unfolding reference_uri Str-discrete
  response-reference_uri n p v d u s h =
      let kvs = response_fields n p v d u s in
      rw (response-message L n p v d u s h) (
        mandatory_lem L _ (str "referenceURI") u (built L kvs (str "referenceURI") u (or_empty L u))
          h)

  -- Over a lawful REST library, from a request and a reference URI that is not empty,
  -- `makeAppContextResponse` makes a response with that URI and the other fields of the request.
  pub make_app_context_response-request :
      (n p v d s u : Str) (o : Value)
      → app_info_request n p v d s ≡ ok o
      → u ≢ []
      → (r : Value) × (make_app_context_response o u ≡ ok r)
        × (message r ≡ ok app_context_response)
        × (reference_uri r ≡ ok u)
        × (app_name r ≡ ok n)
        × (app_provider r ≡ ok p)
        × (app_soft_version r ≡ v)
        × (app_description r ≡ d)
        × (app_package_source r ≡ s)
  unfolding make_app_context_response
  make_app_context_response-request n p v d s u o e h =
      let (valid, same) = app_info_request-ok n p v d s o e in
      let (m, name, provider, version, description, source) =
        app_info_request-fields n p v d s o e in
      let (a, b, c, g, k) =
        Describes-accessors _ n p v d s (response-Describes L n p v d u s) valid in
      (
        build (response_fields n p v d u s) object,
        ground (
          arith,
          m,
          name,
          provider,
          version,
          description,
          source,
          app_info_response-ok n p v d u s valid h,
        ),
        response-message L n p v d u s h,
        response-reference_uri n p v d u s h,
        a,
        b,
        c,
        g,
        k,
      )

  pub passes-json_checks :
      (o : Value) (n p v d s : Str)
      → Describes L o n p v d s
      → IsValidInfo n p v d
      → has_string_field o (str "referenceURI") ≡ false
      → passes (json_checks o) ≡ true
  unfolding json_checks
  passes-json_checks o n p v d s r valid h =
      rw (h, json_checks)
        (simp
          (
            L.passes-report, L.passes-too_long, L.passes-not_empty, L.passes-thrower, r.name,
            r.provider, r.version, r.description,
          )
          (ground (
            arith, valid.named, valid.provided, valid.short_name, valid.short_provider,
            valid.short_version, valid.short_description,
          )))

  -- Over a lawful REST library, the JSON of a request is accepted by the constructor from JSON,
  -- which keeps it.
  pub app_info_of_json-request :
      (n p v d s : Str) (o : Value) → app_info_request n p v d s ≡ ok o → app_info_of_json o ≡ ok o
  unfolding app_info_of_json
  app_info_of_json-request n p v d s o e =
      let (valid, same) = app_info_request-ok n p v d s o e in
      let (charcs, uri) = request-flags L n p v d s in
      let r = build (request_fields n p v d s) object in
      rw same (
        rw
          (check-ok L (json_checks r)
            (passes-json_checks r n p v d s (request-Describes L n p v d s) valid uri))
          (ground (arith, charcs)))
