-- ===== src/AppInfo/Listed.antt =====
-- An entry of an application list: what is read of it, and the request that a client makes of it.
use etsimec.Prelude.{
  ℕ, true, false, Str, str, ok, List, [], ◌∷◌, ◌==◌, ◌∙◌, Str-eq, Str-discrete, ◌≡◌, refl, arith,
  returned,
}
use etsimec.Rest.{Rest, check}
use etsimec.Rest.Laws.{IsLawful}
use etsimec.Rest.Build.{build, build-is_object, string_or_empty-set_object, has_string_field-build}
use etsimec.AppCharcs.{ServiceCont, app_charcs}
use etsimec.AppCharcs.RoundTrip.{app_charcs-is_object, app_charcs_of_json-app_charcs}
use etsimec.AppInfo.{
  application_list, common_checks, app_info_request, app_info_list, message, app_name, app_provider,
  app_soft_version, app_description, app_info_of_json, make_app_context_request,
}
use etsimec.AppInfo.Laws.{
  IsValidInfo, valid_tests_iff, passes-common_checks, passes_of_check, check-ok, Describes, built,
  or_empty, app_info_request-accepts,
}
use etsimec.AppInfo.RoundTrip.{Describes-accessors, passes-json_checks}

abbrev list_fields : Str → Str → Str → Str → List (Str × Str)
list_fields n p v d =
    (str "appName", n)
    ∷ (str "appProvider", p)
    ∷ (str "appSoftVersion", v)
    ∷ (str "appDescription", d)
    ∷ []

module _ ⦃R : Rest⦄ (L : IsLawful R) where
  open R use {Value, object, set, is_object, has_string_field, has_object_field, string_or_empty}

  abbrev entry : Str → Str → Str → Str → Value → Value
  entry n p v d charcs = set (build (list_fields n p v d) object) (str "appCharcs") charcs

  app_info_list-ok :
      (n p v d : Str) (charcs o : Value)
      → app_info_list n p v d charcs ≡ ok o
      → IsValidInfo n p v d × (o ≡ entry n p v d charcs)
  unfolding app_info_list
  app_info_list-ok n p v d charcs o e =
      let t0 = R.thrower (str "Invalid AppInfo: ") in
      let t = common_checks n p v d t0 in
      let tests = passes-common_checks L n p v d t0 in
      let (u, checked, rest) = returned _ (check t) e in
      ((valid_tests_iff L n p v d).0 (ground (arith, passes_of_check L t checked)), ground arith)

  entry-text :
      (n p v d : Str) (charcs : Value) (j s : Str)
      → is_object charcs ≡ true
      → (str "appCharcs" == j) ≡ false
      → string_or_empty (build (list_fields n p v d) object) j ≡ s
      → string_or_empty (entry n p v d charcs) j ≡ s
  entry-text n p v d charcs j s h k e =
      string_or_empty-set_object L (build (list_fields n p v d) object) charcs (str "appCharcs") j
        (build-is_object L (list_fields n p v d) object L.is_object-object) h k
      ∙ e

  entry-Describes :
      (n p v d : Str) (charcs : Value)
      → is_object charcs ≡ true
      → Describes L (entry n p v d charcs) n p v d []
  unfolding Str-discrete
  entry-Describes n p v d charcs h =
      let kvs = list_fields n p v d in
      let text = entry-text n p v d charcs in
      record {
        name = text (str "appName") n h refl (built L kvs (str "appName") n (or_empty L n));
        provider =
            text (str "appProvider") p h refl (built L kvs (str "appProvider") p (or_empty L p));
        version =
            text (str "appSoftVersion") v h refl
              (built L kvs (str "appSoftVersion") v (or_empty L v));
        description =
            text (str "appDescription") d h refl
              (built L kvs (str "appDescription") d (or_empty L d));
        package_source =
            text (str "appPackageSource") [] h refl (built L kvs (str "appPackageSource") [] refl);
      }

  entry-flags :
      (n p v d : Str) (charcs : Value)
      → is_object charcs ≡ true
      → (has_object_field (entry n p v d charcs) (str "appCharcs") ≡ true)
        × (has_string_field (entry n p v d charcs) (str "referenceURI") ≡ false)
        × (R.at (entry n p v d charcs) (str "appCharcs") ≡ ok charcs)
  unfolding Str-discrete
  entry-flags n p v d charcs h =
      let kvs = list_fields n p v d in
      let o = build kvs object in
      let is_map = build-is_object L kvs object L.is_object-object in
      (
        L.has_object_field-set o charcs (str "appCharcs") (str "appCharcs") is_map ∙ h,
        L.has_string_field-set o charcs (str "appCharcs") (str "referenceURI") is_map
            ∙ has_string_field-build L kvs object (str "referenceURI") L.is_object-object
            ∙ L.has_string_field-object (str "referenceURI"),
        L.at-set o charcs (str "appCharcs") (str "appCharcs") is_map,
      )

  -- An entry of a list with constructed characteristics is accepted by the constructor from JSON,
  -- which keeps it; its message is that of a list, and its accessors give back the arguments.
  pub app_info_of_json-list :
      (n p v d : Str) (m s l b : ℕ) (c : ServiceCont) (o : Value)
      → app_info_list n p v d (app_charcs m s l b c) ≡ ok o
      → (app_info_of_json o ≡ ok o)
        × (message o ≡ ok application_list)
        × (app_name o ≡ ok n)
        × (app_provider o ≡ ok p)
        × (app_soft_version o ≡ v)
        × (app_description o ≡ d)
  unfolding app_info_of_json message
  app_info_of_json-list n p v d m s l b c o e =
      let charcs = app_charcs m s l b c in
      let (valid, same) = app_info_list-ok n p v d charcs o e in
      let is_map = app_charcs-is_object L m s l b c in
      let (listed, uri, there) = entry-flags n p v d charcs is_map in
      let r = entry-Describes n p v d charcs is_map in
      let (name, provider, version, description, source) =
        Describes-accessors L _ n p v d [] r valid in
      let checked = check-ok L _ (passes-json_checks L _ n p v d [] r valid uri) in
      let parsed = app_charcs_of_json-app_charcs L m s l b c in
      rw same
        (rw checked (ground (arith, listed)), ground arith, name, provider, version, description)

  -- Over a lawful REST library, an entry of a list with constructed characteristics is accepted by
  -- the constructor from JSON, which keeps it; its message is that of a list; and
  -- `makeAppContextRequest` makes the request of it that the constructor of a request makes of the
  -- same texts and the package source.
  pub make_app_context_request-list :
      (n p v d source : Str) (m s l b : ℕ) (c : ServiceCont) (o : Value)
      → app_info_list n p v d (app_charcs m s l b c) ≡ ok o
      → (app_info_of_json o ≡ ok o)
        × (message o ≡ ok application_list)
        × (r : Value) × (make_app_context_request o source ≡ ok r)
        × (app_info_request n p v d source ≡ ok r)
  unfolding make_app_context_request
  make_app_context_request-list n p v d source m s l b c o e =
      let (valid, same) = app_info_list-ok n p v d (app_charcs m s l b c) o e in
      let (r, made) = (app_info_request-accepts L n p v d source).1 valid in
      let (read, listed, name, provider, version, description) =
        app_info_of_json-list n p v d m s l b c o e in
      (read, listed, r, ground arith, made)
