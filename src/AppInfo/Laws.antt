-- ===== src/AppInfo/Laws.antt =====
-- The constructors of `AppInfo` and its accessors, over a lawful REST library.
use etsimec.Prelude.{
  ◌≤◌, Bool, true, false, not, ◌&&◌, Str, str, empty, length, ltb, ok, ◌>>=◌, returned, List, [],
  ◌∷◌, if◌then◌else◌, Str-eq, Str-discrete, ◌≡◌, ◌≢◌, refl, arith, ◌↔◌,
}
use etsimec.Rest.{Rest, check}
use etsimec.Rest.Laws.{IsLawful, passes}
use etsimec.Rest.Build.{
  value_of, build, string_or_empty-build, has_string_field-build, has_object_field-build,
}
use etsimec.AppInfo.{
  app_context_request, app_context_response, common_checks, app_info_request, message, mandatory,
}

-- What the constructors demand of their common arguments.
pub record IsValidInfo (name provider version description : Str) : Type 0 where
  pub named : name ≢ []
  pub provided : provider ≢ []
  pub short_name : length name ≤ 32
  pub short_provider : length provider ≤ 32
  pub short_version : length version ≤ 32
  pub short_description : length description ≤ 128

abbrev pub request_fields : Str → Str → Str → Str → Str → List (Str × Str)
request_fields n p v d s =
    (str "appName", n)
    ∷ (str "appProvider", p)
    ∷ (str "appSoftVersion", v)
    ∷ (str "appDescription", d)
    ∷ (str "appPackageSource", s)
    ∷ []

abbrev pub response_fields : Str → Str → Str → Str → Str → Str → List (Str × Str)
response_fields n p v d u s =
    (str "appName", n)
    ∷ (str "appProvider", p)
    ∷ (str "appSoftVersion", v)
    ∷ (str "appDescription", d)
    ∷ (str "referenceURI", u)
    ∷ (str "appPackageSource", s)
    ∷ []

module _ ⦃R : Rest⦄ (L : IsLawful R) where
  open R use {Value, object, string_or_empty, has_string_field, has_object_field}

  unfoldable pub valid_tests : Str → Str → Str → Str → Bool
  valid_tests n p v d =
      not (empty n)
      && not (empty p)
      && not (ltb 32 (length n))
      && not (ltb 32 (length p))
      && not (ltb 32 (length v))
      && not (ltb 128 (length d))

  pub valid_tests_iff : (n p v d : Str) → (valid_tests n p v d ≡ true) ↔ IsValidInfo n p v d
  unfolding valid_tests
  valid_tests_iff n p v d = (λ h. ground arith, λ h. ground arith)

  pub passes-common_checks :
      (n p v d : Str) (t : R.Thrower)
      → passes (common_checks n p v d t) ≡ (passes t && valid_tests n p v d)
  unfolding common_checks valid_tests
  passes-common_checks n p v d t = simp L.passes-report (ground arith)

  pub check-ok : (t : R.Thrower) → passes t ≡ true → check t ≡ ok tt
  check-ok t h = ground arith

  pub passes_of_check : (t : R.Thrower) {u : Unit {0}} → check t ≡ ok u → passes t ≡ true
  passes_of_check t h = ground arith

  pub app_info_request-build :
      (n p v d s : Str)
      → app_info_request n p v d s ≡ (
          check (common_checks n p v d (R.thrower (str "Invalid AppInfo: "))) >>= λ _.
          ok (build (request_fields n p v d s) object))
  unfolding app_info_request
  app_info_request-build n p v d s = refl

  -- Over a lawful REST library, the constructor of a request accepts the arguments with a name and
  -- a provider and no text that is too long, and no others.
  pub app_info_request-accepts :
      (n p v d s : Str) → ((o : Value) × (app_info_request n p v d s ≡ ok o)) ↔ IsValidInfo n p v d
  app_info_request-accepts n p v d s =
      let t = common_checks n p v d (R.thrower (str "Invalid AppInfo: ")) in
      let tests = passes-common_checks n p v d (R.thrower (str "Invalid AppInfo: ")) in
      let start = L.passes-thrower (str "Invalid AppInfo: ") in
      (
        λ (o, e).
            let (u, checked, rest) =
              returned _ (check t) (rw (app_info_request-build n p v d s) at e) in
            (valid_tests_iff n p v d).0 (ground (arith, passes_of_check t checked)),
        λ valid. (
          build (request_fields n p v d s) object,
          rw
              (
                app_info_request-build n p v d s,
                check-ok t (ground (arith, (valid_tests_iff n p v d).1 valid)),
              )
              refl,
        ),
      )

  string_or_empty-object : (k : Str) → string_or_empty object k ≡ []
  string_or_empty-object k = L.string_or_empty-absent object k (L.has_string_field-object k)

  -- The text fields of an object.
  pub record Describes (o : Value) (n p v d s : Str) : Type 0 where
    pub name : string_or_empty o (str "appName") ≡ n
    pub provider : string_or_empty o (str "appProvider") ≡ p
    pub version : string_or_empty o (str "appSoftVersion") ≡ v
    pub description : string_or_empty o (str "appDescription") ≡ d
    pub package_source : string_or_empty o (str "appPackageSource") ≡ s

  pub built :
      (kvs : List (Str × Str)) (j s : Str)
      → value_of j kvs [] ≡ s
      → string_or_empty (build kvs object) j ≡ s
  built kvs j s h =
      rw (string_or_empty-build L kvs object j L.is_object-object, string_or_empty-object j) h

  pub or_empty : (s : Str) → (if not (empty s) then s else []) ≡ s
  or_empty [] = refl
  or_empty (c ∷ s) = refl

  pub request-Describes :
      (n p v d s : Str) → Describes (build (request_fields n p v d s) object) n p v d s
  unfolding Str-discrete
  request-Describes n p v d s =
      let kvs = request_fields n p v d s in
      record {
        name = built kvs (str "appName") n (or_empty n);
        provider = built kvs (str "appProvider") p (or_empty p);
        version = built kvs (str "appSoftVersion") v (or_empty v);
        description = built kvs (str "appDescription") d (or_empty d);
        package_source = built kvs (str "appPackageSource") s (or_empty s);
      }

  pub response-Describes :
      (n p v d u s : Str) → Describes (build (response_fields n p v d u s) object) n p v d s
  unfolding Str-discrete
  response-Describes n p v d u s =
      let kvs = response_fields n p v d u s in
      record {
        name = built kvs (str "appName") n (or_empty n);
        provider = built kvs (str "appProvider") p (or_empty p);
        version = built kvs (str "appSoftVersion") v (or_empty v);
        description = built kvs (str "appDescription") d (or_empty d);
        package_source = built kvs (str "appPackageSource") s (or_empty s);
      }

  pub present :
      (o : Value) (k s : Str) → string_or_empty o k ≡ s → s ≢ [] → has_string_field o k ≡ true
  present o k s e h = ground (arith, L.string_or_empty-absent o k)

  pub mandatory_lem :
      (o : Value) (k s : Str) → string_or_empty o k ≡ s → s ≢ [] → mandatory k o ≡ ok s
  unfolding mandatory
  mandatory_lem o k s e h = ground (arith, present o k s e h, L.string_or_empty-present o k)

  -- The message of an object without characteristics is told by its reference URI.
  pub request-message :
      (n p v d s : Str) → message (build (request_fields n p v d s) object) ≡ ok app_context_request
  unfolding message Str-discrete
  request-message n p v d s =
      let kvs = request_fields n p v d s in
      ground (
        arith,
        has_object_field-build L kvs object (str "appCharcs") L.is_object-object,
        has_string_field-build L kvs object (str "referenceURI") L.is_object-object,
        L.has_object_field-object (str "appCharcs"),
        L.has_string_field-object (str "referenceURI"),
      )

  pub response-message :
      (n p v d u s : Str)
      → u ≢ []
      → message (build (response_fields n p v d u s) object) ≡ ok app_context_response
  unfolding message Str-discrete
  response-message n p v d u s h =
      let kvs = response_fields n p v d u s in
      ground (
        arith,
        has_object_field-build L kvs object (str "appCharcs") L.is_object-object,
        has_string_field-build L kvs object (str "referenceURI") L.is_object-object,
        L.has_object_field-object (str "appCharcs"),
      )

  pub request-flags :
      (n p v d s : Str)
      → let o = build (request_fields n p v d s) object in
        (has_object_field o (str "appCharcs") ≡ false)
        × (has_string_field o (str "referenceURI") ≡ false)
  unfolding Str-discrete
  request-flags n p v d s =
      let kvs = request_fields n p v d s in
      (
        rw (has_object_field-build L kvs object (str "appCharcs") L.is_object-object)
            (L.has_object_field-object (str "appCharcs")),
        rw (has_string_field-build L kvs object (str "referenceURI") L.is_object-object)
            (L.has_string_field-object (str "referenceURI")),
      )
