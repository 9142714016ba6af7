-- ===== src/Grpc/Lambda.antt =====
-- `addLambda` and `delLambda` of EtsiMec/grpcueapplcmproxy.cpp: what becomes of the applications.
use etsimec.Prelude.{
  true, false, Str, str, length, ltb, ok, throws, List, [], ◌∷◌, ◌++◌, if◌then◌else◌, Str-eq,
  Str-discrete, ◌≡◌, ◌≢◌, refl, arith, inl, inr, Option-cases, Bool-cases,
}
use etsimec.Prelude.Dict.{lookup, erase, erase-absent}
use etsimec.Prelude.OrderedDict.{insert_ordered}
use etsimec.Rest.{Rest, check}
use etsimec.Rest.Laws.{IsLawful, passes}
use etsimec.Rest.Build.{build, build-is_object, string_or_empty-set_object}
use etsimec.AppCharcs.{not_required, no_app_charcs}
use etsimec.AppCharcs.RoundTrip.{app_charcs-is_object}
use etsimec.AppInfo.{
  app_info_list, app_info_of_json, common_checks, common_fields, app_name, app_provider,
  app_soft_version,
}
use etsimec.AppInfo.Laws.{
  valid_tests, passes-common_checks, check-ok, mandatory_lem, built, or_empty,
}
use etsimec.AppInfo.Listed.{app_info_of_json-list}
use etsimec.LcmProxy.{Applications, mangle}
use etsimec.LcmProxy.Laws.{add_app-mangled, del_app-mangled}
use etsimec.Grpc.{lambda_info, add_lambda, del_lambda, catch_all}

abbrev lambda_fields : Str → List (Str × Str)
lambda_fields name =
    (str "appName", name)
    ∷ (str "appProvider", str "OpenLambdaMec")
    ∷ (str "appSoftVersion", str "1.0")
    ∷ (str "appDescription", [])
    ∷ []

-- The key of a lambda function among the applications.
abbrev pub lambda_key : Str → Str
lambda_key name = name ++ str "+OpenLambdaMec+1.0"

module _ ⦃R : Rest⦄ where
  open R use {Value, object, set, is_object}

  -- The application of a lambda function whose name is not too long.
  abbrev pub lambda_value : Str → Value
  lambda_value name = set (build (lambda_fields name) object) (str "appCharcs") no_app_charcs

  module _ (L : IsLawful R) where
    no_app_charcs-is_object : is_object no_app_charcs ≡ true
    unfolding no_app_charcs
    no_app_charcs-is_object = app_charcs-is_object L 0 0 0 0 not_required

    check-throws : (t : R.Thrower) → passes t ≡ false → (why : Str) × (check t ≡ throws why)
    check-throws t h = elim (Option-cases (R.errors t)) [
      | inl quiet ↦ absurd (ground arith)
      | inr (why, told) ↦ (why, ground arith)
    ]

    lambda_info-short :
        (name : Str)
        → name ≢ []
        → ltb 32 (length name) ≡ false
        → lambda_info name ≡ ok (lambda_value name)
    unfolding lambda_info app_info_list common_fields valid_tests
    lambda_info-short name n short =
        let t =
          common_checks name (str "OpenLambdaMec") (str "1.0") []
            (R.thrower (str "Invalid AppInfo: ")) in
        let tests =
          passes-common_checks L name (str "OpenLambdaMec") (str "1.0") []
            (R.thrower (str "Invalid AppInfo: ")) in
        let begun = L.passes-thrower (str "Invalid AppInfo: ") in
        let accepted : passes t ≡ true = ground arith in rw (check-ok L t accepted) refl

    lambda_info-long :
        (name : Str) → ltb 32 (length name) ≡ true → (why : Str) × (lambda_info name ≡ throws why)
    unfolding lambda_info app_info_list valid_tests
    lambda_info-long name long =
        let t =
          common_checks name (str "OpenLambdaMec") (str "1.0") []
            (R.thrower (str "Invalid AppInfo: ")) in
        let tests =
          passes-common_checks L name (str "OpenLambdaMec") (str "1.0") []
            (R.thrower (str "Invalid AppInfo: ")) in
        let refused : passes t ≡ false = ground arith in
        let (why, thrown) = check-throws t refused in (why, rw thrown refl)

    -- A client that reads the application of a lambda function from a list accepts it.
    pub app_info_of_json-lambda_value :
        (name : Str)
        → name ≢ []
        → ltb 32 (length name) ≡ false
        → app_info_of_json (lambda_value name) ≡ ok (lambda_value name)
    unfolding lambda_info no_app_charcs
    app_info_of_json-lambda_value name n short =
        (app_info_of_json-list L name (str "OpenLambdaMec") (str "1.0") [] 0 0 0 0 not_required
          (lambda_value name) (lambda_info-short name n short)).0

    mangle-lambda_value :
        (name : Str) → name ≢ [] → mangle (lambda_value name) ≡ ok (lambda_key name)
    unfolding mangle app_name app_provider app_soft_version Str-discrete
    mangle-lambda_value name n =
        let kvs = lambda_fields name in
        let is_map = build-is_object L kvs object L.is_object-object in
        let o = lambda_value name in
        let other = λ (j : Str).
          string_or_empty-set_object L (build kvs object) no_app_charcs (str "appCharcs") j is_map
            no_app_charcs-is_object in
        let a =
          mandatory_lem L o (str "appName") name
            (rw (other (str "appName") refl) (built L kvs (str "appName") name (or_empty L name)))
            n in
        let b =
          mandatory_lem L o (str "appProvider") (str "OpenLambdaMec")
            (rw (other (str "appProvider") refl) (built L kvs (str "appProvider") _ refl))
            (λ e. cc) in
        let c : app_soft_version o ≡ str "1.0" =
          rw (other (str "appSoftVersion") refl) (built L kvs (str "appSoftVersion") _ refl) in
        rw (a, b, c) refl

  -- What the service makes of the applications.
  abbrev pub with_lambda : Str → Applications → Applications
  with_lambda name apps =
      if ltb 32 (length name)
      then apps
      else insert_ordered (lambda_key name) (lambda_value name) apps

  abbrev pub without_lambda : Str → Applications → Applications
  without_lambda name apps = if ltb 32 (length name) then apps else erase (lambda_key name) apps

  module _ (L : IsLawful R) where
    pub add_lambda-with_lambda :
        (name : Str) (apps : Applications)
        → name ≢ []
        → add_lambda name apps ≡ ok (with_lambda name apps)
    unfolding add_lambda catch_all
    add_lambda-with_lambda [] apps n = absurd (n refl)
    add_lambda-with_lambda (x ∷ xs) apps n =
        let name : Str = x ∷ xs in
        elim (Bool-cases (ltb 32 (length name))) [
          | inl long ↦ let (why, e) = lambda_info-long L name long in ground arith
          | inr short ↦
              let e = lambda_info-short L name n short in
              let added =
                add_app-mangled (lambda_value name) (lambda_key name) apps
                  (mangle-lambda_value L name n) in
              ground arith
        ]

    pub del_lambda-without_lambda :
        (name : Str) (apps : Applications)
        → name ≢ []
        → del_lambda name apps ≡ ok (without_lambda name apps)
    unfolding del_lambda catch_all
    del_lambda-without_lambda [] apps n = absurd (n refl)
    del_lambda-without_lambda (x ∷ xs) apps n =
        let name : Str = x ∷ xs in
        elim (Bool-cases (ltb 32 (length name))) [
          | inl long ↦ let (why, e) = lambda_info-long L name long in ground arith
          | inr short ↦
              let e = lambda_info-short L name n short in
              let removed =
                del_app-mangled (lambda_value name) (lambda_key name) apps
                  (mangle-lambda_value L name n) in
              let absent = erase-absent (lambda_key name) apps in
              elim (Option-cases (lookup (lambda_key name) apps)) [
                | inl none_there ↦ ground arith
                | inr (old, there) ↦ ground arith
              ]
        ]
