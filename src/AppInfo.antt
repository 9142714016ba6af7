-- ===== src/AppInfo.antt =====
-- EtsiMec/appinfo.cpp: the application information, in its three forms. The asserts are those of a
-- build without NDEBUG.
pub mod Laws
pub mod RoundTrip
pub mod Accepts
pub mod Listed
use etsimec.Prelude.{
  Bool, true, false, not, ◌&&◌, Str, str, empty, length, ltb, Outcome, ok, throw_if, assert, ◌>>=◌,
  ◌>>◌, if◌then◌else◌, [], ◌∷◌, ◌++◌, concat,
}
use etsimec.Rest.{Rest, check}
use etsimec.AppCharcs.{app_charcs_of_json}

-- `AppInfo::Message`
pub data Message : Type 0 where
  app_context_request : Message
  app_context_response : Message
  application_list : Message

abbrev pub is_request : Message → Bool
is_request app_context_request = true
is_request _ = false

abbrev pub is_response : Message → Bool
is_response app_context_response = true
is_response _ = false

abbrev pub is_list : Message → Bool
is_list application_list = true
is_list _ = false

-- `toString(const AppInfo::Message)`
unfoldable pub message_to_string : Message → Str
message_to_string app_context_request = str "AppContext (request)"
message_to_string app_context_response = str "AppContext (response)"
message_to_string application_list = str "ApplicationList"

module _ ⦃R : Rest⦄ where
  open R use {
    Value, object, set, has_string_field, has_object_field, at, as_string, thrower, report,
    set_if_not_empty, string_or_empty, not_empty, too_long,
  }

  -- The checks of `commonSetup`, which add to a `Thrower`.
  unfoldable pub common_checks : Str → Str → Str → Str → R.Thrower → R.Thrower
  common_checks name provider version description t0 =
      let t1 = report t0 (empty name) (str "appName missing") in
      let t2 = report t1 (empty provider) (str "appProvider missing") in
      let t3 = report t2 (ltb 32 (length name)) (str "appName exceeds 32 characters") in
      let t4 = report t3 (ltb 32 (length provider)) (str "appProvider exceeds 32 characters") in
      let t5 = report t4 (ltb 32 (length version)) (str "appSoftVersion exceeds 32 characters") in
      report t5 (ltb 128 (length description)) (str "appDescription exceeds 128 characters")

  -- The fields that `commonSetup` sets.
  unfoldable pub common_fields : Str → Str → Str → Str → Value → Value
  common_fields name provider version description o0 =
      let o1 = set_if_not_empty o0 (str "appName") name false in
      let o2 = set_if_not_empty o1 (str "appProvider") provider false in
      let o3 = set_if_not_empty o2 (str "appSoftVersion") version false in
      set_if_not_empty o3 (str "appDescription") description false

  -- The constructor of a request.
  unfoldable pub app_info_request : Str → Str → Str → Str → Str → Outcome Value
  unfolding common_checks common_fields
  app_info_request name provider version description package_source = do
    check (common_checks name provider version description (thrower (str "Invalid AppInfo: ")))
    let o = common_fields name provider version description object
    ok (set_if_not_empty o (str "appPackageSource") package_source false)

  -- The constructor of a response.
  unfoldable pub app_info_response : Str → Str → Str → Str → Str → Str → Outcome Value
  unfolding common_checks common_fields
  app_info_response name provider version description reference_uri package_source = do
    let t0 = thrower (str "Invalid AppInfo: ")
    let t1 = report t0 (empty reference_uri) (str "referenceURI missing")
    check (common_checks name provider version description t1)
    let o1 = common_fields name provider version description object
    let o2 = set_if_not_empty o1 (str "referenceURI") reference_uri false
    ok (set_if_not_empty o2 (str "appPackageSource") package_source false)

  -- The constructor of an entry of an application list; `charcs` is an `AppCharcs` as JSON.
  unfoldable pub app_info_list : Str → Str → Str → Str → Value → Outcome Value
  unfolding common_checks common_fields
  app_info_list name provider version description charcs = do
    check (common_checks name provider version description (thrower (str "Invalid AppInfo: ")))
    ok (set (common_fields name provider version description object) (str "appCharcs") charcs)

  unfoldable pub json_checks : Value → R.Thrower
  json_checks json =
      let t1 = not_empty json (str "appName") (thrower (str "Invalid AppInfo: ")) in
      let t2 = not_empty json (str "appProvider") t1 in
      let t3 = too_long json (str "appName") 32 t2 in
      let t4 = too_long json (str "appProvider") 32 t3 in
      let t5 = too_long json (str "appSoftVersion") 32 t4 in
      let t6 = too_long json (str "appDescription") 128 t5 in
      let has_uri = has_string_field json (str "referenceURI") in
      let t7 =
        report t6 (has_uri && has_object_field json (str "appCharcs"))
          (str "referenceURI and appCharcs cannot be both present in AppInfo") in
      if has_uri then not_empty json (str "referenceURI") t7 else t7

  check_app_charcs : Value → Outcome (Unit {0})
  check_app_charcs json = elim (has_object_field json (str "appCharcs")) [
    | true ↦ do charcs ← at json (str "appCharcs"); parsed ← app_charcs_of_json charcs; ok tt
    | false ↦ ok tt
  ]

  -- The constructor from JSON.
  unfoldable pub app_info_of_json : Value → Outcome Value
  unfolding json_checks check_app_charcs
  app_info_of_json json = do check (json_checks json); check_app_charcs json; ok json

  unfoldable pub message : Value → Outcome Message
  message o =
      if has_object_field o (str "appCharcs")
      then (do assert (not (has_string_field o (str "referenceURI"))); ok application_list)
      else if has_string_field o (str "referenceURI")
      then ok app_context_response
      else ok app_context_request

  -- `theObject.as_object().at(key).as_string()` after `assert(theObject.has_string_field(key))`
  unfoldable pub mandatory : Str → Value → Outcome Str
  mandatory key o = do assert (has_string_field o key); v ← at o key; as_string v

  unfoldable pub app_name : Value → Outcome Str
  unfolding mandatory
  app_name o = mandatory (str "appName") o

  unfoldable pub app_provider : Value → Outcome Str
  unfolding mandatory
  app_provider o = mandatory (str "appProvider") o

  unfoldable pub app_soft_version : Value → Str
  app_soft_version o = string_or_empty o (str "appSoftVersion")

  unfoldable pub app_description : Value → Str
  app_description o = string_or_empty o (str "appDescription")

  unfoldable pub app_package_source : Value → Str
  app_package_source o = string_or_empty o (str "appPackageSource")

  unfoldable pub reference_uri : Value → Outcome Str
  unfolding message mandatory
  reference_uri o = do
    m ← message o
    throw_if (not (is_response m)) (str "This message type does not have a referenceURI field")
    mandatory (str "referenceURI") o

  unfoldable pub make_app_context_response : Value → Str → Outcome Value
  unfolding message app_name app_provider app_soft_version app_description app_package_source
      app_info_response
  make_app_context_response o uri = do
    m ← message o
    throw_if (not (is_request m)) (str "Invalid AppContext structure type")
    throw_if (empty uri) (str "referenceURI cannot be empty")
    name ← app_name o
    provider ← app_provider o
    app_info_response name provider (app_soft_version o) (app_description o) uri
        (app_package_source o)

  unfoldable pub make_app_context_request : Value → Str → Outcome Value
  unfolding message app_name app_provider app_soft_version app_description app_info_request
  make_app_context_request o package_source = do
    m ← message o
    throw_if (not (is_list m)) (str "Invalid ApplicationList structure type")
    name ← app_name o
    provider ← app_provider o
    app_info_request name provider (app_soft_version o) (app_description o) package_source

  -- `operator<<`
  unfoldable pub app_info_to_string : Value → Outcome Str
  unfolding message app_name app_provider app_soft_version app_description app_package_source
      message_to_string
  app_info_to_string o = do
    name ← app_name o
    provider ← app_provider o
    m ← message o
    let fields =
        str "appName "
        ∷ name
        ∷ str ", "
        ∷ str "appProvider "
        ∷ provider
        ∷ str ", "
        ∷ str "appSoftVersion "
        ∷ app_soft_version o
        ∷ str ", "
        ∷ str "appDescription "
        ∷ app_description o
        ∷ str ", "
        ∷ str "appPackageSource "
        ∷ app_package_source o
        ∷ str ", "
        ∷ []
    ok (concat fields ++ message_to_string m)
