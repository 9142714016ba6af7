-- ===== src/AppContext.antt =====
-- EtsiMec/appcontext.cpp: the context of an application, as a request and as a response.
pub mod RoundTrip
pub mod Identified
use etsimec.Prelude.{
  Bool, true, false, not, ◌&&◌, ◌||◌, Str, str, empty, Outcome, ok, throw_if, assert, ◌>>=◌, ◌>>◌,
  if◌then◌else◌, [],
}
use etsimec.Rest.{Rest, check}
use etsimec.AppInfo.{
  Message, is_request, is_response, message, app_info_of_json, make_app_context_response,
}

-- `AppContext::Type`
pub data ContextType : Type 0 where
  request : ContextType
  response : ContextType

abbrev pub is_response_type : ContextType → Bool
is_response_type response = true
is_response_type request = false

abbrev pub wrong_app_info : ContextType → Message → Bool
wrong_app_info t m =
    (not (is_response_type t) && not (is_request m)) || (is_response_type t && not (is_response m))

module _ ⦃R : Rest⦄ where
  open R use {
    Value, object, set, has_string_field, has_object_field, at, thrower, report, set_if_not_empty,
    string_or_empty, not_empty, not_empty_if_present,
  }

  -- The private constructor, to which the two constructors from parts delegate.
  unfoldable pub app_context : Str → Str → Str → Value → ContextType → Outcome Value
  unfolding message
  app_context context_id ue_app_id callback info type = do
    let t0 = thrower (str "Invalid AppContext: ")
    let t1 = report t0 (is_response_type type && empty context_id) (str "contextId missing")
    let t2 = report t1 (empty ue_app_id) (str "associateUeAppId missing")
    m ← message info
    check (report t2 (wrong_app_info type m) (str "wrong appInfo structure used"))
    let o1 = set_if_not_empty object (str "contextId") context_id false
    let o2 = set_if_not_empty o1 (str "associateUeAppId") ue_app_id false
    let o3 = set_if_not_empty o2 (str "callbackReference") callback false
    ok (set o3 (str "appInfo") info)

  unfoldable pub app_context_request : Str → Str → Value → Outcome Value
  unfolding app_context
  app_context_request ue_app_id callback info = app_context [] ue_app_id callback info request

  unfoldable pub app_context_response : Str → Str → Str → Value → Outcome Value
  unfolding app_context
  app_context_response context_id ue_app_id callback info =
      app_context context_id ue_app_id callback info response

  unfoldable pub context_checks : Value → R.Thrower
  context_checks json =
      let t1 = not_empty_if_present json (str "contextId") (thrower (str "Invalid AppContext: ")) in
      let t2 = not_empty json (str "associateUeAppId") t1 in
      report t2 (not (has_object_field json (str "appInfo"))) (str "missing appInfo")

  -- The constructor from JSON.
  unfoldable pub app_context_of_json : Value → Outcome Value
  unfolding context_checks app_info_of_json
  app_context_of_json json = do
    check (context_checks json)
    v ← at json (str "appInfo")
    info ← app_info_of_json v
    ok json

  unfoldable pub context_id : Value → Str
  context_id o = string_or_empty o (str "contextId")

  unfoldable pub associate_ue_app_id : Value → Outcome Str
  associate_ue_app_id o = do
    let ret = string_or_empty o (str "associateUeAppId")
    assert (not (empty ret))
    ok ret

  unfoldable pub callback_reference : Value → Str
  callback_reference o = string_or_empty o (str "callbackReference")

  unfoldable pub app_info : Value → Outcome Value
  unfolding app_info_of_json
  app_info o = do
    assert (has_object_field o (str "appInfo"))
    v ← at o (str "appInfo")
    app_info_of_json v

  -- The assert reads `message()` once on each of its two branches.
  unfoldable pub type : Value → Outcome ContextType
  unfolding app_info message
  type o = do
    let has = has_string_field o (str "contextId")
    info ← app_info o
    m ← message info
    assert ((not has && is_request m) || (has && is_response m))
    ok (if has then response else request)

  unfoldable pub make_response : Value → Str → Str → Outcome Value
  unfolding type associate_ue_app_id callback_reference app_info make_app_context_response
      app_context_response
  make_response o id uri = do
    t ← type o
    throw_if (is_response_type t) (str "Invalid AppContext structure type")
    throw_if (empty id) (str "contextId cannot be empty")
    throw_if (empty uri) (str "referenceURI cannot be empty")
    ue_app_id ← associate_ue_app_id o
    info ← app_info o
    response_info ← make_app_context_response info uri
    app_context_response id ue_app_id (callback_reference o) response_info
