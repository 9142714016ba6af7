-- ===== src/ContextManager.antt =====
-- EtsiMec/appcontextmanager.cpp: the contexts that a client has open, by UE application ID.
--
-- `theMutex` makes each access of the map one step. The random ID and what the proxy answers are
-- arguments, and so are `support::split` and `rest::safeProblemDetailsString`; what the notification
-- handler logs is left out.
pub mod Laws
use etsimec.Prelude.{
  ℕ, Bool, true, false, not, ◌||◌, Str, str, empty, Option, none, some, Outcome, ok, throws, aborts,
  eqb, assert, throw_if, ◌>>=◌, ◌>>◌, [], ◌∷◌, List, concat, ◌++◌, if◌then◌else◌, Str-eq,
}
use etsimec.Prelude.Dict.{Dict, lookup, insert}
use etsimec.Rest.{Rest}
use etsimec.AppInfo.{reference_uri, message, is_request, is_response}
use etsimec.AppContext.{
  is_response_type, type, context_id, app_info, app_context_request, app_context_of_json,
}

-- `AppContextManager::Desc`
pub record Desc : Type 0 where
  pub reference_uri : Str
  pub context_id : Str

pub record Manager : Type 0 where
  pub notification_uri : Str
  pub proxy_uri : Str
  pub contexts : Dict Str Desc

-- The constructor.
unfoldable pub manager : Str → Str → Manager
manager notification proxy = record {
  notification_uri = notification;
  proxy_uri = proxy;
  contexts = [];
}

unfoldable pub get_reference_uri : Str → Manager → Outcome Str
get_reference_uri id m = elim (lookup id m.contexts) [
  | some d ↦ ok d.reference_uri
  | none ↦ throws (str "Invalid UE application ID " ++ id)
]

-- What a DELETE gives, and what the destructor logs of it.
pub data Deletion : Type 0 where
  replied : ℕ → Deletion
  threw : Str → Deletion
  threw_other : Deletion

pub data Logged : Type 0 where
  deleted : Str → Logged
  refused : Str → ℕ → Logged
  exception : Str → Str → Logged
  unknown : Str → Logged

unfoldable pub log_deletion : Str → Deletion → Logged
log_deletion id (replied status) = if eqb status 204 then deleted id else refused id status
log_deletion id (threw why) = exception id why
log_deletion id threw_other = unknown id

-- The loop of the destructor, over the state of what answers the DELETEs: their URLs, each with what
-- is logged.
unfoldable pub close :
    {S : Type 0} → (Str → S → Deletion × S) → Str → Dict Str Desc → S → List (Str × Logged) × S
unfolding log_deletion
close del proxy [] s = ([], s)
close del proxy ((id, d) ∷ cs) s =
    let uri = concat (proxy ∷ str "/mx2/v1/app_contexts/" ∷ d.context_id ∷ []) in
    let answer = del uri s in
    let rest = close del proxy cs answer.1 in ((uri, log_deletion id answer.0) ∷ rest.0, rest.1)

-- The destructor.
unfoldable pub destroy :
    {S : Type 0} → (Str → S → Deletion × S) → Manager → S → List (Str × Logged) × S
destroy del m s = close del m.proxy_uri m.contexts s

-- `back()`
unfoldable pub last : List Str → Option Str
last [] = none
last (x ∷ xs) = elim (last xs) [ none ↦ some x | some y ↦ some y ]

-- `theContexts.emplace`: an entry that is there stays.
unfoldable pub open_context : Str → Desc → Manager → Manager
open_context id d m = elim (lookup id m.contexts) [
  | some old ↦ m
  | none ↦ record m { contexts = insert id d m.contexts }
]

-- The critical section of `handleNotification`.
unfoldable pub set_reference_uri : Str → Str → Manager → Outcome Manager
set_reference_uri id uri m = elim (lookup id m.contexts) [
  | some d ↦ ok (record m { contexts = insert id (record d { reference_uri = uri }) m.contexts })
  | none ↦ throws (str "Received notification for unknown UE application " ++ id)
]

module _ ⦃R : Rest⦄ where
  open R use {Value, is_object, has_string_field, at, as_string}

  -- The body of the POST that opens a context.
  unfoldable pub creation_request : Str → Value → Manager → Outcome Value
  creation_request id info m =
      app_context_request id (concat (m.notification_uri ∷ str "/" ∷ id ∷ [])) info

  -- What is stored of the response of the proxy.
  unfoldable pub read_creation : (Value → Str) → ℕ → Value → Outcome Desc
  read_creation problem_string status body = do
    throw_if (not (eqb status 201))
        (str "Invalid response from server upon creation of AppContext: " ++ problem_string body)
    response ← app_context_of_json body
    info ← app_info response
    t ← type response
    let invalid = str "Invalid body in the server response upon creation of AppContext"
    if not (is_response_type t) then throws invalid else (do
      m ← message info
      if not (is_response m) then throws invalid else (do
        uri ← reference_uri info
        ok (record { reference_uri = uri; context_id = context_id response })))

  -- `contextCreate`; `post` takes the URL and the body.
  unfoldable pub context_create :
      (Value → Str)
      → (Str → Value → Outcome (ℕ × Value))
      → Str
      → Value
      → Manager
      → Outcome ((Str × Str) × Manager)
  unfolding creation_request read_creation open_context
  context_create problem_string post id info m = do
    kind ← message info
    throw_if (not (is_request kind)) (str "Invalid AppInfo passed in context creation")
    req ← creation_request id info m
    (status, body) ← post (m.proxy_uri ++ str "/mx2/v1/app_contexts") req
    d ← read_creation problem_string status body
    ok ((id, d.reference_uri), open_context id d m)

  -- `handleNotification`, from the path and the body of the request.
  unfoldable pub handle_notification :
      (Str → Str → List Str) → Str → Value → Manager → Outcome (ℕ × Manager)
  unfolding last set_reference_uri
  handle_notification split path json m = elim (last (split path (str "/"))) [
    | none ↦ throws (str "Invalid NotificationEvent structure")
    | some id ↦ do
      throw_if (not (is_object json) || not (has_string_field json (str "referenceURI")))
          (str "Invalid NotificationEvent structure")
      assert (not (empty id))
      v ← at json (str "referenceURI")
      uri ← as_string v
      m' ← set_reference_uri id uri m
      ok (204, m')
  ]
