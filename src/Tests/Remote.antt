-- ===== src/Tests/Remote.antt =====
-- The client side: contexts, the list of applications, the chat, and OpenWhisk.
use etsimec.Prelude.{
  ℕ, true, Str, str, none, some, Outcome, ok, List, [], ◌∷◌, ◌++◌, if◌then◌else◌, ◌==◌, ◌>>=◌,
  Str-eq, Str-discrete, ◌≡◌, ◌≢◌, ◌↔◌, refl, length,
}
use etsimec.Prelude.Int.{pos}
use etsimec.Prelude.Dict.{lookup, insert}
use etsimec.Rest.Sample.{
  Json, sample, sample-IsLawful, object, string, field, end, put, get, number, array, cons, nil,
}
use etsimec.AppInfo.{message, reference_uri, app_info_of_json}
use etsimec.AppContext.{app_context_request, app_context_of_json, type, context_id, app_info}
use etsimec.LcmProxy.{Applications, handle_app_list, values}
use etsimec.Notify.{notification_event}
use etsimec.ContextManager.{
  Desc, Manager, context_create, creation_request, read_creation, open_context, get_reference_uri,
  handle_notification, last,
}
use etsimec.ContextManager.Laws.{
  context_create-get_reference_uri, handle_notification-notification_event,
}
use etsimec.Client.{app_list}
use etsimec.Client.Laws.{app_list-handle_app_list}
use etsimec.OpenWhisk.Action.{
  ActionKey, Action, same_keys, Actions, collect_keys, set_emplace, sets_eqb, key_to_string,
}
use etsimec.OpenWhisk.Action.Keys.{same_keys_sound, same_keys-slash, has_text}
use etsimec.OpenWhisk.Command.{Command}
use etsimec.OpenWhisk.Lister.{
  make_query, list_actions, action_at, read_action, read_actions, emplace, insert_new,
}
use etsimec.OpenWhisk.Lister.Laws.{list_actions-first, first_with}
use etsimec.OpenWhisk.Invoker.{Response, responds, invoke, action_path, query}
use etsimec.OpenWhisk.Invoker.{invoke-succeeds}

abbrev manager : Manager
manager = record { notification_uri = str "n"; proxy_uri = str "p"; contexts = [] }

abbrev info : Json
info =
    object
      (field (str "appName") (string (str "f")) (field (str "appProvider") (string (str "q")) end))

abbrev answer_info : Json
answer_info = object (
    field (str "appName") (string (str "f")) (
      field (str "appProvider") (string (str "q"))
        (field (str "referenceURI") (string (str "edge0")) end)))

abbrev answer : Json
answer = object (
    field (str "contextId") (string (str "id1"))
      (field (str "associateUeAppId") (string (str "1")) (field (str "appInfo") answer_info end)))

abbrev post : Str → Json → Outcome (ℕ × Json)
post url body = ok (201, answer)

abbrev known : Desc
known = record { reference_uri = str "edge0"; context_id = str "id1" }

created :
    context_create (λ v. []) post (str "1") info manager
    ≡ ok ((str "1", str "edge0"), record manager { contexts = (str "1", known) ∷ [] })
unfolding context_create message creation_request app_context_request read_creation open_context
    app_context_of_json app_info type context_id reference_uri lookup insert get put Str-discrete
created = refl

no_context : lookup (str "1") manager.contexts ≡ none
unfolding lookup
no_context = refl

context_create-get_reference_uri_example :
    (str "1" ≡ str "1")
    × (get_reference_uri (str "1") (record manager { contexts = (str "1", known) ∷ [] })
        ≡ (if str "1" == str "1" then ok (str "edge0") else get_reference_uri (str "1") manager))
context_create-get_reference_uri_example =
    context_create-get_reference_uri (λ v. []) post (str "1") (str "1") (str "1") (str "edge0") info
      manager (record manager { contexts = (str "1", known) ∷ [] }) no_context created

abbrev opened : Manager
opened = record manager { contexts = (str "1", known) ∷ [] }

abbrev event : Json
event = object (field (str "referenceURI") (string (str "edge2")) end)

event_lem : notification_event (str "edge2") ≡ ok event
unfolding notification_event put
event_lem = refl

found : lookup (str "1") opened.contexts ≡ some known
unfolding lookup Str-discrete
found = refl

handle_notification-notification_event_example :
    (m : Manager) × (handle_notification (λ path separator. path ∷ []) (str "1") event opened
      ≡ ok (204, m))
    × ((j : Str)
        → get_reference_uri j m
          ≡ (if str "1" == j then ok (str "edge2") else get_reference_uri j opened))
unfolding last
handle_notification-notification_event_example =
    handle_notification-notification_event sample-IsLawful (λ path separator. path ∷ []) (str "1")
      (str "1") (str "edge2") event known opened refl refl found event_lem

info_lem : app_info_of_json info ≡ ok info
unfolding app_info_of_json get Str-discrete
info_lem = refl

abbrev apps : Applications
apps = (str "f+q+", info) ∷ []

app_list-handle_app_list_example :
    (body : Json) × ((handle_app_list apps).body ≡ some body)
    × (app_list (handle_app_list apps).status body ≡ ok (info ∷ []))
unfolding values
app_list-handle_app_list_example = app_list-handle_app_list sample-IsLawful apps (info_lem, tt)

-- `support::split`, for one word.
abbrev split : Str → Str → List Str
split s separator = s ∷ []

abbrev listing : Str → Outcome (List Json)
listing api_root = ok []

abbrev old_action : Action
old_action = record { space = str "a"; name = str "b"; updated = 1; version = str "1" }

abbrev new_action : Action
new_action = record { space = str "a"; name = str "b"; updated = 2; version = str "2" }

abbrev one_map : Action → Actions
one_map a = (record { space = str "a"; name = str "b" }, a) ∷ []

same_lem : same_keys (one_map old_action) (one_map new_action) ≡ true
unfolding same_keys collect_keys set_emplace sets_eqb key_to_string Str-discrete
same_lem = refl

same_keys_sound_example :
    (length (one_map old_action) ≡ length (one_map new_action))
    × ((s : Str) → has_text s (one_map old_action) ≡ has_text s (one_map new_action))
same_keys_sound_example = same_keys_sound (one_map old_action) (one_map new_action) same_lem

same_keys-slash_example :
    let j : ActionKey = record { space = str "a/b"; name = str "c" } in
    let k : ActionKey = record { space = str "a"; name = str "b/c" } in
    (same_keys ((j, old_action) ∷ []) ((k, new_action) ∷ []) ≡ true) × (j ≢ k)
same_keys-slash_example = same_keys-slash (str "a") (str "b") (str "c") old_action new_action

abbrev element : Str → Json
element version = object (
    field (str "name") (string (str "b")) (
      field (str "namespace") (string (str "a"))
        (field (str "updated") (number (pos 1)) (field (str "version") (string version) end))))

abbrev two : Json
two = array (cons (element (str "1")) (cons (element (str "2")) nil))

abbrev server : Command
server = record {
  api_root = str "http://w";
  path = str "/api/v1/namespaces/";
  auth = str "Basic x";
}

abbrev get_two : Str → Str → Str → Str → Outcome (ℕ × Json)
get_two root auth path q = ok (200, two)

listed : list_actions get_two server 10 0 ≡ ok (one_map old_action)
unfolding list_actions read_action read_actions emplace insert_new get Str-discrete
listed = refl

list_actions-first_example :
    (body : Json) × (elements : List Json) × (get_two server.api_root server.auth
        (server.path ++ str "_/actions/")
        (make_query 10 0)
      ≡ ok (200, body))
    × (sample.as_array body ≡ ok elements)
    × ((k : ActionKey) → action_at k (one_map old_action) ≡ first_with k elements)
list_actions-first_example = list_actions-first get_two server 10 0 (one_map old_action) listed

abbrev invoked : Str → Str → Json → Str → Str → Response Json
invoked root auth body path q =
    responds 200 (object (field (str "payload") (string (str "hi")) end))

invoke-succeeds_example : (invoke invoked server (str "n") [] (str "x") ≡ (true, str "hi")) ↔ (
    (body : Json) × (answer : Json) × (sample.parse (str "x") ≡ ok body)
    × (invoked server.api_root server.auth body (action_path server (str "n") []) query
        ≡ responds 200 answer)
    × (sample.has_string_field answer (str "payload") ≡ true)
    × ((sample.at answer (str "payload") >>= sample.as_string) ≡ ok (str "hi")))
invoke-succeeds_example = invoke-succeeds invoked server (str "n") [] (str "x") (str "hi")
