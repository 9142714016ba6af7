-- ===== src/Client/Mattermost.antt =====
-- Executables/etsimeccli.cpp: the command that prints the list of applications, and the server that
-- runs it for a chat. `web::uri::decode`, `web::uri::validate` and `support::split` are parameters,
-- and the pairs are those that `web::uri::split_query` makes of the body. What `AppListClient` gives
-- for an API root is a parameter too, and so is the class of an exception, which its text tells.
use etsimec.Prelude.{
  ℕ, Bool, true, false, not, ◌||◌, Str, str, empty, Option, none, some, Outcome, ok, throws, aborts,
  assert, ◌>>=◌, ◌>>◌, List, [], ◌∷◌, ◌++◌, if◌then◌else◌, ◌==◌, Str-eq, concat,
}
use etsimec.Rest.{Rest}
use etsimec.AppInfo.{app_name, app_provider, app_soft_version, app_info_to_string}

-- What `handlePost` does: the replies that it sends, each a status with the `text` of its body, if
-- any, and whether it completes or aborts the program after them.
pub record Handled : Type 0 where
  pub replies : List (ℕ × Option Str)
  pub completes : Bool

-- What is kept of the pairs of a request.
pub record Query : Type 0 where
  pub authorized : Bool
  pub user_name : Str
  pub words : List Str

-- One pair of the request.
unfoldable pub read_pair : (Str → Str → List Str) → Str → Str → Str → Query → Query
read_pair split token name value q =
    if name == str "token"
    then (if value == token then record q { authorized = true } else q)
    else if name == str "user_name"
    then record q { user_name = value }
    else if name == str "text"
    then record q { words = split value (str "+") }
    else q

unfoldable pub read_pairs :
    (Str → Str → List Str) → (Str → Str) → Str → List (Str × Str) → Query → Query
unfolding read_pair
read_pairs split decode token [] q = q
read_pairs split decode token ((name, value) ∷ pairs) q =
    read_pairs split decode token pairs (read_pair split token name (decode value) q)

-- `myFail`, `myCommand` and `myApiRoot`.
pub record Options : Type 0 where
  pub fail : Bool
  pub command : Str
  pub api_root : Str

-- The loop over the words: an option takes the word after it.
unfoldable pub read_options : List Str → Options → Options
read_options [] o = o
read_options (w ∷ []) o =
    if w == str "command" || w == str "apiroot" then record o { fail = true } else o
read_options (w ∷ v ∷ ws) o = elim (w == str "command") [
  | true ↦ read_options ws (record o { command = v })
  | false ↦ elim (w == str "apiroot") [
    | true ↦ read_options ws (record o { api_root = v })
    | false ↦ read_options (v ∷ ws) o
  ]
]

spaced : List Str → Str
spaced [] = []
spaced (w ∷ ws) = concat (str " " ∷ w ∷ spaced ws ∷ [])

module _ ⦃R : Rest⦄ where
  open R use {Value}

  -- One application in one of the three formats.
  unfoldable pub print_info : Bool → Bool → Value → Outcome Str
  print_info verbose mattermost info = elim mattermost [
    | true ↦ do
      name ← app_name info
      provider ← app_provider info
      ok (
          concat (
            str " | "
            ∷ name
            ∷ str " | "
            ∷ provider
            ∷ str " | "
            ∷ app_soft_version info
            ∷ str " | "
            ∷ (10 ∷ [])
            ∷ []))
    | false ↦ elim verbose [
      | true ↦ do out ← app_info_to_string info; ok (out ++ (10 ∷ []))
      | false ↦ do
        name ← app_name info
        provider ← app_provider info
        ok (concat (name ∷ str ", " ∷ provider ∷ str ", " ∷ app_soft_version info ∷ (10 ∷ []) ∷ []))
    ]
  ]

  unfoldable pub print_infos : Bool → Bool → List Value → Outcome Str
  unfolding print_info
  print_infos verbose mattermost [] = ok []
  print_infos verbose mattermost (i ∷ is) = do
    out ← print_info verbose mattermost i
    outs ← print_infos verbose mattermost is
    ok (out ++ outs)

  abbrev header : Bool → Str
  header true = concat (
      str " | appName  | appProvider | appSoftVersion |"
      ∷ (10 ∷ [])
      ∷ str " | -------- | ----------- | -------------- |"
      ∷ (10 ∷ [])
      ∷ [])
  header false = []

  -- `command`, from what `AppListClient` gives for an API root.
  unfoldable pub command :
      (Str → Bool) → (Str → Outcome (List Value)) → Str → Str → Bool → Bool → Outcome Str
  unfolding print_infos
  command validate app_list api_root name verbose mattermost = do
    assert (not (empty api_root))
    assert (validate api_root)
    elim (name == str "app_list") [
      | true ↦ do
        infos ← app_list api_root
        out ← print_infos verbose mattermost infos
        ok (header mattermost ++ out)
      | false ↦ throws (str "Unknown command: " ++ name)
    ]

  -- The text of the reply; none where an `assert` of the command fails.
  unfoldable pub reply_text :
      (Str → Bool)
      → (Str → Outcome (List Value))
      → (Str → Bool)
      → Str
      → List Str
      → Options
      → Option Str
  unfolding spaced command
  reply_text validate app_list is_runtime_error user words o =
      if empty o.api_root || o.fail
      then some (str "Invalid input:" ++ spaced words)
      else elim (command validate app_list o.api_root o.command false true) [
        | ok out ↦ some (
            concat (
              str "Hello "
              ∷ user
              ∷ str ", the list of ETSI MEC applications on "
              ∷ o.api_root
              ∷ str " is:"
              ∷ (10 ∷ 10 ∷ [])
              ∷ out
              ∷ []))
        | throws why ↦ some (
            if is_runtime_error why
            then str "Invalid response from ETSI MEC server: " ++ why
            else str "Invalid response from ETSI MEC server")
        | aborts ↦ none
      ]

  -- The replies so far and the last one, if it comes to that.
  unfoldable pub last_reply : List (ℕ × Option Str) → Option Str → Handled
  last_reply replies (some text) = record {
    replies = replies ++ ((200, some text) ∷ []);
    completes = true;
  }
  last_reply replies none = record { replies = replies; completes = false }

  -- `handlePost`
  unfoldable pub handle_post :
      (Str → Str → List Str)
      → (Str → Str)
      → (Str → Bool)
      → (Str → Outcome (List Value))
      → (Str → Bool)
      → Str
      → List (Str × Str)
      → Handled
  unfolding read_pairs read_options reply_text last_reply
  handle_post split decode validate app_list is_runtime_error token pairs =
      let q =
        read_pairs split decode token pairs
          (record { authorized = false; user_name = []; words = [] }) in
      let o =
        read_options q.words (record { fail = false; command = str "app_list"; api_root = [] }) in
      last_reply (if not q.authorized then (401, none) ∷ [] else [])
        (reply_text validate app_list is_runtime_error q.user_name q.words o)
