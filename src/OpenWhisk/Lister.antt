-- ===== src/OpenWhisk/Lister.antt =====
-- OpenWhisk/lister.cpp: the list of actions of a server. The GET is an argument.
pub mod Laws
use etsimec.Prelude.{
  ℕ, Bool, true, false, not, ◌&&◌, ◌||◌, Str, str, Outcome, ok, throws, aborts, Option, none, some,
  throw_if, ◌>>=◌, ◌>>◌, List, [], ◌∷◌, ◌++◌, concat, eqb, if◌then◌else◌,
}
use etsimec.Prelude.Decimal.{to_string}
use etsimec.Rest.{Rest}
use etsimec.OpenWhisk.Command.{Command}
use etsimec.OpenWhisk.Action.{ActionKey, key_ltb, key_eqb, Action, Actions, action_key}

-- `makeQuery`
unfoldable pub make_query : ℕ → ℕ → Str
make_query limit skip = concat (str "limit=" ∷ to_string limit ∷ str "&skip=" ∷ to_string skip ∷ [])

-- What a map holds under a key.
abbrev pub action_at : ActionKey → Actions → Option Action
action_at k [] = none
action_at k ((j, a) ∷ m) = if key_eqb j k then some a else action_at k m

-- The place of a key that is new.
unfoldable pub insert_new : ActionKey → Action → Actions → Actions
insert_new k a [] = (k, a) ∷ []
insert_new k a ((j, b) ∷ m) =
    let rest = insert_new k a m in if key_ltb k j then (k, a) ∷ (j, b) ∷ m else (j, b) ∷ rest

-- `std::map::emplace`: an entry that is there stays.
unfoldable pub emplace : ActionKey → Action → Actions → Actions
unfolding insert_new
emplace k a m = elim (action_at k m) [ some old ↦ m | none ↦ insert_new k a m ]

module _ ⦃R : Rest⦄ where
  open R use {
    Value, is_object, is_array, has_string_field, has_number_field, at, as_string, as_uint64,
    as_array,
  }

  string_at : Value → Str → Outcome Str
  string_at v k = do w ← at v k; as_string w

  -- One element of the array as an action.
  unfoldable pub read_action : Value → Outcome Action
  unfolding string_at
  read_action v = do
    throw_if
        (not (is_object v)
          || not (has_string_field v (str "name"))
          || not (has_string_field v (str "namespace"))
          || not (has_number_field v (str "updated"))
          || not (has_string_field v (str "version")))
        (str "unexpected response: mandatory field missing")
    space ← string_at v (str "namespace")
    name ← string_at v (str "name")
    w ← at v (str "updated")
    updated ← as_uint64 w
    version ← string_at v (str "version")
    ok (record { space = space; name = name; updated = updated; version = version })

  -- The loop over the array.
  unfoldable pub read_actions : List Value → Actions → Outcome Actions
  unfolding emplace action_key
  read_actions [] m = ok m
  read_actions (v ∷ vs) m = elim (read_action v) [
    | throws e ↦ throws e
    | aborts ↦ aborts
    | ok a ↦ read_actions vs (emplace (action_key a) a m)
  ]

  -- The map read from a response.
  unfoldable pub read_list : ℕ → Value → Outcome Actions
  unfolding read_actions
  read_list status body =
      if not (eqb status 200)
      then throws (str "unexpected HTTP response: " ++ to_string status)
      else if not (is_array body)
      then throws (str "unexpected response: not an array")
      else (do elements ← as_array body; read_actions elements [])

  -- `operator()`. `get` takes the API root of the client, its header Authorization, the path and the
  -- query, and gives the status and the body of the response.
  unfoldable pub list_actions :
      (Str → Str → Str → Str → Outcome (ℕ × Value)) → Command → ℕ → ℕ → Outcome Actions
  unfolding read_list make_query
  list_actions get c limit skip = do
    (status, body) ← get c.api_root c.auth (c.path ++ str "_/actions/") (make_query limit skip)
    read_list status body
