-- ===== src/Client.antt =====
-- EtsiMec/utils.cpp and EtsiMec/applistclient.cpp: the URL of the API, and the list of applications
-- that a client fetches. What the GET returns is an argument.
pub mod Mattermost
pub mod Laws
pub mod Invalid
use etsimec.Prelude.{
  ℕ, Bool, true, false, not, ◌||◌, Str, str, empty, Outcome, ok, throws, aborts, throw_if, ◌>>=◌,
  ◌>>◌, List, [], ◌∷◌, ◌++◌, if◌then◌else◌, eqb, concat,
}
use etsimec.Prelude.Decimal.{to_string}
use etsimec.Rest.{Rest}
use etsimec.AppInfo.{app_info_of_json}
use etsimec.LcmProxy.{api_name, api_version}

unfoldable pub backwards : Str → Str
backwards [] = []
backwards (c ∷ s) = backwards s ++ (c ∷ [])

-- The loop, on a string written backwards: `back()` is its head.
unfoldable pub pop_slashes : Str → Str
pop_slashes [] = []
pop_slashes (c ∷ s) = let rest = pop_slashes s in if eqb c 47 then rest else c ∷ s

unfoldable pub remove_trailing_slashes : Str → Str
unfolding backwards pop_slashes
remove_trailing_slashes s = backwards (pop_slashes (backwards s))

unfoldable pub mx2root : Str → Str
unfolding remove_trailing_slashes
mx2root api_root =
    concat (remove_trailing_slashes api_root ∷ str "/" ∷ api_name ∷ str "/" ∷ api_version ∷ [])

module _ ⦃R : Rest⦄ where
  open R use {Value, has_object_field, has_array_field, at, as_array}

  -- The loop over the elements.
  unfoldable pub read_infos : List Value → Outcome (List Value)
  read_infos [] = ok []
  read_infos (v ∷ vs) = elim (app_info_of_json v) [
    | throws why ↦ throws why
    | aborts ↦ aborts
    | ok info ↦ do infos ← read_infos vs; ok (info ∷ infos)
  ]

  -- `AppListClient::operator()`, from the status and the body of the response.
  unfoldable pub app_list : ℕ → Value → Outcome (List Value)
  unfolding read_infos
  app_list status body = do
    let invalid = str "Invalid response from server: " ++ to_string status
    throw_if (not (eqb status 200)) invalid
    throw_if (not (has_object_field body (str "ApplicationList"))) invalid
    list ← at body (str "ApplicationList")
    throw_if (not (has_array_field list (str "appInfo"))) invalid
    array ← at list (str "appInfo")
    elements ← as_array array
    read_infos elements

  -- The same with its GET, which takes the root of the client and the path.
  unfoldable pub fetch_list : (Str → Str → Outcome (ℕ × Value)) → Str → Outcome (List Value)
  unfolding app_list mx2root
  fetch_list get api_root = do
    (status, body) ← get (mx2root api_root) (str "/app_list")
    app_list status body
