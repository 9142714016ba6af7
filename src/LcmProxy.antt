-- ===== src/LcmProxy.antt =====
-- EtsiMec/ueapplcmproxy.cpp: the applications that the proxy offers, and its HTTP handlers over the
-- virtual functions of a derived class. `theMutex` makes each call on the applications one step.
pub mod Laws
pub mod Trivial
pub mod Routes
pub mod Ambiguity
use etsimec.Prelude.{
  ℕ, Bool, true, false, not, Str, str, empty, Option, none, some, Outcome, ok, aborts, eqb, assert,
  ◌>>=◌, ◌>>◌, [], ◌∷◌, List, concat, if◌then◌else◌, Str-eq,
}
use etsimec.Prelude.Dict.{Dict, lookup, erase}
use etsimec.Prelude.OrderedDict.{insert_ordered}
use etsimec.Rest.{Rest}
use etsimec.AppInfo.{app_name, app_provider, app_soft_version, reference_uri}
use etsimec.AppContext.{is_response_type, type, context_id, app_info, app_context_of_json}

abbrev pub api_name : Str
api_name = str "mx2"

abbrev pub api_version : Str
api_version = str "v1"

module _ ⦃R : Rest⦄ where
  open R use {Value, object, array, set, problem_details}

  -- `theApplications`
  abbrev pub Applications : Type 0
  Applications = Dict Str Value

  unfoldable pub mangle : Value → Outcome Str
  mangle info = do
    name ← app_name info
    provider ← app_provider info
    ok (concat (name ∷ str "+" ∷ provider ∷ str "+" ∷ app_soft_version info ∷ []))

  unfoldable pub add_app : Value → Applications → Outcome (Bool × Applications)
  unfolding mangle
  add_app info apps = do
    key ← mangle info
    ok (elim (lookup key apps) [
      | none ↦ (true, insert_ordered key info apps)
      | some old ↦ (false, insert_ordered key info apps)
    ])

  unfoldable pub del_app : Value → Applications → Outcome (Bool × Applications)
  unfolding mangle
  del_app info apps = do
    key ← mangle info
    ok (elim (lookup key apps) [ none ↦ (false, apps) | some old ↦ (true, erase key apps) ])

  unfoldable pub exists : Value → Applications → Outcome Bool
  unfolding mangle
  exists info apps = do
    key ← mangle info
    ok (elim (lookup key apps) [ none ↦ false | some old ↦ true ])

  unfoldable pub values : Applications → List Value
  values [] = []
  values ((k, v) ∷ d) = v ∷ values d

  -- `ApplicationList(const std::vector<AppInfo>&)`
  unfoldable pub application_list : List Value → Value
  application_list infos = set object (str "appInfo") (array infos)

  -- `ApplicationList(const std::map<std::string, AppInfo>&)`
  unfoldable pub application_list_of_map : Applications → Value
  unfolding values
  application_list_of_map apps = set object (str "appInfo") (array (values apps))

  -- What a handler replies; `none` where it throws, and the server of the REST library replies.
  pub record Reply : Type 0 where
    pub status : ℕ
    pub body : Option Value

  abbrev pub problem : ℕ → Str → Reply
  problem status detail = record { status = status; body = some (problem_details status detail) }

  unfoldable pub handle_app_list : Applications → Reply
  unfolding application_list_of_map
  handle_app_list apps = record {
    status = 200;
    body = some (set object (str "ApplicationList") (application_list_of_map apps));
  }

  -- The virtual functions. `create` takes the random context ID that it may draw, then the
  -- address of the client.
  pub record Backend : Type 1 where
    pub State : Type 0
    pub create : Str → Str → Value → State → Outcome (Value × State)
    pub update : Value → State → Outcome (Bool × State)
    pub delete : Str → State → Outcome (Bool × State)

  module _ (B : Backend) where
    open B use {State, create, update, delete}

    -- The reply to a creation that was accepted or refused.
    unfoldable pub creation_reply : Value → Outcome Reply
    creation_reply response = do
      t ← type response
      if is_response_type t
          then (do
            assert (not (empty (context_id response)))
            info ← app_info response
            uri ← reference_uri info
            assert (not (empty uri))
            ok (record { status = 201; body = some response }))
          else ok (
              problem 403 (
                str
                  "Could not create the requested UE application context because of the current status of the mobile edge system"))

    unfoldable pub handle_context_create : Str → Str → Value → State → Outcome (Reply × State)
    unfolding creation_reply
    handle_context_create uuid client json s = do
      req ← app_context_of_json json
      (response, s') ← create uuid client req s
      reply ← creation_reply response
      ok (reply, s')

    unfoldable pub handle_context_update : Value → State → Outcome (Reply × State)
    handle_context_update json s = do
      req ← app_context_of_json json
      (success, s') ← update req s
      ok (
        (if success
            then record { status = 204; body = none }
            else problem 403 (str "Unknown or invalid UE application context")),
        s',
      )

    drop_prefix : Str → Str → Option Str
    drop_prefix [] s = some s
    drop_prefix (c ∷ p) [] = none
    drop_prefix (c ∷ p) (d ∷ s) = if eqb c d then drop_prefix p s else none

    -- `path` is that of the relative URI, which the route registered begins with "app_contexts/".
    unfoldable pub handle_context_delete : Str → State → Outcome (Reply × State)
    unfolding drop_prefix
    handle_context_delete path s = elim (drop_prefix (str "app_contexts/") path) [
      | none ↦ aborts
      | some context ↦ do
        (success, s') ← delete context s
        ok (
          (if success
              then record { status = 204; body = none }
              else problem 403 (str "Unknown UE application context")),
          s',
        )
    ]
