-- ===== src/Startup.antt =====
-- The three programs of Executables/ from their command line to their exit status, with
-- EtsiMec/etsimecoptions.cpp. What Boost reads of the command line is an argument, and so is what
-- becomes of a server that runs; what is logged is left out.
pub mod Laws
use etsimec.Prelude.{
  ℕ, Bool, true, false, not, ◌&&◌, ◌||◌, Str, str, empty, Option, none, some, Outcome, ok, throws,
  aborts, throw_if, ◌>>=◌, ◌>>◌, List, [], ◌∷◌, ◌++◌, concat, if◌then◌else◌,
}
use etsimec.Rest.{Rest}
use etsimec.Client.Mattermost.{command}
use etsimec.Console.{line_feed, Service, execute_lines, rounds}

-- What parsing the command line gives: the options, or a `CliExit` (the help was asked for).
pub data Cli (A : Type 0) : Type 0 where
  parsed : A → Cli A
  exits : Cli A
  refused : Str → Cli A

pub data Exit : Type 0 where
  success : Exit
  failure : Exit
  abort : Exit

-- The handlers of `main`, on what the body of its `try` does.
unfoldable pub exit_status : {A : Type 0} → Outcome A → Exit
exit_status (ok a) = success
exit_status (throws why) = failure
exit_status aborts = abort

unfoldable pub run : {A : Type 0} {B : Type 0} → (A → Outcome B) → Cli A → Exit
unfolding exit_status
run body (parsed options) = exit_status (body options)
run body exits = success
run body (refused why) = failure

-- The constructor of `EtsiMecOptions`, after `parse()`.
unfoldable pub etsi_mec_options : (Str → Bool) → Bool → Str → Outcome Str
etsi_mec_options validate required api_root = do
  throw_if (required && (empty api_root || not (validate api_root)))
      (str "The UE app LCM proxy root cannot be empty or invalid")
  ok api_root

-- `main` of Executables/ueapplcmproxymain.cpp
pub record ProxyOptions : Type 0 where
  pub api_root : Str
  pub server_endpoint : Str

unfoldable pub proxy_body :
    (Str → Bool) → (Str → Str → Outcome (Unit {0})) → ProxyOptions → Outcome (Unit {0})
unfolding etsi_mec_options
proxy_body validate serve o = do
  api_root ← etsi_mec_options validate true o.api_root
  throw_if (empty o.server_endpoint) (str "The gRPC end-point cannot be empty")
  serve api_root o.server_endpoint

unfoldable pub proxy_main :
    (Str → Bool) → (Str → Str → Outcome (Unit {0})) → Cli ProxyOptions → Exit
unfolding run proxy_body
proxy_main validate serve cli = run (proxy_body validate serve) cli

-- `main` of Executables/etsimeccli.cpp
pub record CliOptions : Type 0 where
  pub api_root : Str
  pub command : Str
  pub mattermost_proxy : Str
  pub mattermost_token : Str
  pub mattermost_output : Bool
  pub verbose : Bool

module _ ⦃R : Rest⦄ where
  open R use {Value}

  -- The text printed. `serve` is the chat server, from its root and its token.
  unfoldable pub cli_body :
      (Str → Bool)
      → (Str → Outcome (List Value))
      → (Str → Str → Outcome (Unit {0}))
      → CliOptions
      → Outcome Str
  unfolding etsi_mec_options
  cli_body validate app_list serve o = do
    api_root ← etsi_mec_options validate true o.api_root
    throw_if (o.verbose && o.mattermost_output)
        (str "Incompatible options --verbose and --mattermost-output")
    if not (empty o.mattermost_proxy)
        then (do
          throw_if (not (validate o.mattermost_proxy))
              (str "Invalid Mattermost root: " ++ o.mattermost_proxy)
          done ← serve o.mattermost_proxy o.mattermost_token
          ok [])
        else command validate app_list api_root o.command o.verbose o.mattermost_output

  unfoldable pub cli_main :
      (Str → Bool)
      → (Str → Outcome (List Value))
      → (Str → Str → Outcome (Unit {0}))
      → Cli CliOptions
      → Exit
  unfolding run cli_body
  cli_main validate app_list serve cli = run (cli_body validate app_list serve) cli

abbrev quote : Str
quote = 34 ∷ []

-- `myHelp`
unfoldable pub help_text : Str
help_text = concat (
    str "Commands are read sequentially from standard input until closed. "
    ∷ str "Available commands:"
    ∷ line_feed
    ∷ str "- help:"
    ∷ str " prints the help"
    ∷ line_feed
    ∷ str "- associate C A S:"
    ∷ str " associates the address of the edge client C (* means "
    ∷ quote
    ∷ str "any"
    ∷ quote
    ∷ str ") and the "
    ∷ str "application name A to the end-point of the edge router S"
    ∷ line_feed
    ∷ str "- remove C A:"
    ∷ str " removes the association of edge client C (* means "
    ∷ quote
    ∷ str "any"
    ∷ quote
    ∷ str ") and "
    ∷ str "application name A, if present"
    ∷ line_feed
    ∷ str "- add-lambda X:"
    ∷ str " adds a lambda function to the list of applications"
    ∷ line_feed
    ∷ str "- del-lambda X:"
    ∷ str " removes from the list of applications the given lambda"
    ∷ line_feed
    ∷ str "- num-contexts:"
    ∷ str " returns the number of active UE application contexts"
    ∷ line_feed
    ∷ str "- table:"
    ∷ str " returns a space-separate table of the address associations"
    ∷ line_feed
    ∷ str "- contexts:"
    ∷ str " returns a space-separate table of the active contexts associations"
    ∷ line_feed
    ∷ str "- quit:"
    ∷ str " exits from the application"
    ∷ line_feed
    ∷ str "Every command is given a response on standard output."
    ∷ line_feed
    ∷ str "All the set commands return the string OK if the command was accepted."
    ∷ line_feed
    ∷ str "the string Invalid command if the command is not well-formed."
    ∷ line_feed
    ∷ [])

-- `main` of Executables/ueapplcmproxyclientmain.cpp, from the end-point of the service; the text is
-- what standard input holds.
module _ (S : Str → Service) where
  unfoldable pub client_body :
      (Str → Str → List Str) → Str → ((e : Str) → (S e).State) → Str → Outcome Str
  client_body split input state endpoint = do
    (printed, s) ← execute_lines (S endpoint) help_text split (rounds input) (state endpoint)
    ok printed

  unfoldable pub client_main :
      (Str → Str → List Str) → Str → ((e : Str) → (S e).State) → Cli Str → Exit
  unfolding run client_body
  client_main split input state cli = run (client_body split input state) cli
