-- ===== src/OpenWhisk/Command.antt =====
-- OpenWhisk/command.h and command.cpp: what every command to the server has.
use etsimec.Prelude.{Str, str, empty, ◌++◌, Outcome, ok, throw_if, ◌>>◌}

pub record Command : Type 0 where
  pub api_root : Str
  pub path : Str
  pub auth : Str

-- The constructor.
unfoldable pub command : Str → Str → Outcome Command
command api_root auth = do
  throw_if (empty api_root) (str "Invalid empty OpenWhisk API root")
  throw_if (empty auth) (str "Invalid empty OpenWhisk auth token")
  ok (record { api_root = api_root; path = str "/api/v1/namespaces/"; auth = str "Basic " ++ auth })

-- `apiRoot()`
unfoldable pub get_api_root : Command → Str
get_api_root c = c.api_root

-- `auth()`, which returns the path.
unfoldable pub get_auth : Command → Str
get_auth c = c.path
