-- ===== src/LcmProxy/Routes.antt =====
-- The constructor of EtsiMec/ueapplcmproxy.cpp and EtsiMec/etsimecserver.h: the base of the URLs that
-- the server listens at, and the handlers that it registers with the REST library. Which
-- of them gets a request is up to that library.
use etsimec.Prelude.{Str, str, Outcome, ok, List, [], ◌∷◌, concat}
use etsimec.Rest.{Rest}
use etsimec.LcmProxy.{
  Applications, Backend, Reply, handle_app_list, handle_context_create, handle_context_update,
  handle_context_delete,
}

-- The constructor of `EtsiMecServer`
unfoldable pub base_url : Str → Str → Str → Str
base_url api_root name version =
    concat (api_root ∷ str "/" ∷ name ∷ str "/" ∷ version ∷ str "/" ∷ [])

pub data Method : Type 0 where
  get : Method
  post : Method
  put : Method
  delete : Method

pub data Handler : Type 0 where
  app_list : Handler
  context_create : Handler
  context_update : Handler
  context_delete : Handler

pub record Registered : Type 0 where
  pub method : Method
  pub pattern : Str
  pub handler : Handler

-- The handlers in the order of their registration.
unfoldable pub registered : List Registered
registered =
    record { method = get; pattern = str "app_list"; handler = app_list }
    ∷ record { method = post; pattern = str "app_contexts"; handler = context_create }
    ∷ record { method = put; pattern = str "app_contexts/(.*)"; handler = context_update }
    ∷ record { method = delete; pattern = str "app_contexts/(.*)"; handler = context_delete }
    ∷ []

module _ ⦃R : Rest⦄ (B : Backend) (apps_of : B.State → Applications) where
  open R use {Value}

  -- A request: the address of the client, the path after the base, the body, and the random ID that
  -- `createContext` may draw.
  pub record Request : Type 0 where
    pub client : Str
    pub path : Str
    pub json : Value
    pub uuid : Str

  unfoldable pub handle : Handler → Request → B.State → Outcome (Reply × B.State)
  handle app_list req s = ok (handle_app_list (apps_of s), s)
  handle context_create req s = handle_context_create B req.uuid req.client req.json s
  handle context_update req s = handle_context_update B req.json s
  handle context_delete req s = handle_context_delete B req.path s
