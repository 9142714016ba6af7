-- ===== src/Joint.antt =====
-- A proxy (EtsiMec/staticueapplcmproxy.cpp) and the context manager of a client
-- (EtsiMec/appcontextmanager.cpp) together. The network is a parameter: `recipient` tells for a URL
-- the path at which the manager's server gets a request, and `none` for the URLs of other clients.
pub mod Follows
pub mod Deliver
pub mod Turns
pub mod Others
pub mod Opening
pub mod Session
pub mod Overtaking
pub mod Closing
pub mod Owners
pub mod Fifo
pub mod Early
use etsimec.Prelude.{Bool, Str, str, Option, none, some, Outcome, ok, ◌>>=◌, List, [], ◌∷◌, concat}
use etsimec.Rest.{Rest}
use etsimec.StaticProxy.{Notification}
use etsimec.Notify.{Answer, Post}
use etsimec.ContextManager.{Manager, handle_notification}

-- What `contextCreate` gives as the callback of an application.
abbrev pub callback_of : Manager → Str → Str
callback_of m id = concat (m.notification_uri ∷ str "/" ∷ id ∷ [])

-- The notifications of a call, each with what its client answers.
abbrev pub answered_by : (Notification → Answer) → List Notification → List (Notification × Answer)
answered_by answer [] = []
answered_by answer (e ∷ es) = (e, answer e) ∷ answered_by answer es

module _ ⦃R : Rest⦄ (recipient : Str → Option Str) (split : Str → Str → List Str) where
  -- The POSTs of the proxy as the manager handles them, one after the other.
  unfoldable pub deliver : List Post → Manager → Outcome Manager
  deliver [] m = ok m
  deliver (p ∷ ps) m = elim (recipient p.to) [
    | none ↦ deliver ps m
    | some path ↦ do (status, m') ← handle_notification split path p.body m; deliver ps m'
  ]
