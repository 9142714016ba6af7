-- ===== src/StaticProxy.antt =====
-- EtsiMec/staticueapplcmproxy.cpp: the table of edge routers, the active contexts, and the
-- notifications to their clients.
--
-- An iterator into `theApplicationsByContextId` is modelled by the context ID of its entry. Each
-- method runs under `theMutex` and is one step; `notify_clients` runs outside and has one step for
-- each notification. Random IDs are arguments, and so are the answers of the clients.
pub mod Routing
pub mod Reroute
pub mod Invariant
pub mod Index
pub mod Methods
pub mod Handlers
pub mod Contexts
pub mod Creation
pub mod Duplicate
pub mod Refusal
use etsimec.Prelude.{
  ℕ, Bool, true, false, not, Str, str, empty, length, eqb, Option, none, some, Outcome, ok, aborts,
  throw_if, assert, ◌>>=◌, ◌>>◌, List, [], ◌∷◌, ◌++◌, if◌then◌else◌, Eq, ◌==◌, Str-eq, Str-discrete,
  ap,
}
use mathlib.Core.Logic.{dite}
use etsimec.Prelude.Dict.{Dict, lookup, insert, erase}
use etsimec.Rest.{Rest}
use etsimec.AppInfo.{app_name}
use etsimec.AppContext.{
  context_id, associate_ue_app_id, callback_reference, app_info, make_response,
}
use etsimec.LcmProxy.{Applications, exists}

pub record AddressAppKey : Type 0 where
  pub address : Str
  pub app_name : Str

abbrev pub key : Str → Str → AddressAppKey
key a n = record { address = a; app_name = n }

-- `operator==`
unfoldable pub AddressAppKey-discrete : Discrete AddressAppKey
unfolding Str-discrete
AddressAppKey-discrete j k =
    dite (Str-discrete j.address k.address)
      (λ p.
        dite (Str-discrete j.app_name k.app_name)
          (λ q. yes (λ i. record { address = p i; app_name = q i }))
          (λ n. no (λ e. n (ap (λ (x : AddressAppKey). x.app_name) e))))
      (λ n. no (λ e. n (ap (λ (x : AddressAppKey). x.address) e)))

instance abbrev pub AddressAppKey-eq : Eq AddressAppKey
AddressAppKey-eq = record { dec = AddressAppKey-discrete }

-- `StaticUeAppLcmProxy::Desc`
pub record Desc : Type 0 where
  pub ue_app_id : Str
  pub callback : Str
  pub client_address : Str
  pub app_name : Str
  pub edge_router : Str

abbrev pub Table : Type 0
Table = Dict AddressAppKey Str

abbrev pub Contexts : Type 0
Contexts = Dict Str Desc

-- An entry of `NotificationList`.
pub record Notification : Type 0 where
  pub callback : Str
  pub reference_uri : Str
  pub context_id : Str

pub record Routes : Type 0 where
  pub table : Table
  pub by_context : Contexts
  pub by_ue_app : Dict Str Str

-- The constructor.
abbrev pub initial : Routes
initial = record { table = []; by_context = []; by_ue_app = [] }

-- The entry that `find` returns: the specific one, or else the wildcard.
unfoldable pub route : Str → Str → Table → Option Str
route a n t = elim (lookup (key a n) t) [ some r ↦ some r | none ↦ lookup (key [] n) t ]

unfoldable pub find : Str → Str → Table → Outcome (Option Str)
unfolding route
find a n t = do assert (not (empty n)); ok (route a n t)

-- The body of the loop in `associateAddress`.
unfoldable pub visit_associated :
    Str → Str → Table → Str → Desc → Outcome (Desc × List Notification)
unfolding find
visit_associated n router t id d = if not (d.app_name == n) then ok (d, []) else (do
  found ← find d.client_address d.app_name t
  elim found [
    | none ↦ aborts
    | some r ↦ ok (
        if not (r == d.edge_router)
        then (
          record d { edge_router = router },
          record { callback = d.callback; reference_uri = router; context_id = id } ∷ [],
        )
        else (d, []))
  ])

-- The body of the loop in `removeAddress`.
unfoldable pub visit_removed : Str → Table → Str → Desc → Outcome (Desc × List Notification)
unfolding find
visit_removed n t id d = if not (d.app_name == n) then ok (d, []) else (do
  found ← find d.client_address d.app_name t
  elim found [
    | none ↦ ok (record d { edge_router = [] }, [])
    | some r ↦
        if not (r == d.edge_router)
        then (do
          assert (not (empty r))
          ok (
            record d { edge_router = r },
            record { callback = d.callback; reference_uri = r; context_id = id } ∷ [],
          ))
        else ok (d, [])
  ])

-- The loop over `theApplicationsByContextId`.
unfoldable pub visit_all :
    (Str → Desc → Outcome (Desc × List Notification))
    → Contexts
    → Outcome (Contexts × List Notification)
visit_all visit [] = ok ([], [])
visit_all visit ((id, d) ∷ cs) =
    let rest = visit_all visit cs in
    do (d', out) ← visit id d; (cs', outs) ← rest; ok ((id, d') ∷ cs', out ++ outs)

-- Whether an association is there already with the same router, and the call is ignored.
abbrev pub same_association : Str → Option Str → Bool
same_association router none = false
same_association router (some old) = router == old

-- `associateAddress`, up to the end of its critical section: the notifications are sent after it.
unfoldable pub associate_address : Str → Str → Str → Routes → Outcome (Routes × List Notification)
unfolding visit_associated visit_all
associate_address a n router s = do
  throw_if (empty n) (str "Empty application name")
  throw_if (empty router) (str "Empty edge router end-point")
  if same_association router (lookup (key a n) s.table) then ok (s, []) else (do
    let t = insert (key a n) router s.table
    (cs, out) ← visit_all (visit_associated n router t) s.by_context
    ok (record s { table = t; by_context = cs }, out))

-- `removeAddress`, up to the end of its critical section.
unfoldable pub remove_address : Str → Str → Routes → Outcome (Routes × List Notification)
unfolding visit_removed visit_all
remove_address a n s = do
  throw_if (empty n) (str "Empty application name")
  let t = erase (key a n) s.table
  (cs, out) ← visit_all (visit_removed n t) s.by_context
  ok (record s { table = t; by_context = cs }, out)

unfoldable pub num_addresses : Routes → ℕ
num_addresses s = length s.table

unfoldable pub num_contexts : Routes → Outcome ℕ
num_contexts s = do
  assert (eqb (length s.by_context) (length s.by_ue_app))
  ok (length s.by_context)

unfoldable pub edge_router : Str → Str → Routes → Outcome Str
unfolding find
edge_router a n s = do
  throw_if (empty a) (str "Empty edge client address")
  throw_if (empty n) (str "Empty application name")
  found ← find a n s.table
  ok (elim found [ none ↦ [] | some r ↦ r ])

associations : Table → List (Str × Str × Str)
associations [] = []
associations ((k, r) ∷ t) = (k.address, k.app_name, r) ∷ associations t

unfoldable pub address_associations : Routes → List (Str × Str × Str)
unfolding associations
address_associations s = associations s.table

clients : Contexts → List (Str × Str × Str)
clients [] = []
clients ((id, d) ∷ cs) = (d.client_address, d.app_name, d.edge_router) ∷ clients cs

unfoldable pub contexts : Routes → List (Str × Str × Str)
unfolding clients
contexts s = clients s.by_context
