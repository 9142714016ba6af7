-- ===== src/Grpc.antt =====
-- EtsiMec/grpcueapplcmproxy.cpp: the gRPC service over the proxy, with the messages of
-- EtsiMec/ueapplcmproxy.proto. A handler always returns `grpc::Status::OK`, so its model gives what
-- it leaves: the new state of the proxy, or the reply. What is logged is left out.
pub mod Client
pub mod Laws
pub mod Lambda
use etsimec.Prelude.{
  ℕ, not, Str, str, empty, Outcome, ok, throws, aborts, assert, ◌>>=◌, ◌>>◌, List, [], ◌∷◌,
}
use Prim.Native.Nat.{◌^◌, ◌%◌}
use etsimec.Rest.{Rest}
use etsimec.AppCharcs.{no_app_charcs}
use etsimec.AppInfo.{app_info_list}
use etsimec.LcmProxy.{Applications, add_app, del_app}
use etsimec.StaticProxy.{
  Routes, Notification, associate_address, remove_address, num_contexts, address_associations,
  contexts,
}

-- `AddressTuple`; a field that is not set is empty.
pub record AddressTuple : Type 0 where
  pub client : Str
  pub app_name : Str
  pub server : Str

-- `Contexts.ContextTuple`
pub record ContextTuple : Type 0 where
  pub address : Str
  pub app_name : Str
  pub edge_router : Str

-- `CATCH_ALL`. The calls under it throw before they change anything, so the state is as it was.
unfoldable pub catch_all {ℓ} : {A : Type ℓ} → A → Outcome A → Outcome A
catch_all old (ok new) = ok new
catch_all old (throws why) = ok old
catch_all old aborts = aborts

-- The notifications are sent after the critical section.
unfoldable pub associate : AddressTuple → Routes → Outcome (Routes × List Notification)
unfolding catch_all
associate req s = do
  assert (not (empty req.app_name))
  catch_all (s, []) (associate_address req.client req.app_name req.server s)

unfoldable pub remove : AddressTuple → Routes → Outcome (Routes × List Notification)
unfolding catch_all
remove req s = do
  assert (not (empty req.app_name))
  assert (empty req.server)
  catch_all (s, []) (remove_address req.client req.app_name s)

-- The value of a `uint32`.
unfoldable pub count : Routes → Outcome ℕ
count s = do n ← num_contexts s; ok (n % 2 ^ 32)

unfoldable pub fill_table : List (Str × Str × Str) → List AddressTuple
fill_table [] = []
fill_table ((a, n, r) ∷ es) = record { client = a; app_name = n; server = r } ∷ fill_table es

unfoldable pub table : Routes → List AddressTuple
unfolding fill_table
table s = fill_table (address_associations s)

unfoldable pub fill_contexts : List (Str × Str × Str) → List ContextTuple
fill_contexts [] = []
fill_contexts ((a, n, r) ∷ es) =
    record { address = a; app_name = n; edge_router = r } ∷ fill_contexts es

unfoldable pub context_tuples : Routes → List ContextTuple
unfolding fill_contexts
context_tuples s = fill_contexts (contexts s)

module _ ⦃R : Rest⦄ where
  open R use {Value}

  -- The application of a lambda function.
  unfoldable pub lambda_info : Str → Outcome Value
  lambda_info name = app_info_list name (str "OpenLambdaMec") (str "1.0") [] no_app_charcs

  unfoldable pub add_lambda : Str → Applications → Outcome Applications
  unfolding catch_all lambda_info
  add_lambda name apps = do
    assert (not (empty name))
    catch_all apps (do info ← lambda_info name; (added, apps') ← add_app info apps; ok apps')

  unfoldable pub del_lambda : Str → Applications → Outcome Applications
  unfolding catch_all lambda_info
  del_lambda name apps = do
    assert (not (empty name))
    catch_all apps (do info ← lambda_info name; (removed, apps') ← del_app info apps; ok apps')
