-- ===== src/Grpc/Client.antt =====
-- EtsiMec/grpcueapplcmproxyclient.cpp: the calls of the service. The stub is a parameter of each
-- call, together with the check of the status, which throws: it takes the message and gives what
-- the server gave.
use etsimec.Prelude.{ℕ, Str, str, empty, Outcome, ok, throw_if, ◌>>=◌, ◌>>◌, List, [], ◌∷◌}
use etsimec.Grpc.{AddressTuple, ContextTuple}

module _ {ℓ} {A : Type ℓ} where
  unfoldable pub associate_address : (AddressTuple → Outcome A) → Str → Str → Str → Outcome A
  associate_address stub client name server = do
    throw_if (empty name) (str "Invalid empty application name")
    throw_if (empty server) (str "Invalid empty edge router address")
    stub (record { client = client; app_name = name; server = server })

  unfoldable pub remove_address : (AddressTuple → Outcome A) → Str → Str → Outcome A
  remove_address stub client name = do
    throw_if (empty name) (str "Invalid empty application name")
    stub (record { client = client; app_name = name; server = [] })

  unfoldable pub add_lambda : (Str → Outcome A) → Str → Outcome A
  add_lambda stub name = do
    throw_if (empty name) (str "Invalid empty lambda function name")
    stub name

  unfoldable pub del_lambda : (Str → Outcome A) → Str → Outcome A
  del_lambda stub name = do
    throw_if (empty name) (str "Invalid empty lambda function name")
    stub name

unfoldable pub num_contexts : Outcome ℕ → Outcome ℕ
num_contexts reply = reply

unfoldable pub read_table : List AddressTuple → List (Str × Str × Str)
read_table [] = []
read_table (e ∷ es) = (e.client, e.app_name, e.server) ∷ read_table es

unfoldable pub table : Outcome (List AddressTuple) → Outcome (List (Str × Str × Str))
unfolding read_table
table reply = do tuples ← reply; ok (read_table tuples)

unfoldable pub read_contexts : List ContextTuple → List (Str × Str × Str)
read_contexts [] = []
read_contexts (e ∷ es) = (e.address, e.app_name, e.edge_router) ∷ read_contexts es

unfoldable pub contexts : Outcome (List ContextTuple) → Outcome (List (Str × Str × Str))
unfolding read_contexts
contexts reply = do tuples ← reply; ok (read_contexts tuples)
