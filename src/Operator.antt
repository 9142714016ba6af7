-- ===== src/Operator.antt =====
-- The operator's program (Executables/ueapplcmproxyclientmain.cpp) over the client and the service of
-- EtsiMec/grpcueapplcmproxyclient.cpp and EtsiMec/grpcueapplcmproxy.cpp, and the proxy behind them.
-- The stub hands each message to the handler and its reply back. No other call comes between. The
-- service is another process: where it aborts, the stub gives a status that is not OK, for which
-- `checkStatus` throws; what it throws then is a parameter.
pub mod Laws
pub mod Script
pub mod Lambdas
pub mod Offered
pub mod Listed
use etsimec.Prelude.{
  ℕ, Bool, Str, str, Outcome, ok, throws, aborts, ◌>>=◌, List, [], ◌++◌, length, if◌then◌else◌,
  ◌==◌, Str-eq,
}
use Prim.Native.Nat.{◌^◌, ◌%◌}
use etsimec.Rest.{Rest}
use etsimec.LcmProxy.{Applications}
use etsimec.StaticProxy.{
  Routes, Notification, associate_address, remove_address, address_associations, contexts,
}
use etsimec.Notify.{Answer, Post, notify_clients}
use etsimec.Grpc.{associate, remove, count, table, context_tuples, add_lambda, del_lambda}
use etsimec.Grpc.Client
use etsimec.Grpc.Lambda.{with_lambda, without_lambda}
use etsimec.Console.{Service}
use etsimec.Joint.{answered_by}

-- A call of another process, as its caller sees it: `lost` is thrown if that process aborts.
abbrev pub checked : {A : Type 0} → Str → Outcome A → Outcome A
checked lost (ok reply) = ok reply
checked lost (throws why) = throws why
checked lost aborts = throws lost

module _ ⦃R : Rest⦄ where
  -- The state of the server, and the notifications that it sent.
  pub record Server : Type 0 where
    pub apps : Applications
    pub routes : Routes
    pub sent : List Post

  module _ (validate : Str → Bool) (answer : Notification → Answer) where
    -- What a call does after its critical section.
    unfoldable pub settle : Server → Routes × List Notification → Outcome Server
    settle st (s, out) = do
      (s', sent) ← notify_clients validate (answered_by answer out) s
      ok (record st { routes = s'; sent = st.sent ++ sent })

    -- The calls of the client, over the handlers of the service.
    abbrev pub remote : Str → Service
    remote lost = record {
      State = Server;
      associate_address = λ a n r st.
          Client.associate_address (λ req. checked lost (associate req st.routes >>= settle st)) a n
            r;
      remove_address = λ a n st.
          Client.remove_address (λ req. checked lost (remove req st.routes >>= settle st)) a n;
      add_lambda = λ x st.
          Client.add_lambda
            (λ name.
              checked lost (add_lambda name st.apps >>= λ apps. ok (record st { apps = apps })))
            x;
      del_lambda = λ x st.
          Client.del_lambda
            (λ name.
              checked lost (del_lambda name st.apps >>= λ apps. ok (record st { apps = apps })))
            x;
      num_contexts = λ st. Client.num_contexts (checked lost (count st.routes));
      table = λ st. Client.table (checked lost (ok (table st.routes)));
      contexts = λ st. Client.contexts (checked lost (ok (context_tuples st.routes)));
    }

    -- What the calls are meant to do to the proxy.
    abbrev pub direct : Service
    direct = record {
      State = Server;
      associate_address = λ a n r st.
          if n == []
          then throws (str "Invalid empty application name")
          else if r == []
          then throws (str "Invalid empty edge router address")
          else associate_address a n r st.routes >>= settle st;
      remove_address = λ a n st.
          if n == []
          then throws (str "Invalid empty application name")
          else remove_address a n st.routes >>= settle st;
      add_lambda = λ x st.
          if x == []
          then throws (str "Invalid empty lambda function name")
          else ok (record st { apps = with_lambda x st.apps });
      del_lambda = λ x st.
          if x == []
          then throws (str "Invalid empty lambda function name")
          else ok (record st { apps = without_lambda x st.apps });
      num_contexts = λ st. ok (length st.routes.by_context % 2 ^ 32);
      table = λ st. ok (address_associations st.routes);
      contexts = λ st. ok (contexts st.routes);
    }
