-- ===== src/Operator/Laws.antt =====
-- What an operator gets from the remote interface is what the proxy does.
use etsimec.Prelude.{
  Bool, Str, Option, ok, throws, aborts, Outcome, ◌>>=◌, sym, List, [], ◌∷◌, Str-eq, Str-discrete,
  ◌≡◌, refl, arith, returned, ◌⊎◌, inl, inr,
}
use etsimec.Rest.{Rest}
use etsimec.Rest.Laws.{IsLawful}
use etsimec.StaticProxy.{Routes, Notification, associate_address, remove_address}
use etsimec.StaticProxy.Invariant.{
  IsConsistent, associate_address-IsConsistent, remove_address-IsConsistent,
}
use etsimec.StaticProxy.Reroute.{associate_address-reroute, remove_address-reroute}
use etsimec.System.Invariant.{notify_one-IsConsistent}
use etsimec.Notify.{Answer, Post, notify_one, notify_clients}
use etsimec.Grpc
use etsimec.Grpc.Client
use etsimec.Grpc.Laws.{queries-agree}
use etsimec.Grpc.Lambda.{add_lambda-with_lambda, del_lambda-without_lambda}
use etsimec.Console.{
  Service, Command, help, associate, remove, add_lambda, del_lambda, num_contexts, table, contexts,
  quit, invalid, execute,
}
use etsimec.Joint.{answered_by}
use etsimec.Operator.{Server, checked, settle, remote, direct}

-- To check a chain of calls, check each of them.
pub checked-bind :
    {A B : Type 0} (lost : Str) (call : Outcome A) (next : A → Outcome B)
    → checked lost (call >>= next) ≡ (checked lost call >>= λ a. checked lost (next a))
checked-bind lost (ok a) next = refl
checked-bind lost (throws why) next = refl
checked-bind lost aborts next = refl

module _ ⦃R : Rest⦄ where
  notify_clients-IsConsistent :
      (validate : Str → Bool) (es : List (Notification × Answer)) (s s' : Routes) (sent : List Post)
      → IsConsistent s
      → notify_clients validate es s ≡ ok (s', sent)
      → IsConsistent s'
  unfolding notify_clients
  notify_clients-IsConsistent validate [] s s' sent v e = ground arith
  notify_clients-IsConsistent validate ((n, a) ∷ es) s s' sent v e =
      let ((t, out), e1, f1) = returned _ (notify_one validate n a s) e in
      let ((u, outs), e2, f2) = returned _ (notify_clients validate es t) f1 in
      let v1 = notify_one-IsConsistent validate n a s t out v e1 in
      let v2 = notify_clients-IsConsistent validate es t u outs v1 e2 in ground arith

  module _ (validate : Str → Bool) (answer : Notification → Answer) where
    settle-IsConsistent :
        (st st' : Server) (s : Routes) (out : List Notification)
        → IsConsistent s
        → settle validate answer st (s, out) ≡ ok st'
        → IsConsistent st'.routes
    unfolding settle
    settle-IsConsistent st st' s out v e =
        let ((t, sent), e1, f1) =
          returned _ (notify_clients validate (answered_by answer out) s) e in
        let v1 = notify_clients-IsConsistent validate (answered_by answer out) s t sent v e1 in
        ground arith

    abbrev remote_service : Str → Service
    remote_service lost = remote validate answer lost

    abbrev direct_service : Service
    direct_service = direct validate answer

    associate_address-direct :
        (lost a n r : Str) (st : Server)
        → IsConsistent st.routes
        → (remote_service lost).associate_address a n r st
          ≡ checked lost (direct_service.associate_address a n r st)
    unfolding Client.associate_address Grpc.associate Grpc.catch_all
    associate_address-direct lost a [] r st v = ground arith
    associate_address-direct lost a (c ∷ n) [] st v = ground arith
    associate_address-direct lost a (c ∷ n) (b ∷ r) st v =
        rw (associate_address-reroute a (c ∷ n) (b ∷ r) st.routes v.routed) (ground arith)

    remove_address-direct :
        (lost a n : Str) (st : Server)
        → IsConsistent st.routes
        → (remote_service lost).remove_address a n st
          ≡ checked lost (direct_service.remove_address a n st)
    unfolding Client.remove_address Grpc.remove Grpc.catch_all
    remove_address-direct lost a [] st v = ground arith
    remove_address-direct lost a (c ∷ n) st v =
        rw (remove_address-reroute a (c ∷ n) st.routes v.table_distinct v.has_routers v.routed)
          (ground arith)

    module _ (L : IsLawful R) where
      add_lambda-direct :
          (lost x : Str) (st : Server)
          → (remote_service lost).add_lambda x st ≡ direct_service.add_lambda x st
      unfolding Client.add_lambda Str-discrete
      add_lambda-direct lost [] st = refl
      add_lambda-direct lost (c ∷ x) st =
          rw (add_lambda-with_lambda L (c ∷ x) st.apps (λ e. cc)) refl

      del_lambda-direct :
          (lost x : Str) (st : Server)
          → (remote_service lost).del_lambda x st ≡ direct_service.del_lambda x st
      unfolding Client.del_lambda Str-discrete
      del_lambda-direct lost [] st = refl
      del_lambda-direct lost (c ∷ x) st =
          rw (del_lambda-without_lambda L (c ∷ x) st.apps (λ e. cc)) refl

      pub execute-direct :
          (help_text lost : Str) (c : Command) (st : Server)
          → IsConsistent st.routes
          → execute (remote_service lost) help_text c st
            ≡ checked lost (execute direct_service help_text c st)
      unfolding execute Client.num_contexts
      execute-direct help_text lost help st v = refl
      execute-direct help_text lost (associate a n r) st v =
          rw (associate_address-direct lost a n r st v)
            (sym (checked-bind lost (direct_service.associate_address a n r st) _))
      execute-direct help_text lost (remove a n) st v =
          rw (remove_address-direct lost a n st v)
            (sym (checked-bind lost (direct_service.remove_address a n st) _))
      execute-direct help_text lost (add_lambda x) st v =
          rw (add_lambda-direct lost x st) (ground arith)
      execute-direct help_text lost (del_lambda x) st v =
          rw (del_lambda-direct lost x st) (ground arith)
      execute-direct help_text lost num_contexts st v =
          let (a, b, c) = queries-agree st.routes v in rw c refl
      execute-direct help_text lost table st v =
          let (a, b, c) = queries-agree st.routes v in rw a refl
      execute-direct help_text lost contexts st v =
          let (a, b, c) = queries-agree st.routes v in rw b refl
      execute-direct help_text lost quit st v = refl
      execute-direct help_text lost invalid st v = refl

    direct_associate-IsConsistent :
        (a n r : Str) (st st' : Server)
        → IsConsistent st.routes
        → direct_service.associate_address a n r st ≡ ok st'
        → IsConsistent st'.routes
    unfolding Str-discrete
    direct_associate-IsConsistent a [] r st st' v e = absurd (ground arith)
    direct_associate-IsConsistent a (c ∷ n) [] st st' v e = absurd (ground arith)
    direct_associate-IsConsistent a (c ∷ n) (b ∷ r) st st' v e =
        let ((s, out), e1, f1) = returned _ (associate_address a (c ∷ n) (b ∷ r) st.routes) e in
        settle-IsConsistent st st' s out
          (associate_address-IsConsistent a (c ∷ n) (b ∷ r) st.routes s out v e1) f1

    direct_remove-IsConsistent :
        (a n : Str) (st st' : Server)
        → IsConsistent st.routes
        → direct_service.remove_address a n st ≡ ok st'
        → IsConsistent st'.routes
    unfolding Str-discrete
    direct_remove-IsConsistent a [] st st' v e = absurd (ground arith)
    direct_remove-IsConsistent a (c ∷ n) st st' v e =
        let ((s, out), e1, f1) = returned _ (remove_address a (c ∷ n) st.routes) e in
        settle-IsConsistent st st' s out
          (remove_address-IsConsistent a (c ∷ n) st.routes s out v e1) f1

    direct_lambda-IsConsistent :
        (x : Str) (st st' : Server)
        → IsConsistent st.routes
        → (direct_service.add_lambda x st ≡ ok st') ⊎ (direct_service.del_lambda x st ≡ ok st')
        → IsConsistent st'.routes
    direct_lambda-IsConsistent x st st' v (inl e) = ground arith
    direct_lambda-IsConsistent x st st' v (inr e) = ground arith

    pub execute-IsConsistent :
        (help_text : Str) (c : Command) (st st' : Server) (out : Option Str)
        → IsConsistent st.routes
        → execute direct_service help_text c st ≡ ok (out, st')
        → IsConsistent st'.routes
    unfolding execute
    execute-IsConsistent help_text help st st' out v e = ground arith
    execute-IsConsistent help_text (associate a n r) st st' out v e =
        let (t, e1, f1) = returned _ (direct_service.associate_address a n r st) e in
        let w = direct_associate-IsConsistent a n r st t v e1 in ground arith
    execute-IsConsistent help_text (remove a n) st st' out v e =
        let (t, e1, f1) = returned _ (direct_service.remove_address a n st) e in
        let w = direct_remove-IsConsistent a n st t v e1 in ground arith
    execute-IsConsistent help_text (add_lambda x) st st' out v e =
        let (t, e1, f1) = returned _ (direct_service.add_lambda x st) e in
        let w = direct_lambda-IsConsistent x st t v (inl e1) in ground arith
    execute-IsConsistent help_text (del_lambda x) st st' out v e =
        let (t, e1, f1) = returned _ (direct_service.del_lambda x st) e in
        let w = direct_lambda-IsConsistent x st t v (inr e1) in ground arith
    execute-IsConsistent help_text num_contexts st st' out v e = ground arith
    execute-IsConsistent help_text table st st' out v e = ground arith
    execute-IsConsistent help_text contexts st st' out v e = ground arith
    execute-IsConsistent help_text quit st st' out v e = ground arith
    execute-IsConsistent help_text invalid st st' out v e = ground arith
