-- ===== src/Operator/Offered.antt =====
-- A script that adds and removes lambda functions, and the list that a client gets after it.
use etsimec.Prelude.{
  Bool, true, false, Str, str, Option, none, some, ok, List, [], ◌∷◌, if◌then◌else◌, Str-eq,
  Str-discrete, ◌≡◌, arith, returned, sym, Option-cases, inl, inr,
}
use etsimec.Rest.{Rest}
use etsimec.LcmProxy.{Applications}
use etsimec.StaticProxy.{Routes, Notification, associate_address, remove_address}
use etsimec.Notify.{Answer, notify_clients}
use etsimec.Joint.{answered_by}
use etsimec.Grpc.Lambda.{with_lambda, without_lambda}
use etsimec.Console.{
  Service, Command, help, associate, remove, add_lambda, del_lambda, num_contexts, table, contexts,
  quit, invalid, execute, execute_tokens, execute_line, execute_lines, execute_rest, command_of,
}
use etsimec.Operator.{Server, settle, direct}
use etsimec.Operator.Lambdas.{on_command, Offers, with_lambda-Offers, without_lambda-Offers}

unfoldable pub on_tokens : Str → List Str → Bool → Bool
on_tokens n [] was = was
on_tokens n (c ∷ args) was = on_command n (command_of c args) was

abbrev ends : Command → Bool
ends quit = true
ends _ = false

abbrev ends_tokens : List Str → Bool
ends_tokens [] = false
ends_tokens (c ∷ args) = ends (command_of c args)

-- Whether it is offered after the lines of a script, which are read up to the first `quit`.
unfoldable pub on_lines : (Str → Str → List Str) → Str → List Str → Bool → Bool
on_lines split n [] was = was
on_lines split n (line ∷ lines) was =
    let tokens = split line (str " ") in
    let now = on_tokens n tokens was in
    let rest = on_lines split n lines now in if ends_tokens tokens then now else rest

abbrev is_none : Option Str → Bool
is_none none = true
is_none (some out) = false

module _ ⦃R : Rest⦄ where
  module _ (validate : Str → Bool) (answer : Notification → Answer) (help_text : Str) where
    abbrev service : Service
    service = direct validate answer

    settle-apps :
        (st st' : Server) (s : Routes) (out : List Notification)
        → settle validate answer st (s, out) ≡ ok st'
        → st'.apps ≡ st.apps
    unfolding settle
    settle-apps st st' s out e =
        let ((t, sent), e1, f1) =
          returned _ (notify_clients validate (answered_by answer out) s) e in
        ground arith

    associate_address-apps :
        (a n r : Str) (st st' : Server)
        → service.associate_address a n r st ≡ ok st'
        → st'.apps ≡ st.apps
    unfolding Str-discrete
    associate_address-apps a [] r st st' e = absurd (ground arith)
    associate_address-apps a (c ∷ n) [] st st' e = absurd (ground arith)
    associate_address-apps a (c ∷ n) (b ∷ r) st st' e =
        let ((s, out), e1, f1) = returned _ (associate_address a (c ∷ n) (b ∷ r) st.routes) e in
        settle-apps st st' s out f1

    remove_address-apps :
        (a n : Str) (st st' : Server) → service.remove_address a n st ≡ ok st' → st'.apps ≡ st.apps
    unfolding Str-discrete
    remove_address-apps a [] st st' e = absurd (ground arith)
    remove_address-apps a (c ∷ n) st st' e =
        let ((s, out), e1, f1) = returned _ (remove_address a (c ∷ n) st.routes) e in
        settle-apps st st' s out f1

    add_lambda-Offers :
        (x : Str) (st st' : Server) (on : Str → Bool)
        → Offers st.apps on
        → service.add_lambda x st ≡ ok st'
        → Offers st'.apps (λ n. on_command n (add_lambda x) (on n))
    unfolding Str-discrete
    add_lambda-Offers [] st st' on o e = absurd (ground arith)
    add_lambda-Offers (c ∷ x) st st' on o e =
        let same : with_lambda (c ∷ x) st.apps ≡ st'.apps = ground arith in
        rw (sym same) (with_lambda-Offers (c ∷ x) st.apps on (λ k. cc) o)

    del_lambda-Offers :
        (x : Str) (st st' : Server) (on : Str → Bool)
        → Offers st.apps on
        → service.del_lambda x st ≡ ok st'
        → Offers st'.apps (λ n. on_command n (del_lambda x) (on n))
    unfolding Str-discrete
    del_lambda-Offers [] st st' on o e = absurd (ground arith)
    del_lambda-Offers (c ∷ x) st st' on o e =
        let same : without_lambda (c ∷ x) st.apps ≡ st'.apps = ground arith in
        rw (sym same) (without_lambda-Offers (c ∷ x) st.apps on o)

    kept-Offers :
        (apps apps' : Applications) (on : Str → Bool)
        → apps' ≡ apps
        → Offers apps on
        → Offers apps' on
    kept-Offers apps apps' on e o = rw e o

    execute-Offers :
        (c : Command) (st st' : Server) (out : Option Str) (on : Str → Bool)
        → Offers st.apps on
        → execute service help_text c st ≡ ok (out, st')
        → Offers st'.apps (λ n. on_command n c (on n)) × (ends c ≡ is_none out)
    unfolding execute on_command
    execute-Offers help st st' out on o e =
        (kept-Offers st.apps st'.apps on (ground arith) o, ground arith)
    execute-Offers (associate a n r) st st' out on o e =
        let (t, e1, f1) = returned _ (service.associate_address a n r st) e in
        let k = associate_address-apps a n r st t e1 in
        (kept-Offers st.apps st'.apps on (ground arith) o, ground arith)
    execute-Offers (remove a n) st st' out on o e =
        let (t, e1, f1) = returned _ (service.remove_address a n st) e in
        let k = remove_address-apps a n st t e1 in
        (kept-Offers st.apps st'.apps on (ground arith) o, ground arith)
    execute-Offers (add_lambda x) st st' out on o e =
        let (t, e1, f1) = returned _ (service.add_lambda x st) e in
        (
          kept-Offers t.apps st'.apps _ (ground arith) (add_lambda-Offers x st t on o e1),
          ground arith,
        )
    execute-Offers (del_lambda x) st st' out on o e =
        let (t, e1, f1) = returned _ (service.del_lambda x st) e in
        (
          kept-Offers t.apps st'.apps _ (ground arith) (del_lambda-Offers x st t on o e1),
          ground arith,
        )
    execute-Offers num_contexts st st' out on o e =
        (kept-Offers st.apps st'.apps on (ground arith) o, ground arith)
    execute-Offers table st st' out on o e =
        (kept-Offers st.apps st'.apps on (ground arith) o, ground arith)
    execute-Offers contexts st st' out on o e =
        (kept-Offers st.apps st'.apps on (ground arith) o, ground arith)
    execute-Offers quit st st' out on o e =
        (kept-Offers st.apps st'.apps on (ground arith) o, ground arith)
    execute-Offers invalid st st' out on o e =
        (kept-Offers st.apps st'.apps on (ground arith) o, ground arith)

    execute_tokens-Offers :
        (tokens : List Str) (st st' : Server) (out : Option Str) (on : Str → Bool)
        → Offers st.apps on
        → execute_tokens service help_text tokens st ≡ ok (out, st')
        → Offers st'.apps (λ n. on_tokens n tokens (on n)) × (ends_tokens tokens ≡ is_none out)
    unfolding execute_tokens on_tokens
    execute_tokens-Offers [] st st' out on o e =
        (kept-Offers st.apps st'.apps on (ground arith) o, ground arith)
    execute_tokens-Offers (c ∷ args) st st' out on o e =
        execute-Offers (command_of c args) st st' out on o e

    pub execute_lines-Offers :
        (split : Str → Str → List Str) (lines : List Str) (st st' : Server) (printed : Str)
        (on : Str → Bool)
        → Offers st.apps on
        → execute_lines service help_text split lines st ≡ ok (printed, st')
        → Offers st'.apps (λ n. on_lines split n lines (on n))
    unfolding execute_lines execute_line on_lines
    execute_lines-Offers split [] st st' printed on o e =
        kept-Offers st.apps st'.apps on (ground arith) o
    execute_lines-Offers split (line ∷ lines) st st' printed on o e =
        let tokens = split line (str " ") in
        let ((out, st1), e1, f1) = returned _ (execute_tokens service help_text tokens st) e in
        let (o1, ended) = execute_tokens-Offers tokens st st1 out on o e1 in
        elim (Option-cases out) [
          | inl over ↦
              let ends_here : ends_tokens tokens ≡ true = ground arith in
              let left : st'.apps ≡ st1.apps = ground arith in
              rw ends_here (kept-Offers st1.apps st'.apps _ left o1)
          | inr (text, more) ↦
              let goes_on : ends_tokens tokens ≡ false = ground arith in
              let g : execute_rest service help_text (some text)
                    (execute_lines service help_text split lines) st1
                  ≡ ok (printed, st') =
                rw more at f1 in
              let ((printed', st2), e2, f2) =
                returned _ (execute_lines service help_text split lines st1) g in
              let o2 = execute_lines-Offers split lines st1 st2 printed' _ o1 e2 in
              let left : st'.apps ≡ st2.apps = ground arith in
              rw goes_on (kept-Offers st2.apps st'.apps _ left o2)
        ]
