-- ===== src/Operator/Listed.antt =====
-- A script of an operator that lets no router change, and the list that a client gets after it.
use etsimec.Prelude.{
  Bool, true, false, not, Str, str, empty, Option, some, ok, List, [], ◌∷◌, ◌++◌, map, Str-eq,
  Str-discrete, ◌≡◌, refl, arith, Option-cases, inl, inr, ◌∙◌, ap,
}
use etsimec.Prelude.Dict.{Distinct}
use etsimec.Prelude.OrderedDict.{Ascending-Distinct}
use etsimec.Rest.{Rest}
use etsimec.Rest.Laws.{IsLawful}
use etsimec.LcmProxy.{values, handle_app_list}
use etsimec.StaticProxy.{Notification}
use etsimec.StaticProxy.Invariant.{IsConsistent}
use etsimec.Notify.{Answer}
use etsimec.Client.{app_list}
use etsimec.Client.Laws.{AreInfos, app_list-handle_app_list}
use etsimec.Grpc.Lambda.{lambda_value, app_info_of_json-lambda_value}
use etsimec.Console.{
  Service, Command, help, associate, remove, add_lambda, del_lambda, num_contexts, table, contexts,
  quit, invalid, execute, execute_tokens, execute_line, execute_lines, command_of,
}
use etsimec.Operator.{Server, checked, remote, direct}
use etsimec.Operator.Script.{execute_lines-direct}
use etsimec.Operator.Lambdas.{is_in, AreNames, AreUnique, entries, lookup-entries, Offers}
use etsimec.Operator.Offered.{on_lines, execute_lines-Offers}

-- A command that asks, or that adds or removes a lambda function with a name.
abbrev pub is_lambda_command : Command → Bool
is_lambda_command (associate a n r) = false
is_lambda_command (remove a n) = false
is_lambda_command (add_lambda x) = not (empty x)
is_lambda_command (del_lambda x) = not (empty x)
is_lambda_command _ = true

abbrev pub is_lambda_line : List Str → Bool
is_lambda_line [] = true
is_lambda_line (c ∷ args) = is_lambda_command (command_of c args)

abbrev pub AreLambdaLines : (Str → Str → List Str) → List Str → Type 0
AreLambdaLines split [] = Unit
AreLambdaLines split (line ∷ lines) =
    (is_lambda_line (split line (str " ")) ≡ true) × AreLambdaLines split lines

module _ ⦃R : Rest⦄ where
  module _ (validate : Str → Bool) (answer : Notification → Answer) (help_text : Str) where
    abbrev service : Service
    service = direct validate answer

    execute-returns :
        (c : Command) (st : Server)
        → is_lambda_command c ≡ true
        → (out : Option Str) × (st' : Server) × (execute service help_text c st ≡ ok (out, st'))
    unfolding execute Str-discrete
    execute-returns help st h = (_, _, refl)
    execute-returns (associate a n r) st h = absurd (ground arith)
    execute-returns (remove a n) st h = absurd (ground arith)
    execute-returns (add_lambda []) st h = absurd (ground arith)
    execute-returns (add_lambda (c ∷ x)) st h = (_, _, refl)
    execute-returns (del_lambda []) st h = absurd (ground arith)
    execute-returns (del_lambda (c ∷ x)) st h = (_, _, refl)
    execute-returns num_contexts st h = (_, _, refl)
    execute-returns table st h = (_, _, refl)
    execute-returns contexts st h = (_, _, refl)
    execute-returns quit st h = (_, _, refl)
    execute-returns invalid st h = (_, _, refl)

    execute_tokens-returns :
        (tokens : List Str) (st : Server)
        → is_lambda_line tokens ≡ true
        → (out : Option Str) × (st' : Server) × (execute_tokens service help_text tokens st
            ≡ ok (out, st'))
    unfolding execute_tokens
    execute_tokens-returns [] st h = (_, _, refl)
    execute_tokens-returns (c ∷ args) st h = execute-returns (command_of c args) st h

    execute_lines-returns :
        (split : Str → Str → List Str) (lines : List Str) (st : Server)
        → AreLambdaLines split lines
        → (printed : Str) × (st' : Server) × (execute_lines service help_text split lines st
            ≡ ok (printed, st'))
    unfolding execute_lines execute_line
    execute_lines-returns split [] st h = ([], st, refl)
    execute_lines-returns split (line ∷ lines) st (h, hs) =
        let (out, st1, e) = execute_tokens-returns (split line (str " ")) st h in
        let (printed, st2, f) = execute_lines-returns split lines st1 hs in
        elim (Option-cases out) [
          | inl over ↦ ([], st1, rw (e, over) refl)
          | inr (text, more) ↦ (text ++ printed, st2, rw (e, more) (rw f refl))
        ]

  values-entries : (ns : List Str) → values (entries ns) ≡ map lambda_value ns
  unfolding values entries
  values-entries [] = refl
  values-entries (n ∷ ns) = ap (λ vs. lambda_value n ∷ vs) (values-entries ns)

  entries-AreUnique : (ns : List Str) → Distinct (entries ns) → AreUnique ns
  unfolding entries
  entries-AreUnique [] u = tt
  entries-AreUnique (n ∷ ns) (fresh, u) =
      let e = lookup-entries n ns in (ground arith, entries-AreUnique ns u)

  module _ (L : IsLawful R) where
    map-AreInfos : (ns : List Str) → AreNames ns → AreInfos L (map lambda_value ns)
    map-AreInfos [] v = tt
    map-AreInfos (n ∷ ns) (named, short, v) =
        (app_info_of_json-lambda_value L n named short, map-AreInfos ns v)

    -- Over a lawful REST library, a consistent proxy and no applications: a script that has no
    -- `associate` or `remove` and no lambda function without a name returns over the remote interface.
    -- A client that asks for the list afterwards gets an application for each lambda function whose
    -- last command was to add it, once, and no others; a name of more than 32 bytes is never added.
    pub app_list-execute_lines :
        (validate : Str → Bool) (answer : Notification → Answer) (lost help_text : Str)
        (split : Str → Str → List Str) (lines : List Str) (st : Server)
        → IsConsistent st.routes
        → st.apps ≡ []
        → AreLambdaLines split lines
        → (printed : Str) × (st' : Server) × (names : List Str) × (body : R.Value) × (execute_lines
              (remote validate answer lost)
              help_text
              split
              lines
              st
            ≡ ok (printed, st'))
          × ((handle_app_list st'.apps).body ≡ some body)
          × (app_list (handle_app_list st'.apps).status body ≡ ok (map lambda_value names))
          × AreUnique names
          × ((n : Str) → is_in n names ≡ on_lines split n lines false)
    unfolding entries is_in
    app_list-execute_lines validate answer lost help_text split lines st v none_yet h =
        let (printed, st', e) = execute_lines-returns validate answer help_text split lines st h in
        let o0 : Offers st.apps (λ n. false) = record {
          names = [];
          same = none_yet;
          are_names = tt;
          ascending = rw none_yet tt;
          offered = λ n. refl;
        } in
        let o =
          execute_lines-Offers validate answer help_text split lines st st' printed (λ n. false) o0
            e in
        let listed = ap values o.same ∙ values-entries o.names in
        let (body, told, read) =
          app_list-handle_app_list L st'.apps (rw listed (map-AreInfos o.names o.are_names)) in
        (
          printed,
          st',
          o.names,
          body,
          execute_lines-direct L validate answer lost help_text split lines st v
              ∙ ap (checked lost) e,
          told,
          read ∙ ap ok listed,
          entries-AreUnique o.names (rw o.same at (Ascending-Distinct st'.apps o.ascending)),
          o.offered,
        )
