-- ===== src/Operator/Script.antt =====
-- A script of the operator: each line that the program reads, over the remote interface and over the
-- proxy itself.
use etsimec.Prelude.{
  Bool, throws, aborts, Str, str, Option, none, some, Outcome, ok, ◌>>=◌, List, [], ◌∷◌, ◌≡◌, refl,
  arith, sym,
}
use etsimec.Rest.{Rest}
use etsimec.Rest.Laws.{IsLawful}
use etsimec.StaticProxy.{Notification}
use etsimec.StaticProxy.Invariant.{IsConsistent}
use etsimec.Notify.{Answer}
use etsimec.Console.{execute_tokens, execute_rest, execute_line, execute_lines, command_of}
use etsimec.Operator.{Server, checked, remote, direct}
use etsimec.Operator.Laws.{checked-bind, execute-direct, execute-IsConsistent}

-- Two ways to go on from a call that agree, once checked, wherever it returns.
same_rest :
    {A B : Type 0} (lost : Str) (call : Outcome A) (f g : A → Outcome B)
    → ((a : A) → call ≡ ok a → f a ≡ checked lost (g a))
    → (checked lost call >>= f) ≡ checked lost (call >>= g)
same_rest lost (ok a) f g h = h a refl
same_rest lost (throws why) f g h = refl
same_rest lost aborts f g h = refl

module _ ⦃R : Rest⦄ (L : IsLawful R) (validate : Str → Bool) (answer : Notification → Answer)
    (lost help_text : Str) (split : Str → Str → List Str) where
  tokens-direct :
      (tokens : List Str) (st : Server)
      → IsConsistent st.routes
      → execute_tokens (remote validate answer lost) help_text tokens st
        ≡ checked lost (execute_tokens (direct validate answer) help_text tokens st)
  unfolding execute_tokens
  tokens-direct [] st v = refl
  tokens-direct (c ∷ args) st v =
      execute-direct validate answer L help_text lost (command_of c args) st v

  tokens-IsConsistent :
      (tokens : List Str) (st st' : Server) (out : Option Str)
      → IsConsistent st.routes
      → execute_tokens (direct validate answer) help_text tokens st ≡ ok (out, st')
      → IsConsistent st'.routes
  unfolding execute_tokens
  tokens-IsConsistent [] st st' out v e = ground arith
  tokens-IsConsistent (c ∷ args) st st' out v e =
      execute-IsConsistent validate answer help_text (command_of c args) st st' out v e

  rest-direct :
      (lines : List Str)
      → ((st : Server)
          → IsConsistent st.routes
          → execute_lines (remote validate answer lost) help_text split lines st
            ≡ checked lost (execute_lines (direct validate answer) help_text split lines st))
      → (printed : Option Str) (st : Server) → IsConsistent st.routes
      → execute_rest
          (remote validate answer lost)
          help_text
          printed
          (execute_lines (remote validate answer lost) help_text split lines)
          st
        ≡ checked lost (
            execute_rest
              (direct validate answer)
              help_text
              printed
              (execute_lines (direct validate answer) help_text split lines)
              st)
  rest-direct lines h none st v = refl
  rest-direct lines h (some out) st v =
      rw (h st v) (
        sym (checked-bind lost (execute_lines (direct validate answer) help_text split lines st) _))

  -- Over a lawful REST library and a consistent proxy: what a script prints over the remote
  -- interface, and the server and the notifications that it leaves, are what they are over the proxy
  -- itself, and where that throws, it throws the same. Where the proxy aborts, the program of the
  -- operator throws what the stub's status gives.
  pub execute_lines-direct :
      (lines : List Str) (st : Server)
      → IsConsistent st.routes
      → execute_lines (remote validate answer lost) help_text split lines st
        ≡ checked lost (execute_lines (direct validate answer) help_text split lines st)
  unfolding execute_lines execute_line
  execute_lines-direct [] st v = refl
  execute_lines-direct (line ∷ lines) st v =
      let tokens = split line (str " ") in
      rw (tokens-direct tokens st v) (
        same_rest lost (execute_tokens (direct validate answer) help_text tokens st) _ _
          (λ (printed, st') e.
            rest-direct lines (execute_lines-direct lines) printed st'
              (tokens-IsConsistent tokens st st' printed v e)))
