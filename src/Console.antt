-- ===== src/Console.antt =====
-- Executables/ueapplcmproxyclientmain.cpp: the commands read from standard input. The client of the
-- service is a record of its calls, `support::split` is a parameter, and `help` stands for the text
-- printed by that command.
pub mod Laws
use etsimec.Prelude.{
  ℕ, Bool, true, false, Str, str, empty, Option, none, some, Outcome, ok, ◌>>=◌, List, [], ◌∷◌,
  ◌++◌, if◌then◌else◌, eqb, ◌==◌, ◌&&◌, Str-eq, concat, length,
}
use etsimec.Prelude.Decimal.{to_string}

-- `GrpcUeAppLcmProxyClient`, over the state of the service.
pub record Service : Type 1 where
  pub State : Type 0
  pub associate_address : Str → Str → Str → State → Outcome State
  pub remove_address : Str → Str → State → Outcome State
  pub add_lambda : Str → State → Outcome State
  pub del_lambda : Str → State → Outcome State
  pub num_contexts : State → Outcome ℕ
  pub table : State → Outcome (List (Str × Str × Str))
  pub contexts : State → Outcome (List (Str × Str × Str))

pub data Command : Type 0 where
  help : Command
  associate : Str → Str → Str → Command
  remove : Str → Str → Command
  add_lambda : Str → Command
  del_lambda : Str → Command
  num_contexts : Command
  table : Command
  contexts : Command
  quit : Command
  invalid : Command

abbrev pub line_feed : Str
line_feed = 10 ∷ []

-- The commands by their number of arguments.
unfoldable pub command_on : Str → List Str → Command
command_on c [] =
    if c == str "num-contexts"
    then num_contexts
    else if c == str "table"
    then table
    else if c == str "contexts"
    then contexts
    else if c == str "quit"
    then quit
    else invalid
command_on c (x ∷ []) =
    if c == str "add-lambda"
    then add_lambda x
    else if c == str "del-lambda"
    then del_lambda x
    else invalid
command_on c (x ∷ y ∷ []) =
    if c == str "remove" then remove (if x == str "*" then [] else x) y else invalid
command_on c (x ∷ y ∷ z ∷ []) =
    if c == str "associate" then associate (if x == str "*" then [] else x) y z else invalid
command_on c (x ∷ y ∷ z ∷ w ∷ rest) = invalid

-- The tests on the tokens: `help` takes any arguments.
unfoldable pub command_of : Str → List Str → Command
unfolding command_on
command_of c args = if c == str "help" then help else command_on c args

-- One line for each triple.
unfoldable pub print_rows : List (Str × Str × Str) → Str
print_rows [] = []
print_rows ((a, n, r) ∷ rows) = concat (
    (if empty a then str "*" else a) ∷ str " " ∷ n ∷ str " " ∷ r ∷ line_feed ∷ print_rows rows ∷ [])

module _ (S : Service) (help_text : Str) where
  open S use {State}

  -- What a command prints, and the state it leaves; `none` is the end of the loop.
  unfoldable pub execute : Command → State → Outcome (Option Str × State)
  unfolding print_rows
  execute help s = ok (some (help_text ++ line_feed), s)
  execute (associate a n r) s = do
    s' ← S.associate_address a n r s
    ok (some (str "OK" ++ line_feed), s')
  execute (remove a n) s = do s' ← S.remove_address a n s; ok (some (str "OK" ++ line_feed), s')
  execute (add_lambda x) s = do s' ← S.add_lambda x s; ok (some (str "OK" ++ line_feed), s')
  execute (del_lambda x) s = do s' ← S.del_lambda x s; ok (some (str "OK" ++ line_feed), s')
  execute num_contexts s = do n ← S.num_contexts s; ok (some (to_string n ++ line_feed), s)
  execute table s = do rows ← S.table s; ok (some (print_rows rows), s)
  execute contexts s = do rows ← S.contexts s; ok (some (print_rows rows), s)
  execute quit s = ok (none, s)
  execute invalid s = ok (some (str "Invalid command" ++ line_feed), s)

  -- A line by its tokens; one without any is skipped.
  unfoldable pub execute_tokens : List Str → State → Outcome (Option Str × State)
  unfolding execute command_of
  execute_tokens [] s = ok (some [], s)
  execute_tokens (c ∷ args) s = execute (command_of c args) s

  -- The body of the loop.
  unfoldable pub execute_line : (Str → Str → List Str) → Str → State → Outcome (Option Str × State)
  unfolding execute_tokens
  execute_line split line s = execute_tokens (split line (str " ")) s

  -- What follows a round: the end of the loop, or more of it.
  abbrev pub execute_rest :
      Option Str → (State → Outcome (Str × State)) → State → Outcome (Str × State)
  execute_rest none more s = ok ([], s)
  execute_rest (some out) more s = do (outs, s') ← more s; ok (out ++ outs, s')

  -- The rounds of the loop, on the lines that they see. An exception ends the program: the result is
  -- then the exception alone, without what was printed before it.
  unfoldable pub execute_lines : (Str → Str → List Str) → List Str → State → Outcome (Str × State)
  unfolding execute_line
  execute_lines split [] s = ok ([], s)
  execute_lines split (line ∷ lines) s = do
    (printed, s') ← execute_line split line s
    execute_rest printed (execute_lines split lines) s'

-- The value of `myLine` in each round. `std::getline` clears it only if the stream is good, so
-- where the input does not end with a line feed, the last line is seen again once the end is met.
unfoldable pub rounds_after : Str → Str → List Str
rounds_after line [] = if empty line then [] ∷ [] else line ∷ line ∷ []
rounds_after line (c ∷ s) = elim (eqb c 10) [
  | true ↦ line ∷ rounds_after [] s
  | false ↦ rounds_after (line ++ (c ∷ [])) s
]

abbrev pub rounds : Str → List Str
rounds input = rounds_after [] input
