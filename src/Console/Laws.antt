-- ===== src/Console/Laws.antt =====
-- Executables/ueapplcmproxyclientmain.cpp: how often the lines of the input are executed.
use etsimec.Prelude.{Str, List, [], ◌∷◌, ◌++◌, ◌≡◌, ◌≢◌, refl, arith}
use mathlib.Core.List.{append_assoc, append-nil}
use mathlib.Core.Path.{sym, ap}
use etsimec.Console.{rounds_after, rounds}

-- The input of lines that each end with a line feed.
abbrev pub text_of : List Str → Str
text_of [] = []
text_of (l ∷ ls) = l ++ (10 ∷ text_of ls)

abbrev pub IsLine : Str → Type 0
IsLine [] = Unit
IsLine (c ∷ s) = (c ≢ 10) × IsLine s

abbrev pub AreLines : List Str → Type 0
AreLines [] = Unit
AreLines (l ∷ ls) = IsLine l × AreLines ls

rounds_after-line :
    (begun line rest : Str)
    → IsLine line
    → rounds_after begun (line ++ rest) ≡ rounds_after (begun ++ line) rest
unfolding rounds_after
rounds_after-line begun [] rest h = ap (λ w. rounds_after w rest) (sym (append-nil begun))
rounds_after-line begun (c ∷ line) rest (n, h) =
    let ih = rounds_after-line (begun ++ (c ∷ [])) line rest h in
    let e = append_assoc begun (c ∷ []) line in ground arith

-- If the last line has no line feed it is executed twice; the lines before it are executed once.
pub rounds-unterminated :
    (lines : List Str) (line : Str)
    → AreLines lines
    → IsLine line
    → line ≢ []
    → rounds (text_of lines ++ line) ≡ lines ++ (line ∷ line ∷ [])
unfolding rounds_after
rounds-unterminated [] line h k n =
    let e = rounds_after-line [] line [] k in let f = append-nil line in grind arith
rounds-unterminated (l ∷ lines) line (h, hs) k n =
    let e = rounds_after-line [] l (10 ∷ (text_of lines ++ line)) h in
    let ih = rounds-unterminated lines line hs k n in
    let f = append_assoc l (10 ∷ text_of lines) line in grind arith

-- Where every line ends with a line feed, each is executed once, and then an empty one.
pub rounds-terminated :
    (lines : List Str) → AreLines lines → rounds (text_of lines) ≡ lines ++ ([] ∷ [])
unfolding rounds_after
rounds-terminated [] h = refl
rounds-terminated (l ∷ lines) (h, hs) =
    let e = rounds_after-line [] l (10 ∷ text_of lines) h in
    let ih = rounds-terminated lines hs in grind arith
