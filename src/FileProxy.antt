-- ===== src/FileProxy.antt =====
-- EtsiMec/staticfileueapplcmproxy.cpp: the proxy that loads its table from a file. What the file
-- holds is an argument, `none` if it cannot be opened.
pub mod Laws
use etsimec.Prelude.{
  ℕ, Bool, true, false, not, ◌&&◌, ◌||◌, Str, str, empty, Option, none, some, Outcome, ok, throws,
  assert, ◌>>=◌, ◌>>◌, List, [], ◌∷◌, ◌++◌, if◌then◌else◌, eqb, ltb, ◌==◌, Str-eq, concat,
}
use etsimec.StaticProxy.{Routes, initial, associate_address}

-- `isspace` of the classic locale.
abbrev pub is_space : ℕ → Bool
is_space c = eqb c 32 || (ltb 8 c && ltb c 14)

flush : Str → List Str
flush [] = []
flush (c ∷ w) = (c ∷ w) ∷ []

-- The strings that `>>` extracts from a stream, after the letters of one that is begun.
unfoldable pub words_after : Str → Str → List Str
unfolding flush
words_after w [] = flush w
words_after w (c ∷ s) = elim (is_space c) [
  | true ↦ flush w ++ words_after [] s
  | false ↦ words_after (w ++ (c ∷ [])) s
]

abbrev pub words : Str → List Str
words s = words_after [] s

abbrev pub address_of : Str → Str
address_of a = if a == str "*" then [] else a

unfoldable pub ill_formed : Str → Str
ill_formed path = concat (str "Configuration file " ∷ path ∷ str " is ill-formed" ∷ [])

-- The loop, from what is left of the stream; the flag is `myEmpty`.
unfoldable pub load_words : Str → List Str → Bool → Routes → Outcome (Bool × Routes)
unfolding ill_formed
load_words path [] none_yet s = ok (none_yet, s)
load_words path (a ∷ []) none_yet s = throws (ill_formed path)
load_words path (a ∷ n ∷ []) none_yet s = throws (ill_formed path)
load_words path (a ∷ n ∷ r ∷ ws) none_yet s = do
  assert (not (empty n) && not (empty r))
  (s', out) ← associate_address (address_of a) n r s
  load_words path ws false s'

-- The constructor.
unfoldable pub load : Str → Option Str → Outcome Routes
unfolding load_words
load path none = throws (concat (str "Cannot open " ∷ path ∷ str " for reading" ∷ []))
load path (some content) = do
  (none_yet, s) ← load_words path (words content) true initial
  if none_yet then throws (str "Empty configuration in " ++ path) else ok s
