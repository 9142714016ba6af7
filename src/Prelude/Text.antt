-- ===== src/Prelude/Text.antt =====
-- `std::string` as the list of its bytes, with its comparison, and Boolean tests on numbers.
use Prim.Native.Nat.{ℕ, suc, ◌+◌, compare, Ordering}
use Prim.Native.Char.{code}
use Prim.Native.String.{String}
use mathlib.Core.Path.{◌≡◌, refl, sym, ap₂}
use mathlib.Core.Logic.{◌⊎◌, inl, inr, dite}
use mathlib.Core.Bool.{Bool, true, false}
use mathlib.Core.List.{List, [], ◌∷◌, ◌++◌, cons≢nil}
use mathlib.Core.Option.{Option, none, some}
use native.Mathlib.Decide.{ℕ_discrete}
use native.Mathlib.Omega.{arith}

infix 1 if◌then◌else◌
abbrev pub if◌then◌else◌ {ℓ} : {A : Type ℓ} → Bool → A → A → A
if true then x else y = x
if false then x else y = y

-- These compute to `compare`, which `ground` and `grind` read with no lemma listed.
abbrev pub ltb : ℕ → ℕ → Bool
ltb a b = elim (compare a b) [ Ordering.lt ↦ true | _ ↦ false ]

abbrev pub eqb : ℕ → ℕ → Bool
eqb a b = elim (compare a b) [ Ordering.eq ↦ true | _ ↦ false ]

pub Bool-cases : (b : Bool) → (b ≡ true) ⊎ (b ≡ false)
Bool-cases true = inl refl
Bool-cases false = inr refl

pub Option-cases {ℓ} : {A : Type ℓ} (o : Option A) → (o ≡ none) ⊎ ((a : A) × (o ≡ some a))
Option-cases none = inl refl
Option-cases (some a) = inr (a, refl)

module _ {ℓ} {A : Type ℓ} where
  abbrev pub length : List A → ℕ
  length [] = 0
  length (x ∷ xs) = suc (length xs)

  pub length-append : (xs ys : List A) → length (xs ++ ys) ≡ length xs + length ys
  length-append [] ys = omega arith
  length-append (x ∷ xs) ys = omega (arith, length-append xs ys)

abbrev pub Str : Type 0
Str = List ℕ

-- A literal of the source: its bytes.
abbrev pub str : String → Str
str String.[] = []
str (String.◌∷◌ c s) = code c ∷ str s

abbrev pub empty : Str → Bool
empty [] = true
empty (c ∷ s) = false

head_eq : {c d : ℕ} {s t : Str} → c ∷ s ≡ d ∷ t → c ≡ d
head_eq e = ground arith

tail_eq : {c d : ℕ} {s t : Str} → c ∷ s ≡ d ∷ t → s ≡ t
tail_eq e = cc

unfoldable pub Str-discrete : Discrete Str
unfolding ℕ_discrete head_eq tail_eq
Str-discrete [] [] = yes refl
Str-discrete [] (c ∷ s) = no (λ e. cons≢nil (sym e))
Str-discrete (c ∷ s) [] = no (λ e. cons≢nil e)
Str-discrete (c ∷ s) (d ∷ t) =
    let rest = Str-discrete s t in
    dite (ℕ_discrete c d) (λ p. dite rest (λ q. yes (ap₂ ◌∷◌ p q)) (λ n. no (λ e. n (tail_eq e))))
      (λ n. no (λ e. n (head_eq e)))

-- A type whose `operator==` decides equality.
pub record Eq {ℓ} (A : Type ℓ) : Type ℓ where
  pub dec : Discrete A

infix 50 ◌==◌
abbrev pub ◌==◌ {ℓ} : {A : Type ℓ} ⦃e : Eq A⦄ → A → A → Bool
◌==◌ ⦃e⦄ a b = elim (e.dec a b) [ yes p ↦ true | no n ↦ false ]

-- `Str-discrete` stays shut, so a proof that splits on `s == t` has the equation or its negation.
instance abbrev pub Str-eq : Eq Str
Str-eq = record { dec = Str-discrete }

-- `std::string` has the lexicographic order of the bytes.
abbrev pub str_ltb : Str → Str → Bool
str_ltb s [] = false
str_ltb [] (d ∷ t) = true
str_ltb (c ∷ s) (d ∷ t) = elim (compare c d) [
  | Ordering.lt ↦ true
  | Ordering.eq ↦ str_ltb s t
  | Ordering.gt ↦ false
]

-- A chain of `+` or `<<`.
abbrev pub concat : List Str → Str
concat [] = []
concat (s ∷ ss) = s ++ concat ss
