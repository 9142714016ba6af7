-- ===== src/Prelude/Decimal.antt =====
-- `std::to_string` of an unsigned number: its decimal digits.
use Prim.Native.Nat.{ℕ, zero, suc, ◌+◌, ◌-◌, ◌*◌, ◌/◌, ◌%◌, ◌<◌}
use mathlib.Core.Path.{◌≡◌}
use mathlib.Core.Logic.{inl, inr}
use mathlib.Core.List.{[], ◌∷◌}
use native.Mathlib.Omega.{arith}
use etsimec.Prelude.Text.{Str, if◌then◌else◌, eqb, Bool-cases}

-- The digits of `n` in front of `rest`; the fuel bounds their number.
unfoldable pub digits : ℕ → ℕ → Str → Str
digits zero n rest = rest
digits (suc fuel) n rest =
    let more = digits fuel (n / 10) ((48 + n % 10) ∷ rest) in
    if eqb (n / 10) 0 then (48 + n % 10) ∷ rest else more

unfoldable pub to_string : ℕ → Str
unfolding digits
to_string n = digits (suc n) n []

-- The number that digits stand for, read from `acc` on.
pub value : ℕ → Str → ℕ
value acc [] = acc
value acc (c ∷ s) = value (acc * 10 + (c - 48)) s

-- With more fuel than the number, the digits are those of the number.
value-digits : (fuel n : ℕ) (rest : Str) → n < fuel → value 0 (digits fuel n rest) ≡ value n rest
unfolding digits value
value-digits zero n rest h = elim h [ ]
value-digits (suc fuel) n rest h = elim (Bool-cases (eqb (n / 10) 0)) [
  | inl last ↦ ground arith
  | inr more ↦ ground (arith, value-digits fuel (n / 10) ((48 + n % 10) ∷ rest))
]

pub value-to_string : (n : ℕ) → value 0 (to_string n) ≡ n
unfolding to_string value
value-to_string n = value-digits (suc n) n [] (omega arith)
