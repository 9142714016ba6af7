-- ===== src/Prelude/Int.antt =====
-- `int`, as far as the program uses it: it is compared with small constants.
use Prim.Native.Nat.{ℕ}
use mathlib.Core.Bool.{Bool, false}
use etsimec.Prelude.Text.{eqb}

-- `negsuc n` is -(n + 1).
pub data ℤ : Type 0 where
  pos : ℕ → ℤ
  negsuc : ℕ → ℤ

abbrev pub is_int : ℤ → ℕ → Bool
is_int (pos m) n = eqb m n
is_int (negsuc m) n = false
