-- ===== src/Rest/Laws.antt =====
-- What the proofs rely on of the code outside this repository: its documented behaviour.
use etsimec.Prelude.{
  ℕ, Bool, true, false, not, ◌&&◌, ◌||◌, List, Str, empty, length, ltb, none, some, ok, ◌>>=◌, [],
  if◌then◌else◌, ◌==◌, Str-eq, ◌≡◌,
}
use etsimec.Prelude.Int.{ℤ}
use etsimec.Rest.{Rest}

-- A `Thrower` that has no message yet.
abbrev pub passes : ⦃R : Rest⦄ → R.Thrower → Bool
passes ⦃R⦄ t = elim (R.errors t) [ none ↦ true | some m ↦ false ]

pub record IsLawful (R : Rest) : Type 0 where
  -- JSON objects
  pub is_object-object : R.is_object R.object ≡ true
  pub is_object-set :
      (o v : R.Value) (k : Str) → R.is_object o ≡ true → R.is_object (R.set o k v) ≡ true
  pub is_object-text : (s : Str) → R.is_object (R.text s) ≡ false
  pub is_string-text : (s : Str) → R.is_string (R.text s) ≡ true
  pub is_string-object : (v : R.Value) → R.is_object v ≡ true → R.is_string v ≡ false
  pub as_string-text : (s : Str) → R.as_string (R.text s) ≡ ok s
  pub has_string_field-object : (k : Str) → R.has_string_field R.object k ≡ false
  pub has_object_field-object : (k : Str) → R.has_object_field R.object k ≡ false
  pub has_string_field-set :
      (o v : R.Value) (k j : Str)
      → R.is_object o ≡ true
      → R.has_string_field (R.set o k v) j
        ≡ (if k == j then R.is_string v else R.has_string_field o j)
  pub has_object_field-set :
      (o v : R.Value) (k j : Str)
      → R.is_object o ≡ true
      → R.has_object_field (R.set o k v) j
        ≡ (if k == j then R.is_object v else R.has_object_field o j)
  pub at-set :
      (o v : R.Value) (k j : Str)
      → R.is_object o ≡ true
      → R.at (R.set o k v) j ≡ (if k == j then ok v else R.at o j)
  -- Numbers
  pub as_integer-number : (n : ℤ) → R.as_integer (R.number n) ≡ ok n
  pub has_number_field-set :
      (o : R.Value) (n : ℤ) (k j : Str)
      → R.is_object o ≡ true
      → R.has_number_field (R.set o k (R.number n)) j
        ≡ (if k == j then true else R.has_number_field o j)
  -- Arrays
  pub has_array_field-set :
      (o v : R.Value) (k : Str)
      → R.is_object o ≡ true
      → R.has_array_field (R.set o k v) k ≡ R.is_array v
  pub is_array-array : (vs : List R.Value) → R.is_array (R.array vs) ≡ true
  pub as_array-array : (vs : List R.Value) → R.as_array (R.array vs) ≡ ok vs
  -- Rest/utils.h
  pub set_if_not_empty_lem :
      (o : R.Value) (k s : Str)
      → R.set_if_not_empty o k s false ≡ (if empty s then o else R.set o k (R.text s))
  pub string_or_empty-absent :
      (o : R.Value) (k : Str) → R.has_string_field o k ≡ false → R.string_or_empty o k ≡ []
  pub string_or_empty-present :
      (o : R.Value) (k : Str)
      → R.has_string_field o k ≡ true
      → (R.at o k >>= R.as_string) ≡ ok (R.string_or_empty o k)
  -- The checks of a `Thrower`
  pub passes-thrower : (p : Str) → passes ⦃R = R⦄ (R.thrower p) ≡ true
  pub passes-report :
      (t : R.Thrower) (b : Bool) (m : Str)
      → passes ⦃R = R⦄ (R.report t b m) ≡ (passes ⦃R = R⦄ t && not b)
  pub passes-not_empty :
      (v : R.Value) (k : Str) (t : R.Thrower)
      → passes ⦃R = R⦄ (R.not_empty v k t)
        ≡ (passes ⦃R = R⦄ t && not (empty (R.string_or_empty v k)))
  pub passes-not_empty_if_present :
      (v : R.Value) (k : Str) (t : R.Thrower)
      → passes ⦃R = R⦄ (R.not_empty_if_present v k t) ≡ (
          passes ⦃R = R⦄ t && (not (R.has_string_field v k) || not (empty (R.string_or_empty v k))))
  pub passes-not_number_if_present :
      (v : R.Value) (k : Str) (t : R.Thrower)
      → R.has_number_field v k ≡ true
      → passes ⦃R = R⦄ (R.not_number_if_present v k t) ≡ passes ⦃R = R⦄ t
  pub passes-too_long :
      (v : R.Value) (k : Str) (n : ℕ) (t : R.Thrower)
      → passes ⦃R = R⦄ (R.too_long v k n t)
        ≡ (passes ⦃R = R⦄ t && not (ltb n (length (R.string_or_empty v k))))
