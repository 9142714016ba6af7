-- ===== src/Prelude/Dict.antt =====
-- `std::unordered_map` as an association list in its iteration order. The standard leaves that
-- order open: what is proved with a `Dict` holds for whatever order the list has.
use mathlib.Core.Path.{◌≡◌, refl}
use mathlib.Core.Logic.{◌≢◌, ◌⊎◌, inl, inr}
use mathlib.Core.List.{List, [], ◌∷◌}
use mathlib.Core.Option.{Option, none, some}
use native.Mathlib.Omega.{arith}
use Prim.Native.Nat.{◌+◌}
use etsimec.Prelude.Text.{Eq, ◌==◌, if◌then◌else◌, length}

abbrev pub Dict : Type 0 → Type 0 → Type 0
Dict K V = List (K × V)

module _ {K V : Type 0} ⦃e : Eq K⦄ where
  -- `find`
  unfoldable pub lookup : K → Dict K V → Option V
  lookup k [] = none
  lookup k ((j, v) ∷ d) = if j == k then some v else lookup k d

  -- `emplace` of a key that is absent, or the assignment through its result to one that is there.
  unfoldable pub insert : K → V → Dict K V → Dict K V
  insert k v [] = (k, v) ∷ []
  insert k v ((j, w) ∷ d) = if j == k then (j, v) ∷ d else (j, w) ∷ insert k v d

  -- `erase`
  unfoldable pub erase : K → Dict K V → Dict K V
  erase k [] = []
  erase k ((j, w) ∷ d) = if j == k then d else (j, w) ∷ erase k d

  -- A key occurs once.
  abbrev pub Distinct : Dict K V → Type 0
  Distinct [] = Unit
  Distinct ((k, v) ∷ d) = (lookup k d ≡ none) × Distinct d

  -- An entry that is found is the first one, or in the rest.
  pub lookup-cons-cases :
      (j c : K) (w d : V) (cs : Dict K V)
      → lookup c ((j, w) ∷ cs) ≡ some d
      → ((j ≡ c) × (w ≡ d)) ⊎ (lookup c cs ≡ some d)
  unfolding lookup
  lookup-cons-cases j c w d cs h = elim (e.dec j c) [
    | yes p ↦ inl (p, ground arith)
    | no n ↦ inr (ground arith)
  ]

  pub lookup-insert :
      (k j : K) (v : V) (d : Dict K V)
      → lookup j (insert k v d) ≡ (if k == j then some v else lookup j d)
  unfolding lookup insert
  lookup-insert k j v [] = refl
  lookup-insert k j v ((i, w) ∷ d) = ground (arith, lookup-insert k j v d)

  pub lookup-erase :
      (k j : K) (d : Dict K V)
      → Distinct d
      → lookup j (erase k d) ≡ (if k == j then none else lookup j d)
  unfolding lookup erase
  lookup-erase k j [] u = ground arith
  lookup-erase k j ((i, w) ∷ d) (fresh, u) = ground (arith, lookup-erase k j d u)

  pub insert-Distinct : (k : K) (v : V) (d : Dict K V) → Distinct d → Distinct (insert k v d)
  unfolding insert lookup
  insert-Distinct k v [] u = (refl, tt)
  insert-Distinct k v ((j, w) ∷ d) (fresh, u) =
      ground (arith, insert-Distinct k v d u, lookup-insert k j v d)

  pub erase-absent : (k : K) (d : Dict K V) → lookup k d ≡ none → erase k d ≡ d
  unfolding lookup erase
  erase-absent k [] h = refl
  erase-absent k ((j, w) ∷ d) h = ground (arith, erase-absent k d)

  pub erase-Distinct : (k : K) (d : Dict K V) → Distinct d → Distinct (erase k d)
  unfolding erase lookup
  erase-Distinct k [] u = tt
  erase-Distinct k ((j, w) ∷ d) (fresh, u) =
      ground (arith, erase-Distinct k d u, lookup-erase k j d u)

  pub length-insert :
      (k : K) (v : V) (d : Dict K V) → lookup k d ≡ none → length (insert k v d) ≡ length d + 1
  unfolding insert lookup
  length-insert k v [] h = omega arith
  length-insert k v ((j, w) ∷ d) h = ground (arith, length-insert k v d)

  pub length-erase : (k : K) (d : Dict K V) → lookup k d ≢ none → length (erase k d) + 1 ≡ length d
  unfolding erase lookup
  length-erase k [] h = absurd (h refl)
  length-erase k ((j, w) ∷ d) h = ground (arith, length-erase k d)

  pub erase-insert_absent :
      (k : K) (v : V) (d : Dict K V) → lookup k d ≡ none → erase k (insert k v d) ≡ d
  unfolding lookup insert erase
  erase-insert_absent k v [] h = ground arith
  erase-insert_absent k v ((j, w) ∷ d) h = ground (arith, erase-insert_absent k v d)

  -- Entries of two keys, of which one is there and one is not.
  pub insert-insert_absent :
      (k j : K) (v w old : V) (d : Dict K V)
      → lookup k d ≡ some old
      → lookup j d ≡ none
      → insert k v (insert j w d) ≡ insert j w (insert k v d)
  unfolding lookup insert
  insert-insert_absent k j v w old [] h g = cc
  insert-insert_absent k j v w old ((i, u) ∷ d) h g =
      ground (arith, insert-insert_absent k j v w old d)
