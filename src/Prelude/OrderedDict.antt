-- ===== src/Prelude/OrderedDict.antt =====
-- `std::map<std::string, V>`: an association list in the order of its keys.
use mathlib.Core.Bool.{true, false}
use mathlib.Core.Logic.{◌≢◌}
use mathlib.Core.Path.{◌≡◌, refl}
use mathlib.Core.List.{[], ◌∷◌}
use mathlib.Core.Option.{none, some}
use native.Mathlib.Omega.{arith}
use etsimec.Prelude.Text.{Str, ◌==◌, Str-eq, str_ltb, if◌then◌else◌}
use etsimec.Prelude.Dict.{Dict, Distinct, lookup, erase}

-- The order of the keys
str_ltb_refl : (s : Str) → str_ltb s s ≡ false
str_ltb_refl [] = refl
str_ltb_refl (c ∷ s) = ground (arith, str_ltb_refl s)

str_ltb_trans : (s t u : Str) → str_ltb s t ≡ true → str_ltb t u ≡ true → str_ltb s u ≡ true
str_ltb_trans s t [] h k = cc
str_ltb_trans s [] (e ∷ u) h k = absurd (ground arith)
str_ltb_trans [] (d ∷ t) (e ∷ u) h k = refl
str_ltb_trans (c ∷ s) (d ∷ t) (e ∷ u) h k = ground (arith, str_ltb_trans s t u)

str_ltb_total : (s t : Str) → s ≢ t → str_ltb s t ≡ false → str_ltb t s ≡ true
str_ltb_total [] [] n h = absurd (n refl)
str_ltb_total (c ∷ s) [] n h = refl
str_ltb_total [] (d ∷ t) n h = cc
str_ltb_total (c ∷ s) (d ∷ t) n h = ground (arith, str_ltb_total s t)

module _ {V : Type 0} where
  -- The entry of the key is replaced, or a new one goes before the first greater key.
  unfoldable pub insert_ordered : Str → V → Dict Str V → Dict Str V
  insert_ordered k v [] = (k, v) ∷ []
  insert_ordered k v ((j, w) ∷ d) =
      let rest = insert_ordered k v d in
      if j == k then (j, v) ∷ d else if str_ltb k j then (k, v) ∷ (j, w) ∷ d else (j, w) ∷ rest

  pub lookup-insert_ordered :
      (k j : Str) (v : V) (d : Dict Str V)
      → lookup j (insert_ordered k v d) ≡ (if k == j then some v else lookup j d)
  unfolding lookup insert_ordered
  lookup-insert_ordered k j v [] = refl
  lookup-insert_ordered k j v ((i, w) ∷ d) = ground (arith, lookup-insert_ordered k j v d)

  -- The key is before all others.
  abbrev Below : Str → Dict Str V → Type 0
  Below k [] = Unit
  Below k ((j, w) ∷ d) = (str_ltb k j ≡ true) × Below k d

  abbrev pub Ascending : Dict Str V → Type 0
  Ascending [] = Unit
  Ascending ((k, v) ∷ d) = Below k d × Ascending d

  Below-lookup : (k : Str) (d : Dict Str V) → Below k d → lookup k d ≡ none
  unfolding lookup
  Below-lookup k [] h = refl
  Below-lookup k ((j, w) ∷ d) (h, b) = ground (arith, str_ltb_refl k, Below-lookup k d b)

  Below-trans : (k j : Str) (d : Dict Str V) → str_ltb k j ≡ true → Below j d → Below k d
  Below-trans k j [] h b = tt
  Below-trans k j ((i, w) ∷ d) h (g, b) = (str_ltb_trans k j i h g, Below-trans k j d h b)

  Below-insert_ordered :
      (j k : Str) (v : V) (d : Dict Str V)
      → str_ltb j k ≡ true
      → Below j d
      → Below j (insert_ordered k v d)
  unfolding insert_ordered
  Below-insert_ordered j k v [] h b = (h, tt)
  Below-insert_ordered j k v ((i, w) ∷ d) h (g, b) =
      ground (arith, Below-insert_ordered j k v d h b)

  Below-erase : (j k : Str) (d : Dict Str V) → Below j d → Below j (erase k d)
  unfolding erase
  Below-erase j k [] b = tt
  Below-erase j k ((i, w) ∷ d) (g, b) = ground (arith, Below-erase j k d b)

  pub Ascending-Distinct : (d : Dict Str V) → Ascending d → Distinct d
  Ascending-Distinct [] a = tt
  Ascending-Distinct ((k, v) ∷ d) (b, a) = (Below-lookup k d b, Ascending-Distinct d a)

  pub insert_ordered-Ascending :
      (k : Str) (v : V) (d : Dict Str V) → Ascending d → Ascending (insert_ordered k v d)
  unfolding insert_ordered
  insert_ordered-Ascending k v [] a = (tt, tt)
  insert_ordered-Ascending k v ((j, w) ∷ d) (b, a) = ground (
    arith,
    insert_ordered-Ascending k v d a,
    Below-trans k j d,
    str_ltb_total k j,
    Below-insert_ordered j k v d,
  )

  pub erase-Ascending : (k : Str) (d : Dict Str V) → Ascending d → Ascending (erase k d)
  unfolding erase
  erase-Ascending k [] a = tt
  erase-Ascending k ((j, w) ∷ d) (b, a) = ground (arith, erase-Ascending k d a, Below-erase j k d b)
