-- ===== src/OpenWhisk/Action/Keys.antt =====
-- What `sameKeys` tells of the keys of two maps: their texts agree, and with them the keys if no
-- namespace has a slash.
use etsimec.Prelude.{
  Bool, true, false, ◌||◌, Str, Str-eq, List, [], ◌∷◌, ◌++◌, length, length-append, ◌==◌, ◌≡◌, ◌≢◌,
  refl, sym, ap, ◌∙◌, arith,
}
use mathlib.Core.List.{append_assoc, append-nil}
use etsimec.OpenWhisk.Action.{
  ActionKey, Action, Actions, key_to_string, set_emplace, collect_keys, sets_eqb, same_keys,
}

abbrev pub contains : Str → List Str → Bool
contains s [] = false
contains s (t ∷ ts) = t == s || contains s ts

-- Some key of the map has this text.
abbrev pub has_text : Str → Actions → Bool
has_text s [] = false
has_text s ((k, a) ∷ m) = key_to_string k == s || has_text s m

contains-set_emplace :
    (s t : Str) (ts : List Str) → contains s (set_emplace t ts) ≡ (t == s || contains s ts)
unfolding set_emplace
contains-set_emplace s t [] = refl
contains-set_emplace s t (u ∷ ts) = ground (arith, contains-set_emplace s t ts)

contains-collect_keys :
    (s : Str) (set : List Str) (m : Actions)
    → contains s (collect_keys set m) ≡ (contains s set || has_text s m)
unfolding collect_keys
contains-collect_keys s set [] = ground arith
contains-collect_keys s set ((k, a) ∷ m) = ground (
  arith,
  contains-collect_keys s (set_emplace (key_to_string k) set) m,
  contains-set_emplace s (key_to_string k) set,
)

sets_eqb→eq : (ss ts : List Str) → sets_eqb ss ts ≡ true → ss ≡ ts
unfolding sets_eqb
sets_eqb→eq [] [] h = refl
sets_eqb→eq [] (t ∷ ts) h = cc
sets_eqb→eq (s ∷ ss) [] h = cc
sets_eqb→eq (s ∷ ss) (t ∷ ts) h = ground (arith, sets_eqb→eq ss ts)

sets_eqb_refl : (ss : List Str) → sets_eqb ss ss ≡ true
unfolding sets_eqb
sets_eqb_refl [] = refl
sets_eqb_refl (s ∷ ss) = ground (arith, sets_eqb_refl ss)

-- Where `sameKeys` returns true, the maps have the same number of entries and the same texts of
-- keys.
pub same_keys_sound :
    (a b : Actions)
    → same_keys a b ≡ true
    → (length a ≡ length b) × ((s : Str) → has_text s a ≡ has_text s b)
unfolding same_keys
same_keys_sound a b h = (
  ground arith,
  λ s.
      sym (contains-collect_keys s [] a)
      ∙ ap (contains s) (sets_eqb→eq (collect_keys [] a) (collect_keys [] b) (ground arith))
      ∙ contains-collect_keys s [] b,
)

abbrev pub keys : Actions → List ActionKey
keys [] = []
keys ((k, a) ∷ m) = k ∷ keys m

abbrev collect : List Str → List ActionKey → List Str
collect set [] = set
collect set (k ∷ ks) = collect (set_emplace (key_to_string k) set) ks

collect_keys-eq : (set : List Str) (m : Actions) → collect_keys set m ≡ collect set (keys m)
unfolding collect_keys
collect_keys-eq set [] = refl
collect_keys-eq set ((k, a) ∷ m) = collect_keys-eq (set_emplace (key_to_string k) set) m

length-keys : (m : Actions) → length (keys m) ≡ length m
length-keys [] = refl
length-keys ((k, a) ∷ m) = omega (arith, length-keys m)

-- Two maps with the same keys, whatever their actions, pass `sameKeys`.
pub same_keys_complete : (a b : Actions) → keys a ≡ keys b → same_keys a b ≡ true
unfolding same_keys
same_keys_complete a b e =
    rw (collect_keys-eq [] a, collect_keys-eq [] b, e)
      (ground
        (arith, length-keys a, length-keys b, ap length e, sets_eqb_refl (collect [] (keys b))))

-- A text without a slash.
abbrev pub NoSlash : Str → Type 0
NoSlash [] = Unit
NoSlash (c ∷ s) = (c ≢ 47) × NoSlash s

split_at_slash :
    (s t u v : Str) → NoSlash s → NoSlash t → s ++ (47 ∷ u) ≡ t ++ (47 ∷ v) → (s ≡ t) × (u ≡ v)
split_at_slash [] [] u v h k e = (refl, ground arith)
split_at_slash [] (d ∷ t) u v h k e = absurd (ground arith)
split_at_slash (c ∷ s) [] u v h k e = absurd (ground arith)
split_at_slash (c ∷ s) (d ∷ t) u v h k e = ground (arith, split_at_slash s t u v h.1 k.1)

same_tail : {s t : Str} → 47 ∷ s ≡ 47 ∷ t → s ≡ t
same_tail e = cc

same_keys-single :
    (j k : ActionKey) (a b : Action)
    → key_to_string j ≡ key_to_string k
    → same_keys ((j, a) ∷ []) ((k, b) ∷ []) ≡ true
unfolding same_keys collect_keys set_emplace
same_keys-single j k a b e = ground arith

-- Keys whose namespaces have no slash are told apart by their texts.
pub key_to_string_injective :
    (j k : ActionKey)
    → NoSlash j.space
    → NoSlash k.space
    → key_to_string j ≡ key_to_string k
    → j ≡ k
unfolding key_to_string
key_to_string_injective j k h g e =
    let (p, q) = split_at_slash j.space k.space (j.name ++ []) (k.name ++ []) h g (same_tail e) in
    ground (arith, append-nil j.name, append-nil k.name)

one_text :
    (x y z : Str)
    → key_to_string (record { space = x ++ (47 ∷ y); name = z })
      ≡ key_to_string (record { space = x; name = y ++ (47 ∷ z) })
unfolding key_to_string
one_text x y z = simp (append-nil, append_assoc)

longer : (x y : Str) → x ++ (47 ∷ y) ≢ x
longer x y e = omega (arith, ap length e, length-append x (47 ∷ y))

-- A slash may stand in the namespace or in the name: the two keys then have one text, and
-- `sameKeys` takes maps with these different keys for maps with the same keys.
pub same_keys-slash :
    (x y z : Str) (a b : Action)
    → let j : ActionKey = record { space = x ++ (47 ∷ y); name = z } in
      let k : ActionKey = record { space = x; name = y ++ (47 ∷ z) } in
      (same_keys ((j, a) ∷ []) ((k, b) ∷ []) ≡ true) × (j ≢ k)
same_keys-slash x y z a b =
    (same_keys-single _ _ a b (one_text x y z), λ e. longer x y (ap (λ (k : ActionKey). k.space) e))
