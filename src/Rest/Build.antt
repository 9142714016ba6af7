-- ===== src/Rest/Build.antt =====
-- Objects built by calls of `setIfNotEmpty`, one after the other.
use etsimec.Prelude.{
  Bool, true, false, not, ◌&&◌, Str, empty, ok, List, [], ◌∷◌, if◌then◌else◌, ◌==◌, Str-eq, ◌≡◌,
  refl, ap, arith,
}
use etsimec.Rest.{Rest}
use etsimec.Rest.Laws.{IsLawful}

-- The text under the key `j` after the calls, from that before them.
abbrev pub value_of : Str → List (Str × Str) → Str → Str
value_of j [] old = old
value_of j ((k, s) ∷ r) old = value_of j r (if k == j && not (empty s) then s else old)

-- A property of the key `j` that a call sets to `new`.
abbrev pub flag_of : Bool → Str → List (Str × Str) → Bool → Bool
flag_of new j [] old = old
flag_of new j ((k, s) ∷ r) old = flag_of new j r (if k == j && not (empty s) then new else old)

module _ ⦃R : Rest⦄ where
  abbrev pub build : List (Str × Str) → R.Value → R.Value
  build [] o = o
  build ((k, s) ∷ r) o = build r (R.set_if_not_empty o k s false)

  module _ (L : IsLawful R) where
    open R use {
      Value, set, text, set_if_not_empty, string_or_empty, has_string_field, has_object_field,
      is_object,
    }

    ok_injective : {s t : Str} → ok s ≡ ok t → s ≡ t
    ok_injective e = cc

    string_or_empty-set :
        (o : Value) (k s j : Str)
        → is_object o ≡ true
        → string_or_empty (set o k (text s)) j ≡ (if k == j then s else string_or_empty o j)
    string_or_empty-set o k s j h = ground (
      arith,
      L.has_string_field-set o (text s) k j h,
      L.at-set o (text s) k j h,
      L.is_string-text s,
      L.as_string-text s,
      L.string_or_empty-present (set o k (text s)) j,
      L.string_or_empty-absent (set o k (text s)) j,
      L.string_or_empty-present o j,
      L.string_or_empty-absent o j,
    )

    pub string_or_empty-set_object :
        (o v : Value) (k j : Str)
        → is_object o ≡ true
        → is_object v ≡ true
        → (k == j) ≡ false
        → string_or_empty (set o k v) j ≡ string_or_empty o j
    string_or_empty-set_object o v k j h g n = ground (
      arith,
      L.has_string_field-set o v k j h,
      L.at-set o v k j h,
      L.string_or_empty-present (set o k v) j,
      L.string_or_empty-absent (set o k v) j,
      L.string_or_empty-present o j,
      L.string_or_empty-absent o j,
    )

    pub build-is_object :
        (kvs : List (Str × Str)) (o : Value) → is_object o ≡ true → is_object (build kvs o) ≡ true
    build-is_object [] o h = h
    build-is_object ((k, s) ∷ r) o h =
        build-is_object r (set_if_not_empty o k s false)
          (ground (arith, L.set_if_not_empty_lem o k s, L.is_object-set o (text s) k h))

    pub string_or_empty-build :
        (kvs : List (Str × Str)) (o : Value) (j : Str)
        → is_object o ≡ true
        → string_or_empty (build kvs o) j ≡ value_of j kvs (string_or_empty o j)
    string_or_empty-build [] o j h = refl
    string_or_empty-build ((k, s) ∷ r) o j h =
        rw
          (string_or_empty-build r (set_if_not_empty o k s false) j
            (build-is_object ((k, s) ∷ []) o h))
          (ap (value_of j r)
            (ground (arith, L.set_if_not_empty_lem o k s, string_or_empty-set o k s j h)))

    pub has_string_field-build :
        (kvs : List (Str × Str)) (o : Value) (j : Str)
        → is_object o ≡ true
        → has_string_field (build kvs o) j ≡ flag_of true j kvs (has_string_field o j)
    has_string_field-build [] o j h = refl
    has_string_field-build ((k, s) ∷ r) o j h =
        rw
          (has_string_field-build r (set_if_not_empty o k s false) j
            (build-is_object ((k, s) ∷ []) o h))
          (ap (flag_of true j r) (
            ground (
              arith,
              L.set_if_not_empty_lem o k s,
              L.has_string_field-set o (text s) k j h,
              L.is_string-text s,
            )))

    pub has_object_field-build :
        (kvs : List (Str × Str)) (o : Value) (j : Str)
        → is_object o ≡ true
        → has_object_field (build kvs o) j ≡ flag_of false j kvs (has_object_field o j)
    has_object_field-build [] o j h = refl
    has_object_field-build ((k, s) ∷ r) o j h =
        rw
          (has_object_field-build r (set_if_not_empty o k s false) j
            (build-is_object ((k, s) ∷ []) o h))
          (ap (flag_of false j r) (
            ground (
              arith,
              L.set_if_not_empty_lem o k s,
              L.has_object_field-set o (text s) k j h,
              L.is_object-text s,
            )))
