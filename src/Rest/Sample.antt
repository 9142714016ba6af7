-- ===== src/Rest/Sample.antt =====
-- An implementation of `Rest` that meets the laws: JSON as a tree.
use etsimec.Prelude.{
  ℕ, Bool, true, false, not, ◌&&◌, Str, str, empty, length, ltb, Option, none, some, Outcome, ok,
  throws, List, [], ◌∷◌, if◌then◌else◌, ◌==◌, Str-eq, ◌≡◌, refl, arith,
}
use etsimec.Prelude.Int.{ℤ, pos}
use etsimec.Rest.{Rest}
use etsimec.Rest.Laws.{IsLawful}

mutual
  pub data Json : Type 0 where
    string : Str → Json
    number : ℤ → Json
    array : Items → Json
    object : Fields → Json

  pub data Items : Type 0 where
    nil : Items
    cons : Json → Items → Items

  pub data Fields : Type 0 where
    end : Fields
    field : Str → Json → Fields → Fields

unfoldable pub get : Str → Fields → Option Json
get k end = none
get k (field j v fs) = if j == k then some v else get k fs

unfoldable pub put : Str → Json → Fields → Fields
put k v end = field k v end
put k v (field j w fs) = if j == k then field j v fs else field j w (put k v fs)

get-put :
    (k j : Str) (v : Json) (fs : Fields)
    → get j (put k v fs) ≡ (if k == j then some v else get j fs)
unfolding get put
get-put k j v end = refl
get-put k j v (field i w fs) = ground (arith, get-put k j v fs)

abbrev pub member : Json → Str → Option Json
member (object fs) k = get k fs
member (string s) k = none
member (number n) k = none
member (array xs) k = none

abbrev pub set : Json → Str → Json → Json
set (object fs) k v = object (put k v fs)
set (string s) k v = string s
set (number n) k v = number n
set (array xs) k v = array xs

abbrev string? : Json → Bool
string? (string s) = true
string? _ = false

abbrev object? : Json → Bool
object? (object fs) = true
object? _ = false

abbrev number? : Json → Bool
number? (number n) = true
number? _ = false

abbrev array? : Json → Bool
array? (array xs) = true
array? _ = false

abbrev has : (Json → Bool) → Json → Str → Bool
has kind v k = elim (member v k) [ none ↦ false | some w ↦ kind w ]

abbrev string_or : Str → Json → Str
string_or d (string s) = s
string_or d _ = d

abbrev or_empty : Json → Str → Str
or_empty v k = elim (member v k) [ none ↦ [] | some w ↦ string_or [] w ]

abbrev items : List Json → Items
items [] = nil
items (v ∷ vs) = cons v (items vs)

abbrev elements : Items → List Json
elements nil = []
elements (cons v vs) = v ∷ elements vs

abbrev note : Bool → Str → List Str → List Str
note b m t = if b then m ∷ t else t

abbrev integer : Json → Outcome ℤ
integer (number n) = ok n
integer _ = throws (str "not a number")

abbrev natural : Json → Outcome ℕ
natural (number (pos n)) = ok n
natural _ = throws (str "not a number")

abbrev string_of : Json → Outcome Str
string_of (string s) = ok s
string_of _ = throws (str "not a string")

abbrev array_of : Json → Outcome (List Json)
array_of (array xs) = ok (elements xs)
array_of _ = throws (str "not an array")

abbrev first : List Str → Option Str
first [] = none
first (m ∷ t) = some m

instance abbrev pub sample : Rest
sample = record {
  Value = Json;
  object = object end;
  text = string;
  number = number;
  array = λ vs. array (items vs);
  set = set;
  has_string_field = has string?;
  has_number_field = has number?;
  has_object_field = has object?;
  has_array_field = has array?;
  is_object = object?;
  is_string = string?;
  at = λ v k. elim (member v k) [ none ↦ throws (str "Key not found") | some w ↦ ok w ];
  as_string = string_of;
  is_array = array?;
  as_integer = integer;
  as_uint64 = natural;
  parse = λ s. ok (string s);
  serialize = λ v. string_or [] v;
  as_array = array_of;
  Thrower = List Str;
  thrower = λ p. [];
  report = λ t b m. note b m t;
  errors = first;
  set_if_not_empty = λ o k s b. if empty s then o else set o k (string s);
  string_or_empty = or_empty;
  not_empty = λ v k t. note (empty (or_empty v k)) k t;
  not_empty_if_present = λ v k t. note (has string? v k && empty (or_empty v k)) k t;
  too_long = λ v k n t. note (ltb n (length (or_empty v k))) k t;
  not_number_if_present =
      λ v k t. note (elim (member v k) [ none ↦ false | some w ↦ not (number? w) ]) k t;
  problem_details = λ status detail.
      object
        (field (str "status") (number (pos status)) (field (str "detail") (string detail) end));
}

member-set :
    (o v : Json) (k j : Str)
    → object? o ≡ true
    → member (set o k v) j ≡ (if k == j then some v else member o j)
member-set (object fs) v k j h = get-put k j v fs
member-set (string s) v k j h = cc
member-set (number n) v k j h = cc
member-set (array xs) v k j h = cc

elements-items : (vs : List Json) → elements (items vs) ≡ vs
elements-items [] = refl
elements-items (v ∷ vs) = grind (arith, elements-items vs)

pub sample-IsLawful : IsLawful sample
unfolding get
sample-IsLawful = record {
  is_object-object = refl;
  is_object-set = λ o v k h. ground arith;
  is_object-text = λ s. refl;
  is_string-text = λ s. refl;
  is_string-object = λ v h. ground arith;
  as_string-text = λ s. refl;
  has_string_field-object = λ k. refl;
  has_object_field-object = λ k. refl;
  has_string_field-set = λ o v k j h. ground (arith, member-set o v k j h);
  has_object_field-set = λ o v k j h. ground (arith, member-set o v k j h);
  at-set = λ o v k j h. ground (arith, member-set o v k j h);
  as_integer-number = λ n. refl;
  has_number_field-set = λ o n k j h. ground (arith, member-set o (number n) k j h);
  has_array_field-set = λ o v k h. ground (arith, member-set o v k k h);
  is_array-array = λ vs. refl;
  as_array-array = λ vs. ground (arith, elements-items vs);
  set_if_not_empty_lem = λ o k s. refl;
  string_or_empty-absent = λ o k h. ground arith;
  string_or_empty-present = λ o k h. ground arith;
  passes-thrower = λ p. refl;
  passes-report = λ t b m. ground arith;
  passes-not_empty = λ v k t. ground arith;
  passes-not_empty_if_present = λ v k t. ground arith;
  passes-not_number_if_present = λ v k t h. ground arith;
  passes-too_long = λ v k n t. ground arith;
}
