-- ===== src/Operator/Lambdas.antt =====
-- The lambda functions that the operator added and removed, as the clients of the proxy see them.
use etsimec.Prelude.{
  Bool, true, false, not, ◌&&◌, ◌||◌, Str, str, length, ltb, Option, none, some, List, [], ◌∷◌,
  if◌then◌else◌, ◌==◌, Str-eq, Str-discrete, ◌≡◌, ◌≢◌, refl, arith, ap, inl, inr, Bool-cases,
  str_ltb,
}
use mathlib.Core.List.{append_cancel_right}
use etsimec.Prelude.Dict.{lookup, erase, lookup-erase}
use etsimec.Prelude.OrderedDict.{
  insert_ordered, lookup-insert_ordered, Ascending, Ascending-Distinct, insert_ordered-Ascending,
  erase-Ascending,
}
use etsimec.Rest.{Rest}
use etsimec.LcmProxy.{Applications}
use etsimec.Grpc.Lambda.{lambda_key, lambda_value, with_lambda, without_lambda}
use etsimec.Console.{Command, add_lambda, del_lambda}

-- Whether a name is among the names.
unfoldable pub is_in : Str → List Str → Bool
is_in n [] = false
is_in n (m ∷ ms) = m == n || is_in n ms

-- A name is long if no application can have it.
abbrev pub is_long : Str → Bool
is_long n = ltb 32 (length n)

-- Whether the lambda function `n` is offered after a command, from whether it was before.
unfoldable pub on_command : Str → Command → Bool → Bool
on_command n (add_lambda x) was = if x == n && not (is_long x) then true else was
on_command n (del_lambda x) was = if x == n && not (is_long x) then false else was
on_command n _ was = was

lambda_key_injective : (m n : Str) → lambda_key m ≡ lambda_key n → m ≡ n
lambda_key_injective m n e = append_cancel_right m n (str "+OpenLambdaMec+1.0") e

lambda_key-eq : (m n : Str) → (lambda_key m == lambda_key n) ≡ (m == n)
lambda_key-eq m n = elim (Str-discrete m n) [
  | yes p ↦ let e = ap lambda_key p in ground arith
  | no other ↦ ground (arith, lambda_key_injective m n)
]

-- Names that an application can have.
abbrev pub AreNames : List Str → Type 0
AreNames [] = Unit
AreNames (n ∷ ns) = (n ≢ []) × (is_long n ≡ false) × AreNames ns

-- No name occurs twice.
abbrev pub AreUnique : List Str → Type 0
AreUnique [] = Unit
AreUnique (n ∷ ns) = (is_in n ns ≡ false) × AreUnique ns

module _ ⦃R : Rest⦄ where
  unfoldable pub entries : List Str → Applications
  entries [] = []
  entries (n ∷ ns) = (lambda_key n, lambda_value n) ∷ entries ns

  pub lookup-entries :
      (n : Str) (ns : List Str)
      → lookup (lambda_key n) (entries ns) ≡ (if is_in n ns then some (lambda_value n) else none)
  unfolding lookup entries is_in
  lookup-entries n [] = refl
  lookup-entries n (m ∷ ms) =
      rw (lambda_key-eq m n, lookup-entries n ms)
        (elim (Str-discrete m n) [
          | yes p ↦ rw (ap lambda_value p) (ground arith)
          | no other ↦ ground arith
        ])

  entries-insert_ordered :
      (x : Str) (ns : List Str)
      → x ≢ []
      → is_long x ≡ false
      → AreNames ns
      → (ns' : List Str) × (insert_ordered (lambda_key x) (lambda_value x) (entries ns)
          ≡ entries ns')
        × AreNames ns'
  unfolding insert_ordered entries
  entries-insert_ordered x [] n short v = (x ∷ [], refl, (n, short, tt))
  entries-insert_ordered x (m ∷ ms) n short v = elim (Str-discrete (lambda_key m) (lambda_key x)) [
    | yes p ↦ (x ∷ ms, ground arith, (n, short, v.2))
    | no other ↦
        let (rest, e, w) = entries-insert_ordered x ms n short v.2 in
        elim (Bool-cases (str_ltb (lambda_key x) (lambda_key m))) [
          | inl before ↦ (x ∷ m ∷ ms, ground arith, (n, short, v))
          | inr after ↦ (m ∷ rest, ground arith, (v.0, v.1, w))
        ]
  ]

  entries-erase :
      (x : Str) (ns : List Str)
      → AreNames ns
      → (ns' : List Str) × (erase (lambda_key x) (entries ns) ≡ entries ns') × AreNames ns'
  unfolding erase entries
  entries-erase x [] v = ([], refl, tt)
  entries-erase x (m ∷ ms) v =
      let (rest, e, w) = entries-erase x ms v.2 in
      elim (Str-discrete (lambda_key m) (lambda_key x)) [
        | yes p ↦ (ms, ground arith, v.2)
        | no other ↦ (m ∷ rest, ground arith, (v.0, v.1, w))
      ]

  -- The applications are those of the lambda functions that are offered, with each of them once.
  pub record Offers (apps : Applications) (on : Str → Bool) : Type 0 where
    pub names : List Str
    pub same : apps ≡ entries names
    pub are_names : AreNames names
    pub ascending : Ascending apps
    pub offered : (n : Str) → is_in n names ≡ on n

  abbrev if_offered : Bool → Str → Option R.Value
  if_offered b n = if b then some (lambda_value n) else none

  -- What is offered is told by what is found.
  Offers-lookup :
      (apps : Applications) (on : Str → Bool) (n : Str)
      → Offers apps on
      → lookup (lambda_key n) apps ≡ if_offered (on n) n
  Offers-lookup apps on n o = rw (o.same, lookup-entries n o.names, o.offered n) refl

  found-Offers :
      (apps : Applications) (on : Str → Bool) (ns : List Str)
      → apps ≡ entries ns
      → AreNames ns
      → Ascending apps
      → ((n : Str) → lookup (lambda_key n) apps ≡ if_offered (on n) n)
      → Offers apps on
  found-Offers apps on ns e v a found = record {
    names = ns;
    same = e;
    are_names = v;
    ascending = a;
    offered = λ n. let f = found n in let g = lookup-entries n ns in ground arith;
  }

  pub with_lambda-Offers :
      (x : Str) (apps : Applications) (on : Str → Bool)
      → x ≢ []
      → Offers apps on
      → Offers (with_lambda x apps) (λ n. on_command n (add_lambda x) (on n))
  unfolding on_command
  with_lambda-Offers x apps on named o = elim (Bool-cases (is_long x)) [
    | inl long ↦ rw long (
        found-Offers apps _ o.names o.same o.are_names o.ascending
          (λ n. let f = Offers-lookup apps on n o in ground arith))
    | inr short ↦
        let (ns, e, v) = entries-insert_ordered x o.names named short o.are_names in
        rw short (
          found-Offers _ _ ns (rw o.same e) v (insert_ordered-Ascending _ _ apps o.ascending) (λ n.
            let f = Offers-lookup apps on n o in
            let g = lookup-insert_ordered (lambda_key x) (lambda_key n) (lambda_value x) apps in
            let k = lambda_key-eq x n in
            elim (Str-discrete x n) [
              | yes p ↦ let same = ap lambda_value p in ground arith
              | no other ↦ ground arith
            ]))
  ]

  pub without_lambda-Offers :
      (x : Str) (apps : Applications) (on : Str → Bool)
      → Offers apps on
      → Offers (without_lambda x apps) (λ n. on_command n (del_lambda x) (on n))
  unfolding on_command
  without_lambda-Offers x apps on o = elim (Bool-cases (is_long x)) [
    | inl long ↦ rw long (
        found-Offers apps _ o.names o.same o.are_names o.ascending
          (λ n. let f = Offers-lookup apps on n o in ground arith))
    | inr short ↦
        let (ns, e, v) = entries-erase x o.names o.are_names in
        rw short (
          found-Offers _ _ ns (rw o.same e) v (erase-Ascending _ apps o.ascending) (λ n.
            let f = Offers-lookup apps on n o in
            let g =
              lookup-erase (lambda_key x) (lambda_key n) apps
                (Ascending-Distinct apps o.ascending) in
            let k = lambda_key-eq x n in ground arith))
  ]
