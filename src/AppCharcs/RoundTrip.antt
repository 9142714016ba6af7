-- ===== src/AppCharcs/RoundTrip.antt =====
-- The JSON of the characteristics is read back.
use etsimec.Prelude.{
  ℕ, Bool, true, false, Str, str, ok, ◌>>=◌, if◌then◌else◌, ◌==◌, Str-eq, Str-discrete, ◌≡◌, refl,
  ap, arith, List, [], ◌∷◌,
}
use etsimec.Prelude.Int.{pos}
use etsimec.Rest.{Rest}
use etsimec.Rest.Laws.{IsLawful}
use etsimec.AppCharcs.{
  ServiceCont, not_required, required, service_cont_code, app_charcs, invalid_service_cont,
  check_service_cont, app_charcs_of_json,
}

module _ ⦃R : Rest⦄ where
  abbrev numbers : List (Str × ℕ) → R.Value → R.Value
  numbers [] o = o
  numbers ((k, n) ∷ r) o = numbers r (R.set o k (R.number (pos n)))

  abbrev has_key : Str → List (Str × ℕ) → Bool → Bool
  has_key j [] b = b
  has_key j ((k, n) ∷ r) b = has_key j r (if k == j then true else b)

  abbrev first_four : ℕ → ℕ → ℕ → ℕ → List (Str × ℕ)
  first_four m s l b =
      (str "memory", m) ∷ (str "storage", s) ∷ (str "latency", l) ∷ (str "bandwidth", b) ∷ []

  service_cont_code-valid :
      (c : ServiceCont) → invalid_service_cont (pos (service_cont_code c)) ≡ false
  unfolding invalid_service_cont
  service_cont_code-valid not_required = refl
  service_cont_code-valid required = refl

  module _ (L : IsLawful R) where
    open R use {Value, object, number, set, is_object, has_number_field, at}

    numbers-is_object :
        (kvs : List (Str × ℕ)) (o : Value) → is_object o ≡ true → is_object (numbers kvs o) ≡ true
    numbers-is_object [] o h = h
    numbers-is_object ((k, n) ∷ r) o h =
        numbers-is_object r (set o k (number (pos n))) (L.is_object-set o _ k h)

    has_number_field-numbers :
        (kvs : List (Str × ℕ)) (o : Value) (j : Str)
        → is_object o ≡ true
        → has_number_field (numbers kvs o) j ≡ has_key j kvs (has_number_field o j)
    has_number_field-numbers [] o j h = refl
    has_number_field-numbers ((k, n) ∷ r) o j h =
        rw (has_number_field-numbers r (set o k (number (pos n))) j (L.is_object-set o _ k h))
          (ap (has_key j r) (L.has_number_field-set o (pos n) k j h))

    pub app_charcs-is_object :
        (m s l b : ℕ) (c : ServiceCont) → is_object (app_charcs m s l b c) ≡ true
    unfolding app_charcs
    app_charcs-is_object m s l b c =
        L.is_object-set _ _ _ (numbers-is_object (first_four m s l b) object L.is_object-object)

    abbrev all_five : ℕ → ℕ → ℕ → ℕ → ServiceCont → List (Str × ℕ)
    all_five m s l b c =
        (str "memory", m)
        ∷ (str "storage", s)
        ∷ (str "latency", l)
        ∷ (str "bandwidth", b)
        ∷ (str "serviceCont", service_cont_code c)
        ∷ []

    app_charcs-has_number_field :
        (m s l b : ℕ) (c : ServiceCont) (j : Str)
        → has_number_field (app_charcs m s l b c) j
          ≡ has_key j (all_five m s l b c) (has_number_field object j)
    unfolding app_charcs
    app_charcs-has_number_field m s l b c j =
        has_number_field-numbers (all_five m s l b c) object j L.is_object-object

    app_charcs-service_cont :
        (m s l b : ℕ) (c : ServiceCont)
        → (at (app_charcs m s l b c) (str "serviceCont") >>= R.as_integer)
          ≡ ok (pos (service_cont_code c))
    unfolding app_charcs Str-discrete
    app_charcs-service_cont m s l b c =
        rw
          (L.at-set (numbers (first_four m s l b) object) (number (pos (service_cont_code c)))
            (str "serviceCont") (str "serviceCont")
            (numbers-is_object (first_four m s l b) object L.is_object-object))
          (L.as_integer-number (pos (service_cont_code c)))

    -- The characteristics that are constructed are accepted by the constructor from JSON, which keeps
    -- them.
    pub app_charcs_of_json-app_charcs :
        (m s l b : ℕ) (c : ServiceCont)
        → app_charcs_of_json (app_charcs m s l b c) ≡ ok (app_charcs m s l b c)
    unfolding app_charcs_of_json check_service_cont Str-discrete
    app_charcs_of_json-app_charcs m s l b c =
        let o = app_charcs m s l b c in
        let h = app_charcs-has_number_field m s l b c in
        let h1 : has_number_field o (str "memory") ≡ true = h (str "memory") in
        let h2 : has_number_field o (str "storage") ≡ true = h (str "storage") in
        let h3 : has_number_field o (str "latency") ≡ true = h (str "latency") in
        let h4 : has_number_field o (str "bandwidth") ≡ true = h (str "bandwidth") in
        let h5 : has_number_field o (str "serviceCont") ≡ true = h (str "serviceCont") in
        let t0 = R.thrower (str "Invalid AppCharcs: ") in
        let t1 = R.not_number_if_present o (str "memory") t0 in
        let t2 = R.not_number_if_present o (str "storage") t1 in
        let t3 = R.not_number_if_present o (str "latency") t2 in
        let t4 = R.not_number_if_present o (str "bandwidth") t3 in
        let t5 = R.not_number_if_present o (str "serviceCont") t4 in
        let p0 = L.passes-thrower (str "Invalid AppCharcs: ") in
        let p1 = L.passes-not_number_if_present o (str "memory") t0 h1 in
        let p2 = L.passes-not_number_if_present o (str "storage") t1 h2 in
        let p3 = L.passes-not_number_if_present o (str "latency") t2 h3 in
        let p4 = L.passes-not_number_if_present o (str "bandwidth") t3 h4 in
        let p5 = L.passes-not_number_if_present o (str "serviceCont") t4 h5 in
        let valid = service_cont_code-valid c in
        let code = app_charcs-service_cont m s l b c in
        let p6 =
          L.passes-report t5 (invalid_service_cont (pos (service_cont_code c)))
            (str "invalid serviceCont value") in
        ground (arith, h5)
