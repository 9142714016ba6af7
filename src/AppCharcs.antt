-- ===== src/AppCharcs.antt =====
-- EtsiMec/appcharcs.cpp: the characteristics of an application.
pub mod RoundTrip
use etsimec.Prelude.{ℕ, Bool, true, false, not, ◌&&◌, str, Outcome, ok, ◌>>=◌, ◌>>◌}
use etsimec.Prelude.Int.{ℤ, pos, is_int}
use etsimec.Rest.{Rest, check}

pub data ServiceCont : Type 0 where
  not_required : ServiceCont
  required : ServiceCont

-- `static_cast<int>`
abbrev pub service_cont_code : ServiceCont → ℕ
service_cont_code not_required = 0
service_cont_code required = 1

module _ ⦃R : Rest⦄ where
  open R use {
    Value, object, number, set, has_number_field, at, as_integer, thrower, report,
    not_number_if_present,
  }

  unfoldable pub app_charcs : ℕ → ℕ → ℕ → ℕ → ServiceCont → Value
  app_charcs memory storage latency bandwidth service_cont =
      let o1 = set object (str "memory") (number (pos memory)) in
      let o2 = set o1 (str "storage") (number (pos storage)) in
      let o3 = set o2 (str "latency") (number (pos latency)) in
      let o4 = set o3 (str "bandwidth") (number (pos bandwidth)) in
      set o4 (str "serviceCont") (number (pos (service_cont_code service_cont)))

  unfoldable pub no_app_charcs : Value
  no_app_charcs = app_charcs 0 0 0 0 not_required

  invalid_service_cont : ℤ → Bool
  invalid_service_cont c =
      not (is_int c (service_cont_code not_required)) && not (is_int c (service_cont_code required))

  check_service_cont : Value → R.Thrower → Outcome R.Thrower
  unfolding invalid_service_cont
  check_service_cont json t = elim (has_number_field json (str "serviceCont")) [
    | true ↦ do
      v ← at json (str "serviceCont")
      c ← as_integer v
      ok (report t (invalid_service_cont c) (str "invalid serviceCont value"))
    | false ↦ ok t
  ]

  -- The constructor from JSON.
  unfoldable pub app_charcs_of_json : Value → Outcome Value
  unfolding check_service_cont
  app_charcs_of_json json = do
    let t1 = not_number_if_present json (str "memory") (thrower (str "Invalid AppCharcs: "))
    let t2 = not_number_if_present json (str "storage") t1
    let t3 = not_number_if_present json (str "latency") t2
    let t4 = not_number_if_present json (str "bandwidth") t3
    let t5 = not_number_if_present json (str "serviceCont") t4
    t6 ← check_service_cont json t5
    check t6
    ok json
