-- ===== src/Rest.antt =====
-- The code that the proxy calls and that is not in this repository: `web::json::value` of the C++
-- REST SDK, and the helpers of the submodule `rest` (Rest/utils.h, Rest/datatype.h) with
-- Support/thrower.h. They are operations of a record, the parameter of every module that uses JSON.
-- `rest::DataType` keeps one JSON value, `theObject`: an empty object, or the one it is built from;
-- so an object of a derived class is modelled as that value, and `toJson` as the identity.
pub mod Laws
pub mod Sample
pub mod Build
use etsimec.Prelude.{ℕ, Bool, List, Option, none, some, Str, Outcome, ok, throws}
use etsimec.Prelude.Int.{ℤ}

pub record Rest : Type 1 where
  -- `web::json::value`. `at` and the `as_` functions throw where there is nothing to return.
  pub Value : Type 0
  pub object : Value
  pub text : Str → Value
  pub number : ℤ → Value
  pub array : List Value → Value
  pub set : Value → Str → Value → Value
  pub has_string_field : Value → Str → Bool
  pub has_number_field : Value → Str → Bool
  pub has_object_field : Value → Str → Bool
  pub has_array_field : Value → Str → Bool
  pub is_object : Value → Bool
  pub is_string : Value → Bool
  pub at : Value → Str → Outcome Value
  pub as_string : Value → Outcome Str
  pub is_array : Value → Bool
  pub as_integer : Value → Outcome ℤ
  -- `as_number().to_uint64()`
  pub as_uint64 : Value → Outcome ℕ
  -- `web::json::value::parse` and `serialize`
  pub parse : Str → Outcome Value
  pub serialize : Value → Str
  pub as_array : Value → Outcome (List Value)
  -- `support::Thrower`: collects messages, and throws in `check` if there is one.
  pub Thrower : Type 0
  pub thrower : Str → Thrower
  pub report : Thrower → Bool → Str → Thrower
  pub errors : Thrower → Option Str
  -- Rest/utils.h
  pub set_if_not_empty : Value → Str → Str → Bool → Value
  pub string_or_empty : Value → Str → Str
  pub not_empty : Value → Str → Thrower → Thrower
  pub not_empty_if_present : Value → Str → Thrower → Thrower
  pub too_long : Value → Str → ℕ → Thrower → Thrower
  pub not_number_if_present : Value → Str → Thrower → Thrower
  -- Rest/problemdetails.h: the JSON of a `rest::ProblemDetails`, from its status and detail.
  pub problem_details : ℕ → Str → Value

-- `myThrower.check()`
abbrev pub check : ⦃R : Rest⦄ → R.Thrower → Outcome (Unit {0})
check ⦃R⦄ t = elim (R.errors t) [ none ↦ ok tt | some message ↦ throws message ]
