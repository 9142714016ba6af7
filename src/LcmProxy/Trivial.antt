-- ===== src/LcmProxy/Trivial.antt =====
-- EtsiMec/trivialueapplcmproxy.h: the proxy that accepts or refuses everything.
use etsimec.Prelude.{ℕ, ◌+◌, Bool, Str, str, Outcome, ok, ◌>>=◌, ◌++◌, if◌then◌else◌}
use Prim.Native.Nat.{◌^◌, ◌%◌}
use etsimec.Prelude.Decimal.{to_string}
use etsimec.Rest.{Rest}
use etsimec.AppContext.{make_response}
use etsimec.LcmProxy.{Backend}

pub record Trivial : Type 0 where
  pub client_address : Str
  pub updated : ℕ
  pub context_counter : ℕ
  pub context_id : Str
  pub valid_request : Bool

-- `++` on a `size_t` of 64 bits.
abbrev pub increment : ℕ → ℕ
increment n = (n + 1) % 2 ^ 64

module _ ⦃R : Rest⦄ where
  open R use {Value}

  -- The members are changed before `makeResponse` is called, so they are whether it throws or not.
  unfoldable pub create_context : Str → Value → Trivial → Outcome Value × Trivial
  create_context client req s =
      let n = increment s.context_counter in
      if s.valid_request
      then (
        make_response req (str "context-id-" ++ to_string n) (str "reference-uri-" ++ to_string n),
        record s { client_address = client; context_counter = n },
      )
      else (ok req, s)

  unfoldable pub update_context : Value → Trivial → Outcome (Bool × Trivial)
  update_context req s = ok (s.valid_request, record s { updated = increment s.updated })

  unfoldable pub delete_context : Str → Trivial → Outcome (Bool × Trivial)
  delete_context id s = ok (s.valid_request, record s { context_id = id })

  -- The context ID of the handler is not used here. A call that throws has no state in a `Backend`.
  abbrev pub trivial : Backend
  trivial = record {
    State = Trivial;
    create = λ uuid client req s.
        let (response, s') = create_context client req s in (do answer ← response; ok (answer, s'));
    update = update_context;
    delete = delete_context;
  }
