-- ===== src/OpenWhisk/Invoker.antt =====
-- OpenWhisk/invoker.cpp: the invocation of an action. What the POST gives is an argument: it throws,
-- or responds with a status and a body.
use etsimec.Prelude.{
  ℕ, Bool, true, false, not, Str, str, empty, Outcome, ok, throws, aborts, ◌>>=◌, [], ◌∷◌, ◌++◌,
  concat, eqb, if◌then◌else◌, ◌≡◌, arith, ◌↔◌,
}
use etsimec.Prelude.Decimal.{to_string}
use etsimec.Prelude.Dict.{Dict}
use etsimec.Rest.{Rest}
use etsimec.OpenWhisk.Command.{Command}

-- What the `try` block runs into: an exception with a text, or another one.
pub data Response {ℓ} (V : Type ℓ) : Type ℓ where
  responds : ℕ → V → Response V
  raises : Str → Response V
  raises_other : Response V

abbrev pub query : Str
query = str "blocking=true&result=true"

-- The path that is posted to.
unfoldable pub action_path : Command → Str → Str → Str
action_path c name space =
    concat (c.path ∷ (if empty space then str "_" else space) ∷ str "/actions/" ∷ name ∷ [])

module _ ⦃R : Rest⦄ where
  open R use {Value, object, set, text, has_string_field, at, as_string, parse, serialize}

  payload : Value → Outcome Str
  payload body = do w ← at body (str "payload"); as_string w

  -- The result read from a response.
  unfoldable pub read_response : ℕ → Value → Outcome (Bool × Str)
  unfolding payload
  read_response status body =
      if not (eqb status 200)
      then ok (false, str "unexpected HTTP response: " ++ to_string status)
      else if not (has_string_field body (str "payload"))
      then ok (false, str "unexpected body: payload field missing")
      else (do p ← payload body; ok (true, p))

  -- A result that an exception cuts short.
  abbrev pub caught : Outcome (Bool × Str) → Bool × Str
  caught (ok r) = r
  caught (throws why) = (false, str "error encountered: " ++ why)
  caught aborts = (false, str "unknown error encountered")

  module _ (post : Str → Str → Value → Str → Str → Response Value) where
    -- `operator()` with the parameters as JSON; `post` takes the API root of the client,
    -- its header Authorization, the body, the path and the query.
    unfoldable pub invoke : Command → Str → Str → Str → Bool × Str
    unfolding read_response action_path
    invoke c name space params = elim (parse params) [
      | throws why ↦ (false, str "error encountered: " ++ why)
      | aborts ↦ (false, str "unknown error encountered")
      | ok body ↦ elim (post c.api_root c.auth body (action_path c name space) query) [
        | raises why ↦ (false, str "error encountered: " ++ why)
        | raises_other ↦ (false, str "unknown error encountered")
        | responds status result ↦ caught (read_response status result)
      ]
    ]

    params_object : Dict Str Str → Value → Value
    params_object [] o = o
    params_object ((k, v) ∷ ps) o = params_object ps (set o k (text v))

    -- `operator()` with a map of parameters.
    unfoldable pub invoke_with : Command → Str → Str → Dict Str Str → Bool × Str
    unfolding params_object invoke
    invoke_with c name space ps = invoke c name space (serialize (params_object ps object))

    -- `operator()` without parameters.
    unfoldable pub invoke_plain : Command → Str → Str → Bool × Str
    unfolding invoke_with
    invoke_plain c name space = invoke_with c name space []

    invoke_complete :
        (c : Command) (name space params result : Str) (body answer : Value)
        → parse params ≡ ok body
        → post c.api_root c.auth body (action_path c name space) query ≡ responds 200 answer
        → has_string_field answer (str "payload") ≡ true
        → (at answer (str "payload") >>= as_string) ≡ ok result
        → invoke c name space params ≡ (true, result)
    unfolding invoke read_response payload
    invoke_complete c name space params result body answer p q f r = grind arith

    invoke_sound :
        (c : Command) (name space params result : Str)
        → invoke c name space params ≡ (true, result)
        → (body answer : Value) × (parse params ≡ ok body)
          × (post c.api_root c.auth body (action_path c name space) query ≡ responds 200 answer)
          × (has_string_field answer (str "payload") ≡ true)
          × ((at answer (str "payload") >>= as_string) ≡ ok result)
    unfolding invoke read_response payload
    invoke_sound c name space params result h = ground arith

    -- The call succeeds with a text exactly when the parameters parse, the server responds 200 to
    -- the POST of them with the token of the command, on the path of the action, and
    -- the response has that text as its payload.
    pub invoke-succeeds :
        (c : Command) (name space params result : Str)
        → (invoke c name space params ≡ (true, result)) ↔ (
            (body : Value) × (answer : Value) × (parse params ≡ ok body)
            × (post c.api_root c.auth body (action_path c name space) query ≡ responds 200 answer)
            × (has_string_field answer (str "payload") ≡ true)
            × ((at answer (str "payload") >>= as_string) ≡ ok result))
    invoke-succeeds c name space params result = (
      invoke_sound c name space params result,
      λ (body, answer, p, q, f, r). invoke_complete c name space params result body answer p q f r,
    )
