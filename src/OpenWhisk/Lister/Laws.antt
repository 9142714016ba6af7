-- ===== src/OpenWhisk/Lister/Laws.antt =====
-- Which actions the lister returns.
use etsimec.Prelude.{
  ℕ, true, Str, str, ◌++◌, ◌∙◌, ap, Outcome, Str-eq, ok, throws, aborts, ◌>>=◌, returned,
  Outcome-cases, inl, inr, Option, none, some, List, [], ◌∷◌, if◌then◌else◌, ◌≡◌, ◌≢◌, refl, arith,
}
use etsimec.Rest.{Rest}
use etsimec.OpenWhisk.Command.{Command}
use etsimec.OpenWhisk.Action.{ActionKey, key_eqb, Action, Actions, action_key}
use etsimec.OpenWhisk.Lister.{
  make_query, emplace, insert_new, action_at, read_action, read_actions, read_list, list_actions,
}

abbrev pub or_else : Option Action → Option Action → Option Action
or_else (some a) o = some a
or_else none o = o

-- Equal keys have one entry.
action_at-same :
    (k j : ActionKey) (m : Actions) → key_eqb k j ≡ true → action_at k m ≡ action_at j m
action_at-same k j [] h = refl
action_at-same k j ((i, b) ∷ m) h = ground (arith, action_at-same k j m)

action_at-insert_new :
    (k j : ActionKey) (a : Action) (m : Actions)
    → action_at k m ≡ none
    → action_at j (insert_new k a m)
      ≡ or_else (action_at j m) (if key_eqb k j then some a else none)
unfolding insert_new
action_at-insert_new k j a [] h = ground arith
action_at-insert_new k j a ((i, b) ∷ m) h = ground (arith, action_at-insert_new k j a m)

action_at-emplace :
    (k j : ActionKey) (a : Action) (m : Actions)
    → action_at j (emplace k a m) ≡ or_else (action_at j m) (if key_eqb k j then some a else none)
unfolding emplace
action_at-emplace k j a m = ground (arith, action_at-insert_new k j a m, action_at-same k j m)

module _ ⦃R : Rest⦄ where
  open R use {Value}

  -- The first element of the array with the key.
  abbrev pub first_with : ActionKey → List Value → Option Action
  first_with k [] = none
  first_with k (v ∷ vs) = elim (read_action v) [
    | ok a ↦ if key_eqb (action_key a) k then some a else first_with k vs
    | throws e ↦ none
    | aborts ↦ none
  ]

  fails_to_read :
      (v : Value) (vs : List Value) (m result : Actions)
      → ((a : Action) → read_action v ≢ ok a)
      → read_actions (v ∷ vs) m ≢ ok result
  unfolding read_actions
  fails_to_read v vs m result fails e =
      let (a, read, rest) =
        returned (λ a. read_actions vs (emplace (action_key a) a m)) (read_action v) e in
      fails a read

  action_at-read_actions :
      (vs : List Value) (m result : Actions) (k : ActionKey)
      → read_actions vs m ≡ ok result
      → action_at k result ≡ or_else (action_at k m) (first_with k vs)
  unfolding read_actions
  action_at-read_actions [] m result k e = ground arith
  action_at-read_actions (v ∷ vs) m result k e = elim (Outcome-cases (read_action v)) [
    | inl (a, read) ↦ ground (
      arith,
      action_at-read_actions vs (emplace (action_key a) a m) result k,
      action_at-emplace (action_key a) k a m,
    )
    | inr fails ↦ absurd (fails_to_read v vs m result fails e)
  ]

  read_list-ok :
      (status : ℕ) (body : Value) (result : Actions)
      → read_list status body ≡ ok result
      → (status ≡ 200) × ((R.as_array body >>= λ elements. read_actions elements []) ≡ ok result)
  unfolding read_list
  read_list-ok status body result e = ground arith

  -- Where the lister returns, the GET of the actions of the default namespace, with the limit and
  -- the number of those to skip, and with the token of the command, gave 200 and an array. The map
  -- holds under each key the first element of the array with that key, and nothing under a key that
  -- no element has.
  pub list_actions-first :
      (get : Str → Str → Str → Str → Outcome (ℕ × Value)) (c : Command) (limit skip : ℕ)
      (result : Actions)
      → list_actions get c limit skip ≡ ok result
      → (body : Value) × (elements : List Value) × (get c.api_root c.auth
            (c.path ++ str "_/actions/")
            (make_query limit skip)
          ≡ ok (200, body))
        × (R.as_array body ≡ ok elements)
        × ((k : ActionKey) → action_at k result ≡ first_with k elements)
  unfolding list_actions
  list_actions-first get c limit skip result e =
      let call = get c.api_root c.auth (c.path ++ str "_/actions/") (make_query limit skip) in
      let ((status, body), got, f) = returned (λ (status, body). read_list status body) call e in
      let (fine, g) = read_list-ok status body result f in
      let (elements, found, rest) = returned (λ vs. read_actions vs []) (R.as_array body) g in
      (
        body,
        elements,
        got ∙ ap (λ n. ok (n, body)) fine,
        found,
        λ k. action_at-read_actions elements [] result k rest,
      )
