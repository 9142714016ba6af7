-- ===== src/Client/Invalid.antt =====
-- Executables/etsimeccli.cpp: `handlePost` hands the API root of a chat request to `command`, which
-- asserts that it is a URI.
use etsimec.Prelude.{
  Bool, false, Str, str, none, Outcome, List, [], ◌∷◌, ◌++◌, ◌==◌, Str-eq, Str-discrete, ◌≡◌, ◌≢◌,
  refl, arith,
}
use etsimec.Rest.{Rest}
use etsimec.StaticProxy.Creation.{empty-eq-false}
use etsimec.Client.Laws.{Without, read_pairs-Without}
use etsimec.Client.Mattermost.{
  Query, Options, command, read_pair, read_pairs, read_options, last_reply, handle_post,
}

-- No word is an option.
abbrev AreWords : List Str → Type 0
AreWords [] = Unit
AreWords (w ∷ ws) = ((w == str "command") ≡ false) × ((w == str "apiroot") ≡ false) × AreWords ws

read_options-skip :
    (w : Str) (ws : List Str) (o : Options)
    → (w == str "command") ≡ false
    → (w == str "apiroot") ≡ false
    → read_options (w ∷ ws) o ≡ read_options ws o
unfolding read_options
read_options-skip w [] o e f = ground arith
read_options-skip w (v ∷ ws) o e f = ground arith

read_options-api_root :
    (ws : List Str) (root : Str) (o : Options)
    → AreWords ws
    → read_options (ws ++ (str "apiroot" ∷ root ∷ [])) o ≡ record o { api_root = root }
unfolding read_options Str-discrete
read_options-api_root [] root o h = refl
read_options-api_root (w ∷ ws) root o (e, f, h) =
    let skip = read_options-skip w (ws ++ (str "apiroot" ∷ root ∷ [])) o e f in
    let ih = read_options-api_root ws root o h in cc

module _ (split : Str → Str → List Str) (decode : Str → Str) (token : Str) where
  read_pairs-append :
      (pairs more : List (Str × Str)) (q : Query)
      → read_pairs split decode token (pairs ++ more) q
        ≡ read_pairs split decode token more (read_pairs split decode token pairs q)
  unfolding read_pairs
  read_pairs-append [] more q = refl
  read_pairs-append ((name, value) ∷ pairs) more q =
      read_pairs-append pairs more (read_pair split token name (decode value) q)

  read_text :
      (value : Str) (words : List Str) (q : Query)
      → split (decode value) (str "+") ≡ words
      → read_pairs split decode token ((str "text", value) ∷ []) q ≡ record q { words = words }
  unfolding read_pairs read_pair Str-discrete
  read_text value words q e = ground arith

module _ ⦃R : Rest⦄ (split : Str → Str → List Str) (decode : Str → Str) (token : Str)
    (validate : Str → Bool) (app_list : Str → Outcome (List R.Value))
    (is_runtime_error : Str → Bool) where
  -- A request without the token of the server, the text of which ends with an API root that is not a
  -- URI, is replied 401, and then aborts the program.
  handle_post-aborts :
      (pairs : List (Str × Str)) (value root : Str) (words : List Str)
      → Without split decode token pairs
      → AreWords words
      → split (decode value) (str "+") ≡ words ++ (str "apiroot" ∷ root ∷ [])
      → root ≢ []
      → validate root ≡ false
      → handle_post split decode validate app_list is_runtime_error token
          (pairs ++ ((str "text", value) ∷ []))
        ≡ record { replies = (401, none) ∷ []; completes = false }
  unfolding handle_post last_reply command
  handle_post-aborts pairs value root words h w e k invalid =
      let q0 : Query = record { authorized = false; user_name = []; words = [] } in
      let o0 : Options = record { fail = false; command = str "app_list"; api_root = [] } in
      let q1 = read_pairs split decode token pairs q0 in
      let without = read_pairs-Without split decode token pairs q0 h in
      let all = words ++ (str "apiroot" ∷ root ∷ []) in
      let text = read_text split decode token value all q1 e in
      let append = read_pairs-append split decode token pairs ((str "text", value) ∷ []) q0 in
      let options = read_options-api_root words root o0 w in
      let named = empty-eq-false root k in rw append (rw text (rw options (ground arith)))
