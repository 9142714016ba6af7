-- ===== src/OpenWhisk/Action.antt =====
-- OpenWhisk/action.h and action.cpp: actions, their keys, and the comparison of two maps of actions.
pub mod Keys
use etsimec.Prelude.{
  ℕ, Bool, true, false, not, ◌&&◌, ◌||◌, Str, str, Str-eq, str_ltb, List, [], ◌∷◌, concat, length,
  eqb, if◌then◌else◌, ◌==◌,
}
use etsimec.Prelude.Decimal.{to_string}

pub record ActionKey : Type 0 where
  pub space : Str
  pub name : Str

-- `operator<`
abbrev pub key_ltb : ActionKey → ActionKey → Bool
key_ltb a b = str_ltb a.space b.space || (a.space == b.space && str_ltb a.name b.name)

-- `operator==`
abbrev pub key_eqb : ActionKey → ActionKey → Bool
key_eqb a b = a.space == b.space && a.name == b.name

unfoldable pub key_to_string : ActionKey → Str
key_to_string k = concat (str "/" ∷ k.space ∷ str "/" ∷ k.name ∷ [])

pub record Action : Type 0 where
  pub space : Str
  pub name : Str
  pub updated : ℕ
  pub version : Str

-- `operator==`
unfoldable pub action_eqb : Action → Action → Bool
action_eqb a b =
    a.space == b.space && a.name == b.name && eqb a.updated b.updated && a.version == b.version

unfoldable pub action_key : Action → ActionKey
action_key a = record { space = a.space; name = a.name }

unfoldable pub action_to_string : Action → Str
unfolding action_key key_to_string
action_to_string a = concat (
    key_to_string (action_key a)
    ∷ str ", updated "
    ∷ to_string a.updated
    ∷ str ", version "
    ∷ a.version
    ∷ [])

-- `std::map<ActionKey, Action>`, in the order of the keys.
abbrev pub Actions : Type 0
Actions = List (ActionKey × Action)

-- `std::set<std::string>::emplace`, on the list of the elements in order.
unfoldable pub set_emplace : Str → List Str → List Str
set_emplace s [] = s ∷ []
set_emplace s (t ∷ ts) =
    let rest = set_emplace s ts in
    if t == s then t ∷ ts else if str_ltb s t then s ∷ t ∷ ts else t ∷ rest

-- One of the two loops of `sameKeys`.
unfoldable pub collect_keys : List Str → Actions → List Str
unfolding set_emplace key_to_string
collect_keys set [] = set
collect_keys set ((k, a) ∷ m) = collect_keys (set_emplace (key_to_string k) set) m

-- `operator==` of two sets.
unfoldable pub sets_eqb : List Str → List Str → Bool
sets_eqb [] [] = true
sets_eqb [] (t ∷ ts) = false
sets_eqb (s ∷ ss) [] = false
sets_eqb (s ∷ ss) (t ∷ ts) = s == t && sets_eqb ss ts

unfoldable pub same_keys : Actions → Actions → Bool
unfolding collect_keys sets_eqb
same_keys a b =
    if not (eqb (length a) (length b))
    then false
    else sets_eqb (collect_keys [] a) (collect_keys [] b)
