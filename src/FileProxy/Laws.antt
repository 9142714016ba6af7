-- ===== src/FileProxy/Laws.antt =====
-- EtsiMec/staticfileueapplcmproxy.cpp: the table that a configuration file gives.
use etsimec.Prelude.{
  Bool, true, false, ◌&&◌, Str, Option, none, some, ok, throws, Bool-cases, Option-cases, inl, inr,
  List, [], ◌∷◌, ◌++◌, if◌then◌else◌, ◌==◌, Str-eq, ◌≡◌, ◌≢◌, refl, arith,
}
use etsimec.Prelude.Dict.{lookup, insert, lookup-insert}
use etsimec.StaticProxy.{
  AddressAppKey, AddressAppKey-eq, key, Table, associate_address, same_association, visit_all,
}
use etsimec.FileProxy.{flush, words_after, words, address_of, ill_formed, load_words, load}

-- The associations that the words of a file spell, three words each; `none` if words are left over.
abbrev pub entries : List Str → Option (List (AddressAppKey × Str))
entries [] = some []
entries (a ∷ []) = none
entries (a ∷ n ∷ []) = none
entries (a ∷ n ∷ r ∷ ws) = elim (entries ws) [
  | none ↦ none
  | some es ↦ some ((key (address_of a) n, r) ∷ es)
]

-- The last router associated with a key, or else the given one.
abbrev pub last_router : AddressAppKey → List (AddressAppKey × Str) → Option Str → Option Str
last_router k [] old = old
last_router k ((j, r) ∷ es) old = last_router k es (if j == k then some r else old)

abbrev pub AreWords : List Str → Type 0
AreWords [] = Unit
AreWords (w ∷ ws) = (w ≢ []) × AreWords ws

flush-AreWords : (w : Str) (ws : List Str) → AreWords ws → AreWords (flush w ++ ws)
unfolding flush
flush-AreWords [] ws h = h
flush-AreWords (c ∷ w) ws h = (λ e. cc, h)

words_after-AreWords : (w s : Str) → AreWords (words_after w s)
unfolding words_after
words_after-AreWords [] [] = tt
words_after-AreWords (c ∷ w) [] = (λ e. cc, tt)
words_after-AreWords w (c ∷ s) =
    let ended = flush-AreWords w (words_after [] s) (words_after-AreWords [] s) in
    let longer = words_after-AreWords (w ++ (c ∷ [])) s in ground arith

same_association-lookup :
    (j k : AddressAppKey) (r : Str) (t : Table)
    → same_association r (lookup j t) ≡ true
    → lookup k t ≡ (if j == k then some r else lookup k t)
same_association-lookup j k r t e = elim (Option-cases (lookup j t)) [
  | inl none_ ↦ ground arith
  | inr (old, found) ↦ ground arith
]

-- An association of a proxy without contexts sets its table, and does nothing else.
associate_address-fresh :
    (a n r : Str) (t : Table)
    → n ≢ []
    → r ≢ []
    → (t' : Table) × (associate_address a n r
          (record { table = t; by_context = []; by_ue_app = [] })
        ≡ ok (record { table = t'; by_context = []; by_ue_app = [] }, []))
      × ((k : AddressAppKey) → lookup k t' ≡ (if key a n == k then some r else lookup k t))
unfolding associate_address visit_all
associate_address-fresh a [] r t p q = absurd (p refl)
associate_address-fresh a (c ∷ n) [] t p q = absurd (q refl)
associate_address-fresh a (c ∷ n) (b ∷ r) t p q =
    elim (Bool-cases (same_association (b ∷ r) (lookup (key a (c ∷ n)) t))) [
      | inl e ↦ (t, ground arith, λ k. same_association-lookup (key a (c ∷ n)) k (b ∷ r) t e)
      | inr e ↦ (
        insert (key a (c ∷ n)) (b ∷ r) t,
        ground arith,
        λ k. lookup-insert (key a (c ∷ n)) k (b ∷ r) t,
      )
    ]

abbrev pub no_words : List Str → Bool
no_words [] = true
no_words (w ∷ ws) = false

-- The table after the words of a file, which are three for each entry.
load_words-table :
    (path : Str) (ws : List Str) (es : List (AddressAppKey × Str)) (none_yet : Bool) (t : Table)
    → AreWords ws
    → entries ws ≡ some es
    → (t' : Table) × (load_words path ws none_yet
          (record { table = t; by_context = []; by_ue_app = [] })
        ≡ ok (none_yet && no_words ws, record { table = t'; by_context = []; by_ue_app = [] }))
      × ((k : AddressAppKey) → lookup k t' ≡ last_router k es (lookup k t))
unfolding load_words
load_words-table path [] es none_yet t h e = (t, ground arith, λ k. ground arith)
load_words-table path (a ∷ []) es none_yet t h e = absurd cc
load_words-table path (a ∷ n ∷ []) es none_yet t h e = absurd cc
load_words-table path (a ∷ n ∷ r ∷ ws) es none_yet t (ha, (hn, (hr, h))) e =
    elim (Option-cases (entries ws)) [
      | inl left ↦ absurd cc
      | inr (rest, split) ↦
          let (t1, step, set) = associate_address-fresh (address_of a) n r t hn hr in
          let (t2, run, last) = load_words-table path ws rest false t1 h split in
          (t2, ground arith, λ k. let one = set k in let more = last k in grind arith)
    ]

-- Words that are left over after the entries, on any table: the file is refused.
load_words-left :
    (path : Str) (ws : List Str) (none_yet : Bool) (t : Table)
    → AreWords ws
    → entries ws ≡ none
    → load_words path ws none_yet (record { table = t; by_context = []; by_ue_app = [] })
      ≡ throws (ill_formed path)
unfolding load_words
load_words-left path [] none_yet t h e = absurd cc
load_words-left path (a ∷ []) none_yet t h e = refl
load_words-left path (a ∷ n ∷ []) none_yet t h e = refl
load_words-left path (a ∷ n ∷ r ∷ ws) none_yet t (ha, (hn, (hr, h))) e =
    elim (Option-cases (entries ws)) [
      | inr (rest, split) ↦ absurd cc
      | inl left ↦
          let (t1, step, set) = associate_address-fresh (address_of a) n r t hn hr in
          let ih = load_words-left path ws false t1 h left in ground arith
    ]

no_words-entries :
    (ws : List Str) (e : AddressAppKey × Str) (es : List (AddressAppKey × Str))
    → entries ws ≡ some (e ∷ es)
    → no_words ws ≡ false
no_words-entries [] e es h = cc
no_words-entries (w ∷ ws) e es h = refl

-- A file whose words spell at least one entry is loaded, and the table then has, for each address
-- and name, the last router of the file; there is no context.
pub load-table :
    (path content : Str) (e : AddressAppKey × Str) (es : List (AddressAppKey × Str))
    → entries (words content) ≡ some (e ∷ es)
    → (t : Table) × (load path (some content)
        ≡ ok (record { table = t; by_context = []; by_ue_app = [] }))
      × ((k : AddressAppKey) → lookup k t ≡ last_router k (e ∷ es) none)
unfolding load lookup
load-table path content e es h =
    let (t, run, last) =
      load_words-table path (words content) (e ∷ es) true [] (words_after-AreWords [] content) h in
    let some_words = no_words-entries (words content) e es h in (t, ground arith, last)

-- A file is refused if its words do not come in threes: address, application name, edge router.
pub load-ill_formed :
    (path content : Str)
    → entries (words content) ≡ none
    → load path (some content) ≡ throws (ill_formed path)
unfolding load
load-ill_formed path content h =
    let run = load_words-left path (words content) true [] (words_after-AreWords [] content) h in
    ground arith
