-- ===== src/Tests/Service.antt =====
-- The configuration file and the console, at concrete inputs.
use etsimec.Prelude.{
  Str, str, none, some, ok, throws, [], ◌∷◌, ◌++◌, Str-eq, Str-discrete, ◌≡◌, refl,
}
use etsimec.Prelude.Dict.{lookup}
use etsimec.StaticProxy.{AddressAppKey, AddressAppKey-eq, key, Table}
use etsimec.FileProxy.{load, words, words_after, ill_formed}
use etsimec.FileProxy.Laws.{entries, last_router, load-table, load-ill_formed}
use etsimec.Console.{rounds}
use etsimec.Console.Laws.{text_of, rounds-unterminated}
use etsimec.Tests.Data.{not_empty}

-- Two entries for the wildcard, of which the second counts.
abbrev file : Str
file = str "* f edge0 u f edge1 * f edge2"

file-entries :
    entries (words file)
    ≡ some (
        (key [] (str "f"), str "edge0")
        ∷ (key (str "u") (str "f"), str "edge1")
        ∷ (key [] (str "f"), str "edge2")
        ∷ [])
unfolding words_after Str-discrete
file-entries = refl

load-table_example :
    (t : Table) × (load (str "conf") (some file)
      ≡ ok (record { table = t; by_context = []; by_ue_app = [] }))
    × ((k : AddressAppKey)
        → lookup k t
          ≡ last_router k
              ((key [] (str "f"), str "edge0")
                ∷ (key (str "u") (str "f"), str "edge1")
                ∷ (key [] (str "f"), str "edge2")
                ∷ [])
              none)
load-table_example =
    load-table (str "conf") file (key [] (str "f"), str "edge0")
      ((key (str "u") (str "f"), str "edge1") ∷ (key [] (str "f"), str "edge2") ∷ []) file-entries

half-entries : entries (words (str "* f")) ≡ none
unfolding words_after
half-entries = refl

load-ill_formed_example : load (str "conf") (some (str "* f")) ≡ throws (ill_formed (str "conf"))
load-ill_formed_example = load-ill_formed (str "conf") (str "* f") half-entries

rounds-unterminated_example :
    rounds (text_of (str "a" ∷ []) ++ str "b") ≡ str "a" ∷ str "b" ∷ str "b" ∷ []
rounds-unterminated_example =
    rounds-unterminated (str "a" ∷ []) (str "b") (((λ e. cc), tt), tt) ((λ e. cc), tt) not_empty
