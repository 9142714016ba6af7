-- ===== src/Tests/Joint/Loaded.antt =====
-- A file with a router for all clients and one for another client, and an application that is opened.
use etsimec.Prelude.{ℕ, Str, str, some, Outcome, ok, [], ◌∷◌, ap, Str-eq, Str-discrete, ◌≡◌, refl}
use mathlib.Core.Path.{subst}
use etsimec.Prelude.Dict.{lookup, insert}
use etsimec.Rest.Sample.{Json, sample, sample-IsLawful}
use etsimec.LcmProxy.{handle_context_create}
use etsimec.StaticProxy.{AddressAppKey-eq, AddressAppKey-discrete, key, Routes, associate_address}
use etsimec.StaticProxy.Handlers.{static}
use etsimec.FileProxy.{words, words_after, load_words, load}
use etsimec.FileProxy.Laws.{entries}
use etsimec.ContextManager.{Manager, manager, get_reference_uri, context_create, last}
use etsimec.Joint.Opening.{Carries}
use etsimec.Joint.Session.{Session, LeadsBack}
use etsimec.Joint.Session.Loaded.{load-context_create}
use etsimec.Tests.Data.{not_empty}
use etsimec.Tests.Joint.{
  recipient, split, validate, problem_string, info, apps, known, offered, response,
}

abbrev file : Str
file = str "w f edge1 * f edge0"

abbrev loaded : Routes
loaded = record {
  table = (key (str "w") (str "f"), str "edge1") ∷ (key [] (str "f"), str "edge0") ∷ [];
  by_context = [];
  by_ue_app = [];
}

file-entries :
    entries (words file)
    ≡ some ((key (str "w") (str "f"), str "edge1") ∷ (key [] (str "f"), str "edge0") ∷ [])
unfolding words_after Str-discrete
file-entries = refl

load-loaded : load (str "conf") (some file) ≡ ok loaded
unfolding load load_words words_after associate_address lookup insert AddressAppKey-discrete
load-loaded = refl

abbrev post : Str → Json → Outcome (ℕ × Json)
post url req = response (handle_context_create static (str "c1") (str "u") req (apps, loaded))

post-Carries : Carries post (str "p/mx2/v1/app_contexts") (str "c1") (str "u") apps loaded
post-Carries req body status s' e = ap response e

leads_back :
    LeadsBack recipient split validate problem_string (manager (str "n") (str "p")) (str "1")
unfolding last manager
leads_back path e =
    let p : str "/1" ≡ path = cc in
    (refl, subst (λ (q : Str). last (split q (str "/")) ≡ some (str "1")) p refl)

load-context_create_example :
    (s' : Routes) × (m' : Manager) × (context_create problem_string post
        (str "1")
        info
        (manager (str "n") (str "p"))
      ≡ ok ((str "1", str "edge0"), m'))
    × (get_reference_uri (str "1") m' ≡ ok (str "edge0"))
    × Session recipient split validate problem_string s' m'
unfolding AddressAppKey-discrete
load-context_create_example =
    load-context_create sample-IsLawful recipient split validate problem_string post (str "conf")
      file (str "n") (str "p") (str "f") (str "q") [] [] [] (str "1") (str "c1") (str "u")
      (str "edge0") info (key (str "w") (str "f"), str "edge1")
      ((key [] (str "f"), str "edge0") ∷ []) apps loaded file-entries load-loaded refl known
      not_empty not_empty offered leads_back post-Carries
