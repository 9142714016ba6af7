-- ===== src/Tests/Offers.antt =====
-- The applications that a proxy offers.
use etsimec.Prelude.{
  Bool, Outcome, true, false, none, Str, str, ok, [], ◌∷◌, Str-eq, Str-discrete, ◌≡◌, refl,
}
use etsimec.Prelude.Dict.{lookup, erase}
use etsimec.Prelude.OrderedDict.{insert_ordered}
use etsimec.Rest.Sample.{Json, sample, sample-IsLawful, put, object, string, field, end, get}
use etsimec.LcmProxy.Ambiguity.{exists-plus}
use etsimec.AppInfo.{app_info_request, app_name, app_provider, app_soft_version}
use etsimec.LcmProxy.{Applications, mangle, add_app, del_app, exists}
use etsimec.LcmProxy.Laws.{exists-add_app, exists-del_app}

abbrev app : Str → Json
app name =
    object (field (str "appName") (string name) (field (str "appProvider") (string (str "q")) end))

abbrev apps : Applications
apps = (str "f+q+", app (str "f")) ∷ []

mangle-f : mangle (app (str "f")) ≡ ok (str "f+q+")
unfolding mangle get Str-discrete app_name app_provider app_soft_version
mangle-f = refl

mangle-g : mangle (app (str "g")) ≡ ok (str "g+q+")
unfolding mangle get Str-discrete app_name app_provider app_soft_version
mangle-g = refl

added : add_app (app (str "f")) [] ≡ ok (true, apps)
unfolding add_app get lookup insert_ordered Str-discrete app_name app_provider app_soft_version
added = refl

removed : del_app (app (str "f")) apps ≡ ok (true, [])
unfolding del_app get lookup erase Str-discrete app_name app_provider app_soft_version
removed = refl

single : lookup {V = Json} (str "f+q+") [] ≡ none
unfolding lookup
single = refl

exists-add_app_example :
    (exists (app (str "f")) [] ≡ ok false)
    × (exists (app (str "g")) apps ≡ exists (app (str "g")) [])
unfolding Str-discrete
exists-add_app_example =
    exists-add_app (app (str "f")) (app (str "g")) [] apps true (str "f+q+") (str "g+q+") mangle-f
      mangle-g added

exists-del_app_example :
    (exists (app (str "f")) apps ≡ ok true) × (exists (app (str "f")) [] ≡ ok false)
unfolding Str-discrete
exists-del_app_example =
    exists-del_app (app (str "f")) (app (str "f")) apps [] true (str "f+q+") (str "f+q+")
      (single, tt) mangle-f mangle-f removed

abbrev value_or : Outcome Json → Json
value_or (ok v) = v
value_or _ = sample.object

-- The application "a+b" of the provider "q", and the application "a" of the provider "b+q".
abbrev one : Json
one = value_or (app_info_request (str "a+b") (str "q") [] [] [])

abbrev two : Json
two = value_or (app_info_request (str "a") (str "b+q") [] [] [])

one_lem : app_info_request (str "a+b") (str "q") [] [] [] ≡ ok one
unfolding app_info_request put Str-discrete
one_lem = refl

two_lem : app_info_request (str "a") (str "b+q") [] [] [] ≡ ok two
unfolding app_info_request put Str-discrete
two_lem = refl

exists-plus_example :
    (added : Bool) × (apps' : Applications) × (add_app one [] ≡ ok (added, apps'))
    × (exists two apps' ≡ ok true)
    × ((apps'' : Applications) × (del_app two apps' ≡ ok (true, apps'')))
exists-plus_example =
    exists-plus sample-IsLawful (str "a") (str "b") (str "q") [] [] [] [] [] one two [] one_lem
      two_lem
