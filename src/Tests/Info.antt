-- ===== src/Tests/Info.antt =====
-- Application information over JSON as a tree.
use etsimec.Prelude.{Str-discrete, str, Outcome, ok, throws, [], ◌≡◌, ◌↔◌, refl}
use etsimec.Rest.Sample.{Json, sample, sample-IsLawful, object, string, field, end, put}
use etsimec.AppInfo.{
  app_context_response, app_info_request, make_app_context_response, message, reference_uri,
  app_name, app_provider, app_soft_version, app_description, app_package_source, app_info_of_json,
  application_list, app_info_list, make_app_context_request,
}
use etsimec.AppInfo.Laws.{IsValidInfo, app_info_request-accepts}
use etsimec.AppInfo.Listed.{make_app_context_request-list}
use etsimec.AppCharcs.{required, app_charcs}
use etsimec.AppInfo.RoundTrip.{make_app_context_response-request}
use etsimec.Tests.Data.{not_empty}

-- The JSON of a request with no description and no package source.
abbrev info : Json
info = object (
    field (str "appName") (string (str "f")) (
      field (str "appProvider") (string (str "p"))
        (field (str "appSoftVersion") (string (str "1.0")) end)))

info_lem : app_info_request (str "f") (str "p") (str "1.0") [] [] ≡ ok info
unfolding app_info_request put Str-discrete
info_lem = refl

nameless : app_info_request [] (str "p") [] [] [] ≡ throws (str "appName missing")
unfolding app_info_request put
nameless = refl

app_info_request-accepts_example :
    ((o : Json) × (app_info_request (str "f") (str "p") (str "1.0") [] [] ≡ ok o))
    ↔ IsValidInfo (str "f") (str "p") (str "1.0") []
app_info_request-accepts_example =
    app_info_request-accepts sample-IsLawful (str "f") (str "p") (str "1.0") [] []

make_app_context_response-request_example :
    (r : Json) × (make_app_context_response info (str "edge0") ≡ ok r)
    × (message r ≡ ok app_context_response)
    × (reference_uri r ≡ ok (str "edge0"))
    × (app_name r ≡ ok (str "f"))
    × (app_provider r ≡ ok (str "p"))
    × (app_soft_version r ≡ str "1.0")
    × (app_description r ≡ [])
    × (app_package_source r ≡ [])
make_app_context_response-request_example =
    make_app_context_response-request sample-IsLawful (str "f") (str "p") (str "1.0") [] []
      (str "edge0") info info_lem not_empty

abbrev value_or : Outcome Json → Json
value_or (ok v) = v
value_or _ = sample.object

-- An entry of a list.
abbrev listed : Json
listed =
    value_or
      (app_info_list (str "f") (str "p") (str "1.0") (str "text") (app_charcs 1 2 3 4 required))

listed_lem :
    app_info_list (str "f") (str "p") (str "1.0") (str "text") (app_charcs 1 2 3 4 required)
    ≡ ok listed
unfolding app_info_list app_charcs put Str-discrete
listed_lem = refl

make_app_context_request-list_example :
    (app_info_of_json listed ≡ ok listed)
    × (message listed ≡ ok application_list)
    × (r : Json) × (make_app_context_request listed (str "source") ≡ ok r)
    × (app_info_request (str "f") (str "p") (str "1.0") (str "text") (str "source") ≡ ok r)
make_app_context_request-list_example =
    make_app_context_request-list sample-IsLawful (str "f") (str "p") (str "1.0") (str "text")
      (str "source") 1 2 3 4 required listed listed_lem
