-- ===== src/Tests/Handlers.antt =====
-- The HTTP handlers, over a proxy with a context.
use etsimec.Prelude.{
  false, str, some, none, ok, if◌then◌else◌, ◌==◌, Str-eq, [], Str, Str-discrete, ◌≡◌, refl,
}
use etsimec.Prelude.Dict.{lookup}
use etsimec.Rest.Sample.{Json, sample, sample-IsLawful, object, string, field, end, put, get}
use etsimec.AppInfo.{
  app_info_request, app_info_response, make_app_context_response, message, app_name, app_provider,
  app_soft_version, app_description, app_package_source,
}
use etsimec.AppContext.{
  response, app_context_of_json, associate_ue_app_id, callback_reference, context_id,
}
use etsimec.AppContext.RoundTrip.{IsContext}
use etsimec.LcmProxy.{
  exists, mangle, handle_context_create, handle_context_delete, handle_context_update,
}
use etsimec.StaticProxy.Refusal.{of_response, handle_context_create-refused}
use etsimec.StaticProxy.{Desc, Routes}
use etsimec.StaticProxy.Invariant.{IsConsistent}
use etsimec.StaticProxy.Handlers.{
  static, handle_context_delete-static, handle_context_update-static,
}
use etsimec.Tests.Data.{not_empty, proxy, proxy-IsConsistent}

-- A request, and the response made from it with a reference URI.
abbrev asked : Json
asked =
    object
      (field (str "appName") (string (str "f")) (field (str "appProvider") (string (str "q")) end))

abbrev info : Json
info = object (
    field (str "appName") (string (str "f")) (
      field (str "appProvider") (string (str "q"))
        (field (str "referenceURI") (string (str "any")) end)))

-- A request in the form of a response.
abbrev forged : Json
forged = object (
    field (str "contextId") (string (str "any"))
      (field (str "associateUeAppId") (string (str "1")) (field (str "appInfo") info end)))

parsed : app_context_of_json forged ≡ ok forged
unfolding app_context_of_json get Str-discrete
parsed = refl

asked-info : app_info_request (str "f") (str "q") [] [] [] ≡ ok asked
unfolding app_info_request put Str-discrete
asked-info = refl

made : make_app_context_response asked (str "any") ≡ ok info
unfolding make_app_context_response app_info_response app_name app_provider app_soft_version
    app_description app_package_source message put get Str-discrete
made = refl

forged-IsContext : IsContext sample-IsLawful forged (str "any") (str "1") [] info
unfolding context_id callback_reference get Str-discrete
forged-IsContext = record {
  id_text = refl;
  id_field = refl;
  ue_text = refl;
  callback_text = refl;
  info_field = refl;
  info_value = refl;
}

none_offered : exists info [] ≡ ok false
unfolding exists lookup mangle app_name app_provider app_soft_version get Str-discrete
none_offered = refl

-- It is answered 201, though the proxy offers nothing.
handle_context_create-refused_example :
    handle_context_create static (str "c1") (str "u") forged ([], proxy)
    ≡ ok (record { status = 201; body = some forged }, ([], proxy))
handle_context_create-refused_example =
    handle_context_create-refused sample-IsLawful response (str "any") (str "f") (str "1") []
      (str "c1") (str "u") info forged [] proxy false
      (of_response (str "f") (str "q") [] [] [] (str "any") (str "any") asked info asked-info made
        not_empty not_empty)
      forged-IsContext not_empty none_offered (λ h. cc)

handle_context_delete-static_example :
    (s : Routes) × (handle_context_delete static (str "app_contexts/id1") ([], proxy)
      ≡ ok (record { status = 204; body = none }, ([], s)))
    × IsConsistent s
    × ((c : Str)
        → lookup c s.by_context ≡ (if str "id1" == c then none else lookup c proxy.by_context))
unfolding lookup Str-discrete
handle_context_delete-static_example =
    handle_context_delete-static (str "id1") [] proxy proxy-IsConsistent

named : associate_ue_app_id forged ≡ ok (str "1")
unfolding associate_ue_app_id get Str-discrete
named = refl

handle_context_update-static_example :
    (s : Routes) × (handle_context_update static forged ([], proxy)
      ≡ ok (record { status = 204; body = none }, ([], s)))
    × IsConsistent s
    × ((c : Str) (d : Desc)
        → lookup c proxy.by_context ≡ some d
        → lookup c s.by_context
          ≡ some (
              if d.ue_app_id == str "1"
              then record d { callback = callback_reference forged }
              else d))
unfolding lookup Str-discrete
handle_context_update-static_example =
    handle_context_update-static forged forged (str "1") [] proxy proxy-IsConsistent parsed named
