-- ===== src/Tests/Joint/Early.antt =====
-- A router that changes between the creation of a context and its reply.
use etsimec.Prelude.{
  str, some, none, ok, throws, List, [], ◌∷◌, ◌++◌, Str-eq, ◌≡◌, ◌≢◌, refl, arith,
}
use etsimec.Prelude.Dict.{lookup}
use etsimec.Rest.Sample.{Json, sample, sample-IsLawful}
use etsimec.LcmProxy.{handle_context_create}
use etsimec.StaticProxy.{Routes, Notification, route, associate_address}
use etsimec.StaticProxy.Handlers.{static}
use etsimec.Notify.{Answer, answered, Post, notification_event, notify_clients}
use etsimec.ContextManager.{
  Manager, last, creation_request, get_reference_uri, context_create, handle_notification,
}
use etsimec.Joint.{answered_by}
use etsimec.Joint.Early.{context_create-early}
use etsimec.Tests.Data.{not_empty}
use etsimec.Tests.Joint.{
  recipient, split, validate, problem_string, info, apps, m, routed, known, offered, post,
  post-Carries, route-default, lookup-nil, routed-UpToDate,
}

abbrev refuse : Notification → Answer
refuse e = answered 500

edge0_ne : str "edge0" ≢ str "edge1"
edge0_ne e = ground arith

leads_back : last (split (str "/1") (str "/")) ≡ some (str "1")
unfolding last
leads_back = refl

context_create-early_example :
    (req r body : Json) × (s s1 s2 : Routes) × (e : Notification) × (sent : List Post)
    × (m' : Manager) × (creation_request (str "1") info m ≡ ok req)
    × (handle_context_create static (str "c1") (str "u") req (apps, routed)
        ≡ ok (record { status = 201; body = some r }, (apps, s)))
    × (associate_address (str "u") (str "f") (str "edge1") s ≡ ok (s1, e ∷ []))
    × (notification_event e.reference_uri ≡ ok body)
    × (handle_notification split (str "/1") body m
        ≡ throws (str "Received notification for unknown UE application " ++ str "1"))
    × (notify_clients validate (answered_by refuse (e ∷ [])) s1 ≡ ok (s2, sent))
    × (context_create problem_string post (str "1") info m ≡ ok ((str "1", str "edge0"), m'))
    × (get_reference_uri (str "1") m' ≡ ok (str "edge0"))
    × (route (str "u") (str "f") s2.table ≡ some (str "edge1"))
    × (lookup (str "c1") s2.by_context ≡ none)
context_create-early_example =
    context_create-early sample-IsLawful recipient split validate problem_string post refuse
      (str "f") (str "q") [] [] [] (str "1") (str "c1") (str "u") (str "edge0") (str "edge1")
      (str "/1") info apps routed.table m known not_empty not_empty offered
      routed-UpToDate.consistent route-default (lookup-nil (str "1")) refl refl leads_back
      post-Carries not_empty edge0_ne (λ e. refl)
