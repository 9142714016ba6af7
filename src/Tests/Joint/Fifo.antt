-- ===== src/Tests/Joint/Fifo.antt =====
-- Two changes of a router, with both notifications on their way.
use etsimec.Prelude.{Str, str, some, ok, List, [], ◌∷◌, Str-eq, ◌≡◌, refl}
use etsimec.Prelude.Dict.{lookup, insert}
use etsimec.Rest.Sample.{sample, sample-IsLawful}
use etsimec.StaticProxy.{
  AddressAppKey-discrete, key, Desc, Routes, Notification, find, route, associate_address,
}
use etsimec.StaticProxy.Creation.{with_context}
use etsimec.Notify.{Post, notify_clients}
use etsimec.ContextManager.{Manager, get_reference_uri}
use etsimec.Joint.{answered_by, deliver}
use etsimec.Joint.Fifo.{Fifo, begins, associates}
use etsimec.Joint.Fifo.Drains.{Fifo-notify_clients}
use etsimec.Tests.Joint.{
  recipient, split, validate, problem_string, routed, context, opened, answer, opened-Session,
}

-- The client has a router of its own.
abbrev with_router : Str → Routes
with_router router = record {
  table = (key [] (str "f"), str "edge0") ∷ (key (str "u") (str "f"), router) ∷ [];
  by_context = (str "c1", record context { edge_router = router }) ∷ [];
  by_ue_app = (str "1", str "c1") ∷ [];
}

abbrev notice : Str → Notification
notice router = record { callback = str "n/1"; reference_uri = router; context_id = str "c1" }

first :
    associate_address (str "u") (str "f") (str "edge1") (with_context (str "c1") context routed)
    ≡ ok (with_router (str "edge1"), notice (str "edge1") ∷ [])
unfolding associate_address find lookup insert AddressAppKey-discrete
first = refl

second :
    associate_address (str "u") (str "f") (str "edge2") (with_router (str "edge1"))
    ≡ ok (with_router (str "edge2"), notice (str "edge2") ∷ [])
unfolding associate_address find lookup insert AddressAppKey-discrete
second = refl

two_pending :
    Fifo recipient split validate problem_string
      (with_router (str "edge2"))
      (notice (str "edge1") ∷ notice (str "edge2") ∷ [])
      opened
two_pending =
    associates (str "u") (str "f") (str "edge2") (with_router (str "edge1"))
      (with_router (str "edge2")) (notice (str "edge1") ∷ []) (notice (str "edge2") ∷ []) opened
      (associates (str "u") (str "f") (str "edge1") (with_context (str "c1") context routed)
        (with_router (str "edge1")) [] (notice (str "edge1") ∷ []) opened
        (begins (with_context (str "c1") context routed) opened opened-Session) first)
      second

Fifo-notify_clients_example :
    (s' : Routes) × (sent : List Post) × (m' : Manager) × (notify_clients validate
        (answered_by answer (notice (str "edge1") ∷ notice (str "edge2") ∷ []))
        (with_router (str "edge2"))
      ≡ ok (s', sent))
    × (deliver recipient split sent opened ≡ ok m')
    × (s'.table ≡ (with_router (str "edge2")).table)
    × ((c router path : Str) (d : Desc)
        → lookup c s'.by_context ≡ some d
        → recipient d.callback ≡ some path
        → route d.client_address d.app_name s'.table ≡ some router
        → get_reference_uri d.ue_app_id m' ≡ ok router)
Fifo-notify_clients_example =
    Fifo-notify_clients sample-IsLawful recipient split validate problem_string answer
      (with_router (str "edge2")) (notice (str "edge1") ∷ notice (str "edge2") ∷ []) opened
      two_pending
