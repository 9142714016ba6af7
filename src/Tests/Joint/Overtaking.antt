-- ===== src/Tests/Joint/Overtaking.antt =====
-- Two changes of a router whose notifications overtake one another.
use etsimec.Prelude.{str, some, ok, List, ◌++◌, Str-eq, arith, ◌≡◌, ◌≢◌, refl}
use etsimec.Prelude.Dict.{insert}
use etsimec.Rest.Sample.{sample, sample-IsLawful}
use etsimec.StaticProxy.{Routes, Notification, route, associate_address}
use etsimec.StaticProxy.Creation.{with_context}
use etsimec.Notify.{Post, notify_clients}
use etsimec.ContextManager.{Manager, get_reference_uri}
use etsimec.Joint.{answered_by, deliver}
use etsimec.Joint.Turns.{UpToDate}
use etsimec.Joint.Overtaking.{one_context, associate_address-overtaken}
use etsimec.Joint.Session.Kept.{Session-UpToDate}
use etsimec.Tests.Data.{not_empty}
use etsimec.Tests.Joint.{
  recipient, split, validate, problem_string, routed, context, opened, answer, opened-Session,
}

-- The same proxy and manager, for two changes that overtake one another.
one_context-UpToDate :
    UpToDate sample-IsLawful recipient split validate
      (one_context routed.table (str "c1") context (str "edge0"))
      opened
unfolding insert
one_context-UpToDate =
    Session-UpToDate sample-IsLawful recipient split validate problem_string
      (with_context (str "c1") context routed) opened opened-Session

edge0_ne : str "edge0" ≢ str "edge1"
edge0_ne e = ground arith

edge1_ne : str "edge1" ≢ str "edge2"
edge1_ne e = ground arith

associate_address-overtaken_example :
    (s1 s2 s3 s4 : Routes) × (out1 out2 : List Notification) × (sent1 sent2 : List Post)
    × (m' : Manager) × (associate_address
          (str "u")
          (str "f")
          (str "edge1")
          (one_context routed.table (str "c1") context (str "edge0"))
        ≡ ok (s1, out1))
    × (associate_address (str "u") (str "f") (str "edge2") s1 ≡ ok (s2, out2))
    × (notify_clients validate (answered_by answer out2) s2 ≡ ok (s3, sent2))
    × (notify_clients validate (answered_by answer out1) s3 ≡ ok (s4, sent1))
    × (deliver recipient split (sent2 ++ sent1) opened ≡ ok m')
    × (route (str "u") (str "f") s4.table ≡ some (str "edge2"))
    × (get_reference_uri (str "1") m' ≡ ok (str "edge1"))
associate_address-overtaken_example =
    associate_address-overtaken sample-IsLawful recipient split validate answer routed.table
      (str "c1") (str "edge0") (str "edge1") (str "edge2") (str "/1") context opened
      one_context-UpToDate refl not_empty not_empty not_empty edge0_ne edge1_ne
