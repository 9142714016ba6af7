-- ===== src/Tests/Joint/Aborts.antt =====
-- A creation for an application that is known, and a client without a callback.
use etsimec.Prelude.{
  false, str, some, aborts, List, [], ◌∷◌, ok, ◌≡◌, ◌≢◌, refl, arith, Str-eq, Str-discrete,
}
use etsimec.Prelude.Dict.{lookup, insert}
use etsimec.Rest.Sample.{sample, sample-IsLawful}
use etsimec.LcmProxy.{handle_context_create}
use etsimec.StaticProxy.{
  AddressAppKey-eq, AddressAppKey-discrete, key, Desc, Routes, Notification, route,
  associate_address,
}
use etsimec.StaticProxy.Routing.{stranded}
use etsimec.StaticProxy.Index.{add-IsConsistent}
use etsimec.StaticProxy.Invariant.{IsConsistent}
use etsimec.StaticProxy.Handlers.{static}
use etsimec.StaticProxy.Creation.{with_context}
use etsimec.StaticProxy.Duplicate.{handle_context_create-duplicate}
use etsimec.Notify.{notify_clients}
use etsimec.Notify.Aborts.{associate_address-silent}
use etsimec.Joint.{answered_by}
use etsimec.Joint.Session.Kept.{Session-UpToDate}
use etsimec.Tests.Data.{not_empty, empty_proxy, empty_proxy-IsConsistent}
use etsimec.Tests.Joint.{
  recipient, split, validate, problem_string, info, apps, routed, known, offered, route-default,
  answer, context, request, request-IsContext, opened, opened-Session,
}

abbrev s : Routes
s = with_context (str "c1") context routed

s-IsConsistent : IsConsistent s
s-IsConsistent =
    (Session-UpToDate sample-IsLawful recipient split validate problem_string s opened
      opened-Session).consistent

taken : lookup (str "1") s.by_ue_app ≡ some (str "c1")
unfolding lookup insert Str-discrete
taken = refl

-- The same request again.
handle_context_create-duplicate_example :
    handle_context_create static (str "c2") (str "u") request (apps, s) ≡ aborts
handle_context_create-duplicate_example =
    handle_context_create-duplicate sample-IsLawful (str "f") (str "q") [] [] [] (str "1")
      (str "n/1") (str "c2") (str "u") (str "edge0") (str "c1") info request apps s known
      request-IsContext not_empty not_empty s-IsConsistent offered route-default taken

abbrev quiet : Desc
quiet = record {
  ue_app_id = str "1";
  callback = [];
  client_address = str "u";
  app_name = str "f";
  edge_router = str "edge1";
}

abbrev q : Routes
q = record empty_proxy {
  by_context = (str "id1", quiet) ∷ [];
  by_ue_app = (str "1", str "id1") ∷ [];
}

q-IsConsistent : IsConsistent q
unfolding lookup insert AddressAppKey-discrete route Str-discrete
q-IsConsistent =
    add-IsConsistent (str "id1") quiet empty_proxy refl refl refl empty_proxy-IsConsistent

changed : str "edge1" ≢ str "edge2"
changed e = ground arith

not_stranded :
    stranded (str "f") (insert (key (str "u") (str "f")) (str "edge2") q.table) q.by_context ≡ false
unfolding stranded insert route lookup AddressAppKey-discrete Str-discrete
not_stranded = refl

found : lookup (str "id1") q.by_context ≡ some quiet
unfolding lookup Str-discrete
found = refl

associate_address-silent_example :
    (s' : Routes) × (out : List Notification) × (associate_address
        (str "u")
        (str "f")
        (str "edge2")
        q
      ≡ ok (s', out))
    × (notify_clients validate (answered_by answer out) s' ≡ aborts)
associate_address-silent_example =
    associate_address-silent validate answer (str "id1") (str "edge2") quiet q q-IsConsistent found
      refl not_empty not_empty changed not_stranded
