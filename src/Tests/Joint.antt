-- ===== src/Tests/Joint.antt =====
-- A manager and a proxy: the manager's server is at the URLs that begin with "n".
mod Overtaking
mod Aborts
mod Closes
mod Early
mod Fifo
mod Loaded
use etsimec.Prelude.{
  ℕ, Bool, true, false, Str, str, Option, none, some, Outcome, ok, throws, aborts, List, [], ◌∷◌,
  Str-eq, Str-discrete, ◌≡◌, refl, ◌++◌, ap, eqb, if◌then◌else◌,
}
use mathlib.Core.Path.{subst}
use etsimec.Prelude.Dict.{lookup, insert}
use etsimec.Rest.Sample.{Json, sample, sample-IsLawful, object, string, field, end, put, get}
use etsimec.AppInfo.{app_info_request, app_name, app_provider, app_soft_version}
use etsimec.LcmProxy.{Applications, Reply, exists, mangle, handle_context_create}
use etsimec.StaticProxy.{
  AddressAppKey-eq, AddressAppKey-discrete, key, Desc, Routes, Notification, initial, route,
  associate_address,
}
use etsimec.StaticProxy.Routing.{stranded}
use etsimec.StaticProxy.Handlers.{static}
use etsimec.StaticProxy.Creation.{with_context, handle_context_create-static}
use etsimec.AppContext.{context_id, callback_reference}
use etsimec.AppContext.RoundTrip.{IsContext}
use etsimec.AppInfo.Accepts.{IsResponseInfo}
use etsimec.Tests.Data.{not_empty}
use etsimec.Notify.{Answer, answered, Post, notify_clients}
use etsimec.ContextManager.{
  Manager, manager, open_context, creation_request, context_create, last, get_reference_uri,
}
use etsimec.Joint.{answered_by, deliver}
use etsimec.Joint.Turns.{UpToDate}
use etsimec.Joint.Opening.{Carries, context_create-opens}
use etsimec.Joint.Session.{Session, LeadsBack, starts, associates, opens}
use etsimec.Joint.Session.Kept.{Session-UpToDate}
use etsimec.Joint.Session.Reads.{Session-get_reference_uri, Session-associate_address}

abbrev pub recipient : Str → Option Str
recipient [] = none
recipient (c ∷ path) = if eqb c 110 then some path else none

abbrev pub split : Str → Str → List Str
split [] sep = []
split (c ∷ path) sep = path ∷ []

abbrev pub validate : Str → Bool
validate url = true

abbrev pub problem_string : Json → Str
problem_string v = []

abbrev pub info : Json
info =
    object
      (field (str "appName") (string (str "f")) (field (str "appProvider") (string (str "q")) end))

abbrev pub apps : Applications
apps = (str "f+q+", info) ∷ []

abbrev pub m : Manager
m = record { notification_uri = str "n"; proxy_uri = str "p"; contexts = [] }

abbrev pub routed : Routes
routed = record { table = (key [] (str "f"), str "edge0") ∷ []; by_context = []; by_ue_app = [] }

abbrev with_body : ℕ → Option Json → Outcome (ℕ × Json)
with_body status none = throws []
with_body status (some body) = ok (status, body)

abbrev pub response : Outcome (Reply × (Applications × Routes)) → Outcome (ℕ × Json)
response (ok (reply, s)) = with_body reply.status reply.body
response (throws e) = throws e
response aborts = aborts

-- The network: the proxy gets the request from the client "u".
abbrev pub post : Str → Json → Outcome (ℕ × Json)
post url req = response (handle_context_create static (str "c1") (str "u") req (apps, routed))

pub post-Carries : Carries post (str "p/mx2/v1/app_contexts") (str "c1") (str "u") apps routed
post-Carries req body status s' e = ap response e

pub known : app_info_request (str "f") (str "q") [] [] [] ≡ ok info
unfolding app_info_request put Str-discrete
known = refl

pub offered : exists info apps ≡ ok true
unfolding exists lookup mangle app_name app_provider app_soft_version get Str-discrete
offered = refl

pub route-default : route (str "u") (str "f") routed.table ≡ some (str "edge0")
unfolding route lookup AddressAppKey-discrete Str-discrete
route-default = refl

pub lookup-nil : {V : Type 0} (k : Str) → lookup {V = V} k [] ≡ none
unfolding lookup
lookup-nil k = refl

abbrev pub answer : Notification → Answer
answer n = answered 204

-- A default router is set.
routed-Session : Session recipient split validate problem_string routed m
unfolding manager associate_address notify_clients deliver insert lookup
routed-Session =
    associates answer [] (str "f") (str "edge0") initial routed routed (manager (str "n") (str "p"))
      m [] [] (starts (str "n") (str "p")) refl refl refl

abbrev pub context : Desc
context = record {
  ue_app_id = str "1";
  callback = str "n/1";
  client_address = str "u";
  app_name = str "f";
  edge_router = str "edge0";
}

abbrev pub opened : Manager
opened = open_context (str "1") (record { reference_uri = str "edge0"; context_id = str "c1" }) m

pub routed-UpToDate : UpToDate sample-IsLawful recipient split validate routed m
routed-UpToDate =
    Session-UpToDate sample-IsLawful recipient split validate problem_string routed m routed-Session

abbrev pub request : Json
request = object (
    field (str "associateUeAppId") (string (str "1"))
      (field (str "callbackReference") (string (str "n/1")) (field (str "appInfo") info end)))

pub request-IsContext : IsContext sample-IsLawful request [] (str "1") (str "n/1") info
unfolding context_id callback_reference get Str-discrete
request-IsContext = record {
  id_text = refl;
  id_field = refl;
  ue_text = refl;
  callback_text = refl;
  info_field = refl;
  info_value = refl;
}

handle_context_create-static_example :
    (r made : Json) × (handle_context_create static (str "c1") (str "u") request (apps, routed)
      ≡ ok (record { status = 201; body = some r }, (apps, with_context (str "c1") context routed)))
    × IsContext sample-IsLawful r (str "c1") (str "1") (str "n/1") made
    × IsResponseInfo sample-IsLawful made (str "f") (str "q") [] [] [] (str "edge0")
handle_context_create-static_example =
    handle_context_create-static sample-IsLawful (str "f") (str "q") [] [] [] (str "1") (str "n/1")
      (str "c1") (str "u") (str "edge0") info request apps routed known request-IsContext not_empty
      not_empty routed-UpToDate.consistent offered route-default (lookup-nil (str "c1"))
      (lookup-nil (str "1"))

leads_back : LeadsBack recipient split validate problem_string m (str "1")
unfolding last
leads_back path e =
    let p : str "/1" ≡ path = cc in
    (refl, subst (λ (q : Str). last (split q (str "/")) ≡ some (str "1")) p refl)

context_create-opens_example :
    (req : Json) × (r : Json) × (creation_request (str "1") info m ≡ ok req)
    × (handle_context_create static (str "c1") (str "u") req (apps, routed)
        ≡ ok (
          record { status = 201; body = some r },
          (apps, with_context (str "c1") context routed),
        ))
    × (context_create problem_string post (str "1") info m ≡ ok ((str "1", str "edge0"), opened))
    × UpToDate sample-IsLawful recipient split validate
        (with_context (str "c1") context routed)
        opened
context_create-opens_example =
    context_create-opens sample-IsLawful recipient split validate problem_string post (str "f")
      (str "q") [] [] [] (str "1") (str "c1") (str "u") (str "edge0") info apps routed m known
      not_empty not_empty offered route-default (lookup-nil (str "c1")) (lookup-nil (str "1"))
      (lookup-nil (str "1")) leads_back post-Carries routed-UpToDate

-- The manager has opened the application.
pub opened-Session :
    Session recipient split validate problem_string (with_context (str "c1") context routed) opened
opened-Session =
    let (req, r, asked, created, told, u) =
      context_create-opens sample-IsLawful recipient split validate problem_string post (str "f")
        (str "q") [] [] [] (str "1") (str "c1") (str "u") (str "edge0") info apps routed m known
        not_empty not_empty offered route-default (lookup-nil (str "c1")) (lookup-nil (str "1"))
        (lookup-nil (str "1")) leads_back post-Carries routed-UpToDate in
    opens post (str "f") (str "q") [] [] [] (str "1") (str "c1") (str "u") (str "edge0") info req
      (record { status = 201; body = some r }) apps apps routed
      (with_context (str "c1") context routed) (str "1", str "edge0") m opened routed-Session known
      not_empty not_empty offered route-default (lookup-nil (str "c1")) (lookup-nil (str "1"))
      (lookup-nil (str "1")) leads_back post-Carries asked created told

found : lookup (str "c1") (with_context (str "c1") context routed).by_context ≡ some context
unfolding lookup insert Str-discrete
found = refl

Session-get_reference_uri_example : get_reference_uri (str "1") opened ≡ ok (str "edge0")
Session-get_reference_uri_example =
    Session-get_reference_uri sample-IsLawful recipient split validate problem_string
      (with_context (str "c1") context routed) opened (str "c1") (str "edge0") (str "/1") context
      opened-Session found refl route-default

not_stranded :
    stranded
      (str "f")
      (insert (key (str "u") (str "f")) (str "edge1") routed.table)
      (with_context (str "c1") context routed).by_context
    ≡ false
unfolding stranded insert route lookup AddressAppKey-discrete Str-discrete
not_stranded = refl

Session-associate_address_example :
    (s1 : Routes) × (out : List Notification) × (s2 : Routes) × (sent : List Post) × (m' : Manager)
    × (associate_address (str "u") (str "f") (str "edge1") (with_context (str "c1") context routed)
        ≡ ok (s1, out))
    × (notify_clients validate (answered_by answer out) s1 ≡ ok (s2, sent))
    × (deliver recipient split sent opened ≡ ok m')
    × ((c path : Str) (d : Desc)
        → lookup c s2.by_context ≡ some d
        → d.client_address ≡ str "u"
        → d.app_name ≡ str "f"
        → recipient d.callback ≡ some path
        → get_reference_uri d.ue_app_id m' ≡ ok (str "edge1"))
Session-associate_address_example =
    Session-associate_address sample-IsLawful recipient split validate problem_string answer
      (str "u") (str "f") (str "edge1") (with_context (str "c1") context routed) opened
      opened-Session not_empty not_empty not_stranded
