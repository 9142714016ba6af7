-- ===== src/LcmProxy/Ambiguity.antt =====
-- `mangle` of EtsiMec/ueapplcmproxy.cpp: applications that differ may have one key, so the proxy takes
-- one for the other.
use etsimec.Prelude.{Bool, true, not, some, Str, ok, ◌∷◌, ◌++◌, Str-eq, ◌≡◌, refl, arith}
use mathlib.Core.List.{append_assoc, append-nil}
use etsimec.Prelude.Dict.{lookup, erase}
use etsimec.Prelude.OrderedDict.{insert_ordered, lookup-insert_ordered}
use etsimec.Rest.{Rest}
use etsimec.Rest.Laws.{IsLawful}
use etsimec.AppInfo.{app_info_request}
use etsimec.AppInfo.Accepts.{app_info_request-IsRequestInfo}
use etsimec.LcmProxy.{Applications, mangle, add_app, del_app, exists}
use etsimec.LcmProxy.Laws.{is_some, add_app-mangled, del_app-mangled, exists-mangled}

-- Two texts with a plus sign between them.
abbrev pub plus : Str → Str → Str
plus s t = s ++ (43 ∷ t)

-- The key of an application.
abbrev pub key_of : Str → Str → Str → Str
key_of n p v = plus n (plus p v)

-- A plus sign that ends the name may begin the provider.
key_of-plus : (a b p v : Str) → key_of (plus a b) p v ≡ key_of a (plus b p) v
key_of-plus a b p v =
    let e = append_assoc a (43 ∷ b) (43 ∷ plus p v) in
    let f = append_assoc b (43 ∷ p) (43 ∷ v) in grind arith

module _ ⦃R : Rest⦄ (L : IsLawful R) where
  open R use {Value}

  mangle-app_info_request :
      (n p v d s : Str) (o : Value)
      → app_info_request n p v d s ≡ ok o
      → mangle o ≡ ok (key_of n p v)
  unfolding mangle
  mangle-app_info_request n p v d s o e =
      let i = app_info_request-IsRequestInfo L n p v d s o e in
      rw (i.name, i.provider, i.version, append-nil v) refl

  -- Over a lawful REST library: an application whose name has a plus sign can be added, and then the
  -- proxy offers another one, whose provider begins with what stands after that sign, and delApp of
  -- that one finds it.
  pub exists-plus :
      (a b p v d s d' s' : Str) (info other : Value) (apps : Applications)
      → app_info_request (plus a b) p v d s ≡ ok info
      → app_info_request a (plus b p) v d' s' ≡ ok other
      → (added : Bool) × (apps' : Applications) × (add_app info apps ≡ ok (added, apps'))
        × (exists other apps' ≡ ok true)
        × ((apps'' : Applications) × (del_app other apps' ≡ ok (true, apps'')))
  exists-plus a b p v d s d' s' info other apps e f =
      let m = mangle-app_info_request (plus a b) p v d s info e in
      let k = mangle-app_info_request a (plus b p) v d' s' other f in
      let same = key_of-plus a b p v in
      let key = key_of (plus a b) p v in
      let key' = key_of a (plus b p) v in
      let apps' = insert_ordered key info apps in
      let set = lookup-insert_ordered key key' info apps in
      let found : lookup key' apps' ≡ some info = ground arith in
      let offered = exists-mangled other key' apps' k in
      let removed = del_app-mangled other key' apps' k in
      (
        not (is_some (lookup key apps)),
        apps',
        add_app-mangled info key apps m,
        ground (arith, offered),
        (erase key' apps', ground (arith, removed)),
      )
