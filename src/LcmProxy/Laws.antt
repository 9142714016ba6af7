-- ===== src/LcmProxy/Laws.antt =====
-- EtsiMec/ueapplcmproxy.cpp: the applications that are offered.
use etsimec.Prelude.{
  Bool, true, false, not, Str, Option, none, some, ok, if◌then◌else◌, ◌==◌, Str-eq, ◌≡◌, arith,
}
use etsimec.Prelude.Dict.{lookup, erase, Distinct, lookup-erase}
use etsimec.Prelude.OrderedDict.{insert_ordered, lookup-insert_ordered}
use etsimec.Rest.{Rest}
use etsimec.LcmProxy.{Applications, mangle, add_app, del_app, exists}

module _ ⦃R : Rest⦄ where
  open R use {Value}

  abbrev pub is_some : Option Value → Bool
  is_some none = false
  is_some (some v) = true

  pub exists-mangled :
      (info : Value) (key : Str) (apps : Applications)
      → mangle info ≡ ok key
      → exists info apps ≡ ok (is_some (lookup key apps))
  unfolding exists mangle
  exists-mangled info key apps e = grind arith

  pub add_app-mangled :
      (info : Value) (key : Str) (apps : Applications)
      → mangle info ≡ ok key
      → add_app info apps ≡ ok (not (is_some (lookup key apps)), insert_ordered key info apps)
  unfolding add_app mangle
  add_app-mangled info key apps e = grind arith

  pub del_app-mangled :
      (info : Value) (key : Str) (apps : Applications)
      → mangle info ≡ ok key
      → del_app info apps
        ≡ ok (is_some (lookup key apps), if is_some (lookup key apps) then erase key apps else apps)
  unfolding del_app mangle
  del_app-mangled info key apps e = grind arith

  -- An application that was added is offered from then on; what is offered under other texts of
  -- `mangle` stays. The call tells whether the application was not offered before.
  pub exists-add_app :
      (info other : Value) (apps apps' : Applications) (added : Bool) (key name : Str)
      → mangle info ≡ ok key
      → mangle other ≡ ok name
      → add_app info apps ≡ ok (added, apps')
      → (exists info apps ≡ ok (not added))
        × (exists other apps' ≡ (if key == name then ok true else exists other apps))
  exists-add_app info other apps apps' added key name e f h =
      let set = lookup-insert_ordered key name info apps in
      let now = add_app-mangled info key apps e in
      let before = exists-mangled info key apps e in
      let others = exists-mangled other name apps f in
      let after = exists-mangled other name apps' f in ground arith

  -- An application that was removed is no longer offered; what is offered under other texts of
  -- `mangle` stays. The call tells whether the application was offered.
  pub exists-del_app :
      (info other : Value) (apps apps' : Applications) (removed : Bool) (key name : Str)
      → Distinct apps
      → mangle info ≡ ok key
      → mangle other ≡ ok name
      → del_app info apps ≡ ok (removed, apps')
      → (exists info apps ≡ ok removed)
        × (exists other apps' ≡ (if key == name then ok false else exists other apps))
  exists-del_app info other apps apps' removed key name u e f h =
      let set = lookup-erase key name apps u in
      let now = del_app-mangled info key apps e in
      let before = exists-mangled info key apps e in
      let others = exists-mangled other name apps f in
      let after = exists-mangled other name apps' f in ground arith
