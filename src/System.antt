-- ===== src/System.antt =====
-- The proxy as its threads see it: calls of EtsiMec/staticueapplcmproxy.cpp and
-- EtsiMec/ueapplcmproxy.cpp in any order, each one step under its mutex, with the notifications of
-- earlier calls still on their way. `notifyClients` holds no mutex, so its rounds interleave with
-- everything else. A call that throws changes nothing and is no step; one that aborts ends the
-- program.
pub mod Invariant
use etsimec.Prelude.{Bool, Str, ok, List, [], ◌∷◌, ◌++◌, ◌≡◌}
use etsimec.Rest.{Rest}
use etsimec.LcmProxy.{Applications, add_app, del_app}
use etsimec.StaticProxy.{Notification, Routes, initial, associate_address, remove_address}
use etsimec.StaticProxy.Contexts.{create_context, update_context, delete_context}
use etsimec.Notify.{Answer, Post, notify_one}

module _ ⦃R : Rest⦄ where
  open R use {Value}

  pub record System : Type 0 where
    pub apps : Applications
    pub routes : Routes
    -- What is left of each list of notifications that some thread works through.
    pub pending : List (List Notification)

  abbrev pub start : System
  start = record { apps = []; routes = initial; pending = [] }

  module _ (validate : Str → Bool) where
    pub data Step (x : System) : System → Type 0 where
      associates :
          (a n router : Str) (s : Routes) (out : List Notification)
          → associate_address a n router x.routes ≡ ok (s, out)
          → Step x (record x { routes = s; pending = out ∷ x.pending })
      removes :
          (a n : Str) (s : Routes) (out : List Notification)
          → remove_address a n x.routes ≡ ok (s, out)
          → Step x (record x { routes = s; pending = out ∷ x.pending })
      creates :
          (uuid client : Str) (req response : Value) (apps : Applications) (s : Routes)
          → create_context uuid client req (x.apps, x.routes) ≡ ok (response, (apps, s))
          → Step x (record x { apps = apps; routes = s })
      updates :
          (req : Value) (done : Bool) (s : Routes)
          → update_context req x.routes ≡ ok (done, s)
          → Step x (record x { routes = s })
      deletes :
          (id : Str) (done : Bool) (s : Routes)
          → delete_context id x.routes ≡ ok (done, s)
          → Step x (record x { routes = s })
      adds :
          (info : Value) (added : Bool) (apps : Applications)
          → add_app info x.apps ≡ ok (added, apps)
          → Step x (record x { apps = apps })
      dels :
          (info : Value) (removed : Bool) (apps : Applications)
          → del_app info x.apps ≡ ok (removed, apps)
          → Step x (record x { apps = apps })
      notifies :
          (before after : List (List Notification)) (e : Notification) (rest : List Notification)
          (answer : Answer) (s : Routes) (sent : List Post)
          → x.pending ≡ before ++ ((e ∷ rest) ∷ after)
          → notify_one validate e answer x.routes ≡ ok (s, sent)
          → Step x (record x { routes = s; pending = before ++ (rest ∷ after) })

    pub data Reach (x : System) : System → Type 0 where
      here : Reach x x
      next : {y z : System} → Reach x y → Step y z → Reach x z
