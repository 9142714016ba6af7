-- ===== src/Joint/Session.antt =====
-- A manager and a proxy from their start on: the manager opens contexts, other clients create, update
-- and delete contexts, and the table changes. The notifications of a change are all sent before the
-- next call. The callback of another client is not empty, since `notifyClients` aborts on one that
-- is, and it does not reach the manager.
pub mod Reads
pub mod Kept
pub mod Closes
pub mod Loaded
use etsimec.Prelude.{
  Bool, true, Str-eq, Str, str, Option, none, some, ok, List, [], ◌++◌, ◌≡◌, ◌≢◌, ℕ, Outcome,
}
use etsimec.Prelude.Dict.{lookup}
use etsimec.Rest.{Rest}
use etsimec.AppInfo.{app_info_request}
use etsimec.AppContext.{callback_reference}
use etsimec.LcmProxy.{Applications, Reply, exists, handle_context_create}
use etsimec.StaticProxy.{Notification, Routes, initial, route, associate_address, remove_address}
use etsimec.StaticProxy.Contexts.{create_context, update_context, delete_context}
use etsimec.StaticProxy.Handlers.{static}
use etsimec.Notify.{Answer, Post, notify_clients}
use etsimec.ContextManager.{Manager, manager, last, creation_request, context_create}
use etsimec.Joint.{callback_of, answered_by, deliver}
use etsimec.Joint.Opening.{Carries}

module _ ⦃R : Rest⦄ where
  open R use {Value}

  module _ (recipient : Str → Option Str) (split : Str → Str → List Str) (validate : Str → Bool)
      (problem_string : Value → Str) where
    -- The URL that the manager gives for an application leads to its handler, if it leads to it at
    -- all.
    abbrev pub LeadsBack : Manager → Str → Type 0
    LeadsBack m id =
        (path : Str)
        → recipient (callback_of m id) ≡ some path
        → (validate (callback_of m id) ≡ true) × (last (split path (str "/")) ≡ some id)

    pub data Session : Routes → Manager → Type 0 where
      starts : (notification proxy : Str) → Session initial (manager notification proxy)
      associates :
          (answer : Notification → Answer) (a n router : Str) (s s1 s2 : Routes) (m m' : Manager)
          (out : List Notification) (sent : List Post)
          → Session s m
          → associate_address a n router s ≡ ok (s1, out)
          → notify_clients validate (answered_by answer out) s1 ≡ ok (s2, sent)
          → deliver recipient split sent m ≡ ok m'
          → Session s2 m'
      removes :
          (answer : Notification → Answer) (a n : Str) (s s1 s2 : Routes) (m m' : Manager)
          (out : List Notification) (sent : List Post)
          → Session s m
          → remove_address a n s ≡ ok (s1, out)
          → notify_clients validate (answered_by answer out) s1 ≡ ok (s2, sent)
          → deliver recipient split sent m ≡ ok m'
          → Session s2 m'
      -- `contextCreate` of the manager for an application that is offered, with a fresh ID.
      opens :
          (post : Str → Value → Outcome (ℕ × Value)) (n p v q o id uuid client router : Str)
          (info req : Value) (reply : Reply) (apps apps' : Applications) (s s' : Routes)
          (told : Str × Str) (m m' : Manager)
          → Session s m
          → app_info_request n p v q o ≡ ok info
          → id ≢ []
          → uuid ≢ []
          → exists info apps ≡ ok true
          → route client n s.table ≡ some router
          → lookup uuid s.by_context ≡ none
          → lookup id s.by_ue_app ≡ none
          → lookup id m.contexts ≡ none
          → LeadsBack m id
          → Carries post (m.proxy_uri ++ str "/mx2/v1/app_contexts") uuid client apps s
          → creation_request id info m ≡ ok req
          → handle_context_create static uuid client req (apps, s) ≡ ok (reply, (apps', s'))
          → context_create problem_string post id info m ≡ ok (told, m')
          → Session s' m'
      -- Another client opens a context with a callback of its own.
      creates :
          (uuid client : Str) (req response : Value) (apps apps' : Applications) (s s' : Routes)
          (m : Manager)
          → Session s m
          → callback_reference req ≢ []
          → recipient (callback_reference req) ≡ none
          → create_context uuid client req (apps, s) ≡ ok (response, (apps', s'))
          → Session s' m
      -- Another client sets a callback of its own.
      updates :
          (req : Value) (done : Bool) (s s' : Routes) (m : Manager)
          → Session s m
          → callback_reference req ≢ []
          → recipient (callback_reference req) ≡ none
          → update_context req s ≡ ok (done, s')
          → Session s' m
      deletes :
          (id : Str) (done : Bool) (s s' : Routes) (m : Manager)
          → Session s m
          → delete_context id s ≡ ok (done, s')
          → Session s' m
