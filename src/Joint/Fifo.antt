-- ===== src/Joint/Fifo.antt =====
-- Calls that come while notifications are on their way, where the notifications arrive in the order
-- in which they were made. As in a session, the callback of another client is not empty and does not
-- reach the manager.
pub mod Posts
pub mod Opens
pub mod Drains
use etsimec.Prelude.{
  ℕ, Str-eq, str, Outcome, some, true, Bool, Str, Option, none, ok, List, [], ◌∷◌, ◌++◌, ◌≡◌, ◌≢◌,
}
use etsimec.Rest.{Rest}
use etsimec.Prelude.Dict.{lookup}
use etsimec.AppInfo.{app_info_request}
use etsimec.AppContext.{callback_reference}
use etsimec.LcmProxy.{Applications, Reply, exists, handle_context_create}
use etsimec.StaticProxy.{Notification, Routes, route, associate_address, remove_address}
use etsimec.StaticProxy.Contexts.{create_context, update_context, delete_context}
use etsimec.StaticProxy.Handlers.{static}
use etsimec.Notify.{Answer, Post, notify_one}
use etsimec.ContextManager.{Manager, creation_request, context_create}
use etsimec.Joint.{deliver}
use etsimec.Joint.Opening.{Carries}
use etsimec.Joint.Session.{Session, LeadsBack}

module _ ⦃R : Rest⦄ (recipient : Str → Option Str) (split : Str → Str → List Str)
    (validate : Str → Bool) (problem_string : R.Value → Str) where
  -- A proxy, the notifications that are on their way, and a manager. They start as a session. A call
  -- that changes the table puts its notifications behind the others, and the first of them is the
  -- next that is sent.
  pub data Fifo : Routes → List Notification → Manager → Type 0 where
    begins :
        (s : Routes) (m : Manager)
        → Session recipient split validate problem_string s m
        → Fifo s [] m
    associates :
        (a n router : Str) (s s' : Routes) (q out : List Notification) (m : Manager)
        → Fifo s q m
        → associate_address a n router s ≡ ok (s', out)
        → Fifo s' (q ++ out) m
    removes :
        (a n : Str) (s s' : Routes) (q out : List Notification) (m : Manager)
        → Fifo s q m
        → remove_address a n s ≡ ok (s', out)
        → Fifo s' (q ++ out) m
    -- The round of the loop for the first notification, and its POST if there is one.
    notifies :
        (e : Notification) (answer : Answer) (s s' : Routes) (q : List Notification)
        (sent : List Post) (m m' : Manager)
        → Fifo s (e ∷ q) m
        → notify_one validate e answer s ≡ ok (s', sent)
        → deliver recipient split sent m ≡ ok m'
        → Fifo s' q m'
    -- `contextCreate` of the manager for an application that is offered, with a fresh ID.
    opens :
        (post : Str → R.Value → Outcome (ℕ × R.Value)) (n p v k o id uuid client router : Str)
        (info req : R.Value) (reply : Reply) (apps apps' : Applications) (s s' : Routes)
        (told : Str × Str) (q : List Notification) (m m' : Manager)
        → Fifo s q m
        → app_info_request n p v k o ≡ ok info
        → id ≢ []
        → uuid ≢ []
        → exists info apps ≡ ok true
        → route client n s.table ≡ some router
        → lookup uuid s.by_context ≡ none
        → lookup id s.by_ue_app ≡ none
        → lookup id m.contexts ≡ none
        → LeadsBack recipient split validate problem_string m id
        → Carries post (m.proxy_uri ++ str "/mx2/v1/app_contexts") uuid client apps s
        → creation_request id info m ≡ ok req
        → handle_context_create static uuid client req (apps, s) ≡ ok (reply, (apps', s'))
        → context_create problem_string post id info m ≡ ok (told, m')
        → Fifo s' q m'
    creates :
        (uuid client : Str) (req response : R.Value) (apps apps' : Applications) (s s' : Routes)
        (q : List Notification) (m : Manager)
        → Fifo s q m
        → callback_reference req ≢ []
        → recipient (callback_reference req) ≡ none
        → create_context uuid client req (apps, s) ≡ ok (response, (apps', s'))
        → Fifo s' q m
    updates :
        (req : R.Value) (done : Bool) (s s' : Routes) (q : List Notification) (m : Manager)
        → Fifo s q m
        → callback_reference req ≢ []
        → recipient (callback_reference req) ≡ none
        → update_context req s ≡ ok (done, s')
        → Fifo s' q m
    deletes :
        (id : Str) (done : Bool) (s s' : Routes) (q : List Notification) (m : Manager)
        → Fifo s q m
        → delete_context id s ≡ ok (done, s')
        → Fifo s' q m
