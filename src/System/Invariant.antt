-- ===== src/System/Invariant.antt =====
-- Every interleaving keeps the tables of the proxy consistent.
use etsimec.Prelude.{Bool, Str, ok, List, ◌≡◌, arith, returned}
use etsimec.Rest.{Rest}
use etsimec.AppContext.{associate_ue_app_id}
use etsimec.StaticProxy.{Notification, Routes}
use etsimec.StaticProxy.Contexts.{update_context, delete_context}
use etsimec.StaticProxy.Invariant.{
  IsConsistent, initial-IsConsistent, associate_address-IsConsistent, remove_address-IsConsistent,
}
use etsimec.StaticProxy.Methods.{
  delete_context_lem, purge-eq-delete_context, update_context_lem, create_context-IsConsistent,
}
use etsimec.Notify.{Answer, Post, notify_one, post_event}
use etsimec.System.{
  System, start, Step, associates, removes, creates, updates, deletes, adds, dels, notifies, Reach,
  here, next,
}

delete_context-IsConsistent :
    (id : Str) (s s' : Routes) (done : Bool)
    → IsConsistent s
    → delete_context id s ≡ ok (done, s')
    → IsConsistent s'
delete_context-IsConsistent id s s' done v e =
    let (t, deleted, v', gone, same) = delete_context_lem id s v in ground arith

module _ ⦃R : Rest⦄ where
  open R use {Value}

  pub update_context-IsConsistent :
      (req : Value) (s s' : Routes) (done : Bool)
      → IsConsistent s
      → update_context req s ≡ ok (done, s')
      → IsConsistent s'
  unfolding update_context
  update_context-IsConsistent req s s' done v e =
      let (u, named, rest) = returned _ (associate_ue_app_id req) e in
      let (t, updated, v', changed, same) = update_context_lem req s u v named in ground arith

  pub notify_one-IsConsistent :
      (validate : Str → Bool) (n : Notification) (a : Answer) (s s' : Routes) (sent : List Post)
      → IsConsistent s
      → notify_one validate n a s ≡ ok (s', sent)
      → IsConsistent s'
  unfolding notify_one post_event
  notify_one-IsConsistent validate n a s s' sent v e =
      let (t, deleted, v', gone, same) = delete_context_lem n.context_id s v in
      ground (arith, purge-eq-delete_context n.context_id s v)

  module _ (validate : Str → Bool) where
    Step-IsConsistent :
        {x y : System} → Step validate x y → IsConsistent x.routes → IsConsistent y.routes
    Step-IsConsistent {x} (associates a n router s out e) v =
        associate_address-IsConsistent a n router x.routes s out v e
    Step-IsConsistent {x} (removes a n s out e) v =
        remove_address-IsConsistent a n x.routes s out v e
    Step-IsConsistent {x} (creates uuid client req response apps s e) v =
        (create_context-IsConsistent uuid client req response x.apps apps x.routes s v e).0
    Step-IsConsistent {x} (updates req done s e) v =
        update_context-IsConsistent req x.routes s done v e
    Step-IsConsistent {x} (deletes id done s e) v =
        delete_context-IsConsistent id x.routes s done v e
    Step-IsConsistent (adds info added apps e) v = v
    Step-IsConsistent (dels info removed apps e) v = v
    Step-IsConsistent {x} (notifies before after n rest answer s sent p e) v =
        notify_one-IsConsistent validate n answer x.routes s sent v e

    Reach-keep-IsConsistent :
        {x y : System} → Reach validate x y → IsConsistent x.routes → IsConsistent y.routes
    Reach-keep-IsConsistent here v = v
    Reach-keep-IsConsistent (next r st) v = Step-IsConsistent st (Reach-keep-IsConsistent r v)

    -- Whatever calls were made since the start, in whatever order, and however their notifications
    -- interleave: every context has the router of the table, and the index and the contexts mirror
    -- one another.
    pub Reach-IsConsistent : (y : System) → Reach validate start y → IsConsistent y.routes
    Reach-IsConsistent y r = Reach-keep-IsConsistent r initial-IsConsistent
