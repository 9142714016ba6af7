-- ===== src/Joint/Fifo/Drains.antt =====
-- Once the notifications have arrived, the manager tells its applications the routers of the table.
use etsimec.Prelude.{
  Bool, Str, Option, some, ok, List, [], ◌∷◌, ◌++◌, Str-eq, ◌≡◌, refl, sym, ap, ◌∙◌, arith, inl,
  inr,
}
use etsimec.Prelude.Dict.{lookup}
use etsimec.Rest.{Rest}
use etsimec.Rest.Laws.{IsLawful}
use etsimec.StaticProxy.{Desc, Notification, Routes, route}
use etsimec.Notify.{Answer, Post, notify_one, notify_clients}
use etsimec.Notify.Laws.{posts, notify_clients_lem}
use etsimec.ContextManager.{Manager, get_reference_uri}
use etsimec.Joint.{answered_by, deliver}
use etsimec.Joint.Turns.{UpToDate, Settles, associate_address-UpToDate, remove_address-UpToDate}
use etsimec.Joint.Others.{create_context-UpToDate, update_context-UpToDate, delete_context-UpToDate}
use etsimec.Joint.Fifo.{
  Fifo, begins, associates, removes, notifies, opens, creates, updates, deletes,
}
use etsimec.Joint.Session.Kept.{Session-UpToDate}
use etsimec.Joint.Session.Reads.{UpToDate-get_reference_uri}
use etsimec.Joint.Fifo.Opens.{opens-deliver}
use etsimec.Joint.Fifo.Posts.{
  accept, AreComplete, append-AreComplete, AreComplete-AllComplete, all_posts, posts-answered_by,
  all_posts-append, notify_one-ok, notify_clients-accept, deliver-append,
}

module _ ⦃R : Rest⦄ (L : IsLawful R) (recipient : Str → Option Str) (split : Str → Str → List Str)
    (validate : Str → Bool) (problem_string : R.Value → Str) where
  -- The manager is up to date once it has got the notifications that are on their way.
  record WillFollow (s : Routes) (q : List Notification) (m : Manager) : Type 0 where
    complete : AreComplete q
    last : Manager
    delivered : deliver recipient split (all_posts validate q) m ≡ ok last
    up_to_date : UpToDate L recipient split validate s last

  turn-WillFollow :
      (s s' : Routes) (q out : List Notification) (m : Manager) (w : WillFollow s q m)
      → Settles L recipient split validate accept s' out w.last
      → WillFollow s' (q ++ out) m
  turn-WillFollow s s' q out m w (sent, s2, m2, sends, arrived, u, same) =
      let (complete, kept, posted) = notify_clients-accept validate out s' s2 sent sends in
      record {
        complete = append-AreComplete q out w.complete complete;
        last = m2;
        delivered =
            ap (λ x. deliver recipient split x m) (all_posts-append validate q out)
            ∙ deliver-append recipient split (all_posts validate q) (all_posts validate out) m
                w.last w.delivered
            ∙ ap (λ x. deliver recipient split x w.last) (sym posted)
            ∙ arrived;
        up_to_date = rw (sym kept) u;
      }

  -- A call that makes no notifications.
  quiet-WillFollow :
      (s s' : Routes) (q : List Notification) (m : Manager) (w : WillFollow s q m)
      → UpToDate L recipient split validate s' w.last
      → WillFollow s' q m
  quiet-WillFollow s s' q m w u = record {
    complete = w.complete;
    last = w.last;
    delivered = w.delivered;
    up_to_date = u;
  }

  notify_one-WillFollow :
      (e : Notification) (answer : Answer) (s s' : Routes) (q : List Notification)
      (sent : List Post) (m m' : Manager)
      → WillFollow s (e ∷ q) m
      → notify_one validate e answer s ≡ ok (s', sent)
      → deliver recipient split sent m ≡ ok m'
      → WillFollow s' q m'
  notify_one-WillFollow e answer s s' q sent m m' w sends arrived =
      let (complete, posted, left) =
        notify_one-ok validate e answer s s' sent w.up_to_date.consistent sends in
      let u = w.up_to_date in
      let first = posted ∙ posts-answered_by validate (λ x. answer) (e ∷ []) in
      let one =
        deliver-append recipient split (all_posts validate (e ∷ [])) (all_posts validate q) m m'
          (ap (λ x. deliver recipient split x m) (sym first) ∙ arrived) in
      record {
        complete = w.complete.1;
        last = w.last;
        delivered =
            sym one
            ∙ ap (λ x. deliver recipient split x m) (sym (all_posts-append validate (e ∷ []) q))
            ∙ w.delivered;
        up_to_date = elim left [
          | inl kept ↦ rw kept u
          | inr (done, gone) ↦
              delete_context-UpToDate L recipient split validate w.last e.context_id done s s' gone
                u
        ];
      }

  Fifo-WillFollow :
      (s : Routes) (q : List Notification) (m : Manager)
      → Fifo recipient split validate problem_string s q m
      → WillFollow s q m
  unfolding posts deliver
  Fifo-WillFollow _ _ _ (begins s m r) = record {
    complete = tt;
    last = m;
    delivered = refl;
    up_to_date = Session-UpToDate L recipient split validate problem_string s m r;
  }
  Fifo-WillFollow _ _ _ (associates a n router s s' q out m f e) =
      let w = Fifo-WillFollow s q m f in
      turn-WillFollow s s' q out m w (
        associate_address-UpToDate L recipient split validate accept a n router s s' w.last out
          w.up_to_date e)
  Fifo-WillFollow _ _ _ (removes a n s s' q out m f e) =
      let w = Fifo-WillFollow s q m f in
      turn-WillFollow s s' q out m w (
        remove_address-UpToDate L recipient split validate accept a n s s' w.last out w.up_to_date
          e)
  Fifo-WillFollow _ _ _ (notifies e answer s s' q sent m m' f sends arrived) =
      notify_one-WillFollow e answer s s' q sent m m' (Fifo-WillFollow s (e ∷ q) m f) sends arrived
  Fifo-WillFollow _ _ _
        (opens post n p v k o id uuid client router info req reply apps apps' s s' told q m m' f
          known i d offered routed fresh free new back carries asked replied opened) =
      let w = Fifo-WillFollow s q m f in
      let (last, arrives, u) =
        opens-deliver L recipient split validate problem_string post n p v k o id uuid client router
          info req reply apps apps' s s' told (all_posts validate q) m m' w.last w.delivered
          w.up_to_date known i d offered routed fresh free new back carries asked replied opened in
      record { complete = w.complete; last = last; delivered = arrives; up_to_date = u }
  Fifo-WillFollow _ _ _ (creates uuid client req response apps apps' s s' q m f k other e) =
      let w = Fifo-WillFollow s q m f in
      quiet-WillFollow s s' q m w (
        create_context-UpToDate L recipient split validate w.last uuid client req response apps
          apps' s s' k other e w.up_to_date)
  Fifo-WillFollow _ _ _ (updates req done s s' q m f k other e) =
      let w = Fifo-WillFollow s q m f in
      quiet-WillFollow s s' q m w (
        update_context-UpToDate L recipient split validate w.last req done s s' k other e
          w.up_to_date)
  Fifo-WillFollow _ _ _ (deletes id done s s' q m f e) =
      let w = Fifo-WillFollow s q m f in
      quiet-WillFollow s s' q m w
        (delete_context-UpToDate L recipient split validate w.last id done s s' e w.up_to_date)

  -- Over a lawful REST library, from a session of a proxy and a manager on: the table changes, the
  -- manager opens applications, and other clients delete contexts, and create and update them with a
  -- callback that is not empty and does not reach the manager, while notifications are on their way,
  -- and these are sent in the order in which they were made. At any time the notifications that are
  -- on their way can be sent, whatever is answered to them, and the manager accepts those that reach
  -- it; the table stays. Afterwards it tells the router of the table for each context whose callback
  -- reaches it, if there is one.
  pub Fifo-notify_clients :
      (answer : Notification → Answer) (s : Routes) (q : List Notification) (m : Manager)
      → Fifo recipient split validate problem_string s q m
      → (s' : Routes) × (sent : List Post) × (m' : Manager) × (notify_clients validate
            (answered_by answer q)
            s
          ≡ ok (s', sent))
        × (deliver recipient split sent m ≡ ok m')
        × (s'.table ≡ s.table)
        × ((c router path : Str) (d : Desc)
            → lookup c s'.by_context ≡ some d
            → recipient d.callback ≡ some path
            → route d.client_address d.app_name s'.table ≡ some router
            → get_reference_uri d.ue_app_id m' ≡ ok router)
  Fifo-notify_clients answer s q m f =
      let w = Fifo-WillFollow s q m f in
      let es = answered_by answer q in
      let (s', sends, v, kept, same) =
        notify_clients_lem validate es s (AreComplete-AllComplete answer q w.complete)
          w.up_to_date.consistent in
      let u : UpToDate L recipient split validate s' w.last = record {
        consistent = v;
        tracks = λ c d found. w.up_to_date.tracks c d (ground (arith, kept c));
      } in
      (
        s',
        posts validate es,
        w.last,
        sends,
        ap (λ x. deliver recipient split x m) (posts-answered_by validate answer q) ∙ w.delivered,
        same,
        λ c router path d found mine routed.
            UpToDate-get_reference_uri L recipient split validate problem_string s' w.last c router
              path d u found mine routed,
      )
