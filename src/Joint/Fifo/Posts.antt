-- ===== src/Joint/Fifo/Posts.antt =====
-- The notifications that are on their way, as the POSTs that they become.
use etsimec.Prelude.{
  Bool, Str, Option, ok, List, [], ◌∷◌, ◌++◌, Str-eq, ◌≡◌, refl, sym, ap, ◌∙◌, arith, inl, inr, ◌⊎◌,
  Option-cases, Bool-cases, returned,
}
use etsimec.Prelude.Dict.{lookup}
use etsimec.Rest.{Rest}
use etsimec.StaticProxy.{Notification, Routes}
use etsimec.StaticProxy.Contexts.{delete_context}
use etsimec.StaticProxy.Methods.{is_present, delete_context_lem, purge-eq-delete_context}
use etsimec.StaticProxy.Invariant.{IsConsistent}
use etsimec.Notify.{
  Answer, answered, Post, notify_one, notify_clients, post_event, notification_event,
}
use etsimec.Notify.Laws.{IsComplete, AllComplete, posts}
use etsimec.ContextManager.{Manager, handle_notification}
use etsimec.Joint.{answered_by, deliver}

abbrev pub accept : Notification → Answer
accept e = answered 204

abbrev pub AreComplete : List Notification → Type 0
AreComplete q = AllComplete (answered_by accept q)

pub append-AreComplete :
    (q out : List Notification) → AreComplete q → AreComplete out → AreComplete (q ++ out)
append-AreComplete [] out h k = k
append-AreComplete (e ∷ q) out (h, hs) k = (h, append-AreComplete q out hs k)

pub AreComplete-AllComplete :
    (answer : Notification → Answer) (q : List Notification)
    → AreComplete q
    → AllComplete (answered_by answer q)
AreComplete-AllComplete answer [] h = tt
AreComplete-AllComplete answer (e ∷ q) (h, hs) = (h, AreComplete-AllComplete answer q hs)

module _ ⦃R : Rest⦄ (validate : Str → Bool) where
  -- The POSTs of the notifications, whatever is answered.
  abbrev pub all_posts : List Notification → List Post
  all_posts q = posts validate (answered_by accept q)

  pub posts-answered_by :
      (answer : Notification → Answer) (q : List Notification)
      → posts validate (answered_by answer q) ≡ all_posts q
  unfolding posts
  posts-answered_by answer [] = refl
  posts-answered_by answer (e ∷ q) = rw (posts-answered_by answer q) refl

  pub all_posts-append :
      (q out : List Notification) → all_posts (q ++ out) ≡ all_posts q ++ all_posts out
  unfolding posts
  all_posts-append [] out = refl
  all_posts-append (e ∷ q) out =
      rw (all_posts-append q out)
        (elim (Bool-cases (validate e.callback)) [ inl v ↦ rw v refl | inr n ↦ rw n refl ])

  -- A round that returns.
  pub notify_one-ok :
      (e : Notification) (a : Answer) (s s' : Routes) (sent : List Post)
      → IsConsistent s
      → notify_one validate e a s ≡ ok (s', sent)
      → IsComplete e
        × (sent ≡ posts validate ((e, a) ∷ []))
        × ((s' ≡ s) ⊎ ((done : Bool) × (delete_context e.context_id s ≡ ok (done, s'))))
  unfolding notify_one post_event notification_event posts
  notify_one-ok e a s s' sent v h =
      let (t, deleted, v', gone, same) = delete_context_lem e.context_id s v in
      let purged = purge-eq-delete_context e.context_id s v in
      let left : (s' ≡ s) ⊎ (s' ≡ t) = ground arith in
      (
        ground arith,
        ground arith,
        elim left [
          | inl kept ↦ inl kept
          | inr dropped ↦ inr (
            is_present (lookup e.context_id s.by_context),
            deleted ∙ ap (λ x. ok (is_present (lookup e.context_id s.by_context), x)) (sym dropped),
          )
        ],
      )

  -- Clients that accept their notifications stay.
  notify_one-accept :
      (e : Notification) (s s' : Routes) (sent : List Post)
      → notify_one validate e (answered 204) s ≡ ok (s', sent)
      → IsComplete e × (s' ≡ s) × (sent ≡ all_posts (e ∷ []))
  unfolding notify_one post_event notification_event posts
  notify_one-accept e s s' sent h = ground arith

  pub notify_clients-accept :
      (q : List Notification) (s s' : Routes) (sent : List Post)
      → notify_clients validate (answered_by accept q) s ≡ ok (s', sent)
      → AreComplete q × (s' ≡ s) × (sent ≡ all_posts q)
  unfolding notify_clients posts
  notify_clients-accept [] s s' sent h = (tt, ground arith, ground arith)
  notify_clients-accept (e ∷ q) s s' sent h =
      let ((s1, one), e1, f1) = returned _ (notify_one validate e (answered 204) s) h in
      let ((s2, more), e2, f2) =
        returned _ (notify_clients validate (answered_by accept q) s1) f1 in
      let (k1, same1, sent1) = notify_one-accept e s s1 one e1 in
      let (k2, same2, sent2) = notify_clients-accept q s1 s2 more e2 in
      (
        (k1, k2),
        ground arith,
        (let both : sent ≡ one ++ more = ground arith in
            both
            ∙ ap (λ x. x ++ more) sent1
            ∙ ap (λ x. all_posts (e ∷ []) ++ x) sent2
            ∙ sym (all_posts-append (e ∷ []) q)),
      )

module _ ⦃R : Rest⦄ (recipient : Str → Option Str) (split : Str → Str → List Str) where
  pub deliver-append :
      (ps qs : List Post) (m m1 : Manager)
      → deliver recipient split ps m ≡ ok m1
      → deliver recipient split (ps ++ qs) m ≡ deliver recipient split qs m1
  unfolding deliver
  deliver-append [] qs m m1 h =
      let same : m ≡ m1 = ground arith in ap (deliver recipient split qs) same
  deliver-append (p ∷ ps) qs m m1 h = elim (Option-cases (recipient p.to)) [
    | inl elsewhere ↦ rw elsewhere (deliver-append ps qs m m1 (rw (elsewhere, deliver) at h))
    | inr (path, mine) ↦
        let ((status, m2), e1, f1) =
          returned _ (handle_notification split path p.body m) (rw (mine, deliver) at h) in
        rw mine (rw e1 (deliver-append ps qs m2 m1 f1))
  ]
