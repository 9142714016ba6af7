-- ===== src/Notify/Laws.antt =====
-- What a round of notifications does to a consistent proxy.
use etsimec.Prelude.{
  Bool, false, ◌&&◌, ◌||◌, Str, str, none, ok, List, [], ◌∷◌, if◌then◌else◌, ◌==◌, Str-eq, ◌≡◌, ◌≢◌,
  refl, arith, Bool-cases, inl, inr, ◌∙◌,
}
use etsimec.Prelude.Dict.{lookup}
use etsimec.Rest.{Rest}
use etsimec.StaticProxy.{Notification, Routes}
use etsimec.StaticProxy.Invariant.{IsConsistent}
use etsimec.StaticProxy.Methods.{delete_context_lem, purge-eq-delete_context}
use etsimec.Notify.{
  Answer, is_refusal, Post, notification_event, notify_one, notify_clients, post_event,
}

-- What the asserts of a round ask for.
abbrev pub IsComplete : Notification → Type 0
IsComplete e = (e.callback ≢ []) × (e.reference_uri ≢ []) × (e.context_id ≢ [])

abbrev pub AllComplete : List (Notification × Answer) → Type 0
AllComplete [] = Unit
AllComplete ((e, a) ∷ es) = IsComplete e × AllComplete es

module _ (validate : Str → Bool) where
  -- The client has a valid address and refuses the notification.
  abbrev pub refuses : Notification → Answer → Bool
  refuses e a = validate e.callback && is_refusal a

  -- Some notification of the context is refused.
  abbrev pub refused : Str → List (Notification × Answer) → Bool
  refused c [] = false
  refused c ((e, a) ∷ es) = (refuses e a && e.context_id == c) || refused c es

module _ ⦃R : Rest⦄ (validate : Str → Bool) where
  -- A POST for each notification whose callback is a valid URI, in their order.
  unfoldable pub posts : List (Notification × Answer) → List Post
  posts [] = []
  posts ((e, a) ∷ es) =
      let rest = posts es in
      if validate e.callback
      then record {
        to = e.callback;
        body = R.set R.object (str "referenceURI") (R.text e.reference_uri);
      }
        ∷ rest
      else rest

  pub notify_one_lem :
      (e : Notification) (a : Answer) (s : Routes)
      → IsComplete e
      → IsConsistent s
      → (s' : Routes) × (notify_one validate e a s ≡ ok (s', posts ((e, a) ∷ [])))
        × IsConsistent s'
        × ((c : Str)
            → lookup c s'.by_context
              ≡ (if refuses validate e a && e.context_id == c then none else lookup c s.by_context))
        × (s'.table ≡ s.table)
  unfolding notify_one post_event notification_event posts
  notify_one_lem e a s h v = elim (Bool-cases (refuses validate e a)) [
    | inl refused ↦
        let (s', deleted, v', gone, same) = delete_context_lem e.context_id s v in
        (
          s',
          ground (arith, purge-eq-delete_context e.context_id s v),
          v',
          λ c. rw refused (gone c),
          same,
        )
    | inr taken ↦ (s, ground arith, v, λ c. rw taken refl, refl)
  ]

  -- In a consistent proxy, notifications that name a callback, a URI and a context never abort. The
  -- POSTs go to the valid callbacks in order; afterwards exactly the contexts that refused one are
  -- gone, and the proxy is consistent.
  pub notify_clients_lem :
      (es : List (Notification × Answer)) (s : Routes)
      → AllComplete es
      → IsConsistent s
      → (s' : Routes) × (notify_clients validate es s ≡ ok (s', posts es))
        × IsConsistent s'
        × ((c : Str)
            → lookup c s'.by_context
              ≡ (if refused validate c es then none else lookup c s.by_context))
        × (s'.table ≡ s.table)
  unfolding notify_clients posts
  notify_clients_lem [] s h v = (s, refl, v, λ c. refl, refl)
  notify_clients_lem ((e, a) ∷ es) s h v =
      let (s1, one, v1, kept1, same1) = notify_one_lem e a s h.0 v in
      let (s2, more, v2, kept2, same2) = notify_clients_lem es s1 h.1 v1 in
      (s2, rw (one, more) (ground arith), v2, λ c. ground (arith, kept1 c, kept2 c), same2 ∙ same1)
