-- ===== src/Joint/Deliver.antt =====
-- The notifications of a proxy delivered to a manager: afterwards it is up to date again.
use etsimec.Prelude.{
  Bool, true, false, ◌||◌, Str, str, empty, Option, some, ok, List, [], ◌∷◌, ◌==◌, Str-eq, ◌≡◌, ◌≢◌,
  refl, arith, ◌⊎◌, inl, inr, Option-cases, Bool-cases, sym, ◌∙◌,
}
use etsimec.Prelude.Dict.{lookup}
use etsimec.Rest.{Rest}
use etsimec.Rest.Laws.{IsLawful}
use etsimec.StaticProxy.{Desc, Table, Contexts, Notification}
use etsimec.StaticProxy.Routing.{expected, reroute, notices}
use etsimec.Notify.{Answer, notification_event}
use etsimec.Notify.Laws.{posts}
use etsimec.ContextManager.{Manager, get_reference_uri, last, handle_notification}
use etsimec.ContextManager.Laws.{handle_notification-notification_event}
use etsimec.Joint.{answered_by, deliver}
use etsimec.Joint.Follows.{Follows, All, Without, OneEach}

known-lookup :
    (u uri : Str) (m : Manager)
    → get_reference_uri u m ≡ ok uri
    → (d : etsimec.ContextManager.Desc) × (lookup u m.contexts ≡ some d)
unfolding get_reference_uri
known-lookup u uri m e = elim (Option-cases (lookup u m.contexts)) [
  | inl absent ↦ absurd (ground arith)
  | inr found ↦ found
]

-- Another property for the contexts of other applications.
All-map :
    (P Q : Str → Desc → Type 0) (u : Str) (cs : Contexts)
    → ((id : Str) (d : Desc) → d.ue_app_id ≢ u → P id d → Q id d)
    → Without u cs
    → All P cs
    → All Q cs
All-map P Q u [] f h k = tt
All-map P Q u ((id, d) ∷ cs) f (n, h) (p, k) = (f id d n p, All-map P Q u cs f h k)

-- A router that is notified is not empty.
pub notified_ne : (r old : Str) → (r == old || empty r) ≡ false → r ≢ []
notified_ne [] old h = absurd (ground arith)
notified_ne (c ∷ r) old h = λ e. cc

module _ ⦃R : Rest⦄ (L : IsLawful R) (recipient : Str → Option Str) (split : Str → Str → List Str)
    (validate : Str → Bool) where
  -- What the manager tells of the applications other than one stays.
  pub Follows-other :
      (m m' : Manager) (id : Str) (d : Desc)
      → get_reference_uri d.ue_app_id m' ≡ get_reference_uri d.ue_app_id m
      → Follows recipient split validate m id d
      → Follows recipient split validate m' id d
  Follows-other m m' id d same (h, k, f) = (
    h,
    k,
    λ path e.
        let (valid, back, named, (uri, told, agrees)) = f path e in
        (valid, back, named, (uri, same ∙ told, agrees)),
  )

  -- A notification that is sent to a context.
  abbrev pub notice : Str → Desc → Str → Notification
  notice id d r = record { callback = d.callback; reference_uri = r; context_id = id }

  -- One notification that is delivered, with the rest of them to come.
  pub deliver_one :
      (id r : Str) (d : Desc) (m : Manager)
      → r ≢ []
      → Follows recipient split validate m id d
      → (m' : Manager) × ((a : Answer) (es : List (Notification × Answer))
          → deliver recipient split (posts validate ((notice id d r, a) ∷ es)) m
            ≡ deliver recipient split (posts validate es) m')
        × Follows recipient split validate m' id (record d { edge_router = r })
        × ((u : Str) → d.ue_app_id ≢ u → get_reference_uri u m' ≡ get_reference_uri u m)
  unfolding deliver posts notification_event
  deliver_one id r d m n (h, k, f) = elim (Option-cases (recipient d.callback)) [
    | inl other ↦ (m, λ a es. ground arith, (h, k, λ path e. absurd cc), λ u ne. refl)
    | inr (path, mine) ↦
        let (valid, back, named, (uri, told, agrees)) = f path mine in
        let (known, there) = known-lookup d.ue_app_id uri m told in
        let body = R.set R.object (str "referenceURI") (R.text r) in
        let event : notification_event r ≡ ok body = ground arith in
        let (m', handled, reads) =
          handle_notification-notification_event L split path d.ue_app_id r body known m back named
            there event in
        (
          m',
          λ a es. ground arith,
          (
            h,
            k,
            λ path' e.
                let same : path ≡ path' = cc in
                (
                  valid,
                  rw same at back,
                  named,
                  (r, rw (reads d.ue_app_id) (ground arith), inr refl),
                ),
          ),
          λ u ne. ground (arith, reads u),
        )
  ]

  -- A context that is not notified: its router stays, or it has none.
  Follows-quiet :
      (id r : Str) (d : Desc) (m : Manager)
      → (r == d.edge_router || empty r) ≡ true
      → Follows recipient split validate m id d
      → Follows recipient split validate m id (record d { edge_router = r })
  Follows-quiet id r d m q (h, k, f) = (
    h,
    k,
    λ path e.
        let (valid, back, named, (uri, told, agrees)) = f path e in
        (valid, back, named, (uri, told, quiet_agrees r d.edge_router uri q agrees)),
  )
    where
      quiet_agrees :
          (r old uri : Str)
          → (r == old || empty r) ≡ true
          → (old ≡ []) ⊎ (uri ≡ old)
          → (r ≡ []) ⊎ (uri ≡ r)
      quiet_agrees [] old uri q a = inl refl
      quiet_agrees (c ∷ r) old uri q a = ground arith

  pub deliver-nil : (m : Manager) → deliver recipient split (posts validate []) m ≡ ok m
  unfolding deliver posts
  deliver-nil m = refl

  -- All notifications of a call are accepted. Afterwards the manager is up to date with the contexts
  -- as they are then, and has told all other applications nothing.
  pub deliver-notices :
      (answer : Notification → Answer) (t : Table) (cs : Contexts) (m : Manager)
      → All (Follows recipient split validate m) cs
      → OneEach cs
      → (m' : Manager) × (deliver recipient split
            (posts validate (answered_by answer (notices t cs)))
            m
          ≡ ok m')
        × All (Follows recipient split validate m') (reroute t cs)
        × ((u : Str) → Without u cs → get_reference_uri u m' ≡ get_reference_uri u m)
  unfolding notices reroute
  deliver-notices answer t [] m h o = (m, deliver-nil m, tt, λ u w. refl)
  deliver-notices answer t ((id, d) ∷ cs) m (f, h) (w, o) =
      let r = expected d.client_address d.app_name t in
      elim (Bool-cases (r == d.edge_router || empty r)) [
        | inl quiet ↦
            let (m', delivered, follows, reads) = deliver-notices answer t cs m h o in
            (
              m',
              rw quiet delivered,
              (
                Follows-other m m' id (record d { edge_router = r }) (reads d.ue_app_id w)
                    (Follows-quiet id r d m quiet f),
                follows,
              ),
              λ u (n, ws). reads u ws,
            )
        | inr moved ↦
            let (m1, one, told, others) =
              deliver_one id r d m (notified_ne r d.edge_router moved) f in
            let h1 =
              All-map (Follows recipient split validate m) (Follows recipient split validate m1)
                d.ue_app_id cs
                (λ i e n g. Follows-other m m1 i e (others e.ue_app_id (λ q. n (sym q))) g) w h in
            let (m', delivered, follows, reads) = deliver-notices answer t cs m1 h1 o in
            (
              m',
              rw moved
                  (one (answer (notice id d r)) (answered_by answer (notices t cs)) ∙ delivered),
              (
                Follows-other m1 m' id (record d { edge_router = r }) (reads d.ue_app_id w) told,
                follows,
              ),
              λ u (n, ws). reads u ws ∙ others u n,
            )
      ]
