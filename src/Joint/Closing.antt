-- ===== src/Joint/Closing.antt =====
-- The destructor of a manager against the proxy that answers its DELETEs.
use etsimec.Prelude.{
  Bool, true, false, ◌||◌, Str, str, none, ok, List, [], ◌∷◌, ◌++◌, concat, if◌then◌else◌, ◌==◌,
  Str-eq, ◌≡◌, refl, arith, ap,
}
use etsimec.Prelude.Dict.{Dict, lookup}
use etsimec.Rest.{Rest}
use etsimec.LcmProxy.{problem, Applications, Reply, handle_context_delete}
use etsimec.StaticProxy.{Routes}
use etsimec.StaticProxy.Invariant.{IsConsistent}
use etsimec.StaticProxy.Methods.{is_present}
use etsimec.StaticProxy.Handlers.{static, handle_context_delete-static}
use etsimec.ContextManager.{Desc, Deletion, replied, Logged, deleted, refused, log_deletion, close}

-- A context is one of those that the manager has.
abbrev pub is_context : Str → Dict Str Desc → Bool
is_context c [] = false
is_context c ((id, d) ∷ cs) = d.context_id == c || is_context c cs

abbrev deletion_url : Str → Str → Str
deletion_url proxy c = concat (proxy ∷ str "/mx2/v1/app_contexts/" ∷ c ∷ [])

-- The DELETEs for the contexts of a manager and what is logged of each: one is refused if the proxy
-- does not have the context, or has it no more.
unfoldable pub farewell : Str → Dict Str Desc → (Str → Bool) → List (Str × Logged)
farewell proxy [] there = []
farewell proxy ((id, d) ∷ cs) there =
    (deletion_url proxy d.context_id, if there d.context_id then deleted id else refused id 403)
    ∷ farewell proxy cs (λ c. if d.context_id == c then false else there c)

module _ ⦃R : Rest⦄ where
  -- What the network does with the DELETEs of the manager: it hands them to the proxy, and the
  -- replies back.
  abbrev pub CarriesDeletions :
      (Str → Applications × Routes → Deletion × (Applications × Routes)) → Str → Type 0
  CarriesDeletions del proxy =
      (c : Str) (reply : Reply) (s s' : Applications × Routes)
      → handle_context_delete static (str "app_contexts/" ++ c) s ≡ ok (reply, s')
      → del (deletion_url proxy c) s ≡ (replied reply.status, s')

  log_deletion-reply :
      (id : Str) (there : Bool)
      → log_deletion id (
          replied
            (if there
              then record { status = 204; body = none }
              else problem 403 (str "Unknown UE application context")).status)
        ≡ (if there then deleted id else refused id 403)
  unfolding log_deletion
  log_deletion-reply id true = refl
  log_deletion-reply id false = refl

  module _ (del : Str → Applications × Routes → Deletion × (Applications × Routes)) (proxy : Str)
      (carries : CarriesDeletions del proxy) where
    pub close-farewell :
        (cs : Dict Str Desc) (apps : Applications) (s : Routes)
        → IsConsistent s
        → (s' : Routes) × (close del proxy cs (apps, s)
            ≡ (farewell proxy cs (λ c. is_present (lookup c s.by_context)), (apps, s')))
          × IsConsistent s'
          × ((c : Str)
              → lookup c s'.by_context ≡ (if is_context c cs then none else lookup c s.by_context))
    unfolding close log_deletion farewell
    close-farewell [] apps s v = (s, refl, v, λ c. refl)
    close-farewell ((id, d) ∷ cs) apps s v =
        let (s1, replies, v1, gone) = handle_context_delete-static d.context_id apps s v in
        let (s2, rest, v2, left) = close-farewell cs apps s1 v1 in
        let answer = carries d.context_id _ (apps, s) (apps, s1) replies in
        let after : (c : Str)
            → is_present (lookup c s1.by_context)
              ≡ (if d.context_id == c then false else is_present (lookup c s.by_context)) =
          λ c. ground (arith, gone c) in
        let later = ap (farewell proxy cs) (λ i c. after c i) in
        (
          s2,
          rw answer (rw (rest, later, log_deletion-reply id _) refl),
          v2,
          λ c. ground (arith, gone c, left c),
        )
