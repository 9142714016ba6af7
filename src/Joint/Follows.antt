-- ===== src/Joint/Follows.antt =====
-- When the manager of a client is up to date with the contexts of a proxy.
use etsimec.Prelude.{
  Bool, true, false, Str, str, empty, Option, none, some, ok, List, [], ◌∷◌, Str-eq, ◌≡◌, ◌≢◌,
  arith, ◌⊎◌, inl, inr,
}
use mathlib.Core.Path.{subst}
use etsimec.Prelude.Dict.{lookup, lookup-cons-cases, Distinct}
use etsimec.StaticProxy.{Desc, Contexts, Routes}
use etsimec.StaticProxy.Invariant.{IsConsistent}
use etsimec.ContextManager.{Manager, get_reference_uri, last}

module _ (recipient : Str → Option Str) (split : Str → Str → List Str) (validate : Str → Bool)
    (m : Manager) where
  -- The application has the router of the context as its reference URI, if there is a router.
  abbrev pub IsTold : Desc → Type 0
  IsTold d =
      (uri : Str) × (get_reference_uri d.ue_app_id m ≡ ok uri)
      × ((d.edge_router ≡ []) ⊎ (uri ≡ d.edge_router))

  -- A context that can be notified. If its callback is the manager's, it is that of the context's
  -- UE application, which the manager knows and has told.
  abbrev pub Follows : Str → Desc → Type 0
  Follows id d =
      (id ≢ [])
      × (d.callback ≢ [])
      × ((path : Str)
          → recipient d.callback ≡ some path
          → (validate d.callback ≡ true)
            × (last (split path (str "/")) ≡ some d.ue_app_id)
            × (empty d.ue_app_id ≡ false)
            × IsTold d)

  -- The manager is up to date with the proxy.
  abbrev pub Tracks : Routes → Type 0
  Tracks s = (c : Str) (d : Desc) → lookup c s.by_context ≡ some d → Follows c d

-- A property of each context.
abbrev pub All : (Str → Desc → Type 0) → Contexts → Type 0
All P [] = Unit
All P ((id, d) ∷ cs) = P id d × All P cs

-- No context is one of the application.
abbrev pub Without : Str → Contexts → Type 0
Without u = All (λ id d. d.ue_app_id ≢ u)

-- No two contexts are of one application.
abbrev pub OneEach : Contexts → Type 0
OneEach [] = Unit
OneEach ((id, d) ∷ cs) = Without d.ue_app_id cs × OneEach cs

lookup-tail :
    (j c : Str) (w d : Desc) (cs : Contexts)
    → lookup j cs ≡ none
    → lookup c cs ≡ some d
    → lookup c ((j, w) ∷ cs) ≡ some d
unfolding lookup
lookup-tail j c w d cs h e = ground arith

pub lookup-head : (j : Str) (w : Desc) (cs : Contexts) → lookup j ((j, w) ∷ cs) ≡ some w
unfolding lookup
lookup-head j w cs = ground arith

pub All-lookup :
    (P : Str → Desc → Type 0) (cs : Contexts)
    → Distinct cs
    → ((c : Str) (d : Desc) → lookup c cs ≡ some d → P c d)
    → All P cs
All-lookup P [] k h = tt
All-lookup P ((j, w) ∷ cs) (fresh, k) h = (
  h j w (lookup-head j w cs),
  All-lookup P cs k (λ c d e. h c d (lookup-tail j c w d cs fresh e)),
)

lookup-nil : (c : Str) (d : Desc) → lookup c [] ≢ some d
unfolding lookup
lookup-nil c d e = cc

pub lookup-All :
    (P : Str → Desc → Type 0) (cs : Contexts)
    → All P cs
    → (c : Str) (d : Desc) → lookup c cs ≡ some d
    → P c d
lookup-All P [] h c d e = absurd (lookup-nil c d e)
lookup-All P ((j, w) ∷ cs) (p, h) c d e = elim (lookup-cons-cases j c w d cs e) [
  | inl (same, value) ↦ subst (λ (i : Str). P i d) same (subst (λ (x : Desc). P j x) value p)
  | inr later ↦ lookup-All P cs h c d later
]

OneEach-lookup :
    (cs : Contexts) (owner : Str → Option Str)
    → Distinct cs
    → ((c : Str) (d : Desc) → lookup c cs ≡ some d → owner d.ue_app_id ≡ some c)
    → OneEach cs
OneEach-lookup [] owner k h = tt
OneEach-lookup ((j, w) ∷ cs) owner (fresh, k) h =
    let others =
      λ (c : Str) (d : Desc) (e : lookup c cs ≡ some d). h c d (lookup-tail j c w d cs fresh e) in
    (
      All-lookup (λ id d. d.ue_app_id ≢ w.ue_app_id) cs k
          (λ c d e same. let a = others c d e in let b = h j w (lookup-head j w cs) in cc),
      OneEach-lookup cs owner k others,
    )

pub IsConsistent-OneEach : (s : Routes) → IsConsistent s → OneEach s.by_context
IsConsistent-OneEach s v =
    OneEach-lookup s.by_context (λ u. lookup u s.by_ue_app) v.contexts_distinct v.indexed
