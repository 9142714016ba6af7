-- ===== src/Joint/Session/Closes.antt =====
-- The end of a session: the manager is destroyed, and the proxy has no context of it left.
use etsimec.Prelude.{
  Bool, Str, Option, none, some, ok, List, [], ◌∷◌, true, Str-eq, ◌≡◌, refl, arith, inl, inr,
  Option-cases, Bool-cases, false,
}
use etsimec.Prelude.Dict.{Dict, lookup, insert, erase, lookup-insert}
use etsimec.Rest.{Rest}
use etsimec.Rest.Laws.{IsLawful}
use etsimec.AppContext.{context_id, callback_reference}
use etsimec.LcmProxy.{Applications}
use etsimec.StaticProxy.{AddressAppKey-eq, key, Desc, Contexts, Notification, Routes, initial}
use etsimec.StaticProxy.Invariant.{
  IsConsistent, associate_address-IsConsistent, remove_address-IsConsistent,
}
use etsimec.StaticProxy.Methods.{delete_context_lem, is_present}
use etsimec.StaticProxy.Contexts.{delete_context}
use etsimec.Notify.{Answer, Post, notify_clients}
use etsimec.ContextManager.{Manager, Deletion, Logged, manager, open_context, close, destroy}
use etsimec.Joint.{answered_by, deliver}
use etsimec.Joint.Turns.{associate_address-cases, remove_address-cases}
use etsimec.Joint.Others.{lookup-insert-cases, create_context-cases, update_context-cases}
use etsimec.Joint.Owners.{
  OwnsAll, Within, OwnsAll-Within, Within-refl, Within-trans, reroute-Within, KeepsContexts-refl,
  open_context-KeepsContexts, deliver-KeepsContexts, notify_clients-Within,
}
use etsimec.Joint.Closing.{is_context, farewell, CarriesDeletions, close-farewell}
use etsimec.Joint.Session.{Session, starts, associates, removes, opens, creates, updates, deletes}
use etsimec.Joint.Session.Kept.{opens-leaves, Session-UpToDate}

lookup-is_context :
    (u c : Str) (cs : Dict Str etsimec.ContextManager.Desc) (e : etsimec.ContextManager.Desc)
    → lookup u cs ≡ some e
    → e.context_id ≡ c
    → is_context c cs ≡ true
unfolding lookup
lookup-is_context u c [] e h same = cc
lookup-is_context u c ((j, w) ∷ cs) e h same = ground (arith, lookup-is_context u c cs e)

lookup-open_context :
    (id : Str) (d : etsimec.ContextManager.Desc) (m : Manager)
    → lookup id m.contexts ≡ none
    → lookup id (open_context id d m).contexts ≡ some d
unfolding open_context
lookup-open_context id d m new = ground (arith, lookup-insert id id d m.contexts)

-- A context more, which is another client's or the manager's own.
OwnsAll-insert :
    (recipient : Str → Option Str) (c : Str) (d : Desc) (cs : Contexts) (m : Manager)
    → ((path : Str)
        → recipient d.callback ≡ some path
        → (e : etsimec.ContextManager.Desc) × (lookup d.ue_app_id m.contexts ≡ some e)
          × (e.context_id ≡ c))
    → OwnsAll recipient cs m
    → OwnsAll recipient (insert c d cs) m
OwnsAll-insert recipient c d cs m mine o j e there path reaches =
    elim (lookup-insert-cases c j d e cs there) [
      | inl (p, q) ↦
          let (w, has, same) = mine path (ground arith) in (w, ground arith, ground arith)
      | inr before ↦ o j e before path reaches
    ]

initial-OwnsAll :
    (recipient : Str → Option Str) (m : Manager) → OwnsAll recipient initial.by_context m
unfolding lookup
initial-OwnsAll recipient m c d there path reaches = absurd cc

-- A context of another client.
foreign-OwnsAll :
    (recipient : Str → Option Str) (c : Str) (d : Desc) (cs : Contexts) (m : Manager)
    → recipient d.callback ≡ none
    → OwnsAll recipient cs m
    → OwnsAll recipient (insert c d cs) m
foreign-OwnsAll recipient c d cs m other o =
    OwnsAll-insert recipient c d cs m (λ path reaches. absurd cc) o

delete_context-Within :
    (id : Str) (done : Bool) (s s' : Routes)
    → IsConsistent s
    → delete_context id s ≡ ok (done, s')
    → Within s.by_context s'.by_context
delete_context-Within id done s s' v e c d' there =
    let (t, deleted, v', gone, same) = delete_context_lem id s v in
    let eq : s' ≡ t = ground arith in let g = gone c in (d', ground arith, refl, refl)

module _ ⦃R : Rest⦄ (L : IsLawful R) (recipient : Str → Option Str) (split : Str → Str → List Str)
    (validate : Str → Bool) (problem_string : R.Value → Str) where
  -- A change of the table that leaves the contexts as they were or reroutes them, and its
  -- notifications.
  OwnsAll-turn :
      (answer : Notification → Answer) (s s1 s2 : Routes) (m m' : Manager) (out : List Notification)
      (sent : List Post)
      → Within s.by_context s1.by_context
      → IsConsistent s1
      → notify_clients validate (answered_by answer out) s1 ≡ ok (s2, sent)
      → deliver recipient split sent m ≡ ok m'
      → OwnsAll recipient s.by_context m
      → OwnsAll recipient s2.by_context m'
  OwnsAll-turn answer s s1 s2 m m' out sent w v f g o =
      OwnsAll-Within recipient s.by_context s2.by_context m m'
        (Within-trans s.by_context s1.by_context s2.by_context w
          (notify_clients-Within validate (answered_by answer out) s1 s2 sent v f))
        (deliver-KeepsContexts recipient split sent m m' g) o

  Session-OwnsAll :
      (s : Routes) (m : Manager)
      → Session recipient split validate problem_string s m
      → OwnsAll recipient s.by_context m
  Session-OwnsAll _ _ (starts notification proxy) =
      initial-OwnsAll recipient (manager notification proxy)
  Session-OwnsAll _ _ (associates answer a n router s s1 s2 m m' out sent r e f g) =
      let v = (Session-UpToDate L recipient split validate problem_string s m r).consistent in
      let w : Within s.by_context s1.by_context =
        elim (associate_address-cases a n router s s1 out v e) [
          | inl (p, q) ↦ rw p (Within-refl s.by_context)
          | inr (p, q) ↦ rw p (reroute-Within (insert (key a n) router s.table) s.by_context)
        ] in
      OwnsAll-turn answer s s1 s2 m m' out sent w
        (associate_address-IsConsistent a n router s s1 out v e) f g (Session-OwnsAll s m r)
  Session-OwnsAll _ _ (removes answer a n s s1 s2 m m' out sent r e f g) =
      let v = (Session-UpToDate L recipient split validate problem_string s m r).consistent in
      let (p, q) = remove_address-cases a n s s1 out v e in
      OwnsAll-turn answer s s1 s2 m m' out sent
        (rw p (reroute-Within (erase (key a n) s.table) s.by_context))
        (remove_address-IsConsistent a n s s1 out v e) f g (Session-OwnsAll s m r)
  Session-OwnsAll _ _
        (opens post n p v q o id uuid client router info req reply apps apps' s s' told m m' r known
          i d offered routed fresh free new back carries asked replied opened) =
      let u = Session-UpToDate L recipient split validate problem_string s m r in
      let (p, q, u') =
        opens-leaves L recipient split validate problem_string post n p v q o id uuid client router
          info req reply apps apps' s s' told m m' u known i d offered routed fresh free new back
          carries asked replied opened in
      let desc : etsimec.ContextManager.Desc = record {
        reference_uri = router;
        context_id = uuid;
      } in
      rw (p, q)
        (OwnsAll-insert recipient uuid _ s.by_context (open_context id desc m)
          (λ path reaches. (desc, lookup-open_context id desc m new, refl))
          (OwnsAll-Within recipient s.by_context s.by_context m (open_context id desc m)
            (Within-refl s.by_context) (open_context-KeepsContexts id desc m)
            (Session-OwnsAll s m r)))
  Session-OwnsAll _ _ (creates uuid client req response apps apps' s s' m r k other e) =
      elim (create_context-cases L uuid client req response apps apps' s s' e) [
        | inl same ↦ rw same (Session-OwnsAll s m r)
        | inr (d, cb, same, named) ↦ rw same (
            foreign-OwnsAll recipient (context_id response) d s.by_context m (rw cb other)
              (Session-OwnsAll s m r))
      ]
  Session-OwnsAll _ _ (updates req done s s' m r k other e) =
      elim (update_context-cases req done s s' e) [
        | inl same ↦ rw same (Session-OwnsAll s m r)
        | inr (id, d, there, same) ↦ rw same (
            foreign-OwnsAll recipient id (record d { callback = callback_reference req })
              s.by_context m other (Session-OwnsAll s m r))
      ]
  Session-OwnsAll _ _ (deletes id done s s' m r e) =
      let v = (Session-UpToDate L recipient split validate problem_string s m r).consistent in
      OwnsAll-Within recipient s.by_context s'.by_context m m
        (delete_context-Within id done s s' v e) (KeepsContexts-refl m) (Session-OwnsAll s m r)

  -- Over a lawful REST library, in every session, where other clients create and update contexts only
  -- with a callback that is not empty and does not reach the manager, and the notifications of a call
  -- are all sent before the next, if the network hands the DELETEs of the manager to the proxy and
  -- the replies back: the destructor of the manager deletes its contexts
  -- at the proxy, each logged as deleted, or as refused if the proxy has it no more. Afterwards the
  -- proxy is consistent, none of its contexts has a callback that reaches the manager, and all
  -- contexts that were not the manager's are as they were.
  pub Session-destroy :
      (del : Str → Applications × Routes → Deletion × (Applications × Routes)) (apps : Applications)
      (s : Routes) (m : Manager)
      → Session recipient split validate problem_string s m
      → CarriesDeletions del m.proxy_uri
      → (s' : Routes) × (destroy del m (apps, s)
          ≡ (farewell m.proxy_uri m.contexts (λ c. is_present (lookup c s.by_context)), (apps, s')))
        × IsConsistent s'
        × ((c : Str) (d : Desc) → lookup c s'.by_context ≡ some d → recipient d.callback ≡ none)
        × ((c : Str)
            → is_context c m.contexts ≡ false
            → lookup c s'.by_context ≡ lookup c s.by_context)
  unfolding destroy
  Session-destroy del apps s m r carries =
      let u = Session-UpToDate L recipient split validate problem_string s m r in
      let (s', ends, v, left) =
        close-farewell del m.proxy_uri carries m.contexts apps s u.consistent in
      let own = Session-OwnsAll s m r in
      (
        s',
        ends,
        v,
        λ c d there. elim (Option-cases (recipient d.callback)) [
          | inl foreign ↦ foreign
          | inr (path, reaches) ↦ elim (Bool-cases (is_context c m.contexts)) [
            | inl mine ↦ let l = left c in absurd (ground arith)
            | inr not_mine ↦
                let l = left c in
                let before : lookup c s.by_context ≡ some d = ground arith in
                let (e, has, same) = own c d before path reaches in
                let mine = lookup-is_context d.ue_app_id c m.contexts e has same in absurd cc
          ]
        ],
        λ c not_mine. let l = left c in ground arith,
      )
