-- ===== src/Tests/Joint/Closes.antt =====
-- The manager that has opened an application is destroyed.
use etsimec.Prelude.{
  false, Str, str, none, some, Outcome, ok, throws, aborts, [], ◌∷◌, ◌++◌, ap, ◌∙◌, Str-eq,
  Str-discrete, ◌≡◌, refl,
}
use mathlib.Core.List.{append-nil}
use etsimec.Prelude.Dict.{lookup, insert}
use etsimec.Rest.Sample.{sample, sample-IsLawful}
use etsimec.LcmProxy.{Applications, Reply, handle_context_delete}
use etsimec.StaticProxy.{Desc, Routes}
use etsimec.StaticProxy.Invariant.{IsConsistent}
use etsimec.StaticProxy.Handlers.{static}
use etsimec.StaticProxy.Methods.{is_present}
use etsimec.StaticProxy.Creation.{with_context}
use etsimec.ContextManager.{Deletion, replied, threw_other, deleted, open_context, destroy}
use etsimec.Joint.Closing.{is_context, farewell, CarriesDeletions}
use etsimec.Joint.Session.Closes.{Session-destroy}
use etsimec.Tests.Joint.{
  recipient, split, validate, problem_string, apps, routed, context, opened, opened-Session,
}

abbrev s : Routes
s = with_context (str "c1") context routed

-- The relative URI, after "p/mx2/v1/".
abbrev relative : Str → Str
relative (a ∷ b ∷ c ∷ d ∷ e ∷ f ∷ g ∷ h ∷ i ∷ path) = path
relative _ = []

abbrev respond :
    Outcome (Reply × (Applications × Routes))
    → Applications × Routes
    → Deletion × (Applications × Routes)
respond (ok (reply, s')) before = (replied reply.status, s')
respond (throws why) before = (threw_other, before)
respond aborts before = (threw_other, before)

abbrev del : Str → Applications × Routes → Deletion × (Applications × Routes)
del url before = respond (handle_context_delete static (relative url) before) before

del-CarriesDeletions : CarriesDeletions del (str "p")
del-CarriesDeletions c reply before after e =
    ap (λ x. respond (handle_context_delete static (str "app_contexts/" ++ x) before) before)
      (append-nil c)
    ∙ ap (λ x. respond x before) e

Session-destroy_example :
    (s' : Routes) × (destroy del opened (apps, s)
      ≡ (farewell (str "p") opened.contexts (λ c. is_present (lookup c s.by_context)), (apps, s')))
    × IsConsistent s'
    × ((c : Str) (d : Desc) → lookup c s'.by_context ≡ some d → recipient d.callback ≡ none)
    × ((c : Str)
        → is_context c opened.contexts ≡ false
        → lookup c s'.by_context ≡ lookup c s.by_context)
unfolding open_context lookup
Session-destroy_example =
    Session-destroy sample-IsLawful recipient split validate problem_string del apps s opened
      opened-Session del-CarriesDeletions

-- The one context is deleted.
farewell-deleted :
    farewell (str "p") opened.contexts (λ c. is_present (lookup c s.by_context))
    ≡ (str "p/mx2/v1/app_contexts/c1", deleted (str "1")) ∷ []
unfolding farewell open_context lookup insert Str-discrete
farewell-deleted = refl
