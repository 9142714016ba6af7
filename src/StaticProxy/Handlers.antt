-- ===== src/StaticProxy/Handlers.antt =====
-- EtsiMec/ueapplcmproxy.cpp over EtsiMec/staticueapplcmproxy.cpp: the HTTP handlers of the proxy with
-- a table.
use etsimec.Prelude.{
  Bool, Str, str, none, some, Outcome, ok, ◌>>=◌, ◌++◌, if◌then◌else◌, ◌==◌, Str-eq, ◌≡◌, arith,
}
use etsimec.Prelude.Dict.{lookup}
use etsimec.Rest.{Rest}
use etsimec.AppContext.{app_context_of_json, associate_ue_app_id, callback_reference}
use etsimec.LcmProxy.{Applications, Backend, problem, handle_context_delete, handle_context_update}
use etsimec.StaticProxy.{Desc, Routes}
use etsimec.StaticProxy.Contexts.{create_context, update_context, delete_context}
use etsimec.StaticProxy.Invariant.{IsConsistent}
use etsimec.StaticProxy.Methods.{delete_context_lem, update_context_lem, is_present}

module _ ⦃R : Rest⦄ where
  open R use {Value}

  unfoldable pub update_in :
      Value → Applications × Routes → Outcome (Bool × (Applications × Routes))
  update_in req (apps, s) = do (done, s') ← update_context req s; ok (done, (apps, s'))

  unfoldable pub delete_in : Str → Applications × Routes → Outcome (Bool × (Applications × Routes))
  delete_in id (apps, s) = do (done, s') ← delete_context id s; ok (done, (apps, s'))

  -- `StaticUeAppLcmProxy` as a class derived from `UeAppLcmProxy`.
  abbrev pub static : Backend
  static = record {
    State = Applications × Routes;
    create = create_context;
    update = update_in;
    delete = delete_in;
  }

  -- A DELETE of a context in a consistent proxy is answered 204 if the context is there and 403 if
  -- not. Afterwards it is gone, every other context is as it was, and the proxy is consistent.
  pub handle_context_delete-static :
      (id : Str) (apps : Applications) (s : Routes)
      → IsConsistent s
      → (s' : Routes) × (handle_context_delete static (str "app_contexts/" ++ id) (apps, s)
          ≡ ok (
            (if is_present (lookup id s.by_context)
                then record { status = 204; body = none }
                else problem 403 (str "Unknown UE application context")),
            (apps, s'),
          ))
        × IsConsistent s'
        × ((c : Str) → lookup c s'.by_context ≡ (if id == c then none else lookup c s.by_context))
  unfolding handle_context_delete delete_in
  handle_context_delete-static id apps s v =
      let (s', deleted, v', gone, same) = delete_context_lem id s v in (s', ground arith, v', gone)

  -- A PUT of a request that parses, of a UE application in a consistent proxy, is answered 204 if
  -- the application has a context and 403 if not. Afterwards its contexts have the callback of the
  -- request, every other context is as it was, and the proxy is consistent.
  pub handle_context_update-static :
      (json req : Value) (u : Str) (apps : Applications) (s : Routes)
      → IsConsistent s
      → app_context_of_json json ≡ ok req
      → associate_ue_app_id req ≡ ok u
      → (s' : Routes) × (handle_context_update static json (apps, s)
          ≡ ok (
            (if is_present (lookup u s.by_ue_app)
                then record { status = 204; body = none }
                else problem 403 (str "Unknown or invalid UE application context")),
            (apps, s'),
          ))
        × IsConsistent s'
        × ((c : Str) (d : Desc)
            → lookup c s.by_context ≡ some d
            → lookup c s'.by_context
              ≡ some
                  (if d.ue_app_id == u then record d { callback = callback_reference req } else d))
  unfolding handle_context_update update_in
  handle_context_update-static json req u apps s v e h =
      let (s', updated, v', changed, same) = update_context_lem req s u v h in
      (s', ground arith, v', changed)
