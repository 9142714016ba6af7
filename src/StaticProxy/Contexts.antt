-- ===== src/StaticProxy/Contexts.antt =====
-- EtsiMec/staticueapplcmproxy.cpp: the creation, update and deletion of contexts.
use etsimec.Prelude.{
  Bool, true, false, not, Str, length, eqb, none, some, Outcome, ok, aborts, assert, ◌>>=◌, ◌>>◌,
  if◌then◌else◌, Str-eq,
}
use etsimec.Prelude.Dict.{lookup, insert, erase}
use etsimec.Rest.{Rest}
use etsimec.AppInfo.{app_name}
use etsimec.AppContext.{
  context_id, associate_ue_app_id, callback_reference, app_info, make_response,
}
use etsimec.LcmProxy.{Applications, exists}
use etsimec.StaticProxy.{Desc, Routes, find}

-- Both emplacements of `createContext`, with the asserts that their keys are new.
unfoldable pub register : Str → Desc → Routes → Outcome Routes
register id d s = elim (lookup id s.by_context) [
  | some old ↦ aborts
  | none ↦ elim (lookup d.ue_app_id s.by_ue_app) [
    | some other ↦ aborts
    | none ↦ ok (record s {
      by_context = insert id d s.by_context;
      by_ue_app = insert d.ue_app_id id s.by_ue_app;
    })
  ]
]

unfoldable pub delete_context : Str → Routes → Outcome (Bool × Routes)
delete_context id s = elim (lookup id s.by_context) [
  | none ↦ ok (false, s)
  | some d ↦ elim (lookup d.ue_app_id s.by_ue_app) [
    | none ↦ aborts
    | some it ↦ ok (
      true,
      record s { by_context = erase id s.by_context; by_ue_app = erase d.ue_app_id s.by_ue_app },
    )
  ]
]

unfoldable pub purge : Str → Routes → Outcome (Bool × Routes)
purge id s = elim (lookup id s.by_context) [
  | none ↦ ok (false, s)
  | some d ↦ elim (lookup d.ue_app_id s.by_ue_app) [
    | none ↦ aborts
    | some it ↦
        let by_context = erase id s.by_context in
        let by_ue_app = erase d.ue_app_id s.by_ue_app in
        do
          assert (eqb (length by_context) (length by_ue_app))
          ok (true, record s { by_context = by_context; by_ue_app = by_ue_app })
  ]
]

module _ ⦃R : Rest⦄ where
  open R use {Value}

  -- `createContext`, from the router that was found.
  unfoldable pub create_routed : Str → Str → Value → Str → Str → Routes → Outcome (Value × Routes)
  create_routed uuid client req n router s = do
    response ← make_response req uuid router
    ue_app_id ← associate_ue_app_id req
    s' ←
        register (context_id response)
          (record {
            ue_app_id = ue_app_id;
            callback = callback_reference req;
            client_address = client;
            app_name = n;
            edge_router = router;
          })
          s
    ok (response, s')

  -- A request that is refused is returned as it came.
  unfoldable pub create_context :
      Str → Str → Value → Applications × Routes → Outcome (Value × (Applications × Routes))
  create_context uuid client req (apps, s) = do
    info ← app_info req
    known ← exists info apps
    if not known then ok (req, (apps, s)) else (do
      n ← app_name info
      found ← find client n s.table
      elim found [
        | none ↦ ok (req, (apps, s))
        | some router ↦ do
          (response, s') ← create_routed uuid client req n router s
          ok (response, (apps, s'))
      ])

  -- The new callback goes to the descriptor that the iterator denotes.
  unfoldable pub update_context : Value → Routes → Outcome (Bool × Routes)
  update_context req s = do
    ue_app_id ← associate_ue_app_id req
    elim (lookup ue_app_id s.by_ue_app) [
      | none ↦ ok (false, s)
      | some id ↦ elim (lookup id s.by_context) [
        | none ↦ aborts
        | some d ↦ ok (
          true,
          record s {
            by_context = insert id (record d { callback = callback_reference req }) s.by_context;
          },
        )
      ]
    ]
