-- ===== src/Notify.antt =====
-- `notifyClients` of EtsiMec/staticueapplcmproxy.cpp, with EtsiMec/notificationevent.cpp: the POSTs
-- to the clients whose edge router changed. `web::uri::validate` is a parameter, and so is what
-- each client answers.
pub mod Laws
pub mod Aborts
use etsimec.Prelude.{
  ℕ, Bool, true, false, not, Str, str, empty, eqb, Outcome, ok, throws, aborts, throw_if, assert,
  ◌>>=◌, ◌>>◌, List, [], ◌∷◌, ◌++◌, if◌then◌else◌,
}
use etsimec.Rest.{Rest}
use etsimec.StaticProxy.{Notification, Routes}
use etsimec.StaticProxy.Contexts.{purge}

-- What comes of a POST: the status of the response, or an exception.
pub data Answer : Type 0 where
  answered : ℕ → Answer
  failed : Answer

-- Any status but `NoContent`.
abbrev pub is_refusal : Answer → Bool
is_refusal (answered status) = not (eqb status 204)
is_refusal failed = false

module _ ⦃R : Rest⦄ where
  open R use {Value, object, set, text}

  -- The constructor of `NotificationEvent`
  unfoldable pub notification_event : Str → Outcome Value
  notification_event uri = do
    throw_if (empty uri) (str "Invalid NotificationEvent: empty referenceURI")
    ok (set object (str "referenceURI") (text uri))

  -- A POST that was sent: where, and its body.
  pub record Post : Type 0 where
    pub to : Str
    pub body : Value

  module _ (validate : Str → Bool) where
    -- The body of the `try`: the POST, and the purge of a client that refuses it.
    unfoldable pub post_event : Notification → Answer → Routes → Outcome (Routes × List Post)
    post_event e answer s = elim (notification_event e.reference_uri) [
      | throws m ↦ ok (s, [])
      | aborts ↦ aborts
      | ok body ↦
          let sent : List Post = record { to = e.callback; body = body } ∷ [] in
          if is_refusal answer
          then (do (purged, s') ← purge e.context_id s; ok (s', sent))
          else ok (s, sent)
    ]

    -- One round of the loop.
    unfoldable pub notify_one : Notification → Answer → Routes → Outcome (Routes × List Post)
    notify_one e answer s = do
      assert (not (empty e.callback))
      assert (not (empty e.reference_uri))
      assert (not (empty e.context_id))
      if not (validate e.callback) then ok (s, []) else post_event e answer s

    -- The loop, where no other call comes between its rounds.
    unfoldable pub notify_clients :
        List (Notification × Answer) → Routes → Outcome (Routes × List Post)
    notify_clients [] s = ok (s, [])
    notify_clients ((e, answer) ∷ es) s = do
      (s', sent) ← notify_one e answer s
      (s'', rest) ← notify_clients es s'
      ok (s'', sent ++ rest)
