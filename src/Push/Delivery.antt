-- ===== src/Push/Delivery.antt =====
-- push_delivery.go: the delivery of one notification. The goroutine that runs it, its slots and its
-- deadline are left out: `deliver` is what it runs.
pub mod Recorded
use mwanachama_backend_comm.Base.{
  ℕ, Bool, true, false, Option, none, some, List, [], ◌∷◌, ◌++◌, String, if◌then◌else◌,
}
use mwanachama_backend_comm.Errors.{Error, Result, ok, err, push_subscription_gone, callback}
use mwanachama_backend_comm.Exec.{Exec, pure, ◌>>=◌}
use mwanachama_backend_comm.Chat.Threads.{attempt}
use mwanachama_backend_comm.Notification.Types.{Notification}
use mwanachama_backend_comm.Push.Types.{
  PushSubscription, PushDelivery, PushDeliveryState, sent, failed, gone,
}
use mwanachama_backend_comm.Push.Store.{
  PushDb, PushEngine, list_push_subscriptions, drop_push_subscription, record_push_delivery,
}

abbrev pub is_gone : Error → Bool
is_gone push_subscription_gone = true
is_gone _ = false

-- The error that `failed` is called with, if it is called.
abbrev pub failure_of : {A : Type 0} → Result A → List Error
failure_of (ok a) = []
failure_of (err e) = e ∷ []

-- The state that is recorded of a sending.
abbrev pub state_of : Result (Unit {0}) → PushDeliveryState
state_of (ok u) = sent
state_of (err e) = if is_gone e then gone else failed

abbrev pub new_delivery : Notification → PushSubscription → PushDeliveryState → PushDelivery
new_delivery n sub state = record {
  id = "";
  notification_id = n.id;
  actor_id = n.actor_id;
  subscription_id = sub.id;
  state = state;
  at = 0;
}

-- The sender and the encoding of a notification are the host's and the library's. The clock and the
-- minted id of a record are given by its subscription.
module _ {Payload : Type 0} (g : PushEngine) (payload_of : Notification → Result Payload)
    (send : PushSubscription → Payload → Result (Unit {0})) (now : ℕ) (minted : String)
    (clock : PushSubscription → ℕ) (minted_for : PushSubscription → String) where
  abbrev pub record_state :
      Notification → PushSubscription → PushDeliveryState → Exec PushDb (List Error)
  record_state n sub state = do
    r ← attempt (record_push_delivery g (clock sub) (minted_for sub) (new_delivery n sub state))
    pure (failure_of r)

  -- What follows a sending: the errors that it calls `failed` with.
  abbrev pub after_send : PushSubscription → Result (Unit {0}) → Exec PushDb (List Error)
  after_send sub (ok u) = pure []
  after_send sub (err e) =
      if is_gone e
      then (do r ← attempt (drop_push_subscription g now minted sub.id); pure (failure_of r))
      else pure (e ∷ [])

  abbrev pub deliver_each :
      Notification → Payload → List PushSubscription → Exec PushDb (List Error)
  deliver_each n payload [] = pure []
  deliver_each n payload (sub ∷ subs) = do
    dropping ← after_send sub (send sub payload)
    recording ← record_state n sub (state_of (send sub payload))
    rest ← deliver_each n payload subs
    pure (dropping ++ (recording ++ rest))

  abbrev pub deliver_payload :
      Notification → List PushSubscription → Result Payload → Exec PushDb (List Error)
  deliver_payload n subs (err e) = pure (e ∷ [])
  deliver_payload n subs (ok payload) = deliver_each n payload subs

  abbrev pub deliver_to : Notification → Result (List PushSubscription) → Exec PushDb (List Error)
  deliver_to n (err e) = pure (e ∷ [])
  deliver_to n (ok []) = pure []
  deliver_to n (ok (sub ∷ subs)) = deliver_payload n (sub ∷ subs) (payload_of n)

  -- `deliver`, with the errors that it calls `failed` with.
  unfoldable pub deliver : Notification → Exec PushDb (List Error)
  deliver n = do
    found ← attempt (list_push_subscriptions g now minted n.actor_id)
    deliver_to n found
