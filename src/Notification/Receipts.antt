-- ===== src/Notification/Receipts.antt =====
-- notification_acknowledgement_impl.go: what a recipient has acknowledged, and who has received what.
pub mod Again
pub mod Pages
use mwanachama_backend_comm.Base.{
  ℕ, zero, Bool, true, false, not, ◌&&◌, ◌||◌, Option, none, some, List, [], ◌∷◌, String, ◌==◌, ℤ,
  pos, ltb, map, take, text_before, is_blank, if◌then◌else◌,
}
use mwanachama_backend_comm.Errors.{
  Error, Result, ok, err, notification_invalid, notification_not_found, notification_cap_spent,
}
use mwanachama_backend_comm.Exec.{Exec, pure, raise, require, lift, ◌>>=◌, ◌>>◌}
use mwanachama_backend_comm.Roles.{notification_ack}
use mwanachama_backend_comm.Validate.{check, holds}
use mwanachama_backend_comm.Sql.Statements as Stmt
use mwanachama_backend_comm.Sql.Statements.{classified, list, insert}
use mwanachama_backend_comm.Chat.Threads.{attempt}
use mwanachama_backend_comm.Notification.Types.{Notification, NotificationAcknowledgement}
use mwanachama_backend_comm.Notification.Store.{
  NotificationDb, NotificationEngine, on_notifications, on_acknowledgements, or_error, written,
  acknowledgement_of,
}

abbrev pub is_own : String → String → Notification → Bool
is_own actor id n = n.id == id && n.actor_id == actor

-- The value that Go returns beside a read that found nothing.
abbrev pub zero_acknowledgement : NotificationAcknowledgement
zero_acknowledgement = record { id = ""; notification_id = ""; actor_id = ""; acknowledged_at = 0 }

abbrev pub or_zero_acknowledgement :
    Option NotificationAcknowledgement → NotificationAcknowledgement
or_zero_acknowledgement none = zero_acknowledgement
or_zero_acknowledgement (some a) = a

abbrev pub is_cap_spent : Error → Bool
is_cap_spent notification_cap_spent = true
is_cap_spent _ = false

abbrev pub receipts_default_page : ℕ
receipts_default_page = 200

abbrev pub receipts_max_page : ℕ
receipts_max_page = 1000

-- `limit`, once it is brought between the two.
unfoldable pub receipts_page : ℤ → ℕ
receipts_page (pos zero) = receipts_default_page
receipts_page (pos n) = if ltb receipts_max_page n then receipts_max_page else n
receipts_page _ = receipts_default_page

pub record NotificationReceipt : Type 0 where
  pub notification_id : String
  pub actor_id : String
  pub event : String
  pub created_at : ℕ
  pub read_at : Option ℕ
  pub acknowledged_at : Option ℕ

-- `times[id]`, of a map that each row in turn writes.
abbrev pub time_of : String → List NotificationAcknowledgement → Option ℕ
time_of id [] = none
time_of id (a ∷ rest) = elim (time_of id rest) [
  | some at ↦ some at
  | none ↦ if a.notification_id == id then some a.acknowledged_at else none
]

abbrev pub receipt_of : List NotificationAcknowledgement → Notification → NotificationReceipt
receipt_of acks n = record {
  notification_id = n.id;
  actor_id = n.actor_id;
  event = n.event;
  created_at = n.created_at;
  read_at = n.read_at;
  acknowledged_at = time_of n.id acks;
}

-- The notifications that a page of receipts is taken from.
abbrev pub is_about : String → String → String → String → Notification → Bool
is_about kind subject event after n =
    ((n.subject_kind == kind && n.subject_id == subject) && (event == "" || n.event == event))
    && (after == "" || text_before after n.id)

module _ (g : NotificationEngine) (now : ℕ) (minted : String) where
  -- What `AcknowledgeNotification` makes of its insert.
  abbrev pub after_insert :
      String
      → NotificationAcknowledgement
      → Result (Unit {0})
      → Exec NotificationDb NotificationAcknowledgement
  after_insert id ack (ok u) = pure ack
  after_insert id ack (err e) =
      if is_cap_spent e
      then (do held ← acknowledgement_of g now minted id; pure (or_zero_acknowledgement held))
      else raise e

  abbrev pub new_acknowledgement : String → String → NotificationAcknowledgement
  new_acknowledgement actor id = record {
    id = minted;
    notification_id = id;
    actor_id = actor;
    acknowledged_at = now;
  }

  abbrev pub acknowledge_unless_held :
      String
      → String
      → Option NotificationAcknowledgement
      → Exec NotificationDb NotificationAcknowledgement
  acknowledge_unless_held actor id (some held) = pure held
  acknowledge_unless_held actor id none = do
    lift (check g.spec notification_ack (g.encode_acknowledgement (new_acknowledgement actor id)))
    r ← attempt (
        written
          (on_acknowledgements (insert g.acknowledgement_table (new_acknowledgement actor id))))
    after_insert id (new_acknowledgement actor id) r

  -- The steps of `AcknowledgeNotification` after its guard.
  abbrev pub acknowledge_own : String → String → Exec NotificationDb NotificationAcknowledgement
  acknowledge_own actor id = do
    row ← classified (on_notifications (Stmt.take g.notification_table (is_own actor id)))
    or_error notification_not_found row
    held ← acknowledgement_of g now minted id
    acknowledge_unless_held actor id held

  unfoldable pub acknowledge_notification :
      String → String → Exec NotificationDb NotificationAcknowledgement
  acknowledge_notification actor id = do
    require (not (actor == "" || id == "")) notification_not_found
    acknowledge_own actor id

  abbrev pub ids_of : List Notification → List String
  ids_of [] = []
  ids_of (n ∷ rest) = n.id ∷ ids_of rest

  abbrev pub acknowledgements_of :
      List Notification → Exec NotificationDb (List NotificationAcknowledgement)
  acknowledgements_of [] = pure []
  acknowledgements_of (n ∷ rest) = classified (
      on_acknowledgements (
        list g.acknowledgement_table (λ a. holds (ids_of (n ∷ rest)) a.notification_id)
          (λ a b. false)))

  unfoldable pub notification_receipts :
      String → String → String → String → ℤ → Exec NotificationDb (List NotificationReceipt)
  notification_receipts kind subject event after limit = do
    require (not (is_blank kind || is_blank subject)) notification_invalid
    rows ← classified (
        on_notifications (
          list g.notification_table (is_about kind subject event after)
            (λ a b. text_before a.id b.id)))
    let sent : List Notification = take (receipts_page limit) rows
    acks ← acknowledgements_of sent
    pure (map (receipt_of acks) sent)
