-- ===== src/Notification/Types.antt =====
-- models/notification.go and models/notification_acknowledgement.go: the rows of notifications.
use mwanachama_backend_comm.Base.{
  ℕ, Bool, not, ◌&&◌, Option, none, some, List, String, ◌==◌, is_blank, if◌then◌else◌, differ,
}
use mwanachama_backend_comm.Errors.{Result, ok, err, notification_invalid, category_exempt}
use mwanachama_backend_comm.Notification.Category.{notification_category_of, notification_exempt}

-- `Names` is a map from a text to a text.
pub record Notification : Type 0 where
  pub id : String
  pub actor_id : String
  pub author_actor_id : String
  pub seat_role_kind_id : String
  pub seat_structure_id : String
  pub category : String
  pub event : String
  pub subject_kind : String
  pub subject_id : String
  pub names : List (String × String)
  pub structure_id : String
  pub created_at : ℕ
  pub read_at : Option ℕ

-- `Notification.Validate`.
unfoldable pub notification_validate : Notification → Result (Unit {0})
notification_validate n = elim (notification_category_of n.event) [
  | none ↦ err notification_invalid
  | some c ↦
      if not (c == n.category)
      then err notification_invalid
      else if differ (n.seat_role_kind_id == "") (n.seat_structure_id == "")
      then err notification_invalid
      else if n.event == "survey_nudge" && is_blank n.structure_id
      then err notification_invalid
      else ok tt
]

pub record NotificationPreference : Type 0 where
  pub id : String
  pub actor_id : String
  pub category : String
  pub muted : Bool
  pub changed_at : ℕ

-- `NotificationPreference.Validate`.
pub preference_validate : NotificationPreference → Result (Unit {0})
preference_validate p = if notification_exempt p.category then err category_exempt else ok tt

pub record NotificationAcknowledgement : Type 0 where
  pub id : String
  pub notification_id : String
  pub actor_id : String
  pub acknowledged_at : ℕ
