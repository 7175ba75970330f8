-- ===== src/Tests/Notification.antt =====
-- One notification, and a recipient who has muted nothing.
use mwanachama_backend_comm.Base.{
  ◌+◌, ◌≡◌, ◌⊎◌, refl, [], ◌∷◌, none, some, String, ◌==◌, count, ◌&&◌, ℕ, suc, ◌≤◌, true, not, all,
  length, find_first, pos, List, if◌then◌else◌,
}
use mwanachama_backend_comm.Errors.{ok}
use mwanachama_backend_comm.Sql.Memory.{memory}
use mwanachama_backend_comm.Validate.{unheld, check, holds}
use mwanachama_backend_comm.Notification.Types.{
  Notification, notification_validate, NotificationAcknowledgement,
}
use mwanachama_backend_comm.Notification.Category.{
  notification_category_of, notification_event_unmutable,
}
use mwanachama_backend_comm.Notification.Store.{
  NotificationDb, NotificationEngine, is_unread, mark_read, is_muting, raise_notification,
  refuse_if_muted, acknowledgement_of,
}
use mwanachama_backend_comm.Notification.Store.Unread.{mark_read-unread}
use mwanachama_backend_comm.Notification.Store.Muting.{ReachesAll, raise_notification_unmuted}
use mwanachama_backend_comm.Notification.Receipts.{
  acknowledge_notification, NotificationReceipt, notification_receipts, receipts_page,
}
use mwanachama_backend_comm.Notification.Receipts.Again.{is_for, acknowledge_notification-again}
use mwanachama_backend_comm.Notification.Receipts.Pages.{is_next, notification_receipts-bounded}
use mwanachama_backend_comm.Notification.Audience.{
  Audience, AudienceRaise, raise_to_audience, audience_of, complete,
}
use mwanachama_backend_comm.Notification.Audience.Everybody.{told, raise_to_audience-once}

abbrev engine : NotificationEngine
engine = record {
  notification_table = memory (λ a b. a.id == b.id);
  preference_table = memory (λ a b. a.actor_id == b.actor_id && a.category == b.category);
  acknowledgement_table = memory (λ a b. a.notification_id == b.notification_id);
  spec = λ role. some [];
  encode_notification = λ n field. unheld;
  encode_preference = λ p field. unheld;
  encode_acknowledgement = λ a field. unheld;
  mutable = none;
}

abbrev reply : String → Notification
reply id = record {
  id = id;
  actor_id = "a";
  author_actor_id = "b";
  seat_role_kind_id = "";
  seat_structure_id = "";
  category = "chat";
  event = "thread_reply";
  subject_kind = "subject_thread";
  subject_id = "s";
  names = [];
  structure_id = "st";
  created_at = 3;
  read_at = none;
}

abbrev db : NotificationDb
db = record {
  notifications = reply "n1" ∷ (reply "n2" ∷ []);
  preferences = [];
  acknowledgements = [];
}

marked : (mark_read engine 5 "id" "a" ("n2" ∷ []) 6 db).0 ≡ ok 1
unfolding mark_read holds
marked = refl

mark_read-unread_example :
    count (is_unread "a") db.notifications
    ≡ 1 + count (is_unread "a") (mark_read engine 5 "id" "a" ("n2" ∷ []) 6 db).1.notifications
mark_read-unread_example = mark_read-unread engine 5 "id" "a" ("n2" ∷ []) 6 1 db marked

raised : (raise_notification engine 5 "id" (reply "n3") db).0 ≡ ok (reply "n3")
unfolding holds raise_notification check notification_validate notification_category_of
    refuse_if_muted notification_event_unmutable
raised = refl

raise_notification_unmuted_example :
    (notification_validate (reply "n3") ≡ ok tt)
    × (ReachesAll engine "thread_reply" ⊎ (count (is_muting "a" "chat") db.preferences ≡ 0))
raise_notification_unmuted_example =
    raise_notification_unmuted engine 5 "id" (reply "n3") (reply "n3") db raised

-- Acknowledged twice.
abbrev acknowledged : NotificationAcknowledgement
acknowledged = record { id = "k"; notification_id = "n2"; actor_id = "a"; acknowledged_at = 7 }

abbrev once : NotificationDb
once = record db { acknowledgements = acknowledged ∷ [] }

first_time : acknowledge_notification engine 7 "k" "a" "n2" db ≡ (ok acknowledged, once)
unfolding acknowledge_notification acknowledgement_of check
first_time = refl

second_time : acknowledge_notification engine 9 "k2" "a" "n2" once ≡ (ok acknowledged, once)
unfolding acknowledge_notification acknowledgement_of check
second_time = refl

acknowledge_notification-again_example :
    (find_first (is_for "n2") once.acknowledgements ≡ some acknowledged)
    × (acknowledged ≡ acknowledged)
    × (once ≡ once)
acknowledge_notification-again_example =
    acknowledge_notification-again engine 7 9 "k" "k2" "a" "n2" db once once acknowledged
      acknowledged refl first_time second_time

abbrev receipt : NotificationReceipt
receipt = record {
  notification_id = "n2";
  actor_id = "a";
  event = "thread_reply";
  created_at = 3;
  read_at = none;
  acknowledged_at = some 7;
}

paged :
    notification_receipts engine 9 "k" "subject_thread" "s" "" "n1" (pos 5) once
    ≡ (ok (receipt ∷ []), once)
unfolding notification_receipts receipts_page holds
paged = refl

notification_receipts-bounded_example :
    (length (receipt ∷ []) ≤ 1000)
    × ((n : ℕ) → pos 5 ≡ pos (suc n) → length (receipt ∷ []) ≤ suc n)
    × (all (is_next "" "n1") (receipt ∷ []) ≡ true)
notification_receipts-bounded_example =
    notification_receipts-bounded engine 9 "k" "subject_thread" "s" "" "n1" (pos 5) once once
      (receipt ∷ []) paged

-- An audience of two, of whom one is named twice.
abbrev two : Audience
two kind id = ok ("a" ∷ ("" ∷ ("b" ∷ ("a" ∷ []))))

abbrev template : Notification
template = record (reply "") { actor_id = "" }

abbrev to_one : String → Notification
to_one actor = record (reply actor) { actor_id = actor }

abbrev out : AudienceRaise
out = record { resolved = 2; raised = to_one "a" ∷ (to_one "b" ∷ []); missed = [] }

abbrev after : NotificationDb
after = record db { notifications = reply "n1" ∷ (reply "n2" ∷ (to_one "a" ∷ (to_one "b" ∷ []))) }

raised_to :
    raise_to_audience engine (some two) (λ a. 8) (λ a. a) template db ≡ (ok (out, none), after)
unfolding raise_to_audience audience_of holds raise_notification check notification_validate
    notification_category_of refuse_if_muted notification_event_unmutable
raised_to = refl

raise_to_audience-once_example :
    (named : List String) × (two "subject_thread" "s" ≡ ok named)
    × (complete out ≡ true)
    × ((a : String) → told a out ≡ (if holds named a && not ("" == a) then 1 else 0))
raise_to_audience-once_example =
    raise_to_audience-once engine two (λ a. 8) (λ a. a) template db after out raised_to
