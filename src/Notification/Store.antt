-- ===== src/Notification/Store.antt =====
-- notification_impl.go and notification_acknowledgement_impl.go: what `NotificationStore` does.
pub mod Muting
pub mod Unread
use mwanachama_backend_comm.Base.{
  ℕ, zero, Bool, true, false, not, ◌&&◌, ◌||◌, Option, none, some, List, [], ◌∷◌, String, ◌==◌, ℤ,
  pos, eqb, ltb, leb, leb_ℤ, length, is_some, take, newest_first, text_before, if◌then◌else◌,
}
use mwanachama_backend_comm.Errors.{
  Error, DriverError, driver, Result, ok, err, notification_invalid, notification_not_found,
  notification_cap_spent, notification_muted, record_not_found, pg, message, field_error,
}
use mwanachama_backend_comm.Errors.Classify.{
  classify, contains, field_text, sqlstate_unique_violation,
}
use mwanachama_backend_comm.Exec.{Exec, pure, raise, require, lift, map_err, ◌>>=◌, ◌>>◌}
use mwanachama_backend_comm.Roles
use mwanachama_backend_comm.Roles.{Role}
use mwanachama_backend_comm.Validate.{Spec, Row, check, holds}
use mwanachama_backend_comm.Sql.{Table}
use mwanachama_backend_comm.Sql.Statements as Stmt
use mwanachama_backend_comm.Sql.Statements.{classified, list, count_rows, insert, update, upsert}
use mwanachama_backend_comm.Notification.Category.{notification_event_unmutable}
use mwanachama_backend_comm.Notification.Types.{
  Notification, notification_validate, NotificationPreference, preference_validate,
  NotificationAcknowledgement,
}

pub record NotificationDb : Type 0 where
  pub notifications : List Notification
  pub preferences : List NotificationPreference
  pub acknowledgements : List NotificationAcknowledgement

-- The database, the specification with the encoding of a value as a row, and `Mutable`, the host's
-- word on an event: mutable, unmutable, or unknown to it.
pub record NotificationEngine : Type 0 where
  pub notification_table : Table Notification
  pub preference_table : Table NotificationPreference
  pub acknowledgement_table : Table NotificationAcknowledgement
  pub spec : Spec
  pub encode_notification : Notification → Row
  pub encode_preference : NotificationPreference → Row
  pub encode_acknowledgement : NotificationAcknowledgement → Row
  pub mutable : Option (String → Option Bool)

abbrev pub on_notifications : {A : Type 0} → Exec (List Notification) A → Exec NotificationDb A
on_notifications m s = let (r, rows) = m s.notifications in (r, record s { notifications = rows })

abbrev pub on_preferences :
    {A : Type 0} → Exec (List NotificationPreference) A → Exec NotificationDb A
on_preferences m s = let (r, rows) = m s.preferences in (r, record s { preferences = rows })

abbrev pub on_acknowledgements :
    {A : Type 0} → Exec (List NotificationAcknowledgement) A → Exec NotificationDb A
on_acknowledgements m s =
    let (r, rows) = m s.acknowledgements in (r, record s { acknowledgements = rows })

abbrev pub or_error : {A : Type 0} → Error → Option A → Exec NotificationDb A
or_error e none = raise e
or_error e (some a) = pure a

-- What `classifyNotificationWrite` asks of a driver's error: a `pgconn.PgError` with the code of a
-- violated unique key, or any error whose text has sqlite's phrase for one.
unfoldable pub spends_cap : DriverError → Bool
spends_cap record_not_found = false
spends_cap (pg code constraint column table msg) =
    code == sqlstate_unique_violation || contains msg "UNIQUE constraint failed"
spends_cap (message msg) = contains msg "UNIQUE constraint failed"

-- `classifyNotificationWrite`. No sentinel's own text has the phrase; an error that carries a field
-- is read by its text, which ends in the field.
unfoldable pub classify_notification_write : Error → Error
unfolding spends_cap
classify_notification_write (driver d) =
    if spends_cap d then notification_cap_spent else classify (driver d)
classify_notification_write (field_error f field) =
    if contains (field_text f field) "UNIQUE constraint failed"
    then notification_cap_spent
    else classify (field_error f field)
classify_notification_write e = classify e

abbrev pub written : {S A : Type 0} → Exec S A → Exec S A
written m s = let (r, s') = m s in (map_err classify_notification_write r, s')

abbrev pub is_unread : String → Notification → Bool
is_unread actor n = n.actor_id == actor && not (is_some n.read_at)

-- `actor_id = ? AND id IN ? AND read_at IS NULL`.
abbrev pub to_mark : String → List String → Notification → Bool
to_mark actor ids n = is_unread actor n && holds ids n.id

abbrev pub with_read_at : ℕ → Notification → Notification
with_read_at at n = record n { read_at = some at }

abbrev pub is_preference : String → String → NotificationPreference → Bool
is_preference actor category p = p.actor_id == actor && p.category == category

abbrev pub is_muting : String → String → NotificationPreference → Bool
is_muting actor category p = is_preference actor category p && p.muted

abbrev pub notification_max_mark_read : ℕ
notification_max_mark_read = 200

abbrev pub notification_default_page : ℕ
notification_default_page = 200

-- `LIMIT`, of a page that is asked for.
abbrev pub page_size : ℤ → ℕ
page_size (pos zero) = notification_default_page
page_size (pos n) = n
page_size _ = notification_default_page

-- `hostSaysUnmutable`.
abbrev pub host_says_unmutable : Option (String → Option Bool) → String → Bool
host_says_unmutable none event = false
host_says_unmutable (some m) event = elim (m event) [ none ↦ false | some b ↦ not b ]

module _ (g : NotificationEngine) (now : ℕ) (minted : String) where
  pub list_notifications : String → ℤ → Exec NotificationDb (List Notification)
  list_notifications actor limit = do
    rows ← classified (
        on_notifications (
          list g.notification_table (λ n. n.actor_id == actor)
            (λ a b. newest_first a.created_at a.id b.created_at b.id)))
    pure (take (page_size limit) rows)

  pub unread_count : String → Exec NotificationDb ℕ
  unread_count actor =
      classified (on_notifications (count_rows g.notification_table (is_unread actor)))

  unfoldable pub mark_read : String → List String → ℕ → Exec NotificationDb ℕ
  mark_read actor ids read_at =
      if ltb notification_max_mark_read (length ids)
      then raise notification_invalid
      else if eqb (length ids) 0
      then pure 0
      else classified (
          on_notifications (update g.notification_table (to_mark actor ids) (with_read_at read_at)))

  pub is_muted : String → String → Exec NotificationDb Bool
  is_muted actor category = do
    n ← classified (on_preferences (count_rows g.preference_table (is_muting actor category)))
    pure (ltb 0 n)

  unfoldable pub refuse_if_muted : Notification → Exec NotificationDb (Unit {0})
  unfolding is_muted
  refuse_if_muted n =
      if notification_event_unmutable n.event || host_says_unmutable g.mutable n.event
      then pure tt
      else (do muted ← is_muted n.actor_id n.category; require (not muted) notification_muted)

  abbrev pub stamped : Notification → Notification
  stamped n = record n {
    created_at = if eqb n.created_at 0 then now else n.created_at;
    id = if n.id == "" then minted else n.id;
  }

  -- `Raise`, but for its call of `onRaised`, which returns nothing and is the host's.
  unfoldable pub raise_notification : Notification → Exec NotificationDb Notification
  unfolding refuse_if_muted
  raise_notification n = do
    lift (check g.spec Role.notification (g.encode_notification n))
    lift (notification_validate n)
    refuse_if_muted n
    written (on_notifications (insert g.notification_table (stamped n)))
    pure (stamped n)

  pub list_preferences : String → Exec NotificationDb (List NotificationPreference)
  list_preferences actor = classified (
      on_preferences (
        list g.preference_table (λ p. p.actor_id == actor)
          (λ a b. text_before a.category b.category)))

  pub set_preference : String → String → Bool → Exec NotificationDb NotificationPreference
  set_preference actor category muted = do
    let p : NotificationPreference = record {
      id = minted;
      actor_id = actor;
      category = category;
      muted = muted;
      changed_at = now;
    }
    lift (check g.spec Role.notification_preference (g.encode_preference p))
    lift (preference_validate p)
    classified (
        on_preferences (
          upsert g.preference_table (is_preference actor category)
            (λ old. record old { muted = muted; changed_at = now }) p))
    row ← classified (on_preferences (Stmt.take g.preference_table (is_preference actor category)))
    or_error notification_invalid row

  unfoldable pub acknowledgement_of :
      String → Exec NotificationDb (Option NotificationAcknowledgement)
  acknowledgement_of id =
      classified
        (on_acknowledgements (Stmt.take g.acknowledgement_table (λ a. a.notification_id == id)))
