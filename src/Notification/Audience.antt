-- ===== src/Notification/Audience.antt =====
-- manager_audience.go and manager_recipients.go: whom a notification is raised to.
pub mod Everybody
use mwanachama_backend_comm.Base.{
  ℕ, ◌+◌, Bool, true, false, not, ◌&&◌, ◌||◌, Option, none, some, List, [], ◌∷◌, String, ◌==◌, eqb,
  length, if◌then◌else◌,
}
use mwanachama_backend_comm.Errors.{
  Error, Result, ok, err, notification_invalid, notification_muted, notification_cap_spent,
  no_audience,
}
use mwanachama_backend_comm.Exec.{Exec, pure, raise, require, lift, ◌>>=◌, ◌>>◌}
use mwanachama_backend_comm.Roles
use mwanachama_backend_comm.Roles.{Role}
use mwanachama_backend_comm.Validate.{check, holds}
use mwanachama_backend_comm.Chat.Threads.{attempt}
use mwanachama_backend_comm.Notification.Types.{Notification, notification_validate}
use mwanachama_backend_comm.Notification.Store.{
  NotificationDb, NotificationEngine, raise_notification,
}

-- `RaiseRoom`.
pub record RaiseRoom : Type 0 where
  pub structure_id : String
  pub thread_id : String
  pub subject_kind : String
  pub subject_id : String

-- The host's callbacks, once they are set.
abbrev pub Recipients : Type 0
Recipients = String → RaiseRoom → List String → Result (List String)

abbrev pub Audience : Type 0
Audience = String → String → Result (List String)

-- The loop over the named actors, of those that `seen` does not hold.
abbrev pub unseen : List String → List String → List String
unseen seen [] = []
unseen seen (a ∷ named) = if holds seen a then unseen seen named else a ∷ unseen (a ∷ seen) named

unfoldable pub recipients_for :
    Option Recipients → String → RaiseRoom → List String → Result (List String)
recipients_for none event room defaults = ok defaults
recipients_for (some recipients) event room defaults = elim (recipients event room defaults) [
  | err e ↦ err e
  | ok named ↦ ok (unseen ("" ∷ []) named)
]

abbrev pub or_nobody : List String → Result (List String)
or_nobody [] = err no_audience
or_nobody (a ∷ named) = ok (a ∷ named)

unfoldable pub audience_of : Option Audience → String → String → Result (List String)
audience_of none kind id = err no_audience
audience_of (some audience) kind id = elim (audience kind id) [
  | err e ↦ err e
  | ok named ↦ or_nobody (unseen ("" ∷ []) named)
]

pub record AudienceRaise : Type 0 where
  pub resolved : ℕ
  pub raised : List Notification
  pub missed : List (String × Error)

-- `Complete`.
abbrev pub complete : AudienceRaise → Bool
complete r = eqb (length r.raised + length r.missed) r.resolved

abbrev pub to_actor : Notification → String → Notification
to_actor template actor = record template { actor_id = actor }

abbrev pub is_miss : Error → Bool
is_miss notification_muted = true
is_miss notification_cap_spent = true
is_miss _ = false

-- The first of the recipients, whose notification is tried before any is raised.
abbrev pub probe_of : Notification → List String → Notification
probe_of template [] = template
probe_of template (a ∷ named) = to_actor template a

-- The clock and the minted id of a turn are given by the recipient.
module _ (g : NotificationEngine) (audience : Option Audience) (clock : String → ℕ)
    (minted : String → String) where
  abbrev pub nothing_yet : ℕ → AudienceRaise
  nothing_yet resolved = record { resolved = resolved; raised = []; missed = [] }

  abbrev pub with_raised :
      Notification → AudienceRaise × Option Error → AudienceRaise × Option Error
  with_raised n (out, stop) = (record out { raised = n ∷ out.raised }, stop)

  abbrev pub with_missed :
      String → Error → AudienceRaise × Option Error → AudienceRaise × Option Error
  with_missed actor e (out, stop) = (record out { missed = (actor, e) ∷ out.missed }, stop)

  -- What one turn makes of its result: it goes on with the rest, or stops with the error.
  abbrev pub turn :
      ℕ
      → String
      → Result Notification
      → Exec NotificationDb (AudienceRaise × Option Error)
      → Exec NotificationDb (AudienceRaise × Option Error)
  turn resolved actor (ok n) rest = do out ← rest; pure (with_raised n out)
  turn resolved actor (err e) rest =
      if is_miss e
      then (do out ← rest; pure (with_missed actor e out))
      else pure (nothing_yet resolved, some e)

  -- The loop of `RaiseToAudience`: what was raised and missed, and the error that ended it, which
  -- the code returns beside them.
  abbrev pub raise_each :
      Notification → ℕ → List String → Exec NotificationDb (AudienceRaise × Option Error)
  raise_each template resolved [] = pure (nothing_yet resolved, none)
  raise_each template resolved (actor ∷ named) = do
    r ← attempt (raise_notification g (clock actor) (minted actor) (to_actor template actor))
    turn resolved actor r (raise_each template resolved named)

  -- The last steps of `RaiseToAudience`, for the recipients that it found.
  abbrev pub raise_probed :
      Notification → List String → Exec NotificationDb (AudienceRaise × Option Error)
  raise_probed template recipients = do
    lift (check g.spec Role.notification (g.encode_notification (probe_of template recipients)))
    lift (notification_validate (probe_of template recipients))
    raise_each template (length recipients) recipients

  unfoldable pub raise_to_audience :
      Notification → Exec NotificationDb (AudienceRaise × Option Error)
  unfolding audience_of
  raise_to_audience template = do
    require (template.actor_id == "") notification_invalid
    require (not (template.subject_kind == "" || template.subject_id == "")) notification_invalid
    recipients ← lift (audience_of audience template.subject_kind template.subject_id)
    raise_probed template recipients
