-- ===== src/Subject/Posting.antt =====
-- manager_subject.go: posting to a thread about a record; and manager_record.go.
use mwanachama_backend_comm.Base.{
  ℕ, Bool, true, false, not, ◌&&◌, ◌||◌, none, List, [], ◌∷◌, String, ◌==◌, is_blank, if◌then◌else◌,
}
use mwanachama_backend_comm.Errors.{Error, Result, ok, err, subject_invalid, notification_muted}
use mwanachama_backend_comm.Exec.{Exec, Transaction, pure, raise, require, lift, ◌>>=◌, ◌>>◌}
use mwanachama_backend_comm.Chat.Threads.{attempt}
use mwanachama_backend_comm.Notification.Types.{Notification}
use mwanachama_backend_comm.Notification.Store.{
  NotificationDb, NotificationEngine, raise_notification,
}
use mwanachama_backend_comm.Notification.Audience.{RaiseRoom, recipients_for}
use mwanachama_backend_comm.Subject.Types.{
  SubjectThread, SubjectThreadMessage, SubjectStanding, is_private, is_answerer, shown_to,
}
use mwanachama_backend_comm.Subject.Store.{SubjectDb, SubjectEngine, post}
use mwanachama_backend_comm.Subject.Manager.{
  SubjectHost, readable_thread, answerers_to_tell, reply_recipients,
}

-- The tables of subject threads and of notifications, which the same database holds.
pub record SubjectRoom : Type 0 where
  pub subjects : SubjectDb
  pub notices : NotificationDb

abbrev pub on_subjects : {A : Type 0} → Exec SubjectDb A → Exec SubjectRoom A
on_subjects m s = let (r, db) = m s.subjects in (r, record s { subjects = db })

abbrev pub on_notices : {A : Type 0} → Exec NotificationDb A → Exec SubjectRoom A
on_notices m s = let (r, db) = m s.notices in (r, record s { notices = db })

abbrev pub Posting : Type 0
Posting = SubjectThreadMessage × List Notification

abbrev pub is_notification_muted : Error → Bool
is_notification_muted notification_muted = true
is_notification_muted _ = false

abbrev pub reply_event : SubjectThread → String
reply_event t =
    if t.subject_kind == "record" && is_private t.audience then "record_message" else "thread_reply"

abbrev pub reply_notification : SubjectThread → String → Notification
reply_notification t actor = record {
  id = "";
  actor_id = actor;
  author_actor_id = "";
  seat_role_kind_id = "";
  seat_structure_id = "";
  category = "chat";
  event = reply_event t;
  subject_kind = "subject_thread";
  subject_id = t.id;
  names = [];
  structure_id = "";
  created_at = 0;
  read_at = none;
}

abbrev pub reply_room : SubjectThread → RaiseRoom
reply_room t = record {
  structure_id = "";
  thread_id = t.id;
  subject_kind = t.subject_kind;
  subject_id = t.subject_id;
}

-- The clock and the minted id of each notification are given by its recipient.
module _ (h : SubjectHost) (g : SubjectEngine) (n : NotificationEngine)
    (tx : Transaction SubjectRoom Posting) (now : ℕ) (minted : String) (clock : String → ℕ)
    (minted_for : String → String) where
  abbrev pub one_reply :
      Result Notification
      → Exec NotificationDb (List Notification)
      → Exec NotificationDb (List Notification)
  one_reply (ok raised) rest = do others ← rest; pure (raised ∷ others)
  one_reply (err e) rest = if is_notification_muted e then rest else raise e

  abbrev pub raise_replies : SubjectThread → List String → Exec NotificationDb (List Notification)
  raise_replies t [] = pure []
  raise_replies t (actor ∷ actors) = do
    r ← attempt (raise_notification n (clock actor) (minted_for actor) (reply_notification t actor))
    one_reply r (raise_replies t actors)

  abbrev pub new_subject_message :
      SubjectThread → String → SubjectStanding → String → String → SubjectThreadMessage
  new_subject_message t caller st body regarding = record {
    id = "";
    thread_id = t.id;
    author_id = caller;
    by_answerer = is_answerer st;
    regarding_id = regarding;
    body = body;
    created_at = 0;
  }

  abbrev pub raise_for :
      SubjectThread → SubjectThreadMessage → List String → Exec SubjectRoom Posting
  raise_for t posted recipients = do
    told ← lift (recipients_for h.recipients (reply_event t) (reply_room t) recipients)
    raised ← on_notices (raise_replies t told)
    pure (posted, raised)

  abbrev pub post_to : SubjectThread → SubjectThreadMessage → List String → Exec SubjectRoom Posting
  post_to t m recipients = do
    posted ← on_subjects (post g now minted m)
    raise_for t posted recipients

  -- The function that `PostSubjectMessageFor` hands to the transaction.
  unfoldable pub post_work :
      SubjectThread
      → String
      → SubjectStanding
      → List String
      → SubjectThreadMessage
      → Exec SubjectRoom Posting
  post_work t caller st answerers m = do
    recipients ← on_subjects (reply_recipients h g now minted t caller st answerers)
    post_to t m recipients

  -- The steps after the thread was found; `onRaised`, which is then called for each notification,
  -- returns nothing and is left out.
  abbrev pub post_whole :
      String
      → String
      → String
      → SubjectThread × SubjectStanding
      → Exec SubjectRoom SubjectThreadMessage
  post_whole caller body regarding (t, st) = do
    require (not (is_blank body)) subject_invalid
    answerers ← lift (answerers_to_tell h t caller st)
    out ← tx.run (post_work t caller st answerers (new_subject_message t caller st body regarding))
    pure (shown_to out.0 st)

  unfoldable pub post_subject_message_for :
      String → String → String → String → Exec SubjectRoom SubjectThreadMessage
  unfolding readable_thread answerers_to_tell post_work
  post_subject_message_for thread caller body regarding = do
    r ← on_subjects (readable_thread h g now minted thread caller)
    post_whole caller body regarding r

-- `EndRecordAccess` (manager_record.go).
pub end_record_access :
    NotificationEngine → ℕ → String → String → String → Exec NotificationDb Notification
end_record_access n now minted record_id actor =
    if record_id == "" || actor == ""
    then raise subject_invalid
    else raise_notification n now minted record {
      id = "";
      actor_id = actor;
      author_actor_id = "";
      seat_role_kind_id = "";
      seat_structure_id = "";
      category = "chat";
      event = "record_access_ended";
      subject_kind = "record";
      subject_id = record_id;
      names = [];
      structure_id = "";
      created_at = 0;
      read_at = none;
    }
