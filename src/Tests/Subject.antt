-- ===== src/Tests/Subject.antt =====
-- A private thread about a record, with one who owns it and one who answers.
use mwanachama_backend_comm.Base.{
  true, ◌&&◌, ◌≡◌, refl, [], ◌∷◌, none, some, String, ◌==◌, all, if◌then◌else◌,
}
use mwanachama_backend_comm.Errors.{Result, ok}
use mwanachama_backend_comm.Validate.{unheld, holds}
use mwanachama_backend_comm.Sql.Memory.{memory}
use mwanachama_backend_comm.Sql.Commit.{in_memory}
use mwanachama_backend_comm.Notification.Store.{NotificationEngine}
use mwanachama_backend_comm.Subject.Types.{
  SubjectThread, SubjectThreadMessage, SubjectStanding, private, standing_audience,
  standing_answerer, standing_none, shown_to, thread_readable_by,
}
use mwanachama_backend_comm.Subject.Store.{SubjectEngine, get_thread, list_messages}
use mwanachama_backend_comm.Subject.Manager.{
  SubjectHost, standing_on, readable_thread, answerers_to_tell, reply_recipients,
  list_subject_messages_for,
}
use mwanachama_backend_comm.Subject.Posting.{SubjectRoom, post_subject_message_for}
use mwanachama_backend_comm.Subject.Manager.Fence.{
  list_subject_messages_for-shown, ReadsThread, is_kept,
}
use mwanachama_backend_comm.Subject.Manager.Replies.{reply_recipients-others, is_other, is_party}
use mwanachama_backend_comm.Subject.Manager.Whole.{Whole, post_subject_message_for-Whole}

abbrev standing : String → String → String → Result SubjectStanding
standing actor kind id = ok (
    if actor == "o"
    then standing_audience
    else if actor == "w"
    then standing_answerer
    else standing_none)

abbrev host : SubjectHost
host = record {
  standing = some standing;
  answerers = some (λ kind id. ok ("w" ∷ ("x" ∷ [])));
  recipients = none;
}

abbrev notices : NotificationEngine
notices = record {
  notification_table = memory (λ a b. a.id == b.id);
  preference_table = memory (λ a b. a.actor_id == b.actor_id && a.category == b.category);
  acknowledgement_table = memory (λ a b. a.notification_id == b.notification_id);
  spec = λ role. some [];
  encode_notification = λ n field. unheld;
  encode_preference = λ p field. unheld;
  encode_acknowledgement = λ a field. unheld;
  mutable = none;
}

abbrev engine : SubjectEngine
engine = record {
  thread_table = memory (λ a b. a.id == b.id);
  message_table = memory (λ a b. a.id == b.id);
  spec = λ role. some [];
  encode_thread = λ t field. unheld;
  encode_message = λ m field. unheld;
  select_fails = λ s. none;
}

abbrev thread : SubjectThread
thread = record {
  id = "t";
  subject_kind = "record";
  subject_id = "r";
  audience = private;
  owner_id = "o";
  created_at = 1;
}

abbrev answer : SubjectThreadMessage
answer = record {
  id = "m1";
  thread_id = "t";
  author_id = "w";
  by_answerer = true;
  regarding_id = "";
  body = "yes";
  created_at = 2;
}

abbrev chamber : SubjectRoom
chamber = record {
  subjects = record { threads = thread ∷ []; messages = answer ∷ [] };
  notices = record { notifications = []; preferences = []; acknowledgements = [] };
}

read :
    list_subject_messages_for host engine 5 "i" "t" "o" chamber.subjects
    ≡ (ok (record answer { author_id = "" } ∷ []), chamber.subjects)
unfolding list_subject_messages_for readable_thread get_thread list_messages standing_on shown_to
    thread_readable_by
read = refl

list_subject_messages_for-shown_example :
    (st : SubjectStanding) × ReadsThread host engine notices in_memory 5 "i"
      (λ a. 6)
      (λ a. a)
      "t"
      "o"
      chamber.subjects
      st
    × (all (is_kept st) (record answer { author_id = "" } ∷ []) ≡ true)
list_subject_messages_for-shown_example =
    list_subject_messages_for-shown host engine notices in_memory 5 "i" (λ a. 6) (λ a. a) "t" "o"
      chamber.subjects chamber.subjects (record answer { author_id = "" } ∷ []) read

told : answerers_to_tell host thread "o" standing_audience ≡ ok ("w" ∷ [])
unfolding answerers_to_tell standing_on holds
told = refl

reply_to :
    reply_recipients host engine 5 "i" thread "o" standing_audience ("w" ∷ []) chamber.subjects
    ≡ (ok ("w" ∷ []), chamber.subjects)
unfolding reply_recipients
reply_to = refl

reply_recipients-others_example :
    (all (is_other "o") ("w" ∷ []) ≡ true)
    × (all (is_party host engine 5 "i" thread) ("w" ∷ []) ≡ true)
reply_recipients-others_example =
    reply_recipients-others host engine 5 "i" thread "o" standing_audience ("w" ∷ []) ("w" ∷ [])
      chamber.subjects chamber.subjects told reply_to

post_subject_message_for-Whole_example :
    Whole host engine notices in_memory 5 "i"
      (λ a. 6)
      (λ a. a)
      "t"
      "o"
      "why"
      ""
      chamber
      (post_subject_message_for host engine notices in_memory 5 "i"
        (λ a. 6)
        (λ a. a)
        "t"
        "o"
        "why"
        ""
        chamber)
post_subject_message_for-Whole_example =
    post_subject_message_for-Whole host engine notices in_memory 5 "i" (λ a. 6) (λ a. a) "t" "o"
      "why" "" chamber
