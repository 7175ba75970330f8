-- ===== src/Tests/Chat.antt =====
-- The chat of one structure.
use mwanachama_backend_comm.Base.{
  true, false, ◌≡◌, refl, List, [], ◌∷◌, none, some, ◌==◌, find_first, max, codes, is_blank,
}
use mwanachama_backend_comm.Errors.{ok}
use mwanachama_backend_comm.Exec.{pure, raise}
use mwanachama_backend_comm.Errors.{chat_not_found}
use mwanachama_backend_comm.Validate.{unheld, check}
use mwanachama_backend_comm.Sql.Memory.{memory}
use mwanachama_backend_comm.Chat.Types.{
  ChatThread, ChatMessage, ChatReadMarker, ChatArchive, group, declined,
}
use mwanachama_backend_comm.Chat.Label.{Unicode}
use mwanachama_backend_comm.Chat.Threads.{decline_round, is_thread}
use mwanachama_backend_comm.Chat.Threads.Decline.{decline_round_ends}
use mwanachama_backend_comm.Chat.Messages.{ChatDb, ChatEngine, is_marker, mark_read}
use mwanachama_backend_comm.Chat.Messages.Reading.{read_so_far, mark_read-max}
use mwanachama_backend_comm.Chat.Manager.{
  ChatHost, list_chat_messages_for, mark_chat_thread_read_for, archive_chat_thread_for,
  unarchive_chat_thread_for, post_chat_message_for,
}
use mwanachama_backend_comm.Chat.Manager.Fence.{MayRead, access_fenced}

abbrev engine : ChatEngine
engine = record {
  thread_table = memory (λ a b. a.id == b.id);
  message_table = memory (λ a b. a.id == b.id);
  marker_table = memory (λ a b. a.id == b.id);
  archive_table = memory (λ a b. a.id == b.id);
  spec = λ role. some [];
  encode_message = λ m field. unheld;
  encode_marker = λ m field. unheld;
  encode_archive = λ a field. unheld;
  select_fails = λ s. none;
}

abbrev ascii : Unicode
ascii = record { to_lower = λ t. t; is_letter = λ r. true; is_digit = λ r. false }

abbrev thread : ChatThread
thread = record {
  id = "cthread-1";
  structure_id = "st";
  tag_path = codes "/all";
  label = [];
  audience = group;
  requested_by = "";
  declined_at = none;
  declined_by = "";
  created_at = 1;
}

abbrev marker : ChatReadMarker
marker = record {
  id = "cread-1";
  structure_id = "st";
  thread_id = "cthread-1";
  reader_id = "a";
  read_at = 9;
  marked_at = 9;
}

abbrev db : ChatDb
db = record { threads = thread ∷ []; messages = []; markers = marker ∷ []; archives = [] }

abbrev host : ChatHost
host = record { belonging = some (λ actor structure. ok true); leading = none }

marked :
    (mark_read engine 12 "cread-2" "st" "cthread-1" "a" 7 db).0
    ≡ ok (record marker { marked_at = 12 })
unfolding mark_read check
marked = refl

mark_read-max_example : 9 ≡ max (read_so_far (find_first (is_marker "cthread-1" "a") db.markers)) 7
mark_read-max_example =
    mark_read-max engine 12 "cread-2" "st" "cthread-1" "a" 7 db (record marker { marked_at = 12 })
      marked

decline_round_ends_example :
    decline_round engine.thread_table ascii 5 "id"
      (raise chat_not_found)
      "st"
      "cthread-1"
      "a"
      db.threads
    ≡ decline_round engine.thread_table ascii 5 "id"
        (pure (thread, true))
        "st"
        "cthread-1"
        "a"
        db.threads
decline_round_ends_example =
    decline_round_ends engine.thread_table ascii 5 "id" (raise chat_not_found) (pure (thread, true))
      "st" "cthread-1" "a" db.threads

access_fenced_example :
    ((out : List ChatMessage)
      → (list_chat_messages_for host engine ascii 5 "id" "st" "cthread-1" "a" "" db).0 ≡ ok out
      → MayRead host db "st" "cthread-1" "a")
    × ((out : ChatReadMarker)
        → (mark_chat_thread_read_for host engine ascii 5 "id" "st" "cthread-1" "a" "" db).0 ≡ ok out
        → MayRead host db "st" "cthread-1" "a")
    × ((out : ChatArchive)
        → (archive_chat_thread_for host engine ascii 5 "id" "st" "cthread-1" "a" db).0 ≡ ok out
        → MayRead host db "st" "cthread-1" "a")
    × ((out : Unit {0})
        → (unarchive_chat_thread_for host engine ascii 5 "id" "st" "cthread-1" "a" db).0 ≡ ok out
        → MayRead host db "st" "cthread-1" "a")
    × ((out : ChatMessage)
        → (post_chat_message_for host engine ascii 5 "id" "st" "cthread-1" "a" "hello" "" "" db).0
          ≡ ok out
        → MayRead host db "st" "cthread-1" "a"
          × (is_blank "hello" ≡ false)
          × (t : ChatThread) × (find_first (is_thread "st" "cthread-1") db.threads ≡ some t)
          × (declined t ≡ false))
access_fenced_example =
    access_fenced host engine ascii 5 "id" "st" "cthread-1" "a" "" "hello" "" "" db
