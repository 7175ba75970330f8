-- ===== src/Tests/Standing.antt =====
-- One standing message with three occurrences, and workers that send it.
use mwanachama_backend_comm.Base.{
  ℕ, Bool, true, ◌&&◌, ◌≡◌, ◌≤◌, refl, List, [], ◌∷◌, none, some, String, ◌==◌, count, keep, all,
  leb, ltb, Bool-cases, inl, inr, arith, Option, if◌then◌else◌,
}
use mwanachama_backend_comm.Errors.{ok}
use mwanachama_backend_comm.Validate.{unheld, check, Row, Field, text}
use mwanachama_backend_comm.Sql.Memory.{memory}
use mwanachama_backend_comm.Sql.Commit.{in_memory}
use mwanachama_backend_comm.Chat.Messages.{ChatEngine, post}
use mwanachama_backend_comm.Standing.Types.{StandingMessage, Recur, Schedule}
use mwanachama_backend_comm.Standing.Schedule.{schedule_of}
use mwanachama_backend_comm.Standing.Store.{
  StandingDb, StandingEngine, send_due, send_work, due_occurrence, claim_occurrence,
}
use mwanachama_backend_comm.Standing.Store.Claims.{Sent, send_due-Sent}
use mwanachama_backend_comm.Standing.Store.Reached.{has_id}
use mwanachama_backend_comm.Standing.Store.Tracked.{Increasing}
use mwanachama_backend_comm.Standing.Store.Once.{begin, works, Reaches-Increasing}
use mwanachama_backend_comm.Standing.Store.Posts.{send_due-posts}
use mwanachama_backend_comm.Roles.{Role, chat_message}
use mwanachama_backend_comm.Chat.Types.{ChatMessage}

abbrev in_range : ℕ → ℕ → ℕ → Bool
in_range from to at = leb from at && ltb at to

all-keep : (p : ℕ → Bool) (xs : List ℕ) → all p (keep p xs) ≡ true
all-keep p [] = refl
all-keep p (x ∷ xs) = ground (arith, all-keep p xs)

abbrev three : Recur (Unit {0}) (Unit {0}) (Unit {0})
three = record {
  load_location = λ name. some tt;
  parse_rule = λ raw. some tt;
  parse_date = λ raw. some tt;
  wire_schedule = λ wire. none;
  is_valid = λ sch. true;
  between = λ sch from to. keep (in_range from to) (10 ∷ (20 ∷ (30 ∷ [])));
  between_within = λ sch from to. all-keep (in_range from to) (10 ∷ (20 ∷ (30 ∷ [])));
}

abbrev required : String → Field
required name = record { name = name; required = true; values = []; matches = "" }

-- A message names its author and has a body.
abbrev declared : Role → Option (List Field)
declared role = some (required "author_id" ∷ (required "body" ∷ []))

abbrev encoded : ChatMessage → Row
encoded m field =
    if field == "author_id"
    then text m.author_id
    else if field == "body"
    then text m.body
    else unheld

abbrev chat_engine : ChatEngine
chat_engine = record {
  thread_table = memory (λ a b. a.id == b.id);
  message_table = memory (λ a b. a.id == b.id);
  marker_table = memory (λ a b. a.id == b.id);
  archive_table = memory (λ a b. a.id == b.id);
  spec = declared;
  encode_message = encoded;
  encode_marker = λ m field. unheld;
  encode_archive = λ a field. unheld;
  select_fails = λ s. none;
}

abbrev engine : StandingEngine
engine = record {
  standing_table = memory (λ a b. b.id == a.id);
  spec = λ role. some [];
  encode_standing = λ m field. unheld;
  chat_engine = chat_engine;
  tx = in_memory;
}

abbrev weekly : StandingMessage
weekly = record {
  id = "m";
  structure_id = "st";
  thread_id = "t";
  author_id = "a";
  body = "meeting";
  rule = "";
  dates = "d" ∷ [];
  zone = "UTC";
  starts_at = 5;
  ends_at = none;
  last_sent_at = none;
  stopped_at = none;
  stopped_by = "";
  created_at = 1;
}

abbrev db : StandingDb
db = record {
  standings = weekly ∷ [];
  chat = record { threads = []; messages = []; markers = []; archives = [] };
}

one_of_each : (id : String) → count (has_id id) db.standings ≤ 1
one_of_each id = elim (Bool-cases ("m" == id)) [ inl e ↦ ground arith | inr e ↦ ground arith ]

send_due-Sent_example :
    Sent three engine 26 "p" weekly 25 db (send_due three engine 26 "p" weekly 25 db)
send_due-Sent_example = send_due-Sent three engine 26 "p" weekly 25 db

abbrev parsed : Schedule (Unit {0}) (Unit {0}) (Unit {0})
parsed = record { start = 5; zone = tt; rule = none; dates = tt ∷ []; end_at = 0 }

scheduled : schedule_of three weekly ≡ ok parsed
unfolding schedule_of
scheduled = refl

abbrev meeting : ChatMessage
meeting = record {
  id = "p";
  structure_id = "st";
  thread_id = "t";
  author_id = "a";
  body = "meeting";
  created_at = 26;
  attachment_kind = "";
  attachment_id = "";
}

meeting_valid : check declared chat_message (encoded meeting) ≡ ok tt
unfolding check
meeting_valid = refl

send_due-posts_example : send_due three engine 26 "p" weekly 25 db ≡ (
  ok (some meeting),
  record {
    standings = record weekly { last_sent_at = some 20 } ∷ [];
    chat = record db.chat { messages = meeting ∷ [] };
  },
)
send_due-posts_example =
    send_due-posts three engine (λ a b. b.id == a.id) (λ a b. a.id == b.id) 26 "p" weekly weekly
      parsed (10 ∷ []) 25 20 db refl (one_of_each "m") refl scheduled refl meeting_valid refl

-- Two workers read the row before either sends it, and a third reads it again later.
abbrev twice : StandingDb
twice = (send_due three engine 26 "p" weekly 12 db).1

abbrev thrice : StandingDb
thrice = (send_due three engine 27 "q" weekly 12 twice).1

Reaches-Increasing_example : Increasing (("m", 20) ∷ (("m", 10) ∷ []))
unfolding send_due due_occurrence schedule_of send_work claim_occurrence post check
Reaches-Increasing_example =
    Reaches-Increasing three engine (λ a b h. h) db
      (send_due three engine 28 "r" (record weekly { last_sent_at = some 10 }) 25 thrice).1
      (("m", 20) ∷ (("m", 10) ∷ [])) one_of_each
      (works thrice (("m", 10) ∷ []) 28 25 "r" (record weekly { last_sent_at = some 10 })
        (works twice (("m", 10) ∷ []) 27 12 "q" weekly (works db [] 26 12 "p" weekly begin)))
