-- ===== src/Chat/Types.antt =====
-- models/chat.go: the rows of a chat.
use mwanachama_backend_comm.Base.{
  ℕ, Bool, true, false, not, ◌&&◌, Option, String, Text, ◌==◌, is_some, if◌then◌else◌, differ,
}
use mwanachama_backend_comm.Errors.{Result, ok, err, chat_invalid}

-- `ChatAudience`, a string of which two values are named.
pub data ChatAudience : Type 0 where
  leads group : ChatAudience
  other_audience : String → ChatAudience

abbrev pub for_leads : ChatAudience → Bool
for_leads leads = true
for_leads _ = false

abbrev pub for_group : ChatAudience → Bool
for_group group = true
for_group _ = false

-- An instant is a number. `TagPath` and `Label`, which the code walks, are lists of runes.
pub record ChatThread : Type 0 where
  pub id : String
  pub structure_id : String
  pub tag_path : Text
  pub label : Text
  pub audience : ChatAudience
  pub requested_by : String
  pub declined_at : Option ℕ
  pub declined_by : String
  pub created_at : ℕ

abbrev pub declined : ChatThread → Bool
declined t = is_some t.declined_at

abbrev pub declinable : ChatThread → Bool
declinable t = not (declined t) && for_leads t.audience && not (t.requested_by == "")

abbrev pub readable_by : ChatThread → String → Bool → Bool
readable_by t actor leading =
    if not (for_leads t.audience)
    then true
    else if leading
    then true
    else not (actor == "") && actor == t.requested_by

pub record ChatMessage : Type 0 where
  pub id : String
  pub structure_id : String
  pub thread_id : String
  pub author_id : String
  pub body : String
  pub created_at : ℕ
  pub attachment_kind : String
  pub attachment_id : String

abbrev pub attachment_is_whole : ChatMessage → Result (Unit {0})
attachment_is_whole m =
    if differ (m.attachment_kind == "") (m.attachment_id == "") then err chat_invalid else ok tt

pub record ChatReadMarker : Type 0 where
  pub id : String
  pub structure_id : String
  pub thread_id : String
  pub reader_id : String
  pub read_at : ℕ
  pub marked_at : ℕ

pub record ChatArchive : Type 0 where
  pub id : String
  pub structure_id : String
  pub thread_id : String
  pub reader_id : String
  pub archived_at : ℕ

-- `ChatThreadView`: a thread, how much of it is unread, and when somebody last posted.
pub record ChatThreadView : Type 0 where
  pub thread : ChatThread
  pub unread : ℕ
  pub last_message_at : Option ℕ
