-- ===== src/Subject/Types.antt =====
-- models/subject.go: threads and messages about a record, and who reads them.
use mwanachama_backend_comm.Base.{
  ℕ, Bool, true, false, not, ◌&&◌, ◌||◌, Option, String, ◌==◌, if◌then◌else◌,
}

-- `SubjectAudience`, a string of which two values are named.
pub data SubjectAudience : Type 0 where
  private group : SubjectAudience
  other_audience : String → SubjectAudience

abbrev pub is_private : SubjectAudience → Bool
is_private private = true
is_private _ = false

abbrev pub is_group : SubjectAudience → Bool
is_group group = true
is_group _ = false

abbrev pub same_audience : SubjectAudience → SubjectAudience → Bool
same_audience private b = is_private b
same_audience group b = is_group b
same_audience (other_audience a) (other_audience b) = a == b
same_audience (other_audience a) _ = false

-- `SubjectStanding`, an integer of which three values are named.
pub data SubjectStanding : Type 0 where
  standing_none standing_audience standing_answerer : SubjectStanding
  other_standing : ℕ → SubjectStanding

abbrev pub is_answerer : SubjectStanding → Bool
is_answerer standing_answerer = true
is_answerer _ = false

abbrev pub is_audience : SubjectStanding → Bool
is_audience standing_audience = true
is_audience _ = false

abbrev pub is_none : SubjectStanding → Bool
is_none standing_none = true
is_none _ = false

pub record SubjectThread : Type 0 where
  pub id : String
  pub subject_kind : String
  pub subject_id : String
  pub audience : SubjectAudience
  pub owner_id : String
  pub created_at : ℕ

pub record SubjectThreadView : Type 0 where
  pub thread : SubjectThread
  pub message_count : ℕ
  pub last_message_at : Option ℕ

pub record SubjectThreadMessage : Type 0 where
  pub id : String
  pub thread_id : String
  pub author_id : String
  pub by_answerer : Bool
  pub regarding_id : String
  pub body : String
  pub created_at : ℕ

-- `For`: an answerer's name is kept from those who are not answerers.
unfoldable pub shown_to : SubjectThreadMessage → SubjectStanding → SubjectThreadMessage
shown_to m reader =
    if m.by_answerer && not (is_answerer reader) then record m { author_id = "" } else m

unfoldable pub thread_readable_by : SubjectThread → String → SubjectStanding → Bool
thread_readable_by t actor standing =
    if actor == "" || is_none standing
    then false
    else if is_answerer standing
    then true
    else if is_private t.audience
    then t.owner_id == actor
    else is_group t.audience
