-- ===== src/Subject/Store.antt =====
-- subject_impl.go: what `SubjectStore` does. The database is not scoped to a test run.
use mwanachama_backend_comm.Base.{
  ℕ, Bool, true, false, not, ◌&&◌, Option, none, some, List, [], ◌∷◌, String, ◌==◌, max, map, keep,
  count, text_before, oldest_first, if◌then◌else◌,
}
use mwanachama_backend_comm.Errors.{Error, DriverError, driver, Result, ok, err, subject_not_found}
use mwanachama_backend_comm.Errors.Classify.{classify}
use mwanachama_backend_comm.Exec.{Exec, pure, raise, lift, ◌>>=◌, ◌>>◌}
use mwanachama_backend_comm.Roles.{subject_thread, subject_message}
use mwanachama_backend_comm.Validate.{Spec, Row, check, holds}
use mwanachama_backend_comm.Sql.{Table}
use mwanachama_backend_comm.Sql.Rows.{sort}
use mwanachama_backend_comm.Sql.Statements.{classified, take, list, insert}
use mwanachama_backend_comm.Chat.Threads.{attempt}
use mwanachama_backend_comm.Subject.Types.{
  SubjectThread, SubjectThreadView, SubjectThreadMessage, SubjectAudience, same_audience,
}

pub record SubjectDb : Type 0 where
  pub threads : List SubjectThread
  pub messages : List SubjectThreadMessage

-- The database, the specification with the encoding of a value as a row, and what a statement in
-- plain SQL does: it fails with the driver's error, or selects.
pub record SubjectEngine : Type 0 where
  pub thread_table : Table SubjectThread
  pub message_table : Table SubjectThreadMessage
  pub spec : Spec
  pub encode_thread : SubjectThread → Row
  pub encode_message : SubjectThreadMessage → Row
  pub select_fails : SubjectDb → Option DriverError

abbrev pub on_threads : {A : Type 0} → Exec (List SubjectThread) A → Exec SubjectDb A
on_threads m s = let (r, rows) = m s.threads in (r, record s { threads = rows })

abbrev pub on_messages : {A : Type 0} → Exec (List SubjectThreadMessage) A → Exec SubjectDb A
on_messages m s = let (r, rows) = m s.messages in (r, record s { messages = rows })

abbrev pub select : {A : Type 0} → SubjectEngine → (SubjectDb → A) → Exec SubjectDb A
select g answer s = elim (g.select_fails s) [
  | none ↦ (ok (answer s), s)
  | some d ↦ (err (driver d), s)
]

abbrev pub or_no_thread : Option SubjectThread → Exec SubjectDb SubjectThread
or_no_thread none = raise subject_not_found
or_no_thread (some t) = pure t

abbrev pub is_about : String → String → SubjectThread → Bool
is_about kind id t = t.subject_kind == kind && t.subject_id == id

abbrev pub is_with : String → String → SubjectAudience → String → SubjectThread → Bool
is_with kind id audience owner t =
    (is_about kind id t && same_audience t.audience audience) && t.owner_id == owner

abbrev pub is_subject_not_found : Error → Bool
is_subject_not_found subject_not_found = true
is_subject_not_found _ = false

-- `max(created_at)` of a thread's messages.
abbrev pub last_message : String → List SubjectThreadMessage → Option ℕ
last_message thread [] = none
last_message thread (m ∷ ms) =
    let rest = last_message thread ms in
    if m.thread_id == thread
    then (elim rest [ none ↦ some m.created_at | some at ↦ some (max m.created_at at) ])
    else rest

abbrev pub view_of : SubjectDb → SubjectThread → SubjectThreadView
view_of s t = record {
  thread = t;
  message_count = count (λ m. m.thread_id == t.id) s.messages;
  last_message_at = last_message t.id s.messages;
}

-- `SELECT DISTINCT`.
abbrev pub distinct : List String → List String
distinct [] = []
distinct (a ∷ rest) = let others = distinct rest in if holds rest a then others else a ∷ others

abbrev pub authored : SubjectThreadMessage → String
authored m = m.author_id

abbrev pub from_audience : String → SubjectThreadMessage → Bool
from_audience thread m = m.thread_id == thread && not m.by_answerer

abbrev pub audience_authors_of : String → SubjectDb → List String
audience_authors_of thread s =
    sort text_before (distinct (map authored (keep (from_audience thread) s.messages)))

module _ (g : SubjectEngine) (now : ℕ) (minted : String) where
  pub resolve : String → String → SubjectAudience → String → Exec SubjectDb SubjectThread
  resolve kind id audience owner = do
    row ← on_threads (take g.thread_table (is_with kind id audience owner))
    or_no_thread row

  abbrev pub new_thread : String → String → SubjectAudience → String → SubjectThread
  new_thread kind id audience owner = record {
    id = minted;
    subject_kind = kind;
    subject_id = id;
    audience = audience;
    owner_id = owner;
    created_at = now;
  }

  -- The insert of `Open` failed: somebody else may have opened the thread meanwhile.
  abbrev pub or_existing : Error → Result SubjectThread → Exec SubjectDb SubjectThread
  or_existing e (ok existing) = pure existing
  or_existing e (err missing) = raise (classify e)

  abbrev pub after_insert :
      String → String → SubjectAudience → String → Result (Unit {0}) → Exec SubjectDb SubjectThread
  after_insert kind id audience owner (ok u) = pure (new_thread kind id audience owner)
  after_insert kind id audience owner (err e) = do
    again ← attempt (resolve kind id audience owner)
    or_existing e again

  abbrev pub open_unless_found :
      String
      → String
      → SubjectAudience
      → String
      → Result SubjectThread
      → Exec SubjectDb SubjectThread
  open_unless_found kind id audience owner (ok t) = pure t
  open_unless_found kind id audience owner (err e) =
      if is_subject_not_found e
      then (do
        lift (check g.spec subject_thread (g.encode_thread (new_thread kind id audience owner)))
        r ← attempt (on_threads (insert g.thread_table (new_thread kind id audience owner)))
        after_insert kind id audience owner r)
      else raise e

  pub open_thread : String → String → SubjectAudience → String → Exec SubjectDb SubjectThread
  unfolding resolve
  open_thread kind id audience owner = do
    found ← attempt (resolve kind id audience owner)
    open_unless_found kind id audience owner found

  unfoldable pub get_thread : String → Exec SubjectDb SubjectThread
  get_thread id = do row ← on_threads (take g.thread_table (λ t. t.id == id)); or_no_thread row

  unfoldable pub list_threads : String → String → Exec SubjectDb (List SubjectThread)
  list_threads kind id = on_threads (
      list g.thread_table (is_about kind id)
        (λ a b. oldest_first a.created_at a.id b.created_at b.id))

  unfoldable pub views : List SubjectThread → Exec SubjectDb (List SubjectThreadView)
  views [] = pure []
  views (t ∷ ts) = classified (select g (λ s. map (view_of s) (t ∷ ts)))

  unfoldable pub list_messages : String → Exec SubjectDb (List SubjectThreadMessage)
  list_messages thread = on_messages (
      list g.message_table (λ m. m.thread_id == thread)
        (λ a b. oldest_first a.created_at a.id b.created_at b.id))

  abbrev pub stamped_message : SubjectThreadMessage → SubjectThreadMessage
  stamped_message m = record m { id = minted; created_at = now }

  unfoldable pub post : SubjectThreadMessage → Exec SubjectDb SubjectThreadMessage
  post m = do
    lift (check g.spec subject_message (g.encode_message (stamped_message m)))
    classified (on_messages (insert g.message_table (stamped_message m)))
    pure (stamped_message m)

  unfoldable pub audience_authors : String → Exec SubjectDb (List String)
  audience_authors thread = classified (select g (audience_authors_of thread))
