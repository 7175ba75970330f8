-- ===== src/Chat/Messages.antt =====
-- chat_impl.go, chat_read_impl.go and chat_archive_impl.go: the messages of `ChatStore`, what a
-- reader has read of them, and what a reader has put away. The database is not scoped to a test run.
pub mod Reading
use mwanachama_backend_comm.Base.{
  ℕ, Bool, true, false, not, ◌&&◌, ◌||◌, Option, none, some, List, [], ◌∷◌, String, ◌==◌, eqb, ltb,
  min, max, count, find_first, keep, map, text_before, oldest_first, if◌then◌else◌,
}
use mwanachama_backend_comm.Errors.{Error, DriverError, driver, Result, ok, err, chat_not_found}
use mwanachama_backend_comm.Exec.{Exec, pure, raise, lift, ◌>>=◌, ◌>>◌}
use mwanachama_backend_comm.Roles.{chat_message, chat_read_marker, chat_archive}
use mwanachama_backend_comm.Validate.{Spec, Row, check}
use mwanachama_backend_comm.Sql.{Table}
use mwanachama_backend_comm.Sql.Statements.{classified, take, list, insert, upsert, delete}
use mwanachama_backend_comm.Chat.Types.{
  ChatThread, ChatMessage, ChatReadMarker, ChatArchive, attachment_is_whole,
}

-- The tables of chat.
pub record ChatDb : Type 0 where
  pub threads : List ChatThread
  pub messages : List ChatMessage
  pub markers : List ChatReadMarker
  pub archives : List ChatArchive

-- The database, the specification with the encoding of a value as a row, and what a statement in
-- plain SQL does: it fails with the driver's error, or selects.
pub record ChatEngine : Type 0 where
  pub thread_table : Table ChatThread
  pub message_table : Table ChatMessage
  pub marker_table : Table ChatReadMarker
  pub archive_table : Table ChatArchive
  pub spec : Spec
  pub encode_message : ChatMessage → Row
  pub encode_marker : ChatReadMarker → Row
  pub encode_archive : ChatArchive → Row
  pub select_fails : ChatDb → Option DriverError

-- A statement on one table.
abbrev pub on_threads : {A : Type 0} → Exec (List ChatThread) A → Exec ChatDb A
on_threads m s = let (r, rows) = m s.threads in (r, record s { threads = rows })

abbrev pub on_messages : {A : Type 0} → Exec (List ChatMessage) A → Exec ChatDb A
on_messages m s = let (r, rows) = m s.messages in (r, record s { messages = rows })

abbrev pub on_markers : {A : Type 0} → Exec (List ChatReadMarker) A → Exec ChatDb A
on_markers m s = let (r, rows) = m s.markers in (r, record s { markers = rows })

abbrev pub on_archives : {A : Type 0} → Exec (List ChatArchive) A → Exec ChatDb A
on_archives m s = let (r, rows) = m s.archives in (r, record s { archives = rows })

abbrev pub found : {A : Type 0} → Option A → Exec ChatDb A
found none = raise chat_not_found
found (some a) = pure a

-- A plain SQL statement that selects `answer s`.
abbrev pub select : {A : Type 0} → ChatEngine → (ChatDb → A) → Exec ChatDb A
select g answer s = elim (g.select_fails s) [
  | none ↦ (ok (answer s), s)
  | some d ↦ (err (driver d), s)
]

abbrev pub message_before : ChatMessage → ChatMessage → Bool
message_before a b = oldest_first a.created_at a.id b.created_at b.id

abbrev pub is_marker : String → String → ChatReadMarker → Bool
is_marker thread reader r = r.thread_id == thread && r.reader_id == reader

abbrev pub is_archive : String → String → ChatArchive → Bool
is_archive thread reader a = a.thread_id == thread && a.reader_id == reader

-- What a conflicting marker becomes: `read_at` moves forward only.
abbrev pub advanced : ChatReadMarker → ChatReadMarker → ChatReadMarker
advanced new old = record old {
  read_at = if ltb old.read_at new.read_at then new.read_at else old.read_at;
  marked_at = new.marked_at;
}

abbrev pub unread_cap : ℕ
unread_cap = 100

-- `m.created_at > r.read_at`, or no marker.
abbrev pub after_marker : Option ChatReadMarker → ChatMessage → Bool
after_marker none m = true
after_marker (some r) m = ltb r.read_at m.created_at

abbrev pub is_unread : ChatDb → String → String → ChatMessage → Bool
is_unread s thread reader m =
    m.thread_id == thread
    && not (m.author_id == reader)
    && after_marker (find_first (is_marker m.thread_id reader) s.markers) m

-- The rows of `UnreadCounts`, of which only those above 0 are kept.
abbrev pub unread_of : ChatDb → String → List ChatThread → List (String × ℕ)
unread_of s reader [] = []
unread_of s reader (t ∷ ts) =
    let rest = unread_of s reader ts in
    let n = min (count (is_unread s t.id reader) s.messages) unread_cap in
    if ltb 0 n then (t.id, n) ∷ rest else rest

-- `max(m.created_at)`, of no rows `NULL`.
abbrev pub latest_post : String → List ChatMessage → Option ℕ
latest_post thread [] = none
latest_post thread (m ∷ ms) =
    let rest = latest_post thread ms in
    if m.thread_id == thread
    then (elim rest [ none ↦ some m.created_at | some at ↦ some (max m.created_at at) ])
    else rest

abbrev pub latest_of : ChatDb → List ChatThread → List (String × ℕ)
latest_of s [] = []
latest_of s (t ∷ ts) =
    let rest = latest_of s ts in
    elim (latest_post t.id s.messages) [ none ↦ rest | some at ↦ (t.id, at) ∷ rest ]

abbrev pub in_structure : String → ChatThread → Bool
in_structure structure t = t.structure_id == structure

module _ (g : ChatEngine) (now : ℕ) (minted : String) where
  unfoldable pub post : ChatMessage → Exec ChatDb ChatMessage
  post given = do
    let m : ChatMessage = record given {
      created_at = now;
      id = if given.id == "" then minted else given.id;
    }
    lift (check g.spec chat_message (g.encode_message m))
    lift (attachment_is_whole m)
    classified (on_messages (insert g.message_table m))
    pure m

  pub get_message : String → Exec ChatDb ChatMessage
  get_message id = do row ← on_messages (take g.message_table (λ m. m.id == id)); found row

  pub list_messages : String → String → Exec ChatDb (List ChatMessage)
  list_messages structure thread = on_messages (
      list g.message_table
        (λ m. m.structure_id == structure && (thread == "" || m.thread_id == thread))
        message_before)

  pub list_messages_after : ChatMessage → Exec ChatDb (List ChatMessage)
  list_messages_after after = on_messages (
      list g.message_table
        (λ m.
          (m.structure_id == after.structure_id && m.thread_id == after.thread_id)
          && (ltb after.created_at m.created_at
              || (eqb m.created_at after.created_at && text_before after.id m.id)))
        message_before)

  pub read_marker : String → String → Exec ChatDb ChatReadMarker
  read_marker thread reader = do
    row ← on_markers (take g.marker_table (is_marker thread reader))
    found row

  unfoldable pub mark_read : String → String → String → ℕ → Exec ChatDb ChatReadMarker
  unfolding read_marker
  mark_read structure thread reader read_at = do
    let marker : ChatReadMarker = record {
      id = minted;
      structure_id = structure;
      thread_id = thread;
      reader_id = reader;
      read_at = read_at;
      marked_at = now;
    }
    lift (check g.spec chat_read_marker (g.encode_marker marker))
    classified
        (on_markers (upsert g.marker_table (is_marker thread reader) (advanced marker) marker))
    read_marker thread reader

  pub unread_counts : String → String → Exec ChatDb (List (String × ℕ))
  unread_counts structure reader =
      classified (select g (λ s. unread_of s reader (keep (in_structure structure) s.threads)))

  pub latest_posts : String → Exec ChatDb (List (String × ℕ))
  latest_posts structure =
      classified (select g (λ s. latest_of s (keep (in_structure structure) s.threads)))

  pub archive : String → String → String → Exec ChatDb ChatArchive
  archive structure thread reader = do
    let a : ChatArchive = record {
      id = minted;
      structure_id = structure;
      thread_id = thread;
      reader_id = reader;
      archived_at = now;
    }
    lift (check g.spec chat_archive (g.encode_archive a))
    classified (on_archives (upsert g.archive_table (is_archive thread reader) (λ old. old) a))
    row ← on_archives (take g.archive_table (is_archive thread reader))
    found row

  pub unarchive : String → String → Exec ChatDb (Unit {0})
  unarchive thread reader = do
    classified (on_archives (delete g.archive_table (is_archive thread reader)))
    pure tt

  pub archived_threads : String → String → Exec ChatDb (List String)
  archived_threads structure reader = do
    rows ← classified (
        on_archives (
          list g.archive_table (λ a. a.structure_id == structure && a.reader_id == reader)
            (λ a b. false)))
    pure (map (λ (a : ChatArchive). a.thread_id) rows)
