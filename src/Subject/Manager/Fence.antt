-- ===== src/Subject/Manager/Fence.antt =====
-- Who reads and writes in a thread about a record, and what they see of it.
use mwanachama_backend_comm.Base.{
  ℕ, Bool, true, false, not, ◌&&◌, ◌||◌, ◌≡◌, refl, inl, inr, some, List, [], ◌∷◌, String, ◌==◌,
  arith, find_first, all, if◌then◌else◌,
}
use mwanachama_backend_comm.Errors.{ok}
use mwanachama_backend_comm.Exec.{Transaction, pure}
use mwanachama_backend_comm.Exec.Steps.{Outcome-cases, bind-ok}
use mwanachama_backend_comm.Notification.Store.{NotificationDb, NotificationEngine}
use mwanachama_backend_comm.Subject.Types.{
  SubjectThread, SubjectThreadMessage, SubjectStanding, is_answerer, shown_to,
}
use mwanachama_backend_comm.Subject.Store.{SubjectDb, SubjectEngine, list_messages}
use mwanachama_backend_comm.Subject.Manager.{
  SubjectHost, readable_thread, list_subject_messages_for, messages_shown, all_shown_to,
}
use mwanachama_backend_comm.Subject.Posting.{SubjectRoom, Posting, on_subjects}
use mwanachama_backend_comm.Subject.Manager.Reads.{MayReadThread, readable_thread-ok}

-- What is shown of a message does not name an answerer to those who are not.
abbrev pub is_kept : SubjectStanding → SubjectThreadMessage → Bool
is_kept st m = not m.by_answerer || is_answerer st || m.author_id == ""

kept_if :
    (m : SubjectThreadMessage) (st : SubjectStanding) (b a : Bool)
    → m.by_answerer ≡ b
    → is_answerer st ≡ a
    → is_kept st (if b && not a then record m { author_id = "" } else m) ≡ true
kept_if m st true true e f = ground arith
kept_if m st true false e f = ground arith
kept_if m st false a e f = ground arith

kept_shown : (m : SubjectThreadMessage) (st : SubjectStanding) → is_kept st (shown_to m st) ≡ true
unfolding shown_to
kept_shown m st = kept_if m st m.by_answerer (is_answerer st) refl refl

all-kept :
    (st : SubjectStanding) (ms : List SubjectThreadMessage) (h : SubjectHost) (g : SubjectEngine)
    (now : ℕ) (minted : String)
    → all (is_kept st) (all_shown_to h g now minted st ms) ≡ true
all-kept st [] h g now minted = refl
all-kept st (m ∷ ms) h g now minted = rw (kept_shown m st) (all-kept st ms h g now minted)

module _ (h : SubjectHost) (g : SubjectEngine) (n : NotificationEngine)
    (tx : Transaction SubjectRoom Posting) (now : ℕ) (minted : String) (clock : String → ℕ)
    (minted_for : String → String) (thread caller : String) where
  -- The thread that a caller names, and the caller's standing.
  abbrev pub ReadsThread : SubjectDb → SubjectStanding → Type 0
  ReadsThread s st =
      (t : SubjectThread) × (find_first (λ x. x.id == thread) s.threads ≡ some t)
      × MayReadThread h caller t st

  -- The messages of a thread about a record are returned only to a caller to whom the host gives a
  -- standing on that record, and then to an answerer, to the owner of a private thread or to the
  -- audience of a group thread; and to one who is not an answerer no message by an answerer names
  -- its author.
  pub list_subject_messages_for-shown :
      (s s' : SubjectDb) (msgs : List SubjectThreadMessage)
      → list_subject_messages_for h g now minted thread caller s ≡ (ok msgs, s')
      → (st : SubjectStanding) × ReadsThread s st × (all (is_kept st) msgs ≡ true)
  unfolding list_subject_messages_for list_messages
  list_subject_messages_for-shown s s' msgs e =
      let ((t, st), x, finds, goes) =
        bind-ok (readable_thread h g now minted thread caller)
          (messages_shown h g now minted thread) s s' msgs e in
      let (there, may, same) = readable_thread-ok h g now minted thread caller t st s x finds in
      let (ms, y, reads, shows) =
        bind-ok (list_messages g now minted thread) (λ ms. pure (all_shown_to h g now minted st ms))
          x s' msgs goes in
      let shape : msgs ≡ all_shown_to h g now minted st ms = ground arith in
      (st, (t, there, may), rw shape (all-kept st ms h g now minted))

  pub found_in :
      (t : SubjectThread) (st : SubjectStanding) (s : SubjectDb) (notices : NotificationDb)
      (x : SubjectRoom)
      → on_subjects
          (readable_thread h g now minted thread caller)
          (record { subjects = s; notices = notices })
        ≡ (ok (t, st), x)
      → readable_thread h g now minted thread caller s ≡ (ok (t, st), x.subjects)
  found_in t st s notices x e =
      elim (Outcome-cases (readable_thread h g now minted thread caller s)) [
        | inl (y, db, fails) ↦ absurd (ground arith)
        | inr (r, db, works) ↦ ground arith
      ]
