-- ===== src/Subject/Manager/Whole.antt =====
-- A message about a record and the notifications of it are stored together, or neither is.
use mwanachama_backend_comm.Base.{
  ℕ, true, ◌≡◌, refl, sym, ap, ◌∙◌, inl, inr, String, ◌==◌, arith, all, is_blank, Bool-cases,
  Option-cases, find_first, List, some,
}
use mwanachama_backend_comm.Errors.{Error, ok, err, Result}
use mwanachama_backend_comm.Exec.{Transaction}
use mwanachama_backend_comm.Exec.Steps.{Outcome-cases, Result-cases, bind-ok}
use mwanachama_backend_comm.Moderation.Store.Atomic.{committed, rolled_back}
use mwanachama_backend_comm.Notification.Store.{NotificationEngine}
use mwanachama_backend_comm.Subject.Types.{
  SubjectThread, SubjectThreadMessage, SubjectStanding, shown_to, thread_readable_by,
}
use mwanachama_backend_comm.Subject.Store.{SubjectDb, SubjectEngine, stamped_message, get_thread}
use mwanachama_backend_comm.Subject.Manager.{
  SubjectHost, readable_thread, standing_on, answerers_to_tell,
}
use mwanachama_backend_comm.Subject.Posting.{
  SubjectRoom, Posting, on_subjects, post_work, post_whole, new_subject_message,
  post_subject_message_for,
}
use mwanachama_backend_comm.Subject.Manager.Posted.{is_reply, after_posting, post_work-ok}
use mwanachama_backend_comm.Subject.Manager.Fence.{found_in}
use mwanachama_backend_comm.Subject.Manager.Reads.{readable_thread-ok, MayReadThread}
use mwanachama_backend_comm.Notification.Types.{Notification}

module _ (h : SubjectHost) (g : SubjectEngine) (n : NotificationEngine)
    (tx : Transaction SubjectRoom Posting) (now : ℕ) (minted : String) (clock : String → ℕ)
    (minted_for : String → String) where
  readable_thread-state :
      (thread caller : String) (s : SubjectDb)
      → (readable_thread h g now minted thread caller s).1 ≡ s
  unfolding readable_thread get_thread
  readable_thread-state thread caller s =
      elim (g.thread_table.take_law (λ x. x.id == thread) s.threads) [
        | inr (d, fails) ↦ ground arith
        | inl read ↦ elim (Option-cases (find_first (λ x. x.id == thread) s.threads)) [
          | inl missing ↦ ground arith
          | inr (t, there) ↦
              elim (Result-cases (standing_on h caller t.subject_kind t.subject_id)) [
                | inl (x, fails) ↦ ground arith
                | inr (st, stands) ↦ elim (Bool-cases (thread_readable_by t caller st)) [
                  | inl may ↦ ground arith
                  | inr closed ↦ ground arith
                ]
              ]
        ]
      ]

  post_whole-err :
      (caller body regarding : String) (t : SubjectThread) (st : SubjectStanding) (e : Error)
      (s s' : SubjectRoom)
      → post_whole h g n tx now minted clock minted_for caller body regarding (t, st) s
        ≡ (err e, s')
      → s' ≡ s
  post_whole-err caller body regarding t st e s s' k = elim (Bool-cases (is_blank body)) [
    | inl silent ↦ ground arith
    | inr spoken ↦ elim (Result-cases (answerers_to_tell h t caller st)) [
      | inl (x, fails) ↦ ground arith
      | inr (answerers, named) ↦
          let work =
            post_work h g n tx now minted clock minted_for t caller st answerers (
              new_subject_message h g n tx now minted clock minted_for t caller st body
                regarding) in
          elim (Outcome-cases (tx.run work s)) [
            | inr (out, x, works) ↦ absurd (ground arith)
            | inl (x, y, fails) ↦
                let back = rolled_back tx work s x (ap (λ r. r.0) fails) in
                let same : s' ≡ y = ground arith in same ∙ sym (ap (λ r. r.1) fails) ∙ back
          ]
    ]
  ]

  -- The message that is stored.
  abbrev pub new_stored :
      SubjectThread → String → SubjectStanding → String → String → SubjectThreadMessage
  new_stored t caller st body regarding =
      stamped_message g now minted
        (new_subject_message h g n tx now minted clock minted_for t caller st body regarding)

  post_whole-ok :
      (caller body regarding : String) (t : SubjectThread) (st : SubjectStanding)
      (m : SubjectThreadMessage) (s s' : SubjectRoom)
      → post_whole h g n tx now minted clock minted_for caller body regarding (t, st) s ≡ (ok m, s')
      → (out : Posting) × (m ≡ shown_to out.0 st)
        × (out.0
            ≡ stamped_message g now minted (
                new_subject_message h g n tx now minted clock minted_for t caller st body
                  regarding))
        × (s' ≡ after_posting out s)
        × (all (is_reply t) out.1 ≡ true)
  post_whole-ok caller body regarding t st m s s' e = elim (Bool-cases (is_blank body)) [
    | inl silent ↦ absurd (ground arith)
    | inr spoken ↦ elim (Result-cases (answerers_to_tell h t caller st)) [
      | inl (x, fails) ↦ absurd (ground arith)
      | inr (answerers, named) ↦
          let new =
            new_subject_message h g n tx now minted clock minted_for t caller st body regarding in
          let work = post_work h g n tx now minted clock minted_for t caller st answerers new in
          elim (Outcome-cases (tx.run work s)) [
            | inl (x, y, fails) ↦ absurd (ground arith)
            | inr (out, y, runs) ↦
                let works =
                  committed tx work s out (ap (λ r. r.0) runs) ∙ ap (λ r. (ok out, r.1)) runs in
                let (first, after, replies) =
                  post_work-ok h g n tx now minted clock minted_for t caller st answerers new out s
                    y works in
                let same : s' ≡ y = ground arith in
                (out, ground arith, first, same ∙ after, replies)
          ]
    ]
  ]

  in_room :
      (thread caller : String) (s : SubjectRoom)
      → (on_subjects (readable_thread h g now minted thread caller) s).1 ≡ s
  in_room thread caller s = rw (readable_thread-state thread caller s.subjects) refl

  -- What `PostSubjectMessageFor` may come to. Only the second writes.
  pub data Whole (thread caller body regarding : String) (s : SubjectRoom)
      : Result SubjectThreadMessage × SubjectRoom → Type 0 where
    failed : (e : Error) → Whole thread caller body regarding s (err e, s)
    stored :
        (t : SubjectThread) (st : SubjectStanding) (raised : List Notification)
        → find_first (λ x. x.id == thread) s.subjects.threads ≡ some t
        → MayReadThread h caller t st
        → all (is_reply t) raised ≡ true
        → Whole thread caller body regarding s (
          ok (shown_to (new_stored t caller st body regarding) st),
          after_posting (new_stored t caller st body regarding, raised) s,
        )

  ended-Whole :
      (thread caller body regarding : String) (s : SubjectRoom)
      → (r : Result SubjectThreadMessage × SubjectRoom)
      → post_subject_message_for h g n tx now minted clock minted_for thread caller body regarding s
        ≡ r
      → Whole thread caller body regarding s r
  unfolding post_subject_message_for
  ended-Whole thread caller body regarding s (err e, s') k =
      let finds = on_subjects (readable_thread h g now minted thread caller) in
      let same = in_room thread caller s in
      let still : s' ≡ s = elim (Outcome-cases (finds s)) [
        | inl (x, y, fails) ↦
            let end : s' ≡ y = ground arith in end ∙ sym (ap (λ r. r.1) fails) ∙ same
        | inr ((t, st), y, works) ↦
            post_whole-err caller body regarding t st e y s' (ground arith)
            ∙ sym (ap (λ r. r.1) works)
            ∙ same
      ] in
      rw still (failed e)
  ended-Whole thread caller body regarding s (ok m, s') k =
      let finds = on_subjects (readable_thread h g now minted thread caller) in
      let whole = post_whole h g n tx now minted clock minted_for caller body regarding in
      let ((t, st), x, found, goes) = bind-ok finds whole s s' m k in
      let still : x ≡ s = sym (ap (λ r. r.1) found) ∙ in_room thread caller s in
      let (there, may, unchanged) =
        readable_thread-ok h g now minted thread caller t st s.subjects x.subjects (
          found_in h g n tx now minted clock minted_for thread caller t st s.subjects s.notices x
            found) in
      let ((first, raised), shown, is_new, after, replies) =
        post_whole-ok caller body regarding t st m x s' goes in
      let message : m ≡ shown_to (new_stored t caller st body regarding) st =
        rw (shown, is_new) refl in
      let left : s' ≡ after_posting (new_stored t caller st body regarding, raised) s =
        after ∙ rw (is_new, still) refl in
      rw (message, left) (stored t st raised there may replies)

  -- `PostSubjectMessageFor` comes to one of two things. It fails, and every table is as it was; or
  -- the caller may read the thread, and the message that it wrote and the notifications that were
  -- raised for it, all of them replies to that thread, are stored together, and what it returns is
  -- that message as the caller may see it.
  pub post_subject_message_for-Whole :
      (thread caller body regarding : String) (s : SubjectRoom)
      → Whole thread caller body regarding s (
          post_subject_message_for h g n tx now minted clock minted_for thread caller body regarding
            s)
  post_subject_message_for-Whole thread caller body regarding s =
      ended-Whole thread caller body regarding s
        (post_subject_message_for h g n tx now minted clock minted_for thread caller body regarding
          s)
        refl
