-- ===== src/Subject/Manager/Posted.antt =====
-- What the work of posting to a thread leaves behind.
use mwanachama_backend_comm.Base.{
  ℕ, Bool, true, ◌&&◌, ◌≡◌, refl, sym, ◌∙◌, inl, inr, List, [], ◌∷◌, ◌++◌, String, ◌==◌, eq_refl,
  arith, all, Bool-cases, append_nil, append_snoc, Option-cases,
}
use mwanachama_backend_comm.Errors.{ok}
use mwanachama_backend_comm.Exec.{Exec, Transaction, pure, ◌>>=◌}
use mwanachama_backend_comm.Exec.Steps.{Outcome-cases, Result-cases, bind-ok, lifted}
use mwanachama_backend_comm.Notification.Types.{Notification}
use mwanachama_backend_comm.Notification.Store.{
  NotificationDb, NotificationEngine, raise_notification,
}
use mwanachama_backend_comm.Notification.Store.Muting.{
  raise_notification-ok, raise_notification-err,
}
use mwanachama_backend_comm.Subject.Types.{
  SubjectThread, SubjectThreadMessage, SubjectStanding, is_private,
}
use mwanachama_backend_comm.Subject.Store.{
  SubjectDb, SubjectEngine, post, stamped_message, audience_authors,
}
use mwanachama_backend_comm.Subject.Manager.{SubjectHost, reply_recipients}
use mwanachama_backend_comm.Subject.Posting.{
  SubjectRoom, Posting, reply_notification, reply_event, raise_replies, is_notification_muted,
  on_subjects, on_notices, raise_for, post_to, post_work, reply_room,
}
use mwanachama_backend_comm.Validate.{check}
use mwanachama_backend_comm.Roles.{subject_message}
use mwanachama_backend_comm.Notification.Audience.{recipients_for}

-- A notification that replies to a thread.
abbrev pub is_reply : SubjectThread → Notification → Bool
is_reply t n = n.subject_id == t.id && n.event == reply_event t

abbrev pub with_all : List Notification → NotificationDb → NotificationDb
with_all raised s = record s { notifications = s.notifications ++ raised }

abbrev pub with_message : SubjectThreadMessage → SubjectDb → SubjectDb
with_message m s = record s { messages = s.messages ++ m ∷ [] }

-- What a posting leaves in the room.
abbrev pub after_posting : Posting → SubjectRoom → SubjectRoom
after_posting (m, raised) s = record {
  subjects = with_message m s.subjects;
  notices = with_all raised s.notices;
}

module _ (h : SubjectHost) (g : SubjectEngine) (n : NotificationEngine)
    (tx : Transaction SubjectRoom Posting) (now : ℕ) (minted : String) (clock : String → ℕ)
    (minted_for : String → String) where
  raise_replies-ok :
      (t : SubjectThread) (actors : List String) (s s' : NotificationDb)
      (raised : List Notification)
      → raise_replies h g n tx now minted clock minted_for t actors s ≡ (ok raised, s')
      → (s' ≡ with_all raised s) × (all (is_reply t) raised ≡ true)
  raise_replies-ok t [] s s' raised e =
      let shape : raised ≡ [] = ground arith in
      let same : s' ≡ s = ground arith in
      (rw (same, shape, append_nil s.notifications) refl, rw shape refl)
  raise_replies-ok t (actor ∷ actors) s s' raised e =
      elim (Outcome-cases
        (raise_notification n (clock actor) (minted_for actor) (reply_notification t actor) s)) [
          | inl (x, y, fails) ↦ elim (Bool-cases (is_notification_muted x)) [
            | inr stops ↦ absurd (ground arith)
            | inl muted ↦
                let same =
                  raise_notification-err n (clock actor) (minted_for actor)
                    (reply_notification t actor) x s y fails in
                raise_replies-ok t actors s s' raised (ground arith)
          ]
          | inr (first, y, works) ↦
              let (kept, after) =
                raise_notification-ok n (clock actor) (minted_for actor)
                  (reply_notification t actor) first s y works in
              elim (Outcome-cases (raise_replies h g n tx now minted clock minted_for t actors y)) [
                | inl (x, z, fails) ↦ absurd (ground arith)
                | inr (others, z, rest) ↦
                    let (more, replies) = raise_replies-ok t actors y z others rest in
                    let shape : raised ≡ first ∷ others = ground arith in
                    let last : s' ≡ z = ground arith in
                    let mine : is_reply t first ≡ true =
                      rw kept (ground (arith, eq_refl t.id, eq_refl (reply_event t))) in
                    (
                      last
                          ∙ more
                          ∙ rw (after, append_snoc s.notifications others first, shape) refl,
                      rw (shape, mine) replies,
                    )
              ]
        ]

  post-ok :
      (m posted : SubjectThreadMessage) (s s' : SubjectRoom)
      → on_subjects (post g now minted m) s ≡ (ok posted, s')
      → (posted ≡ stamped_message g now minted m)
        × (s' ≡ record s { subjects = with_message posted s.subjects })
  unfolding post
  post-ok m posted s s' e =
      let new = stamped_message g now minted m in
      elim (Result-cases (check g.spec subject_message (g.encode_message new))) [
        | inl (x, bad) ↦ absurd (ground arith)
        | inr (u, valid) ↦ elim (g.message_table.insert_law new s.subjects.messages) [
          | inr (d, fails) ↦ absurd (ground arith)
          | inl done ↦
              let same : posted ≡ new = ground arith in
              let after : s' ≡ record s { subjects = with_message new s.subjects } = ground arith in
              (same, rw same after)
        ]
      ]

  reply_recipients-state :
      (t : SubjectThread) (poster : String) (st : SubjectStanding) (answerers rs : List String)
      (s s' : SubjectRoom)
      → on_subjects (reply_recipients h g now minted t poster st answerers) s ≡ (ok rs, s')
      → s' ≡ s
  unfolding reply_recipients audience_authors
  reply_recipients-state t poster st answerers rs s s' e =
      elim (Bool-cases (is_private t.audience)) [
        | inl secret ↦ ground arith
        | inr open_to_all ↦ elim (Option-cases (g.select_fails s.subjects)) [
          | inl works ↦ ground arith
          | inr (d, fails) ↦ ground arith
        ]
      ]

  notices-ok :
      (t : SubjectThread) (actors : List String) (raised : List Notification) (s s' : SubjectRoom)
      → on_notices (raise_replies h g n tx now minted clock minted_for t actors) s ≡ (ok raised, s')
      → (s' ≡ record s { notices = with_all raised s.notices }) × (all (is_reply t) raised ≡ true)
  notices-ok t actors raised s s' e =
      elim (Outcome-cases (raise_replies h g n tx now minted clock minted_for t actors s.notices)) [
        | inl (x, y, fails) ↦ absurd (ground arith)
        | inr (ns, y, works) ↦
            let (after, replies) = raise_replies-ok t actors s.notices y ns works in
            let same : ns ≡ raised = ground arith in
            let whole : s' ≡ record s { notices = y } = ground arith in
            (whole ∙ rw (after, same) refl, rw (sym same) replies)
      ]

  abbrev raise_to : SubjectThread → SubjectThreadMessage → List String → Exec SubjectRoom Posting
  raise_to t m told = do
    raised ← on_notices (raise_replies h g n tx now minted clock minted_for t told)
    pure (m, raised)

  raise_for-ok :
      (t : SubjectThread) (m : SubjectThreadMessage) (recipients : List String) (out : Posting)
      (s s' : SubjectRoom)
      → raise_for h g n tx now minted clock minted_for t m recipients s ≡ (ok out, s')
      → (out.0 ≡ m)
        × (s' ≡ record s { notices = with_all out.1 s.notices })
        × (all (is_reply t) out.1 ≡ true)
  raise_for-ok t m recipients out s s' e =
      let (told, named, goes) =
        lifted (recipients_for h.recipients (reply_event t) (reply_room t) recipients)
          (raise_to t m) s s' out e in
      let (raised, x, works, ends) =
        bind-ok (on_notices (raise_replies h g n tx now minted clock minted_for t told))
          (λ raised. pure (m, raised)) s s' out goes in
      let (after, replies) = notices-ok t told raised s x works in
      let shape : out ≡ (m, raised) = ground arith in
      let same : s' ≡ x = ground arith in (rw shape refl, rw shape (same ∙ after), rw shape replies)

  pub post_work-ok :
      (t : SubjectThread) (caller : String) (st : SubjectStanding) (answerers : List String)
      (m : SubjectThreadMessage) (out : Posting) (s s' : SubjectRoom)
      → post_work h g n tx now minted clock minted_for t caller st answerers m s ≡ (ok out, s')
      → (out.0 ≡ stamped_message g now minted m)
        × (s' ≡ after_posting out s)
        × (all (is_reply t) out.1 ≡ true)
  unfolding post_work
  post_work-ok t caller st answerers m out s s' e =
      let (rs, x, finds, goes) =
        bind-ok (on_subjects (reply_recipients h g now minted t caller st answerers))
          (post_to h g n tx now minted clock minted_for t m) s s' out e in
      let still = reply_recipients-state t caller st answerers rs s x finds in
      let (posted, y, posts, goes') =
        bind-ok (on_subjects (post g now minted m))
          (λ posted. raise_for h g n tx now minted clock minted_for t posted rs) x s' out goes in
      let (same, stored) = post-ok m posted x y posts in
      let (first, after, replies) = raise_for-ok t posted rs out y s' goes' in
      (first ∙ same, after ∙ rw (stored, still, first) refl, replies)
