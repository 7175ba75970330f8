-- ===== src/Standing/Store/Claims.antt =====
-- What a worker that sends a standing message leaves behind, whatever row it has read before.
use mwanachama_backend_comm.Base.{
  ℕ, Bool, true, false, ◌≡◌, ◌≢◌, refl, sym, ap, ◌∙◌, inl, inr, Option, none, some, [], ◌∷◌, ◌++◌,
  String, arith, ltb, count, if◌then◌else◌, ◌==◌,
}
use mwanachama_backend_comm.Errors.{Error, Result, ok, err}
use mwanachama_backend_comm.Exec.Steps.{Outcome-cases, Result-cases, bind-ok}
use mwanachama_backend_comm.Sql.Rows.{map_where, map_where_none}
use mwanachama_backend_comm.Moderation.Store.Atomic.{committed, rolled_back}
use mwanachama_backend_comm.Chat.Types.{ChatMessage, attachment_is_whole}
use mwanachama_backend_comm.Chat.Messages.{ChatDb, ChatEngine, post}
use mwanachama_backend_comm.Standing.Types.{StandingMessage, Recur}
use mwanachama_backend_comm.Standing.Store.{
  StandingDb, StandingEngine, claimable, sent_at, claim_occurrence, post_for, post_claimed,
  send_work, send_due, due_occurrence, send_occurrence,
}
use mwanachama_backend_comm.Validate.{check}
use mwanachama_backend_comm.Roles.{chat_message}

-- The message that `Post` stores.
abbrev pub posted_as : ℕ → String → ChatMessage → ChatMessage
posted_as now minted m = record m { created_at = now; id = if m.id == "" then minted else m.id }

abbrev pub with_message : ChatMessage → ChatDb → ChatDb
with_message m db = record db { messages = db.messages ++ m ∷ [] }

pub post-ok :
    (g : ChatEngine) (now : ℕ) (minted : String) (given m : ChatMessage) (db db' : ChatDb)
    → post g now minted given db ≡ (ok m, db')
    → (m ≡ posted_as now minted given) × (db' ≡ with_message m db)
unfolding post
post-ok g now minted given m db db' h =
    let new = posted_as now minted given in
    elim (Result-cases (check g.spec chat_message (g.encode_message new))) [
      | inl (e, fails) ↦ absurd (ground arith)
      | inr (u, valid) ↦ elim (Result-cases (attachment_is_whole new)) [
        | inl (e, fails) ↦ absurd (ground arith)
        | inr (v, whole) ↦ elim (g.message_table.insert_law new db.messages) [
          | inr (d, failed) ↦ absurd (ground arith)
          | inl done ↦ (ground arith, ground arith)
        ]
      ]
    ]

module _ {Zone Rule Date : Type 0} (recur : Recur Zone Rule Date) (g : StandingEngine) (clock : ℕ)
    (minted : String) where
  abbrev pub with_claim : StandingMessage → ℕ → StandingDb → StandingDb
  with_claim m at s = record s { standings = map_where (claimable m) (sent_at at) s.standings }

  claim_occurrence-ok :
      (m : StandingMessage) (at : ℕ) (s s' : StandingDb) (b : Bool)
      → claim_occurrence recur g clock minted m at s ≡ (ok b, s')
      → (b ≡ ltb 0 (count (claimable m) s.standings)) × (s' ≡ with_claim m at s)
  unfolding claim_occurrence
  claim_occurrence-ok m at s s' b h =
      elim (g.standing_table.update_law (claimable m) (sent_at at) s.standings) [
        | inr (d, failed) ↦ absurd (ground arith)
        | inl done ↦ (ground arith, ground arith)
      ]

  post_claimed-some :
      (m : StandingMessage) (b : Bool) (s s' : StandingDb) (posted : ChatMessage)
      → post_claimed recur g clock minted m b s ≡ (ok (some posted), s')
      → (b ≡ true)
        × (posted ≡ posted_as clock minted (post_for recur g clock minted m))
        × (s' ≡ record s { chat = with_message posted s.chat })
  post_claimed-some m false s s' posted h = absurd (ground arith)
  post_claimed-some m true s s' posted h =
      elim (Outcome-cases
        (post g.chat_engine clock minted (post_for recur g clock minted m) s.chat)) [
          | inl (e, db, fails) ↦ absurd (ground arith)
          | inr (p, db, works) ↦
              let (same, after) =
                post-ok g.chat_engine clock minted (post_for recur g clock minted m) p s.chat db
                  works in
              (refl, ground arith, ground arith)
        ]

  post_claimed-none :
      (m : StandingMessage) (b : Bool) (s s' : StandingDb)
      → post_claimed recur g clock minted m b s ≡ (ok none, s')
      → (b ≡ false) × (s' ≡ s)
  post_claimed-none m false s s' h = (refl, ground arith)
  post_claimed-none m true s s' h =
      elim (Outcome-cases
        (post g.chat_engine clock minted (post_for recur g clock minted m) s.chat)) [
          | inl (e, db, fails) ↦ absurd (ground arith)
          | inr (p, db, works) ↦ absurd (ground arith)
        ]

  abbrev pub sends : StandingMessage → ℕ → StandingDb → StandingDb
  sends m at s = record (with_claim m at s) {
    chat = with_message (posted_as clock minted (post_for recur g clock minted m)) s.chat;
  }

  -- What a call of `sendDue` may come to. Only the last writes: it moves the row's last occurrence
  -- and stores the message.
  pub data Sent (m : StandingMessage) (now : ℕ) (s : StandingDb)
      : Result (Option ChatMessage) × StandingDb → Type 0 where
    failed : (e : Error) → Sent m now s (err e, s)
    idle : due_occurrence recur m now ≡ none → Sent m now s (ok none, s)
    taken :
        (at : ℕ)
        → due_occurrence recur m now ≡ some at
        → count (claimable m) s.standings ≡ 0
        → Sent m now s (ok none, s)
    sent :
        (at : ℕ)
        → due_occurrence recur m now ≡ some at
        → count (claimable m) s.standings ≢ 0
        → Sent m now s
            (ok (some (posted_as clock minted (post_for recur g clock minted m))), sends m at s)

  send_work-some :
      (m : StandingMessage) (at : ℕ) (s s' : StandingDb) (posted : ChatMessage)
      → send_work recur g clock minted m at s ≡ (ok (some posted), s')
      → (count (claimable m) s.standings ≢ 0)
        × (posted ≡ posted_as clock minted (post_for recur g clock minted m))
        × (s' ≡ sends m at s)
  unfolding send_work
  send_work-some m at s s' posted h =
      let (b, between, claims, posts) =
        bind-ok (claim_occurrence recur g clock minted m at) (post_claimed recur g clock minted m) s
          s' (some posted) h in
      let (rows, claimed) = claim_occurrence-ok m at s between b claims in
      let (won, message, after) = post_claimed-some m b between s' posted posts in
      (ground arith, message, after ∙ rw (claimed, message) refl)

  send_work-none :
      (m : StandingMessage) (at : ℕ) (s s' : StandingDb)
      → send_work recur g clock minted m at s ≡ (ok none, s')
      → (count (claimable m) s.standings ≡ 0) × (s' ≡ s)
  unfolding send_work
  send_work-none m at s s' h =
      let (b, between, claims, posts) =
        bind-ok (claim_occurrence recur g clock minted m at) (post_claimed recur g clock minted m) s
          s' none h in
      let (rows, claimed) = claim_occurrence-ok m at s between b claims in
      let (lost, after) = post_claimed-none m b between s' posts in
      let none_met : count (claimable m) s.standings ≡ 0 = ground arith in
      (
        none_met,
        after ∙ claimed ∙ rw (map_where_none (claimable m) (sent_at at) s.standings none_met) refl,
      )

  -- What the transaction returned is one of the outcomes.
  run_work-Sent :
      (m : StandingMessage) (now at : ℕ) (s : StandingDb)
      → due_occurrence recur m now ≡ some at
      → (r : Result (Option ChatMessage) × StandingDb)
      → g.tx.run (send_work recur g clock minted m at) s ≡ r
      → Sent m now s r
  run_work-Sent m now at s due (err e, s') h =
      let same = rolled_back g.tx (send_work recur g clock minted m at) s e (ap (λ x. x.0) h) in
      let here : s' ≡ s = sym (ap (λ x. x.1) h) ∙ same in rw here (failed e)
  run_work-Sent m now at s due (ok none, s') h =
      let works = committed g.tx (send_work recur g clock minted m at) s none (ap (λ x. x.0) h) in
      let (none_met, same) = send_work-none m at s s' (works ∙ ap (λ x. (ok none, x.1)) h) in
      rw same (taken at due none_met)
  run_work-Sent m now at s due (ok (some p), s') h =
      let works =
        committed g.tx (send_work recur g clock minted m at) s (some p) (ap (λ x. x.0) h) in
      let (met, message, after) =
        send_work-some m at s s' p (works ∙ ap (λ x. (ok (some p), x.1)) h) in
      rw (message, after) (sent at due met)

  send_occurrence-Sent :
      (m : StandingMessage) (now : ℕ) (s : StandingDb) (due : Option ℕ)
      → due_occurrence recur m now ≡ due
      → Sent m now s (send_occurrence recur g clock minted m due s)
  send_occurrence-Sent m now s none h = idle h
  send_occurrence-Sent m now s (some at) h =
      run_work-Sent m now at s h (g.tx.run (send_work recur g clock minted m at) s) refl

  -- A call of `sendDue`, of whatever row was read before and at whatever time, comes to one of
  -- four things. It fails, or nothing is due, or no row is left that it may claim, and then every
  -- table is as it was; or it moves the row's last occurrence to the one that was due and stores
  -- the message, both.
  pub send_due-Sent :
      (m : StandingMessage) (now : ℕ) (s : StandingDb)
      → Sent m now s (send_due recur g clock minted m now s)
  unfolding send_due
  send_due-Sent m now s = send_occurrence-Sent m now s (due_occurrence recur m now) refl
