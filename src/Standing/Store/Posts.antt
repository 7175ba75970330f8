-- ===== src/Standing/Store/Posts.antt =====
-- A message that is due is sent, where the database does what it is asked.
use mwanachama_backend_comm.Base.{
  ℕ, Bool, true, false, ◌≡◌, refl, some, String, arith, ltb, count, any, none, find_first, List, [],
  ◌∷◌, ◌++◌, ◌+◌, ◌≤◌, Option-cases, inl, inr, is_some, if◌then◌else◌, ap, ◌∙◌,
}
use mwanachama_backend_comm.Errors.{ok}
use mwanachama_backend_comm.Roles.{chat_message}
use mwanachama_backend_comm.Validate.{check}
use mwanachama_backend_comm.Sql.Memory.{memory}
use mwanachama_backend_comm.Sql.Commit.{in_memory}
use mwanachama_backend_comm.Chat.Types.{ChatMessage, attachment_is_whole}
use mwanachama_backend_comm.Chat.Messages.{post, ChatDb}
use mwanachama_backend_comm.Standing.Types.{StandingMessage, Recur, Schedule}
use mwanachama_backend_comm.Standing.Store.{
  StandingDb, StandingEngine, claimable, claim_occurrence, post_for, send_due, send_work,
  due_occurrence, last_of, last_is, send_occurrence, sent_at,
}
use mwanachama_backend_comm.Standing.Store.Claims.{posted_as, sends, with_message}
use mwanachama_backend_comm.Sql.Rows.{map_where, map_where_none}
use mwanachama_backend_comm.Standing.Store.Reached.{has_id}
use mwanachama_backend_comm.Standing.Schedule.{schedule_of}
use mwanachama_backend_comm.Sql.Sole.{map_where_sole, count_sole, found_met, count_met}

-- The engine, with the two tables that a sending uses held in memory.
abbrev pub reliable :
    StandingEngine
    → (StandingMessage → StandingMessage → Bool)
    → (ChatMessage → ChatMessage → Bool)
    → StandingEngine
reliable g same_standing same_message = record g {
  standing_table = memory same_standing;
  chat_engine = record g.chat_engine { message_table = memory same_message };
  tx = in_memory;
}

last_of-snoc : (xs : List ℕ) (at : ℕ) → last_of (xs ++ at ∷ []) ≡ some at
last_of-snoc [] at = refl
last_of-snoc (x ∷ xs) at = rw (last_of-snoc xs at) refl

last_is_same : (r : StandingMessage) → last_is r.last_sent_at r ≡ true
last_is_same r = elim (Option-cases r.last_sent_at) [
  | inl never ↦ ground arith
  | inr (last, e) ↦ ground arith
]

module _ {Zone Rule Date : Type 0} (recur : Recur Zone Rule Date) (given : StandingEngine)
    (same_standing : StandingMessage → StandingMessage → Bool)
    (same_message : ChatMessage → ChatMessage → Bool) (clock : ℕ) (minted : String) where
  abbrev g : StandingEngine
  g = reliable given same_standing same_message

  abbrev new_post : StandingMessage → ChatMessage
  new_post m = posted_as clock minted (post_for recur g clock minted m)

  post-stores :
      (m : ChatMessage) (db : ChatDb)
      → attachment_is_whole m ≡ ok tt
      → check given.chat_engine.spec chat_message
          (given.chat_engine.encode_message (posted_as clock minted m))
        ≡ ok tt
      → any (same_message (posted_as clock minted m)) db.messages ≡ false
      → post g.chat_engine clock minted m db
        ≡ (ok (posted_as clock minted m), with_message (posted_as clock minted m) db)
  unfolding post
  post-stores m db whole valid fresh = ground arith

  -- The message that is to be posted for a row, as its reader should find it.
  abbrev pub message_of : StandingMessage → ChatMessage
  message_of seen = record {
    id = minted;
    structure_id = seen.structure_id;
    thread_id = seen.thread_id;
    author_id = seen.author_id;
    body = seen.body;
    created_at = clock;
    attachment_kind = "";
    attachment_id = "";
  }

  -- The row moved on to the occurrence, and the message behind the others.
  abbrev pub after_sending : StandingMessage → ℕ → StandingDb → StandingDb
  after_sending seen at s = record s {
    standings = map_where (has_id seen.id) (λ r. record r { last_sent_at = some at }) s.standings;
    chat = record s.chat { messages = s.chat.messages ++ message_of seen ∷ [] };
  }

  send_occurrence_running :
      (seen row : StandingMessage) (at : ℕ) (s : StandingDb)
      → find_first (has_id seen.id) s.standings ≡ some row
      → count (has_id seen.id) s.standings ≤ 1
      → claimable seen row ≡ true
      → check given.chat_engine.spec chat_message
          (given.chat_engine.encode_message (message_of seen))
        ≡ ok tt
      → any (same_message (message_of seen)) s.chat.messages ≡ false
      → send_occurrence recur g clock minted seen (some at) s
        ≡ (ok (some (message_of seen)), after_sending seen at s)
  unfolding send_work claim_occurrence
  send_occurrence_running seen row at s found one hit valid fresh =
      let stores = post-stores (post_for recur g clock minted seen) s.chat refl valid fresh in
      let moved =
        map_where_sole (has_id seen.id) (claimable seen) (sent_at at) row s.standings
          (λ x h. ground arith) found one hit in
      let won : ltb 0 (count (claimable seen) s.standings) ≡ true =
        ground (arith, count_met (has_id seen.id) (claimable seen) row s.standings found hit) in
      let sends_it : send_occurrence recur g clock minted seen (some at) s
          ≡ (ok (some (message_of seen)), sends recur g clock minted seen at s) =
        ground arith in
      sends_it
      ∙ ap
          (λ rows. (
            ok (some (message_of seen)),
            record s {
              standings = rows;
              chat = record s.chat { messages = s.chat.messages ++ message_of seen ∷ [] };
            },
          ))
          moved

  send_occurrence_stopped :
      (seen row : StandingMessage) (at : ℕ) (s : StandingDb)
      → find_first (has_id seen.id) s.standings ≡ some row
      → count (has_id seen.id) s.standings ≤ 1
      → claimable seen row ≡ false
      → send_occurrence recur g clock minted seen (some at) s ≡ (ok none, s)
  unfolding send_work claim_occurrence
  send_occurrence_stopped seen row at s found one miss =
      let nobody =
        count_sole (has_id seen.id) (claimable seen) row s.standings (λ x h. ground arith) found one
          miss in
      let same = map_where_none (claimable seen) (sent_at at) s.standings nobody in ground arith

  -- Over tables in memory and a commit that does not fail, a worker that has read a row, and whose
  -- schedule has an occurrence after the last one sent and up to now, finds the row of that id as
  -- it stands now, where one row has the id and the last occurrence is still the one that was
  -- read. If the row has been stopped meanwhile, nothing is sent and nothing changes. If not, a
  -- message with the row's structure, thread, author and body is posted behind the others,
  -- provided that it meets its declared rules and no message has its key, and the row's last
  -- occurrence becomes the latest that is due.
  pub send_due-posts :
      (seen row : StandingMessage) (sch : Schedule Zone Rule Date) (earlier : List ℕ) (now at : ℕ)
      (s : StandingDb)
      → find_first (has_id seen.id) s.standings ≡ some row
      → count (has_id seen.id) s.standings ≤ 1
      → seen.last_sent_at ≡ row.last_sent_at
      → schedule_of recur seen ≡ ok sch
      → recur.between sch
          (elim seen.last_sent_at [ none ↦ seen.starts_at | some last ↦ last + 1 ])
          (now + 1)
        ≡ earlier ++ at ∷ []
      → check given.chat_engine.spec chat_message
          (given.chat_engine.encode_message (message_of seen))
        ≡ ok tt
      → any (same_message (message_of seen)) s.chat.messages ≡ false
      → send_due recur g clock minted seen now s ≡ (
          if is_some row.stopped_at
          then (ok none, s)
          else (ok (some (message_of seen)), after_sending seen at s))
  unfolding send_due due_occurrence
  send_due-posts seen row sch earlier now at s found one same schedule occurrences valid fresh =
      let last = last_of-snoc earlier at in
      let due : due_occurrence recur seen now ≡ some at = ground arith in
      elim (Option-cases row.stopped_at) [
        | inl running ↦
            let mine = found_met (has_id seen.id) row s.standings found in
            let last_as_read = last_is_same row in
            let hit : claimable seen row ≡ true = rw (same, mine, last_as_read, running) refl in
            let sent = send_occurrence_running seen row at s found one hit valid fresh in
            rw (due, running) sent
        | inr (when, ended) ↦
            let miss : claimable seen row ≡ false = ground arith in
            let nothing = send_occurrence_stopped seen row at s found one miss in
            rw (due, ended) nothing
      ]
