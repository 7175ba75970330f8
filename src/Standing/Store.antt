-- ===== src/Standing/Store.antt =====
-- standing_impl.go: what `StandingStore` does. The database is not scoped to a test run.
pub mod Claims
pub mod Reached
pub mod Tracked
pub mod Posts
pub mod Once
use mwanachama_backend_comm.Base.{
  ℕ, suc, ◌+◌, Bool, true, false, not, ◌&&◌, Option, none, some, List, [], ◌∷◌, String, ◌==◌, eqb,
  ltb, is_some, is_blank, trimmed, oldest_first, if◌then◌else◌,
}
use mwanachama_backend_comm.Errors.{
  Error, Result, ok, err, standing_invalid, standing_not_found, standing_stopped,
}
use mwanachama_backend_comm.Exec.{Exec, Transaction, pure, raise, require, lift, ◌>>=◌, ◌>>◌}
use mwanachama_backend_comm.Roles.{standing_message}
use mwanachama_backend_comm.Validate.{Spec, Row, check}
use mwanachama_backend_comm.Sql.{Table}
use mwanachama_backend_comm.Sql.Statements.{classified, take, list, insert, update}
use mwanachama_backend_comm.Chat.Types.{ChatMessage}
use mwanachama_backend_comm.Chat.Messages.{ChatDb, ChatEngine, post}
use mwanachama_backend_comm.Chat.Threads.{attempt}
use mwanachama_backend_comm.Standing.Types.{StandingMessage, stopped, Schedule, Recur}
use mwanachama_backend_comm.Standing.Schedule.{schedule_of}

-- The table of standing messages, and those of chat, which the same database holds.
pub record StandingDb : Type 0 where
  pub standings : List StandingMessage
  pub chat : ChatDb

pub record StandingEngine : Type 0 where
  pub standing_table : Table StandingMessage
  pub spec : Spec
  pub encode_standing : StandingMessage → Row
  pub chat_engine : ChatEngine
  pub tx : Transaction StandingDb (Option ChatMessage)

abbrev pub on_standings : {A : Type 0} → Exec (List StandingMessage) A → Exec StandingDb A
on_standings m s = let (r, rows) = m s.standings in (r, record s { standings = rows })

abbrev pub on_chat : {A : Type 0} → Exec ChatDb A → Exec StandingDb A
on_chat m s = let (r, db) = m s.chat in (r, record s { chat = db })

abbrev pub or_not_found : Option StandingMessage → Exec StandingDb StandingMessage
or_not_found none = raise standing_not_found
or_not_found (some m) = pure m

abbrev pub is_standing : String → String → StandingMessage → Bool
is_standing structure id m = m.id == id && m.structure_id == structure

abbrev pub standing_before : StandingMessage → StandingMessage → Bool
standing_before a b = oldest_first a.created_at a.id b.created_at b.id

abbrev pub running_as : String → String → StandingMessage → Bool
running_as structure id m = is_standing structure id m && not (stopped m)

abbrev pub stopped_by_at : String → ℕ → StandingMessage → StandingMessage
stopped_by_at by at m = record m { stopped_at = some at; stopped_by = by }

-- `last_sent_at IS NULL`, or `last_sent_at = ?`.
abbrev pub last_is : Option ℕ → StandingMessage → Bool
last_is none m = not (is_some m.last_sent_at)
last_is (some at) m = elim m.last_sent_at [ none ↦ false | some last ↦ eqb last at ]

-- The row that `claimOccurrence` looks for.
abbrev pub claimable : StandingMessage → StandingMessage → Bool
claimable seen m = (m.id == seen.id && not (stopped m)) && last_is seen.last_sent_at m

abbrev pub sent_at : ℕ → StandingMessage → StandingMessage
sent_at at m = record m { last_sent_at = some at }

-- `due[len(due)-1]`, of no occurrence none.
abbrev pub last_of : List ℕ → Option ℕ
last_of [] = none
last_of (x ∷ xs) = elim (last_of xs) [ none ↦ some x | some y ↦ some y ]

-- Where the occurrences that are still to be sent begin.
abbrev pub due_from : StandingMessage → ℕ
due_from m = elim m.last_sent_at [ none ↦ m.starts_at | some last ↦ last + 1 ]

module _ {Zone Rule Date : Type 0} (recur : Recur Zone Rule Date) where
  -- The occurrence that `sendDue` sends: the last that is due, if the schedule can be read.
  unfoldable pub due_occurrence : StandingMessage → ℕ → Option ℕ
  unfolding schedule_of
  due_occurrence m now = elim (schedule_of recur m) [
    | err e ↦ none
    | ok sch ↦ last_of (recur.between sch (due_from m) (now + 1))
  ]

  module _ (g : StandingEngine) (clock : ℕ) (minted : String) where
    pub get_standing : String → String → Exec StandingDb StandingMessage
    get_standing structure id = do
      row ← on_standings (take g.standing_table (is_standing structure id))
      or_not_found row

    abbrev pub stamped_standing : StandingMessage → StandingMessage
    stamped_standing m = record m {
      body = trimmed m.body;
      id = minted;
      created_at = clock;
      last_sent_at = none;
      stopped_at = none;
      stopped_by = "";
    }

    unfoldable pub create_standing : StandingMessage → Exec StandingDb StandingMessage
    unfolding get_standing schedule_of
    create_standing given = do
      let m : StandingMessage = stamped_standing given
      lift (check g.spec standing_message (g.encode_standing m))
      lift (schedule_of recur m)
      classified (on_standings (insert g.standing_table m))
      get_standing m.structure_id m.id

    pub list_standing : String → Exec StandingDb (List StandingMessage)
    list_standing structure =
        on_standings (list g.standing_table (λ m. m.structure_id == structure) standing_before)

    abbrev or_already_stopped : ℕ → StandingMessage → Exec StandingDb StandingMessage
    or_already_stopped affected m = do require (ltb 0 affected) standing_stopped; pure m

    unfoldable pub stop_standing : String → String → String → Exec StandingDb StandingMessage
    unfolding get_standing
    stop_standing structure id by = do
      require (not (is_blank by)) standing_invalid
      affected ← classified (
          on_standings (update g.standing_table (running_as structure id) (stopped_by_at by clock)))
      m ← get_standing structure id
      or_already_stopped affected m

    unfoldable pub claim_occurrence : StandingMessage → ℕ → Exec StandingDb Bool
    claim_occurrence m at = do
      affected ← classified (on_standings (update g.standing_table (claimable m) (sent_at at)))
      pure (ltb 0 affected)

    -- The message that is posted for a standing message.
    abbrev pub post_for : StandingMessage → ChatMessage
    post_for m = record {
      id = "";
      structure_id = m.structure_id;
      thread_id = m.thread_id;
      author_id = m.author_id;
      body = m.body;
      created_at = 0;
      attachment_kind = "";
      attachment_id = "";
    }

    abbrev pub post_claimed : StandingMessage → Bool → Exec StandingDb (Option ChatMessage)
    post_claimed m claimed =
        if claimed
        then (do
          posted ← on_chat (post g.chat_engine clock minted (post_for m))
          pure (some posted))
        else pure none

    -- The function that `sendDue` hands to the transaction.
    unfoldable pub send_work : StandingMessage → ℕ → Exec StandingDb (Option ChatMessage)
    unfolding claim_occurrence
    send_work m at = do claimed ← claim_occurrence m at; post_claimed m claimed

    abbrev pub send_occurrence : StandingMessage → Option ℕ → Exec StandingDb (Option ChatMessage)
    send_occurrence m none = pure none
    send_occurrence m (some at) = g.tx.run (send_work m at)

    -- `sendDue`; its message and its Boolean are one option.
    unfoldable pub send_due : StandingMessage → ℕ → Exec StandingDb (Option ChatMessage)
    unfolding due_occurrence send_work
    send_due m now = send_occurrence m (due_occurrence m now)

  -- What the loop of `SendDueStandingMessages` has sent, and the errors it has met.
  abbrev pub Sending : Type 0
  Sending = List ChatMessage × List (String × Error)

  abbrev pub with_outcome : String → Result (Option ChatMessage) → Sending → Sending
  with_outcome id (err e) (sent, failed) = (sent, (id, e) ∷ failed)
  with_outcome id (ok none) (sent, failed) = (sent, failed)
  with_outcome id (ok (some msg)) (sent, failed) = (msg ∷ sent, failed)

  -- The clock and the minted id of a turn are given by the standing message that it sends.
  module _ (g : StandingEngine) (clock : StandingMessage → ℕ) (minted : StandingMessage → String)
      (now : ℕ) where
    abbrev pub send_each : List StandingMessage → Exec StandingDb Sending
    send_each [] = pure ([], [])
    send_each (m ∷ ms) = do
      r ← attempt (send_due g (clock m) (minted m) m now)
      rest ← send_each ms
      pure (with_outcome m.id r rest)

    unfoldable pub send_due_standing_messages : Exec StandingDb Sending
    unfolding send_due
    send_due_standing_messages = do
      running ← on_standings (list g.standing_table (λ m. not (stopped m)) standing_before)
      send_each running
