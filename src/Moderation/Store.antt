-- ===== src/Moderation/Store.antt =====
-- moderation_impl.go and moderation_dismissal_impl.go: what `ModerationStore` does to its tables and
-- to the log of acts.
pub mod Atomic
pub mod Decided
pub mod Reasons
use mwanachama_backend_comm.Base.{
  ℕ, Bool, true, false, not, ◌&&◌, Option, none, some, List, String, ◌==◌, ltb, eqb, is_some,
  newest_first, if◌then◌else◌, time_or, id_or,
}
use mwanachama_backend_comm.Errors.{
  Error, Result, ok, err, moderation_not_found, already_decided, reviewer_is_remover,
  already_removed,
}
use mwanachama_backend_comm.Errors.Classify.{reference_to}
use mwanachama_backend_comm.Exec.{Exec, Transaction, pure, raise, require, ◌>>=◌, ◌>>◌}
use mwanachama_backend_comm.Sql.{Table}
use mwanachama_backend_comm.Sql.Statements.{classified, take, list, insert, update}
use mwanachama_backend_comm.Moderation.Types.{
  Report, Removal, Dismissal, Dispute, DisputeState, open_dispute,
}
use mwanachama_backend_comm.Moderation.Acts.{
  ActEntry, Actor, withheld_act, dispute_outcome_act, report_left_standing_act,
}

-- The tables that the store keeps, and the log that the host's `ActWriter` keeps beside them.
pub record ModerationDb (L : Type 0) : Type 0 where
  pub reports : List Report
  pub removals : List Removal
  pub dismissals : List Dismissal
  pub disputes : List Dispute
  pub log : L

-- The database and `ActWriter`, which writes inside the transaction that it is given.
pub record ModerationEngine (L : Type 0) : Type 0 where
  pub report_table : Table Report
  pub removal_table : Table Removal
  pub dismissal_table : Table Dismissal
  pub dispute_table : Table Dispute
  pub write_act : ActEntry → L → Result L
  pub removal_tx : Transaction (ModerationDb L) Removal
  pub dismissal_tx : Transaction (ModerationDb L) Dismissal
  pub dispute_tx : Transaction (ModerationDb L) Dispute

abbrev pub is_open_state : DisputeState → Bool
is_open_state open_dispute = true
is_open_state _ = false

abbrev pub stamped_report : Report → String → ℕ → Report
stamped_report r minted now = record r {
  id = id_or r.id minted;
  reported_at = time_or r.reported_at now;
}

abbrev pub stamped_removal : Removal → String → ℕ → Removal
stamped_removal r minted now = record r {
  id = id_or r.id minted;
  removed_at = time_or r.removed_at now;
}

abbrev pub stamped_dismissal : Dismissal → String → ℕ → Dismissal
stamped_dismissal d minted now = record d {
  id = id_or d.id minted;
  dismissed_at = time_or d.dismissed_at now;
}

-- A new dispute is open, whatever its caller wrote.
abbrev pub stamped_dispute : Dispute → String → ℕ → Dispute
stamped_dispute d minted now = record d {
  id = id_or d.id minted;
  raised_at = time_or d.raised_at now;
  held_since = time_or d.held_since now;
  state = open_dispute;
  decided_by = "";
  decided_at = none;
}

abbrev pub decided : DisputeState → String → ℕ → Dispute → Dispute
decided outcome by now d = record d { state = outcome; decided_by = by; decided_at = some now }

module _ {L : Type 0} where
  -- A statement on one table.
  abbrev pub on_reports : {A : Type 0} → Exec (List Report) A → Exec (ModerationDb L) A
  on_reports m s = let (r, rows) = m s.reports in (r, record s { reports = rows })

  abbrev pub on_removals : {A : Type 0} → Exec (List Removal) A → Exec (ModerationDb L) A
  on_removals m s = let (r, rows) = m s.removals in (r, record s { removals = rows })

  abbrev pub on_dismissals : {A : Type 0} → Exec (List Dismissal) A → Exec (ModerationDb L) A
  on_dismissals m s = let (r, rows) = m s.dismissals in (r, record s { dismissals = rows })

  abbrev pub on_disputes : {A : Type 0} → Exec (List Dispute) A → Exec (ModerationDb L) A
  on_disputes m s = let (r, rows) = m s.disputes in (r, record s { disputes = rows })

  -- `Take` with `ErrModerationNotFound` for no row.
  abbrev pub found : {A : Type 0} → Option A → Exec (ModerationDb L) A
  found none = raise moderation_not_found
  found (some a) = pure a

module _ {L : Type 0} (g : ModerationEngine L) where
  pub write_act : ActEntry → Exec (ModerationDb L) (Unit {0})
  write_act e s = elim (g.write_act e s.log) [
    | ok log ↦ (ok tt, record s { log = log })
    | err x ↦ (err x, s)
  ]

  pub file_report : Report → String → ℕ → Exec (ModerationDb L) Report
  file_report r minted now = do
    classified (on_reports (insert g.report_table (stamped_report r minted now)))
    pure (stamped_report r minted now)

  pub list_reports_for_message : String → Exec (ModerationDb L) (List Report)
  list_reports_for_message message = on_reports (
      list g.report_table (λ r. r.message_id == message)
        (λ a b. newest_first a.reported_at a.id b.reported_at b.id))

  pub list_report_queue : String → Exec (ModerationDb L) (List Report)
  list_report_queue structure = on_reports (
      list g.report_table (λ r. r.structure_id == structure)
        (λ a b. newest_first a.reported_at a.id b.reported_at b.id))

  -- What `CreateRemoval` does inside its transaction.
  unfoldable pub removal_work : Removal → String → Actor → Exec (ModerationDb L) Removal
  unfolding write_act
  removal_work rem wall actor = do
    on_removals (insert g.removal_table rem)
    write_act (withheld_act rem wall actor)
    pure rem

  unfoldable pub create_removal :
      Removal → String → Actor → String → ℕ → Exec (ModerationDb L) Removal
  create_removal rem wall actor minted now =
      classified (g.removal_tx.run (removal_work (stamped_removal rem minted now) wall actor))

  pub get_removal : String → Exec (ModerationDb L) Removal
  get_removal id = do row ← on_removals (take g.removal_table (λ r. r.id == id)); found row

  pub get_removal_for_message : String → Exec (ModerationDb L) Removal
  get_removal_for_message message = do
    row ← on_removals (take g.removal_table (λ r. r.message_id == message))
    found row

  pub list_removals_for_structure : String → Exec (ModerationDb L) (List Removal)
  list_removals_for_structure structure = on_removals (
      list g.removal_table (λ r. r.structure_id == structure)
        (λ a b. newest_first a.removed_at a.id b.removed_at b.id))

  -- `CreateDispute` reports a removal that is not there as a bad reference.
  abbrev pub disputed : Option Removal → Exec (ModerationDb L) (Unit {0})
  disputed none = raise (reference_to "removal_id")
  disputed (some rem) = pure tt

  pub create_dispute : Dispute → String → ℕ → Exec (ModerationDb L) Dispute
  create_dispute d minted now = do
    removal ← on_removals (take g.removal_table (λ r. r.id == d.removal_id))
    disputed removal
    classified (on_disputes (insert g.dispute_table (stamped_dispute d minted now)))
    pure (stamped_dispute d minted now)

  pub get_dispute : String → Exec (ModerationDb L) Dispute
  get_dispute id = do row ← on_disputes (take g.dispute_table (λ d. d.id == id)); found row

  pub get_dispute_for_removal : String → Exec (ModerationDb L) Dispute
  get_dispute_for_removal removal = do
    row ← on_disputes (take g.dispute_table (λ d. d.removal_id == removal))
    found row

  -- What `DecideDispute` does inside its transaction.
  unfoldable pub decide_work :
      String → DisputeState → String → ℕ → String → Actor → Exec (ModerationDb L) Dispute
  unfolding get_dispute get_removal write_act
  decide_work id outcome by now wall actor = do
    d ← get_dispute id
    require (is_open_state d.state) already_decided
    rem ← get_removal d.removal_id
    require (not (rem.removed_by == by)) reviewer_is_remover
    on_disputes (update g.dispute_table (λ e. e.id == id) (decided outcome by now))
    out ← get_dispute id
    write_act (dispute_outcome_act rem out wall actor)
    pure out

  unfoldable pub decide_dispute :
      String → DisputeState → String → ℕ → String → Actor → Exec (ModerationDb L) Dispute
  decide_dispute id outcome by now wall actor =
      g.dispute_tx.run (decide_work id outcome by now wall actor)

  -- What `DismissReports` does inside its transaction.
  unfoldable pub dismissal_work : Dismissal → String → Actor → Exec (ModerationDb L) Dismissal
  unfolding write_act
  dismissal_work d wall actor = do
    removal ← on_removals (take g.removal_table (λ r. r.message_id == d.message_id))
    require (not (is_some removal)) already_removed
    on_dismissals (insert g.dismissal_table d)
    write_act (report_left_standing_act d wall actor)
    pure d

  unfoldable pub dismiss_reports :
      Dismissal → String → Actor → String → ℕ → Exec (ModerationDb L) Dismissal
  dismiss_reports d wall actor minted now =
      classified (g.dismissal_tx.run (dismissal_work (stamped_dismissal d minted now) wall actor))

  pub get_dismissal_for_message : String → Exec (ModerationDb L) Dismissal
  get_dismissal_for_message message = do
    row ← on_dismissals (take g.dismissal_table (λ d. d.message_id == message))
    found row
