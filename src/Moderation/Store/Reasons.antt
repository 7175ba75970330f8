-- ===== src/Moderation/Store/Reasons.antt =====
-- moderation_impl.go and moderation_dismissal_impl.go: why `CreateRemoval` and `DismissReports`
-- refuse, where the database does what it is asked.
use mwanachama_backend_comm.Base.{
  ℕ, Bool, ◌≡◌, inl, inr, Option, none, some, [], ◌∷◌, ◌++◌, String, ◌==◌, arith, any, find_first,
  is_some, if◌then◌else◌, Bool-cases, Option-cases,
}
use mwanachama_backend_comm.Errors.{Error, Result, ok, err, driver, pg, already_removed}
use mwanachama_backend_comm.Errors.Classify.{classify}
use mwanachama_backend_comm.Errors.Classify.Laws.{classify-already_removed}
use mwanachama_backend_comm.Exec.Steps.{Result-cases}
use mwanachama_backend_comm.Sql.Memory.{memory}
use mwanachama_backend_comm.Sql.Commit.{in_memory}
use mwanachama_backend_comm.Moderation.Types.{Removal, Dismissal}
use mwanachama_backend_comm.Moderation.Acts.{
  Actor, ActEntry, withheld_act, report_left_standing_act,
}
use mwanachama_backend_comm.Moderation.Store.{
  ModerationDb, ModerationEngine, write_act, removal_work, create_removal, dismissal_work,
  dismiss_reports, stamped_removal, stamped_dismissal,
}

-- The engine, with the tables of removals and dismissals and their transactions in memory.
abbrev pub reliable_moderation :
    {L : Type 0}
    → ModerationEngine L
    → (Removal → Removal → Bool)
    → (Dismissal → Dismissal → Bool)
    → ModerationEngine L
reliable_moderation g same_removal same_dismissal = record g {
  removal_table = memory same_removal;
  dismissal_table = memory same_dismissal;
  removal_tx = in_memory;
  dismissal_tx = in_memory;
}

-- What a violated unique key is reported as.
abbrev pub taken_key : Error
taken_key = classify (driver (pg "23505" "" "" "" ""))

-- Why the log would not take an act.
abbrev pub act_failure : {L : Type 0} → Result L → Option Error
act_failure (ok log) = none
act_failure (err x) = some (classify x)

module _ {L : Type 0} (given : ModerationEngine L) (same_removal : Removal → Removal → Bool)
    (same_dismissal : Dismissal → Dismissal → Bool) (s : ModerationDb L) (wall minted : String)
    (actor : Actor) (now : ℕ) where
  abbrev g : ModerationEngine L
  g = reliable_moderation given same_removal same_dismissal

  -- The first reason against a removal: its unique key is taken, or its act cannot be logged.
  abbrev pub removal_reason : Removal → Option Error
  removal_reason new =
      if any (same_removal new) s.removals
      then some taken_key
      else act_failure (given.write_act (withheld_act new wall actor) s.log)

  -- The first reason against a dismissal: a removal withholds its message, its unique key is taken,
  -- or its act cannot be logged.
  abbrev pub dismissal_reason : Dismissal → Option Error
  dismissal_reason new =
      if is_some (find_first (λ m. m.message_id == new.message_id) s.removals)
      then some already_removed
      else if any (same_dismissal new) s.dismissals
      then some taken_key
      else act_failure (given.write_act (report_left_standing_act new wall actor) s.log)

  -- A call for which there is a reason returns it and changes nothing; the others log their act
  -- and write their row.
  pub data Settled {A : Type 0} (reason : Option Error) (act : ActEntry) (row : A)
      (after : L → ModerationDb L) : Result A × ModerationDb L → Type 0 where
    refused : (e : Error) → reason ≡ some e → Settled reason act row after (err e, s)
    written :
        (log : L)
        → reason ≡ none
        → given.write_act act s.log ≡ ok log
        → Settled reason act row after (ok row, after log)

  Settled-same :
      {A : Type 0} {reason : Option Error} {act : ActEntry} {row : A} {after : L → ModerationDb L}
      {out out' : Result A × ModerationDb L}
      → out' ≡ out
      → Settled reason act row after out
      → Settled reason act row after out'
  Settled-same same settled = rw same settled

  abbrev pub with_removal : Removal → L → ModerationDb L
  with_removal new log = record s { removals = s.removals ++ new ∷ []; log = log }

  abbrev pub with_dismissal : Dismissal → L → ModerationDb L
  with_dismissal new log = record s { dismissals = s.dismissals ++ new ∷ []; log = log }

  create_removal-Settled :
      (rem : Removal)
      → Settled
          (removal_reason (stamped_removal rem minted now))
          (withheld_act (stamped_removal rem minted now) wall actor)
          (stamped_removal rem minted now)
          (with_removal (stamped_removal rem minted now))
          (create_removal g rem wall actor minted now s)
  unfolding create_removal removal_work write_act
  create_removal-Settled rem =
      let new = stamped_removal rem minted now in
      elim (Bool-cases (any (same_removal new) s.removals)) [
        | inl clash ↦ Settled-same (ground arith) (Settled.refused taken_key (ground arith))
        | inr free ↦ elim (Result-cases (given.write_act (withheld_act new wall actor) s.log)) [
          | inl (x, fails) ↦
              Settled-same (ground arith) (Settled.refused (classify x) (ground arith))
          | inr (log, logs) ↦ Settled-same (ground arith) (Settled.written log (ground arith) logs)
        ]
      ]

  dismiss_reports-Settled :
      (d : Dismissal)
      → Settled
          (dismissal_reason (stamped_dismissal d minted now))
          (report_left_standing_act (stamped_dismissal d minted now) wall actor)
          (stamped_dismissal d minted now)
          (with_dismissal (stamped_dismissal d minted now))
          (dismiss_reports g d wall actor minted now s)
  unfolding dismiss_reports dismissal_work write_act
  dismiss_reports-Settled d =
      let new = stamped_dismissal d minted now in
      let same = classify-already_removed in
      elim (Option-cases (find_first (λ m. m.message_id == new.message_id) s.removals)) [
        | inr (m, there) ↦
            Settled-same (ground arith) (Settled.refused already_removed (ground arith))
        | inl absent ↦ elim (Bool-cases (any (same_dismissal new) s.dismissals)) [
          | inl clash ↦ Settled-same (ground arith) (Settled.refused taken_key (ground arith))
          | inr free ↦
              elim (Result-cases
                (given.write_act (report_left_standing_act new wall actor) s.log)) [
                  | inl (x, fails) ↦
                      Settled-same (ground arith) (Settled.refused (classify x) (ground arith))
                  | inr (log, logs) ↦
                      Settled-same (ground arith) (Settled.written log (ground arith) logs)
                ]
        ]
      ]

  -- Over tables and transactions in memory, a removal or a dismissal for which there is a reason
  -- against it returns the first such reason and changes nothing, and one for which there is none
  -- logs its act and writes its row, both, and nothing else. The reasons against a removal are, in
  -- this order, that a removal has its unique key, and that its act cannot be logged; those
  -- against a dismissal, that a removal withholds its message, that a dismissal has its unique
  -- key, and that its act cannot be logged. A key that is taken is reported as `classify` maps it,
  -- and so is the error of the log.
  pub acts-Settled :
      (rem : Removal) (d : Dismissal)
      → Settled
          (removal_reason (stamped_removal rem minted now))
          (withheld_act (stamped_removal rem minted now) wall actor)
          (stamped_removal rem minted now)
          (with_removal (stamped_removal rem minted now))
          (create_removal g rem wall actor minted now s)
        × Settled
            (dismissal_reason (stamped_dismissal d minted now))
            (report_left_standing_act (stamped_dismissal d minted now) wall actor)
            (stamped_dismissal d minted now)
            (with_dismissal (stamped_dismissal d minted now))
            (dismiss_reports g d wall actor minted now s)
  acts-Settled rem d = (create_removal-Settled rem, dismiss_reports-Settled d)
