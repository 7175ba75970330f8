-- ===== src/Moderation/Store/Atomic.antt =====
-- A moderation act and its entry in the log are written together, or neither is.
use mwanachama_backend_comm.Base.{
  ℕ, ◌≡◌, refl, sym, ap, inl, inr, none, [], ◌∷◌, ◌++◌, String, ◌==◌, arith, find_first,
  Option-cases, ◌∙◌,
}
use mwanachama_backend_comm.Errors.{Error, Result, ok, err}
use mwanachama_backend_comm.Exec.{Exec, Transaction}
use mwanachama_backend_comm.Exec.Steps.{Outcome-cases, Result-cases}
use mwanachama_backend_comm.Sql.Statements.{classified}
use mwanachama_backend_comm.Moderation.Types.{Removal, Dismissal}
use mwanachama_backend_comm.Moderation.Acts.{Actor, withheld_act, report_left_standing_act}
use mwanachama_backend_comm.Moderation.Store.{
  ModerationDb, ModerationEngine, write_act, removal_work, create_removal, dismissal_work,
  dismiss_reports, stamped_removal, stamped_dismissal,
}

-- A transaction that returns an error has written nothing.
pub rolled_back :
    {A S : Type 0} (tx : Transaction S A) (work : Exec S A) (s : S) (e : Error)
    → (tx.run work s).0 ≡ err e
    → (tx.run work s).1 ≡ s
rolled_back tx work s e h = elim (Outcome-cases (work s)) [
  | inl (x, s', fails) ↦ rw (tx.rolls_back work s s' x fails) refl
  | inr (a, s', works) ↦ elim (tx.commits work s s' a works) [
    | inl kept ↦ cc
    | inr (x, lost) ↦ rw lost refl
  ]
]

-- A transaction that returns a value has written what its work wrote.
pub committed :
    {A S : Type 0} (tx : Transaction S A) (work : Exec S A) (s : S) (a : A)
    → (tx.run work s).0 ≡ ok a
    → work s ≡ (ok a, (tx.run work s).1)
committed tx work s a h = elim (Outcome-cases (work s)) [
  | inl (x, s', fails) ↦ let back = tx.rolls_back work s s' x fails in cc
  | inr (b, s', works) ↦ elim (tx.commits work s s' b works) [ inl kept ↦ cc | inr (x, lost) ↦ cc ]
]

pub classified-ok :
    {A S : Type 0} (r : Result A × S) (a : A)
    → (classified (λ (s : S). r) r.1).0 ≡ ok a
    → r.0 ≡ ok a
classified-ok (ok b, s) a h = h
classified-ok (err x, s) a h = cc

module _ {L : Type 0} (g : ModerationEngine L) (s : ModerationDb L) (wall minted : String)
    (actor : Actor) (now : ℕ) where
  removal_work-ok :
      (rem r : Removal) (s' : ModerationDb L)
      → removal_work g rem wall actor s ≡ (ok r, s')
      → (r ≡ rem)
        × (log : L) × (g.write_act (withheld_act rem wall actor) s.log ≡ ok log)
        × (s' ≡ record s { removals = s.removals ++ rem ∷ []; log = log })
  unfolding removal_work write_act
  removal_work-ok rem r s' h = elim (g.removal_table.insert_law rem s.removals) [
    | inr (d, failed) ↦ absurd (ground arith)
    | inl done ↦ elim (Result-cases (g.write_act (withheld_act rem wall actor) s.log)) [
      | inl (x, fails) ↦ absurd (ground arith)
      | inr (log, logs) ↦ (ground arith, log, logs, ground arith)
    ]
  ]

  -- A removal that is returned was written together with its entry in the log, and with nothing
  -- else: the removal's row is the new one, and the log is what `ActWriter` made of it.
  pub create_removal_logged :
      (rem r : Removal)
      → (create_removal g rem wall actor minted now s).0 ≡ ok r
      → (log : L) × (g.write_act (withheld_act r wall actor) s.log ≡ ok log)
        × ((create_removal g rem wall actor minted now s).1
            ≡ record s { removals = s.removals ++ r ∷ []; log = log })
  unfolding create_removal
  create_removal_logged rem r h =
      let new = stamped_removal rem minted now in
      let work = removal_work g new wall actor in
      let (same, log, logs, after) =
        removal_work-ok new r (g.removal_tx.run work s).1
          (committed g.removal_tx work s r (classified-ok (g.removal_tx.run work s) r h)) in
      (
        log,
        rw same logs,
        after ∙ ap (λ x. record s { removals = s.removals ++ x ∷ []; log = log }) (sym same),
      )

  dismissal_work-ok :
      (d r : Dismissal) (s' : ModerationDb L)
      → dismissal_work g d wall actor s ≡ (ok r, s')
      → (r ≡ d)
        × (find_first (λ m. m.message_id == d.message_id) s.removals ≡ none)
        × (log : L) × (g.write_act (report_left_standing_act d wall actor) s.log ≡ ok log)
        × (s' ≡ record s { dismissals = s.dismissals ++ d ∷ []; log = log })
  unfolding dismissal_work write_act
  dismissal_work-ok d r s' h =
      elim (g.removal_table.take_law (λ m. m.message_id == d.message_id) s.removals) [
        | inr (x, failed) ↦ absurd (ground arith)
        | inl read ↦
            elim (Option-cases (find_first (λ m. m.message_id == d.message_id) s.removals)) [
              | inr (m, there) ↦ absurd (ground arith)
              | inl absent ↦ elim (g.dismissal_table.insert_law d s.dismissals) [
                | inr (x, failed) ↦ absurd (ground arith)
                | inl done ↦
                    elim (Result-cases
                      (g.write_act (report_left_standing_act d wall actor) s.log)) [
                        | inl (x, fails) ↦ absurd (ground arith)
                        | inr (log, logs) ↦ (ground arith, absent, log, logs, ground arith)
                      ]
              ]
            ]
      ]

  -- A dismissal that is returned was of a message that no removal withholds, and was written
  -- together with its entry in the log, and with nothing else.
  pub dismiss_reports_logged :
      (d r : Dismissal)
      → (dismiss_reports g d wall actor minted now s).0 ≡ ok r
      → (find_first (λ m. m.message_id == r.message_id) s.removals ≡ none)
        × (log : L) × (g.write_act (report_left_standing_act r wall actor) s.log ≡ ok log)
        × ((dismiss_reports g d wall actor minted now s).1
            ≡ record s { dismissals = s.dismissals ++ r ∷ []; log = log })
  unfolding dismiss_reports
  dismiss_reports_logged d r h =
      let new = stamped_dismissal d minted now in
      let work = dismissal_work g new wall actor in
      let (same, absent, log, logs, after) =
        dismissal_work-ok new r (g.dismissal_tx.run work s).1
          (committed g.dismissal_tx work s r (classified-ok (g.dismissal_tx.run work s) r h)) in
      (
        rw same absent,
        log,
        rw same logs,
        after ∙ ap (λ x. record s { dismissals = s.dismissals ++ x ∷ []; log = log }) (sym same),
      )
