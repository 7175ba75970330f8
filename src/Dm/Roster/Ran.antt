-- ===== src/Dm/Roster/Ran.antt =====
-- How a call on a roster may end, and how the steps of a call keep to that.
use mwanachama_backend_comm.Base.{
  ℕ, Bool, true, false, not, ◌&&◌, ◌≡◌, refl, inl, inr, Option, some, String, eqb, count,
  find_first, arith, Bool-cases, ◌∙◌, eq_refl,
}
use mwanachama_backend_comm.Errors.{
  Error, DriverError, driver, Result, ok, err, dm_not_admin, dm_not_found,
}
use mwanachama_backend_comm.Errors.Classify.{classify}
use mwanachama_backend_comm.Exec.{Exec, require, ◌>>=◌, ◌>>◌}
use mwanachama_backend_comm.Sql.{Table}
use mwanachama_backend_comm.Sql.Rows.{
  map_where, upsert_rows, map_where_none, find_first-map_where, find_first-upsert_rows,
}
use mwanachama_backend_comm.Sql.Statements.{classified, update, take}
use mwanachama_backend_comm.Dm.Types.{DmParticipant, DmParticipantState, invited}
use mwanachama_backend_comm.Dm.Roster.{
  Roster, is_row, with_state, invitation, find_participant, is_admin, must_find_participant,
  set_state, upsert_participant,
}
use mwanachama_backend_comm.Dm.Roster.Contract.{leads, listed}

-- How a call from `s` ended: refused with the roster as it was; or, being allowed, with the roster
-- `after` and the row that stands there; or with that roster, the driver having failed to read
-- the row back.
pub data Ran (s : Roster) (allowed : Bool) (after : Roster) (row : DmParticipant → Bool)
    (out : Result DmParticipant × Roster) : Type 0 where
  refused : (e : Error) → out ≡ (err e, s) → Ran s allowed after row out
  wrote :
      (p : DmParticipant)
      → allowed ≡ true
      → out ≡ (ok p, after)
      → find_first row after ≡ some p
      → Ran s allowed after row out
  unread :
      (d : DriverError)
      → allowed ≡ true
      → out ≡ (err (driver d), after)
      → Ran s allowed after row out

pub and_true : (b : Bool) → b ≡ (b && true)
and_true true = refl
and_true false = refl

pub Ran-same :
    {s after : Roster} {row : DmParticipant → Bool} {allowed allowed' : Bool}
    {out out' : Result DmParticipant × Roster}
    → allowed' ≡ allowed
    → out' ≡ out
    → Ran s allowed after row out
    → Ran s allowed' after row out'
Ran-same a o (refused e h) = Ran.refused e (o ∙ h)
Ran-same a o (wrote p may h found) = Ran.wrote p (a ∙ may) (o ∙ h) found
Ran-same a o (unread d may h) = Ran.unread d (a ∙ may) (o ∙ h)

module _ (t : Table DmParticipant) (now : ℕ) where
  -- The tail that all updates share: write, refuse if no row was met, read the row back.
  abbrev pub write_back :
      (DmParticipant → Bool)
      → (DmParticipant → DmParticipant)
      → Error
      → String
      → String
      → Exec Roster DmParticipant
  write_back q set e thread actor = do
    affected ← classified (update t q set)
    require (not (eqb affected 0)) e
    must_find_participant t now thread actor

  pub write_back-Ran :
      (q : DmParticipant → Bool) (set : DmParticipant → DmParticipant) (e : Error)
      (thread actor : String) (s : Roster)
      → ((r : DmParticipant) → q r ≡ true → is_row thread actor r ≡ true)
      → ((r : DmParticipant) → is_row thread actor (set r) ≡ is_row thread actor r)
      → Ran s
          (not (eqb (count q s) 0))
          (map_where q set s)
          (is_row thread actor)
          (write_back q set e thread actor s)
  unfolding must_find_participant
  write_back-Ran q set e thread actor s sub keeps = elim (t.update_law q set s) [
    | inr (d, failed) ↦ Ran.refused (classify (driver d)) (ground arith)
    | inl done ↦ elim (Bool-cases (eqb (count q s) 0)) [
      | inl nobody ↦ Ran.refused e (ground (arith, map_where_none q set s))
      | inr met ↦
          let (p, found) =
            find_first-map_where q (is_row thread actor) set s sub keeps (ground arith) in
          elim (t.take_law (is_row thread actor) (map_where q set s)) [
            | inl read ↦ Ran.wrote p (rw met) (ground arith) found
            | inr (d, failed) ↦ Ran.unread d (rw met) (ground arith)
          ]
    ]
  ]

  -- The guard that four calls begin with: the caller leads the thread.
  pub led-Ran :
      (thread by : String) (k : Exec Roster DmParticipant) (s : Roster) (allowed : Bool)
      (after : Roster) (row : DmParticipant → Bool)
      → Ran s allowed after row (k s)
      → Ran s
          (leads s thread by && allowed)
          after
          row
          ((do admin ← is_admin t now thread by; require admin dm_not_admin; k) s)
  unfolding is_admin find_participant
  led-Ran thread by k s allowed after row r = elim (t.take_law (is_row thread by) s) [
    | inr (d, failed) ↦ Ran.refused (driver d) (ground arith)
    | inl read ↦ elim (Bool-cases (leads s thread by)) [
      | inl led ↦ Ran-same (ground arith) (ground arith) r
      | inr other ↦ Ran.refused dm_not_admin (ground arith)
    ]
  ]

  pub set_state-Ran :
      (thread actor : String) (state : DmParticipantState) (s : Roster)
      → Ran s
          (listed s thread actor)
          (map_where (is_row thread actor) (with_state state now) s)
          (is_row thread actor)
          (set_state t now thread actor state s)
  unfolding set_state
  set_state-Ran thread actor state s =
      write_back-Ran (is_row thread actor) (with_state state now) dm_not_found thread actor s
        (λ r h. h) (λ r. refl)

  pub upsert-Ran :
      (thread actor : String) (s : Roster)
      → Ran s true
          (upsert_rows
            (is_row thread actor)
            (with_state invited now)
            (invitation thread actor now)
            s)
          (is_row thread actor)
          (upsert_participant t now thread actor s)
  unfolding upsert_participant must_find_participant
  upsert-Ran thread actor s =
      let row = is_row thread actor in
      let new = invitation thread actor now in
      let after = upsert_rows row (with_state invited now) new s in
      elim (t.upsert_law row (with_state invited now) new s) [
        | inr (d, failed) ↦ Ran.refused (classify (driver d)) (ground arith)
        | inl done ↦
            let (p, found) =
              find_first-upsert_rows row (with_state invited now) new s (λ r. refl)
                (rw (eq_refl thread, eq_refl actor)) in
            elim (t.take_law row after) [
              | inl read ↦ Ran.wrote p refl (ground arith) found
              | inr (d, failed) ↦ Ran.unread d refl (ground arith)
            ]
      ]

  pub require-Ran :
      {s after : Roster} {row : DmParticipant → Bool} {allowed : Bool} (b : Bool) (e : Error)
      (k : Exec Roster DmParticipant)
      → Ran s allowed after row (k s)
      → Ran s (b && allowed) after row ((do require b e; k) s)
  require-Ran true e k r = r
  require-Ran false e k r = Ran.refused e refl

  pub read-Ran :
      {s after : Roster} {row : DmParticipant → Bool} {allowed : Bool} (q : DmParticipant → Bool)
      (k : Option DmParticipant → Exec Roster DmParticipant)
      → Ran s allowed after row (k (find_first q s) s)
      → Ran s allowed after row ((do found ← take t q; k found) s)
  read-Ran {s} q k r = elim (t.take_law q s) [
    | inl read ↦ Ran-same refl (ground arith) r
    | inr (d, failed) ↦ Ran.refused (driver d) (ground arith)
  ]
