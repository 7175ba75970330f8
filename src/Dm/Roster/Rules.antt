-- ===== src/Dm/Roster/Rules.antt =====
-- Each call of the roster keeps to its contract.
use mwanachama_backend_comm.Base.{
  ℕ, Bool, true, false, not, ◌&&◌, refl, inl, inr, Option, String, ◌==◌, ltb, eqb, count,
  find_first, is_some, arith, if◌then◌else◌,
}
use mwanachama_backend_comm.Errors.{
  driver, dm_not_admin, dm_not_found, dm_already_active, dm_self_kick, dm_last_admin,
  dm_not_last_to_leave,
}
use mwanachama_backend_comm.Exec.{Exec, require, ◌>>=◌, ◌>>◌}
use mwanachama_backend_comm.Sql.{Table}
use mwanachama_backend_comm.Sql.Rows.{map_where}
use mwanachama_backend_comm.Sql.Statements.{take}
use mwanachama_backend_comm.Dm.Types.{DmParticipant, invited, active, left, kicked}
use mwanachama_backend_comm.Dm.Roster.{
  Roster, RosterCall, invites, accepts, leaves, kicks, promotes, re_enables, is_row, active_in,
  active_admin_in, active_of, with_state, as_admin, claimable, find_participant, is_admin,
  set_state, upsert_participant, invite, accept, leave, refuse_last_admin, kick, promote,
  claim_emptied_thread, re_enable, re_enable_by, run,
}
use mwanachama_backend_comm.Dm.Roster.Contract.{leads, listed, permitted, written, row_of}
use mwanachama_backend_comm.Dm.Roster.Ran.{
  Ran, Ran-same, and_true, write_back, write_back-Ran, led-Ran, set_state-Ran, upsert-Ran,
  require-Ran, read-Ran,
}

module _ (t : Table DmParticipant) (now : ℕ) where
  invite-Ran :
      (thread actor by : String) (s : Roster)
      → Ran s
          (permitted (invites thread actor by) s)
          (written now (invites thread actor by) s)
          (is_row thread actor)
          (invite t now thread actor by s)
  unfolding invite permitted written find_participant
  invite-Ran thread actor by s =
      let existing = find_first (is_row thread actor) s in
      let add = upsert_participant t now thread actor in
      let go =
        λ (o : Option DmParticipant). (do require (not (active_of o)) dm_already_active; add) in
      led-Ran t now thread by (do o ← take t (is_row thread actor); go o) s
        (not (active_of existing)) (written now (invites thread actor by) s) (is_row thread actor)
        (read-Ran t now (is_row thread actor) go (
          Ran-same (and_true (not (active_of existing))) refl (
            require-Ran t now (not (active_of existing)) dm_already_active add
              (upsert-Ran t now thread actor s))))

  kick-Ran :
      (thread actor by : String) (s : Roster)
      → Ran s
          (permitted (kicks thread actor by) s)
          (written now (kicks thread actor by) s)
          (is_row thread actor)
          (kick t now thread actor by s)
  unfolding kick permitted written
  kick-Ran thread actor by s =
      let k = set_state t now thread actor kicked in
      require-Ran t now (not (actor == by)) dm_self_kick
        (do admin ← is_admin t now thread by; require admin dm_not_admin; k)
        (led-Ran t now thread by k s (listed s thread actor) (written now (kicks thread actor by) s)
          (is_row thread actor) (set_state-Ran t now thread actor kicked s))

  promote-Ran :
      (thread actor by : String) (s : Roster)
      → Ran s
          (permitted (promotes thread actor by) s)
          (written now (promotes thread actor by) s)
          (is_row thread actor)
          (promote t now thread actor by s)
  unfolding promote permitted written
  promote-Ran thread actor by s =
      led-Ran t now thread by
        (write_back t now (is_row thread actor) (as_admin now) dm_not_found thread actor) s
        (listed s thread actor) (written now (promotes thread actor by) s) (is_row thread actor)
        (write_back-Ran t now (is_row thread actor) (as_admin now) dm_not_found thread actor s
          (λ r h. h) (λ r. refl))

  last_admin-Ran :
      {after : Roster} {row : DmParticipant → Bool} {allowed : Bool} (thread : String)
      (admin : Bool) (k : Exec Roster DmParticipant) (s : Roster)
      → Ran s allowed after row (k s)
      → Ran s
          (not (
              admin
              && (eqb (count (active_admin_in thread) s) 1 && ltb 1 (count (active_in thread) s)))
            && allowed)
          after
          row
          ((do refuse_last_admin t now thread admin; k) s)
  unfolding refuse_last_admin
  last_admin-Ran thread false k s r = r
  last_admin-Ran thread true k s r = elim (t.count_law (active_admin_in thread) s) [
    | inr (d, failed) ↦ Ran.refused (driver d) (ground arith)
    | inl admins ↦ elim (t.count_law (active_in thread) s) [
      | inr (d, failed) ↦ Ran.refused (driver d) (ground arith)
      | inl actives ↦ Ran-same refl (ground arith) (
          require-Ran t now
            (not (eqb (count (active_admin_in thread) s) 1 && ltb 1 (count (active_in thread) s)))
            dm_last_admin k r)
    ]
  ]

  leave-Ran :
      (thread actor : String) (s : Roster)
      → Ran s
          (permitted (leaves thread actor) s)
          (written now (leaves thread actor) s)
          (is_row thread actor)
          (leave t now thread actor s)
  unfolding leave permitted written is_admin find_participant
  leave-Ran thread actor s =
      let k = set_state t now thread actor left in
      let r =
        last_admin-Ran thread (leads s thread actor) k s
          (set_state-Ran t now thread actor left s) in
      elim (t.take_law (is_row thread actor) s) [
        | inl read ↦ Ran-same refl (ground arith) r
        | inr (d, failed) ↦ Ran.refused (driver d) (ground arith)
      ]

  re_enable_by-Ran :
      (self : Bool) (thread actor by : String) (s : Roster)
      → Ran s
          (if self
            then not (eqb (count (claimable s thread actor) s) 0)
            else leads s thread by && listed s thread actor)
          (if self
            then map_where (claimable s thread actor) (with_state active now) s
            else map_where (is_row thread actor) (with_state invited now) s)
          (is_row thread actor)
          (re_enable_by t now self thread actor by s)
  unfolding re_enable_by claim_emptied_thread
  re_enable_by-Ran true thread actor by s =
      write_back-Ran t now (claimable s thread actor) (with_state active now) dm_not_last_to_leave
        thread actor s (λ r h. ground arith) (λ r. refl)
  re_enable_by-Ran false thread actor by s =
      led-Ran t now thread by (set_state t now thread actor invited) s (listed s thread actor)
        (map_where (is_row thread actor) (with_state invited now) s) (is_row thread actor)
        (set_state-Ran t now thread actor invited s)

  re_enable-Ran :
      (thread actor by : String) (s : Roster)
      → Ran s
          (permitted (re_enables thread actor by) s)
          (written now (re_enables thread actor by) s)
          (is_row thread actor)
          (re_enable t now thread actor by s)
  unfolding re_enable permitted written find_participant
  re_enable-Ran thread actor by s =
      let k = re_enable_by t now (actor == by) thread actor by in
      read-Ran t now (is_row thread actor) (λ o. (do require (is_some o) dm_not_found; k))
        (require-Ran t now (is_some (find_first (is_row thread actor) s)) dm_not_found k
          (re_enable_by-Ran (actor == by) thread actor by s))

  -- Every call that changes a roster, whatever the database does, either is refused and leaves the
  -- roster as it was, or is permitted and writes exactly what the specification says; if it
  -- returns a row, that is the row that stands in the roster for its thread and actor afterwards.
  -- An invitation of somebody who is active is refused, and an admin may re-enable a row whatever
  -- its state.
  pub run-Ran :
      (call : RosterCall) (s : Roster)
      → Ran s (permitted call s) (written now call s) (row_of call) (run t now call s)
  unfolding run accept permitted written
  run-Ran (invites thread actor by) s = invite-Ran thread actor by s
  run-Ran (accepts thread actor) s =
      Ran-same (unfold permitted in refl) refl
        (unfold written in set_state-Ran t now thread actor active s)
  run-Ran (leaves thread actor) s = leave-Ran thread actor s
  run-Ran (kicks thread actor by) s = kick-Ran thread actor by s
  run-Ran (promotes thread actor by) s = promote-Ran thread actor by s
  run-Ran (re_enables thread actor by) s = re_enable-Ran thread actor by s
