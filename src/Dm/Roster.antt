-- ===== src/Dm/Roster.antt =====
-- dm_roster_impl.go: who is on a conversation's roster, and who may change it. All calls return the
-- row that they have read back, `Leave` and `Kick` too, whose callers are given the error only.
pub mod Contract
pub mod Ran
pub mod Rules
pub mod Unique
pub mod Leading
pub mod Claims
pub mod Succession
pub mod Return
use mwanachama_backend_comm.Base.{
  ℕ, Bool, true, false, not, ◌&&◌, Option, none, some, any, is_some, List, [], ◌∷◌, String, ◌==◌,
  ltb, eqb, if◌then◌else◌,
}
use mwanachama_backend_comm.Errors.{
  Error, Result, ok, err, dm_not_found, dm_not_admin, dm_already_active, dm_last_admin,
  dm_self_kick, dm_not_last_to_leave,
}
use mwanachama_backend_comm.Exec.{Exec, pure, raise, require, ◌>>=◌, ◌>>◌}
use mwanachama_backend_comm.Sql.{Table}
use mwanachama_backend_comm.Sql.Statements.{classified, take, count_rows, update, upsert}
use mwanachama_backend_comm.Dm.Types.{
  DmParticipant, DmParticipantState, invited, active, left, kicked,
}

abbrev pub Roster : Type 0
Roster = List DmParticipant

abbrev pub is_active : DmParticipantState → Bool
is_active active = true
is_active _ = false

abbrev pub is_left : DmParticipantState → Bool
is_left left = true
is_left _ = false

-- `thread_id = ? AND actor_id = ?`.
abbrev pub is_row : String → String → DmParticipant → Bool
is_row thread actor p = p.thread_id == thread && p.actor_id == actor

-- `thread_id = ? AND state = 'active'`, and the same with `is_admin = true`.
abbrev pub active_in : String → DmParticipant → Bool
active_in thread p = p.thread_id == thread && is_active p.state

abbrev pub active_admin_in : String → DmParticipant → Bool
active_admin_in thread p = active_in thread p && p.is_admin

-- `p.IsAdmin && p.State == DMStateActive`, of the row that was found.
abbrev pub admin_of : Option DmParticipant → Bool
admin_of none = false
admin_of (some p) = p.is_admin && is_active p.state

abbrev pub active_of : Option DmParticipant → Bool
active_of none = false
active_of (some p) = is_active p.state

abbrev pub with_state : DmParticipantState → ℕ → DmParticipant → DmParticipant
with_state state now p = record p { state = state; updated_at = now }

abbrev pub as_admin : ℕ → DmParticipant → DmParticipant
as_admin now p = record p { is_admin = true; updated_at = now }

-- A conflicting row keeps its `is_admin`: only `state` and `updated_at` are assigned.
abbrev pub invitation : String → String → ℕ → DmParticipant
invitation thread actor now = record {
  thread_id = thread;
  actor_id = actor;
  state = invited;
  is_admin = false;
  updated_at = now;
}

-- The row that its owner may claim: it is `left`, and no row of the thread is active.
abbrev pub claimable : Roster → String → String → DmParticipant → Bool
claimable s thread actor p =
    is_row thread actor p && is_left p.state && not (any (active_in thread) s)

-- A call of `DMRepository` that changes a roster, with its thread, its actor and who calls.
pub data RosterCall : Type 0 where
  invites kicks promotes re_enables : String → String → String → RosterCall
  accepts leaves : String → String → RosterCall

module _ (t : Table DmParticipant) (now : ℕ) where
  pub find_participant : String → String → Exec Roster (Option DmParticipant)
  find_participant thread actor = take t (is_row thread actor)

  pub is_admin : String → String → Exec Roster Bool
  unfolding find_participant
  is_admin thread actor = do found ← find_participant thread actor; pure (admin_of found)

  or_missing : Option DmParticipant → Exec Roster DmParticipant
  or_missing none = raise dm_not_found
  or_missing (some p) = pure p

  pub must_find_participant : String → String → Exec Roster DmParticipant
  unfolding find_participant or_missing
  must_find_participant thread actor = do found ← find_participant thread actor; or_missing found

  pub set_state : String → String → DmParticipantState → Exec Roster DmParticipant
  unfolding must_find_participant
  set_state thread actor state = do
    affected ← classified (update t (is_row thread actor) (with_state state now))
    require (not (eqb affected 0)) dm_not_found
    must_find_participant thread actor

  pub upsert_participant : String → String → Exec Roster DmParticipant
  unfolding must_find_participant
  upsert_participant thread actor = do
    classified
        (upsert t (is_row thread actor) (with_state invited now) (invitation thread actor now))
    must_find_participant thread actor

  pub invite : String → String → String → Exec Roster DmParticipant
  unfolding is_admin find_participant upsert_participant
  invite thread actor by = do
    admin ← is_admin thread by
    require admin dm_not_admin
    existing ← find_participant thread actor
    require (not (active_of existing)) dm_already_active
    upsert_participant thread actor

  pub accept : String → String → Exec Roster DmParticipant
  unfolding set_state
  accept thread actor = set_state thread actor active

  -- The guard of `Leave` for an active admin: is somebody else left to lead?
  refuse_last_admin : String → Bool → Exec Roster (Unit {0})
  refuse_last_admin thread false = pure tt
  refuse_last_admin thread true = do
    active_admins ← count_rows t (active_admin_in thread)
    actives ← count_rows t (active_in thread)
    require (not (eqb active_admins 1 && ltb 1 actives)) dm_last_admin

  pub leave : String → String → Exec Roster DmParticipant
  unfolding is_admin refuse_last_admin set_state
  leave thread actor = do
    admin ← is_admin thread actor
    refuse_last_admin thread admin
    set_state thread actor left

  pub kick : String → String → String → Exec Roster DmParticipant
  unfolding is_admin set_state
  kick thread actor by = do
    require (not (actor == by)) dm_self_kick
    admin ← is_admin thread by
    require admin dm_not_admin
    set_state thread actor kicked

  pub promote : String → String → String → Exec Roster DmParticipant
  unfolding is_admin must_find_participant
  promote thread actor by = do
    admin ← is_admin thread by
    require admin dm_not_admin
    affected ← classified (update t (is_row thread actor) (as_admin now))
    require (not (eqb affected 0)) dm_not_found
    must_find_participant thread actor

  -- `claimEmptiedThread`: one statement, whose condition also asks that no row of the thread is
  -- active.
  pub claim_emptied_thread : String → String → Exec Roster DmParticipant
  unfolding must_find_participant
  claim_emptied_thread thread actor s =
      (do
        affected ← classified (update t (claimable s thread actor) (with_state active now))
        require (not (eqb affected 0)) dm_not_last_to_leave
        must_find_participant thread actor)
        s

  re_enable_by : Bool → String → String → String → Exec Roster DmParticipant
  unfolding claim_emptied_thread is_admin set_state
  re_enable_by true thread actor by = claim_emptied_thread thread actor
  re_enable_by false thread actor by = do
    admin ← is_admin thread by
    require admin dm_not_admin
    set_state thread actor invited

  pub re_enable : String → String → String → Exec Roster DmParticipant
  unfolding find_participant re_enable_by
  re_enable thread actor by = do
    existing ← find_participant thread actor
    require (is_some existing) dm_not_found
    re_enable_by (actor == by) thread actor by

  -- The calls that change a roster.
  unfoldable pub run : RosterCall → Exec Roster DmParticipant
  unfolding invite accept leave kick promote re_enable
  run (invites thread actor by) = invite thread actor by
  run (accepts thread actor) = accept thread actor
  run (leaves thread actor) = leave thread actor
  run (kicks thread actor by) = kick thread actor by
  run (promotes thread actor by) = promote thread actor by
  run (re_enables thread actor by) = re_enable thread actor by
