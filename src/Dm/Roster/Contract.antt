-- ===== src/Dm/Roster/Contract.antt =====
-- What the roster's calls promise: when each is permitted, and what it then leaves.
use mwanachama_backend_comm.Base.{
  ℕ, Bool, not, ◌&&◌, String, ◌==◌, ltb, eqb, count, find_first, is_some, if◌then◌else◌,
}
use mwanachama_backend_comm.Sql.Rows.{map_where, upsert_rows}
use mwanachama_backend_comm.Dm.Types.{DmParticipant, invited, active, left, kicked}
use mwanachama_backend_comm.Dm.Roster.{
  Roster, RosterCall, invites, accepts, leaves, kicks, promotes, re_enables, is_row, active_in,
  active_admin_in, admin_of, active_of, with_state, as_admin, invitation, claimable,
}

-- Does the actor lead the thread: is its row active, and an admin's.
abbrev pub leads : Roster → String → String → Bool
leads s thread actor = admin_of (find_first (is_row thread actor) s)

abbrev pub listed : Roster → String → String → Bool
listed s thread actor = not (eqb (count (is_row thread actor) s) 0)

-- When a call is permitted: `Invite` not of somebody who is active, and `ReEnable` by an admin
-- whatever the state of the row, kicked included.
unfoldable pub permitted : RosterCall → Roster → Bool
permitted (invites thread actor by) s =
    leads s thread by && not (active_of (find_first (is_row thread actor) s))
permitted (accepts thread actor) s = listed s thread actor
permitted (leaves thread actor) s =
    not (
      leads s thread actor
      && (eqb (count (active_admin_in thread) s) 1 && ltb 1 (count (active_in thread) s)))
    && listed s thread actor
permitted (kicks thread actor by) s =
    not (actor == by) && (leads s thread by && listed s thread actor)
permitted (promotes thread actor by) s = leads s thread by && listed s thread actor
permitted (re_enables thread actor by) s =
    is_some (find_first (is_row thread actor) s)
    && (if actor == by
        then not (eqb (count (claimable s thread actor) s) 0)
        else leads s thread by && listed s thread actor)

-- The roster that a permitted call leaves.
unfoldable pub written : ℕ → RosterCall → Roster → Roster
written now (invites thread actor by) s =
    upsert_rows (is_row thread actor) (with_state invited now) (invitation thread actor now) s
written now (accepts thread actor) s = map_where (is_row thread actor) (with_state active now) s
written now (leaves thread actor) s = map_where (is_row thread actor) (with_state left now) s
written now (kicks thread actor by) s = map_where (is_row thread actor) (with_state kicked now) s
written now (promotes thread actor by) s = map_where (is_row thread actor) (as_admin now) s
written now (re_enables thread actor by) s =
    if actor == by
    then map_where (claimable s thread actor) (with_state active now) s
    else map_where (is_row thread actor) (with_state invited now) s

-- The row that a call is about.
abbrev pub row_of : RosterCall → DmParticipant → Bool
row_of (invites thread actor by) = is_row thread actor
row_of (accepts thread actor) = is_row thread actor
row_of (leaves thread actor) = is_row thread actor
row_of (kicks thread actor by) = is_row thread actor
row_of (promotes thread actor by) = is_row thread actor
row_of (re_enables thread actor by) = is_row thread actor
