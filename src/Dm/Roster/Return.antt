-- ===== src/Dm/Roster/Return.antt =====
-- Whoever is on the roster can accept, whatever the state of their row.
use mwanachama_backend_comm.Base.{ℕ, Bool, ◌≡◌, refl, some, String, arith, find_first}
use mwanachama_backend_comm.Errors.{ok}
use mwanachama_backend_comm.Sql.Memory.{memory}
use mwanachama_backend_comm.Sql.Rows.{map_where, find_first-map_where_self, count-found}
use mwanachama_backend_comm.Dm.Types.{DmParticipant, active, kicked}
use mwanachama_backend_comm.Dm.Roster.{Roster, accepts, is_row, with_state, run}

-- A kicked participant who accepts is active again, and an admin again if the kicked row was an
-- admin's: on a database that does not fail, `Accept` asks nothing of the state that it leaves.
pub kicked_may_return :
    (clash : DmParticipant → DmParticipant → Bool) (now : ℕ) (thread actor : String) (s : Roster)
    (p : DmParticipant)
    → find_first (is_row thread actor) s ≡ some p
    → p.state ≡ kicked
    → run (memory clash) now (accepts thread actor) s ≡ (
      ok (record p { state = active; updated_at = now }),
      map_where (is_row thread actor) (with_state active now) s,
    )
unfolding run
kicked_may_return clash now thread actor s p h e = ground (
  arith,
  count-found (is_row thread actor) s p h,
  find_first-map_where_self (is_row thread actor) (with_state active now) s p refl h,
)
