-- ===== src/Tests/Roster.antt =====
-- dm_roster_impl.go on a small roster: `a` leads thread `t`, `b` is an ordinary participant.
use mwanachama_backend_comm.Base.{
  Bool, true, false, ◌≡◌, refl, inr, String, [], ◌∷◌, arith, count, not, ◌&&◌,
}
use mwanachama_backend_comm.Errors.{ok}
use mwanachama_backend_comm.Sql.{Table}
use mwanachama_backend_comm.Sql.Rows.{map_where}
use mwanachama_backend_comm.Sql.Memory.{memory}
use mwanachama_backend_comm.Dm.Types.{DmParticipant, DmParticipantState, active, left, kicked}
use mwanachama_backend_comm.Dm.Roster.{
  Roster, kicks, accepts, re_enables, invites, is_row, with_state, run, is_left, active_in,
}
use mwanachama_backend_comm.Dm.Roster.Contract.{permitted, written, row_of}
use mwanachama_backend_comm.Dm.Roster.Ran.{Ran}
use mwanachama_backend_comm.Dm.Roster.Rules.{run-Ran}
use mwanachama_backend_comm.Dm.Roster.Unique.{IsRoster, Reaches, Reaches-IsRoster}
use mwanachama_backend_comm.Dm.Roster.Leading.{HasLead, run-HasLead, IsLed, actives}
use mwanachama_backend_comm.Dm.Roster.Succession.{run-IsLed, claim_exclusive}
use mwanachama_backend_comm.Dm.Roster.Return.{kicked_may_return}

abbrev clash : DmParticipant → DmParticipant → Bool
clash p q = is_row p.thread_id p.actor_id q

abbrev engine : Table DmParticipant
engine = memory clash

abbrev participant : String → DmParticipantState → Bool → DmParticipant
participant actor state admin = record {
  thread_id = "t";
  actor_id = actor;
  state = state;
  is_admin = admin;
  updated_at = 1;
}

abbrev pair : Roster
pair = participant "a" active true ∷ (participant "b" active false ∷ [])

abbrev alone : Roster
alone = participant "a" active true ∷ []

abbrev emptied : Roster
emptied = participant "a" left true ∷ []

abbrev expelled : Roster
expelled = participant "a" kicked true ∷ []

alone-IsRoster : IsRoster alone
alone-IsRoster thread actor = ground arith

emptied-IsRoster : IsRoster emptied
emptied-IsRoster thread actor = ground arith

run-Ran_example :
    Ran pair
      (permitted (kicks "t" "b" "a") pair)
      (written 5 (kicks "t" "b" "a") pair)
      (row_of (kicks "t" "b" "a"))
      (run engine 5 (kicks "t" "b" "a") pair)
run-Ran_example = run-Ran engine 5 (kicks "t" "b" "a") pair

invited-Reaches : Reaches engine alone (run engine 5 (invites "t" "b" "a") alone).1
invited-Reaches = Reaches.next 5 (invites "t" "b" "a") Reaches.here refl

Reaches-IsRoster_example : IsRoster (run engine 5 (invites "t" "b" "a") alone).1
Reaches-IsRoster_example = Reaches-IsRoster engine alone-IsRoster invited-Reaches

kick_returns : (p : DmParticipant) × ((run engine 5 (kicks "t" "b" "a") pair).0 ≡ ok p)
unfolding run
kick_returns = (record (participant "b" kicked false) { updated_at = 5 }, refl)

run-HasLead_example : HasLead (kicks "t" "b" "a") pair
run-HasLead_example = run-HasLead engine 5 (kicks "t" "b" "a") pair (inr kick_returns)

run-IsLed_example : IsLed "t" (run engine 5 (invites "t" "b" "a") alone).1
run-IsLed_example =
    run-IsLed engine 5 (invites "t" "b" "a") alone alone-IsRoster (inr (omega arith))
      (λ e. absurd e)

abbrev claimed : DmParticipant
claimed = record (participant "a" active true) { updated_at = 5 }

claim_returns : (run engine 5 (re_enables "t" "a" "a") emptied).0 ≡ ok claimed
unfolding run
claim_returns = refl

claim_exclusive_example :
    (count (λ r. is_row "t" "a" r && is_left r.state) emptied ≡ 1)
    × (actives "t" emptied ≡ 0)
    × ((is_row "t" "a" claimed && active_in "t" claimed) ≡ true)
    × (actives "t" (run engine 5 (re_enables "t" "a" "a") emptied).1 ≡ 1)
    × (count
          (λ r. not (is_row "t" "a" r) && active_in "t" r)
          (run engine 5 (re_enables "t" "a" "a") emptied).1
        ≡ 0)
    × ((other : String)
        → permitted (re_enables "t" other other) (run engine 5 (re_enables "t" "a" "a") emptied).1
          ≡ false)
claim_exclusive_example =
    claim_exclusive engine 5 "t" "a" emptied claimed emptied-IsRoster claim_returns

kicked_may_return_example : run engine 5 (accepts "t" "a") expelled ≡ (
  ok (record (participant "a" kicked true) { state = active; updated_at = 5 }),
  map_where (is_row "t" "a") (with_state active 5) expelled,
)
kicked_may_return_example =
    kicked_may_return clash 5 "t" "a" expelled (participant "a" kicked true) refl refl
