-- ===== src/Dm/Roster/Unique.antt =====
-- One row for each thread and actor.
use mwanachama_backend_comm.Base.{
  ℕ, ◌≤◌, ◌≡◌, refl, [], ◌∷◌, String, ◌==◌, arith, count, any, eq_iff, Bool-cases, inl, inr,
}
use mwanachama_backend_comm.Sql.{Table}
use mwanachama_backend_comm.Sql.Counts.{count-append, count-map_where_keeps, any-count}
use mwanachama_backend_comm.Dm.Types.{DmParticipant, DmParticipantState, invited}
use mwanachama_backend_comm.Dm.Roster.{
  Roster, RosterCall, invites, accepts, leaves, kicks, promotes, re_enables, is_row, with_state,
  as_admin, invitation, claimable, run,
}
use mwanachama_backend_comm.Dm.Roster.Contract.{written}
use mwanachama_backend_comm.Dm.Roster.Ran.{refused, wrote, unread}
use mwanachama_backend_comm.Dm.Roster.Rules.{run-Ran}

-- The primary key of the roster: a thread and an actor have one row at most.
abbrev pub IsRoster : Roster → Type 0
IsRoster s = (thread actor : String) → count (is_row thread actor) s ≤ 1

pub written-IsRoster :
    (now : ℕ) (call : RosterCall) (s : Roster) → IsRoster s → IsRoster (written now call s)
unfolding written
written-IsRoster now (invites thread actor by) s h t a =
    elim (Bool-cases (any (is_row thread actor) s)) [
      | inl met ↦ rw met (
          rw
            (count-map_where_keeps (is_row thread actor) (is_row t a) (with_state invited now) s
              (λ r. refl))
            (h t a))
      | inr new ↦ rw new (
          rw (count-append (is_row t a) s (invitation thread actor now ∷ [])) (
            ground
              (arith, any-count (is_row thread actor) s, h t a, eq_iff thread t, eq_iff actor a)))
    ]
written-IsRoster now (accepts thread actor) s h t a =
    rw
      (count-map_where_keeps (is_row thread actor) (is_row t a)
        (with_state DmParticipantState.active now) s (λ r. refl))
      (h t a)
written-IsRoster now (leaves thread actor) s h t a =
    rw
      (count-map_where_keeps (is_row thread actor) (is_row t a)
        (with_state DmParticipantState.left now) s (λ r. refl))
      (h t a)
written-IsRoster now (kicks thread actor by) s h t a =
    rw
      (count-map_where_keeps (is_row thread actor) (is_row t a)
        (with_state DmParticipantState.kicked now) s (λ r. refl))
      (h t a)
written-IsRoster now (promotes thread actor by) s h t a =
    rw (count-map_where_keeps (is_row thread actor) (is_row t a) (as_admin now) s (λ r. refl))
      (h t a)
written-IsRoster now (re_enables thread actor by) s h t a = elim (Bool-cases (actor == by)) [
  | inl self ↦ rw self (
      rw
        (count-map_where_keeps (claimable s thread actor) (is_row t a)
          (with_state DmParticipantState.active now) s (λ r. refl))
        (h t a))
  | inr other ↦ rw other (
      rw
        (count-map_where_keeps (is_row thread actor) (is_row t a) (with_state invited now) s
          (λ r. refl))
        (h t a))
]

-- The rosters that a run of calls reaches from `s`.
pub data Reaches (t : Table DmParticipant) (s : Roster) : Roster → Type 0 where
  here : Reaches t s s
  next :
      (now : ℕ) (call : RosterCall) {u v : Roster}
      → Reaches t s u
      → v ≡ (run t now call u).1
      → Reaches t s v

run-IsRoster :
    (t : Table DmParticipant) (now : ℕ) (call : RosterCall) (s : Roster)
    → IsRoster s
    → IsRoster (run t now call s).1
run-IsRoster t now call s h = elim (run-Ran t now call s) [
  | refused e out ↦ rw out h
  | wrote p may out found ↦ rw out (written-IsRoster now call s h)
  | unread d may out ↦ rw out (written-IsRoster now call s h)
]

-- Any run of calls, by anybody, at any times and over a database that may fail at any statement,
-- keeps one row at most for each thread and actor.
pub Reaches-IsRoster :
    (t : Table DmParticipant) {s u : Roster} → IsRoster s → Reaches t s u → IsRoster u
Reaches-IsRoster t h here = h
Reaches-IsRoster t h (next now call r e) = rw e (run-IsRoster t now call _ (Reaches-IsRoster t h r))
