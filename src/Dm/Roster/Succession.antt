-- ===== src/Dm/Roster/Succession.antt =====
-- A thread with active participants keeps an active admin.
use mwanachama_backend_comm.Base.{
  ℕ, ◌≤◌, ◌<◌, Bool, true, false, not, ◌&&◌, ◌≡◌, ◌≢◌, ◌⊎◌, refl, [], ◌∷◌, String, ◌==◌, arith,
  count, any, eq_iff, find_first, Bool-cases, inl, inr, eqb, ltb,
}
use mwanachama_backend_comm.Errors.{ok}
use mwanachama_backend_comm.Sql.{Table}
use mwanachama_backend_comm.Sql.Rows.{map_where, upsert_rows}
use mwanachama_backend_comm.Sql.Counts.{
  count-append, count_split, count-map_where, count_mono, count_none,
}
use mwanachama_backend_comm.Dm.Types.{
  DmParticipant, DmParticipantState, invited, active, left, kicked,
}
use mwanachama_backend_comm.Dm.Roster.{
  Roster, RosterCall, invites, accepts, leaves, kicks, promotes, re_enables, is_row, is_active,
  active_in, active_admin_in, with_state, as_admin, invitation, run, active_of, is_left,
}
use mwanachama_backend_comm.Dm.Roster.Contract.{leads, permitted, written}
use mwanachama_backend_comm.Dm.Roster.Ran.{refused, wrote, unread}
use mwanachama_backend_comm.Dm.Roster.Rules.{run-Ran}
use mwanachama_backend_comm.Dm.Roster.Unique.{IsRoster, written-IsRoster}
use mwanachama_backend_comm.Dm.Roster.Leading.{
  IsLed, actives, admins, thread_of, leads-count, not-leads-count, other_lead,
}
use mwanachama_backend_comm.Dm.Roster.Claims.{
  claim_closed, claim_possible, claim_impossible, actives-claim, claim-others, claimable-left,
  first-active,
}

guard_open : (a b : ℕ) → (eqb a 1 && ltb 1 b) ≡ false → (a ≢ 1) ⊎ (b ≤ 1)
guard_open a b h = ground arith

module _ (now : ℕ) (s : Roster) (thread actor : String) where
  abbrev row : DmParticipant → Bool
  row = is_row thread actor

  -- The active admins among the actor's rows, and among the others.
  abbrev own : ℕ
  own = count (λ r. row r && active_admin_in thread r) s

  abbrev others : ℕ
  others = count (λ r. not (row r) && active_admin_in thread r) s

  -- A row that stops being active takes only itself away.
  admins_idle :
      (state : DmParticipantState)
      → is_active state ≡ false
      → admins thread (map_where row (with_state state now) s) ≡ others
  admins_idle state idle = omega (
    arith,
    count-map_where row (active_admin_in thread) (with_state state now) s,
    count_none (λ r. row r && active_admin_in thread (with_state state now r)) s
        (λ r. ground arith),
  )

  actives_idle :
      (state : DmParticipantState)
      → is_active state ≡ false
      → actives thread (map_where row (with_state state now) s)
        ≡ count (λ r. not (row r) && active_in thread r) s
  actives_idle state idle = omega (
    arith,
    count-map_where row (active_in thread) (with_state state now) s,
    count_none (λ r. row r && active_in thread (with_state state now r)) s (λ r. ground arith),
  )

  -- Another's lead stays.
  IsLed-idle_other :
      (state : DmParticipantState) (by : String)
      → is_active state ≡ false
      → actor ≢ by
      → leads s thread by ≡ true
      → IsLed thread (map_where row (with_state state now) s)
  IsLed-idle_other state by idle ne led =
      inr (rw (admins_idle state idle) (other_lead s thread actor by ne led))

  IsLed-leave :
      count row s ≤ 1
      → IsLed thread s
      → (leads s thread actor && (eqb (admins thread s) 1 && ltb 1 (actives thread s))) ≡ false
      → IsLed thread (map_where row (with_state left now) s)
  IsLed-leave unique led may =
      let split = count_split row (active_admin_in thread) s in
      let split' = count_split row (active_in thread) s in
      let bound = count_mono (λ r. row r && active_admin_in thread r) row s (λ r h. ground arith) in
      let wider =
        count_mono (λ r. row r && active_admin_in thread r) (λ r. row r && active_in thread r) s
          (λ r h. ground arith) in
      let idle = admins_idle left refl in
      let idle' = actives_idle left refl in
      elim (Bool-cases (leads s thread actor)) [
        | inl leading ↦
            let mine = leads-count s thread actor leading in
            elim (guard_open (admins thread s) (actives thread s) (ground arith)) [
              | inl several ↦ inr (omega (arith, idle, split, mine, bound, several, unique))
              | inr alone ↦ inl (omega (arith, idle', split', mine, wider, alone))
            ]
        | inr following ↦
            let none_mine = not-leads-count s thread actor unique following in
            elim led [
              | inl quiet ↦ inl (omega (arith, idle', split', quiet))
              | inr some_lead ↦ inr (omega (arith, idle, split, none_mine, some_lead))
            ]
      ]

  -- Promoting gives the lead to no fewer.
  IsLed-promote : 0 < admins thread s → IsLed thread (map_where row (as_admin now) s)
  IsLed-promote h = inr (
      omega (
        arith,
        h,
        count-map_where row (active_admin_in thread) (as_admin now) s,
        count_split row (active_admin_in thread) s,
        count_mono (λ r. row r && active_admin_in thread r)
            (λ r. row r && active_admin_in thread (as_admin now r)) s (λ r h. ground arith),
      ))

  IsLed-accept : 0 < admins thread s → IsLed thread (map_where row (with_state active now) s)
  IsLed-accept h = inr (
      omega (
        arith,
        h,
        count-map_where row (active_admin_in thread) (with_state active now) s,
        count_split row (active_admin_in thread) s,
        count_mono (λ r. row r && active_admin_in thread r)
            (λ r. row r && active_admin_in thread (with_state active now r)) s
            (λ r h. ground arith),
      ))

  IsLed-invite :
      count row s ≤ 1
      → 0 < admins thread s
      → active_of (find_first row s) ≡ false
      → IsLed thread (upsert_rows row (with_state invited now) (invitation thread actor now) s)
  IsLed-invite unique h idle_row = elim (Bool-cases (any row s)) [
    | inl met ↦ rw met (
        inr (
          omega (
            arith,
            h,
            admins_idle invited refl,
            count_split row (active_admin_in thread) s,
            not-leads-count s thread actor unique (ground arith),
          )))
    | inr new ↦ rw new (
        inr (
          omega
            (arith, h, count-append (active_admin_in thread) s (invitation thread actor now ∷ []))))
  ]

leads-admins : (s : Roster) (thread by : String) → leads s thread by ≡ true → 0 < admins thread s
leads-admins s thread by h = omega (
  arith,
  leads-count s thread by h,
  count_mono (λ r. is_row thread by r && active_admin_in thread r) (active_admin_in thread) s
      (λ r e. ground arith),
)

-- The calls that can make somebody active without asking who leads.
abbrev pub Joins : RosterCall → Type 0
Joins (accepts thread actor) = Unit
Joins (re_enables thread actor by) = actor ≡ by
Joins _ = ⊥

written-IsLed :
    (now : ℕ) (call : RosterCall) (s : Roster)
    → IsRoster s
    → permitted call s ≡ true
    → IsLed (thread_of call) s
    → (Joins call → 0 < actives (thread_of call) s)
    → IsLed (thread_of call) (written now call s)
unfolding permitted written
written-IsLed now (invites thread actor by) s u may led busy =
    IsLed-invite now s thread actor (u thread actor) (leads-admins s thread by (ground arith))
      (ground arith)
written-IsLed now (accepts thread actor) s u may led busy =
    IsLed-accept now s thread actor (omega (arith, busy tt, led))
written-IsLed now (leaves thread actor) s u may led busy =
    IsLed-leave now s thread actor (u thread actor) led (ground arith)
written-IsLed now (kicks thread actor by) s u may led busy =
    IsLed-idle_other now s thread actor kicked by refl (ground (arith, eq_iff actor by))
      (ground arith)
written-IsLed now (promotes thread actor by) s u may led busy =
    IsLed-promote now s thread actor (leads-admins s thread by (ground arith))
written-IsLed now (re_enables thread actor by) s u may led busy = elim (Bool-cases (actor == by)) [
  | inl self ↦
      let closed = claim_closed thread actor s (busy ((eq_iff actor by).0 self)) in
      absurd (ground arith)
  | inr other ↦ rw other (
      IsLed-idle_other now s thread actor invited by refl (ground (arith, eq_iff actor by))
        (ground arith))
]

-- While a thread has active participants, no call leaves it without an active admin: not a leave, a
-- kick, an invitation, a promotion or a re-enabling, and not an acceptance either. (A thread that
-- everybody has left may be joined again by one who is no admin.)
pub run-IsLed :
    (t : Table DmParticipant) (now : ℕ) (call : RosterCall) (s : Roster)
    → IsRoster s
    → IsLed (thread_of call) s
    → (Joins call → 0 < actives (thread_of call) s)
    → IsLed (thread_of call) (run t now call s).1
run-IsLed t now call s u led busy = elim (run-Ran t now call s) [
  | refused e out ↦ rw out led
  | wrote p may out found ↦ rw out (written-IsLed now call s u may led busy)
  | unread d may out ↦ rw out (written-IsLed now call s u may led busy)
]

-- Claiming an emptied thread is exclusive: where a thread and an actor have one row at most, a
-- claim that returns a row was of a thread with nobody active by an actor whose row was `left`;
-- the row returned is the actor's and active, it is the only active one that the thread has then,
-- and no further claim of the thread is permitted.
pub claim_exclusive :
    (t : Table DmParticipant) (now : ℕ) (thread actor : String) (s : Roster) (p : DmParticipant)
    → IsRoster s
    → (run t now (re_enables thread actor actor) s).0 ≡ ok p
    → (count (λ r. is_row thread actor r && is_left r.state) s ≡ 1)
      × (actives thread s ≡ 0)
      × ((is_row thread actor p && active_in thread p) ≡ true)
      × (actives thread (run t now (re_enables thread actor actor) s).1 ≡ 1)
      × (count
            (λ r. not (is_row thread actor r) && active_in thread r)
            (run t now (re_enables thread actor actor) s).1
          ≡ 0)
      × ((other : String)
          → permitted
              (re_enables thread other other)
              (run t now (re_enables thread actor actor) s).1
            ≡ false)
claim_exclusive t now thread actor s p u h =
    elim (run-Ran t now (re_enables thread actor actor) s) [
      | refused e out ↦ cc
      | unread d may out ↦ cc
      | wrote p' may out found ↦
          let after : Roster = written now (re_enables thread actor actor) s in
          let some_row = claim_possible thread actor s may in
          let quiet : actives thread s ≡ 0 = elim (Bool-cases (ltb 0 (actives thread s))) [
            | inl busy ↦ absurd (some_row (claim_closed thread actor s (ground arith)))
            | inr not_busy ↦ ground arith
          ] in
          let one = actives-claim now thread actor s u quiet some_row in
          let alone = claim-others now thread actor s quiet in
          let mine = count_split (is_row thread actor) (active_in thread) after in
          let standing =
            first-active (is_row thread actor) thread p' after found
              (written-IsRoster now (re_enables thread actor actor) s u thread actor)
              (omega (arith, one, alone, mine)) in
          (
            claimable-left thread actor s u some_row,
            quiet,
            cc,
            rw out one,
            rw out alone,
            λ other. rw out (
                claim_impossible thread other after
                  (claim_closed thread other after (omega (arith, one)))),
          )
    ]
