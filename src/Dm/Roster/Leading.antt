-- ===== src/Dm/Roster/Leading.antt =====
-- Who may change a roster, and that a thread with active participants keeps somebody to lead it.
use mwanachama_backend_comm.Base.{
  ℕ, ◌≤◌, ◌<◌, true, false, not, ◌&&◌, ◌≡◌, ◌≢◌, ◌⊎◌, refl, [], ◌∷◌, String, arith, count, eq_iff,
  inl, inr,
}
use mwanachama_backend_comm.Errors.{ok}
use mwanachama_backend_comm.Sql.{Table}
use mwanachama_backend_comm.Sql.Counts.{count_mono}
use mwanachama_backend_comm.Dm.Types.{DmParticipant}
use mwanachama_backend_comm.Dm.Roster.{
  Roster, RosterCall, invites, accepts, leaves, kicks, promotes, re_enables, is_row, active_in,
  active_admin_in, run,
}
use mwanachama_backend_comm.Dm.Roster.Contract.{leads, permitted}
use mwanachama_backend_comm.Dm.Roster.Ran.{refused, wrote, unread}
use mwanachama_backend_comm.Dm.Roster.Rules.{run-Ran}

-- The lead that a call needs: an active admin of the thread, other than the one acted upon.
abbrev pub HasLead : RosterCall → Roster → Type 0
HasLead (invites thread actor by) s = leads s thread by ≡ true
HasLead (kicks thread actor by) s = (leads s thread by ≡ true) × (actor ≢ by)
HasLead (promotes thread actor by) s = leads s thread by ≡ true
HasLead (re_enables thread actor by) s = actor ≢ by → leads s thread by ≡ true
HasLead _ s = Unit

permitted-HasLead : (call : RosterCall) (s : Roster) → permitted call s ≡ true → HasLead call s
unfolding permitted
permitted-HasLead (invites thread actor by) s h = ground arith
permitted-HasLead (kicks thread actor by) s h = (ground arith, ground (arith, eq_iff actor by))
permitted-HasLead (promotes thread actor by) s h = ground arith
permitted-HasLead (re_enables thread actor by) s h = λ ne. ground (arith, eq_iff actor by)
permitted-HasLead (accepts thread actor) s h = tt
permitted-HasLead (leaves thread actor) s h = tt

-- A call that changes anything in a roster, or returns a row, had the lead it needs: only an
-- active admin of the thread invites, kicks, promotes or re-enables another, and nobody kicks
-- themselves.
pub run-HasLead :
    (t : Table DmParticipant) (now : ℕ) (call : RosterCall) (s : Roster)
    → ((run t now call s).1 ≢ s) ⊎ ((p : DmParticipant) × ((run t now call s).0 ≡ ok p))
    → HasLead call s
run-HasLead t now call s h = elim (run-Ran t now call s) [
  | wrote p may out found ↦ permitted-HasLead call s may
  | unread d may out ↦ permitted-HasLead call s may
  | refused e out ↦ elim h [ inl moved ↦ absurd (moved (rw out)) | inr (p, returned) ↦ cc ]
]

abbrev pub thread_of : RosterCall → String
thread_of (invites thread actor by) = thread
thread_of (accepts thread actor) = thread
thread_of (leaves thread actor) = thread
thread_of (kicks thread actor by) = thread
thread_of (promotes thread actor by) = thread
thread_of (re_enables thread actor by) = thread

-- How many participants of the thread are active, and how many of those are admins.
abbrev pub actives : String → Roster → ℕ
actives thread s = count (active_in thread) s

abbrev pub admins : String → Roster → ℕ
admins thread s = count (active_admin_in thread) s

-- A thread with an active participant has an active admin.
abbrev pub IsLed : String → Roster → Type 0
IsLed thread s = (actives thread s ≡ 0) ⊎ (0 < admins thread s)

pub admins-le-actives : (thread : String) (s : Roster) → admins thread s ≤ actives thread s
admins-le-actives thread s =
    count_mono (active_admin_in thread) (active_in thread) s (λ r h. ground arith)

-- The rows of one actor that are active admins: one at least where the actor leads, and none where
-- not, the row being the only one.
pub leads-count :
    (s : Roster) (thread actor : String)
    → leads s thread actor ≡ true
    → 0 < count (λ r. is_row thread actor r && active_admin_in thread r) s
leads-count [] thread actor h = cc
leads-count (r ∷ s) thread actor h = ground (arith, leads-count s thread actor)

pub not-leads-count :
    (s : Roster) (thread actor : String)
    → count (is_row thread actor) s ≤ 1
    → leads s thread actor ≡ false
    → count (λ r. is_row thread actor r && active_admin_in thread r) s ≡ 0
not-leads-count [] thread actor u h = refl
not-leads-count (r ∷ s) thread actor u h = ground (
  arith,
  not-leads-count s thread actor,
  count_mono (λ r. is_row thread actor r && active_admin_in thread r) (is_row thread actor) s
      (λ r h. ground arith),
)

-- Another actor's rows are not met.
pub other_lead :
    (s : Roster) (thread actor by : String)
    → actor ≢ by
    → leads s thread by ≡ true
    → 0 < count (λ r. not (is_row thread actor r) && active_admin_in thread r) s
other_lead [] thread actor by ne h = cc
other_lead (r ∷ s) thread actor by ne h =
    ground (arith, other_lead s thread actor by ne, eq_iff r.actor_id actor, eq_iff r.actor_id by)
