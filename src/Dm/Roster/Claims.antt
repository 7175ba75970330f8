-- ===== src/Dm/Roster/Claims.antt =====
-- What a claim of an emptied thread meets, and what it leaves.
use mwanachama_backend_comm.Base.{
  ℕ, ◌≤◌, ◌<◌, Bool, true, false, not, ◌&&◌, ◌≡◌, ◌≢◌, some, [], ◌∷◌, String, arith, count, any,
  find_first, Bool-cases, inl, inr, eq_refl, refl,
}
use mwanachama_backend_comm.Sql.Counts.{
  count-map_where, count_mono, count_none, count_same, any-count,
}
use mwanachama_backend_comm.Dm.Types.{DmParticipant, active}
use mwanachama_backend_comm.Dm.Roster.{
  Roster, re_enables, is_row, is_left, active_in, with_state, claimable,
}
use mwanachama_backend_comm.Dm.Roster.Contract.{permitted, written}
use mwanachama_backend_comm.Dm.Roster.Unique.{IsRoster}
use mwanachama_backend_comm.Dm.Roster.Leading.{actives}

-- Nobody claims a thread that has an active participant.
pub claim_closed :
    (thread actor : String) (s : Roster)
    → 0 < actives thread s
    → count (claimable s thread actor) s ≡ 0
claim_closed thread actor s h = elim (Bool-cases (any (active_in thread) s)) [
  | inl busy ↦ count_none (claimable s thread actor) s (λ r. ground arith)
  | inr quiet ↦ absurd (omega (arith, h, any-count (active_in thread) s quiet))
]

pub claim_possible :
    (thread actor : String) (s : Roster)
    → permitted (re_enables thread actor actor) s ≡ true
    → count (claimable s thread actor) s ≢ 0
unfolding permitted
claim_possible thread actor s may = ground (arith, eq_refl actor)

pub claim_impossible :
    (thread actor : String) (s : Roster)
    → count (claimable s thread actor) s ≡ 0
    → permitted (re_enables thread actor actor) s ≡ false
unfolding permitted
claim_impossible thread actor s none_left = ground (arith, eq_refl actor)

pub actives-claim :
    (now : ℕ) (thread actor : String) (s : Roster)
    → IsRoster s
    → actives thread s ≡ 0
    → count (claimable s thread actor) s ≢ 0
    → actives thread (written now (re_enables thread actor actor) s) ≡ 1
unfolding written
actives-claim now thread actor s u quiet some_row =
    let q = claimable s thread actor in
    let others =
      count_mono (λ r. not (q r) && active_in thread r) (active_in thread) s
        (λ r h. ground arith) in
    let mine =
      count_same (λ r. q r && active_in thread (with_state active now r)) q s (λ r. ground arith) in
    let one = count_mono q (is_row thread actor) s (λ r h. ground arith) in
    rw (eq_refl actor) (
      omega (
        arith,
        count-map_where q (active_in thread) (with_state active now) s,
        others,
        mine,
        one,
        u thread actor,
        quiet,
        some_row,
      ))

-- Nobody but the claimant is active in a thread that was claimed.
pub claim-others :
    (now : ℕ) (thread actor : String) (s : Roster)
    → actives thread s ≡ 0
    → count
        (λ r. not (is_row thread actor r) && active_in thread r)
        (written now (re_enables thread actor actor) s)
      ≡ 0
unfolding written
claim-others now thread actor s quiet =
    let q = claimable s thread actor in
    let others : DmParticipant → Bool = λ r. not (is_row thread actor r) && active_in thread r in
    rw (eq_refl actor) (
      omega (
        arith,
        count-map_where q others (with_state active now) s,
        count_none (λ r. q r && others (with_state active now r)) s (λ r. ground arith),
        count_mono (λ r. not (q r) && others r) (active_in thread) s (λ r h. ground arith),
        quiet,
      ))

pub claimable-left :
    (thread actor : String) (s : Roster)
    → IsRoster s
    → count (claimable s thread actor) s ≢ 0
    → count (λ r. is_row thread actor r && is_left r.state) s ≡ 1
claimable-left thread actor s u some_row = omega (
  arith,
  some_row,
  count_mono (claimable s thread actor) (λ r. is_row thread actor r && is_left r.state) s
      (λ r h. ground arith),
  count_mono (λ r. is_row thread actor r && is_left r.state) (is_row thread actor) s
      (λ r h. ground arith),
  u thread actor,
)

-- Of the rows that meet `p`, one at most, the first is active if one of them is.
pub first-active :
    (p : DmParticipant → Bool) (thread : String) (r : DmParticipant) (s : Roster)
    → find_first p s ≡ some r
    → count p s ≤ 1
    → count (λ x. p x && active_in thread x) s ≢ 0
    → (p r && active_in thread r) ≡ true
first-active p thread r [] found one some_active = absurd (some_active refl)
first-active p thread r (x ∷ s) found one some_active =
    let fewer = count_mono (λ x. p x && active_in thread x) p s (λ x h. ground arith) in
    elim (Bool-cases (p x)) [
      | inl hit ↦ let same : x ≡ r = ground arith in ground arith
      | inr miss ↦
          first-active p thread r s (ground arith) (ground arith) (λ e. some_active (ground arith))
    ]
