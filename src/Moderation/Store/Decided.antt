-- ===== src/Moderation/Store/Decided.antt =====
-- The decision of a dispute: by whom, of what, and only once.
use mwanachama_backend_comm.Base.{
  ℕ, Bool, true, false, not, ◌≡◌, ◌≢◌, refl, sym, ap, inl, inr, some, String, ◌==◌, arith,
  find_first, Option-cases, ◌∙◌,
}
use mwanachama_backend_comm.Errors.{ok, already_decided, reviewer_is_remover}
use mwanachama_backend_comm.Exec.{Exec, pure, require, ◌>>=◌, ◌>>◌}
use mwanachama_backend_comm.Sql.Rows.{map_where, find_first-map_where_self}
use mwanachama_backend_comm.Sql.Statements.{update}
use mwanachama_backend_comm.Moderation.Types.{Removal, Dispute, DisputeState}
use mwanachama_backend_comm.Moderation.Acts.{ActEntry, Actor, dispute_outcome_act}
use mwanachama_backend_comm.Moderation.Store.{
  ModerationDb, ModerationEngine, on_disputes, write_act, get_dispute, get_removal, decide_work,
  decide_dispute, decided, is_open_state,
}
use mwanachama_backend_comm.Moderation.Store.Atomic.{committed}
use mwanachama_backend_comm.Exec.Steps.{Result-cases, bind-ok, require-ok}

-- What a decision that returned `d` found in `s` and left in `after`.
pub record DecidedBy {L : Type 0} (g : ModerationEngine L) (id : String) (outcome : DisputeState)
    (by : String) (now : ℕ) (wall : String) (actor : Actor) (s : ModerationDb L) (d : Dispute)
    (after : ModerationDb L) : Type 0 where
  pub before : Dispute
  pub removal : Removal
  pub log : L
  pub was : find_first (λ e. e.id == id) s.disputes ≡ some before
  pub was_open : is_open_state before.state ≡ true
  pub withheld : find_first (λ r. r.id == before.removal_id) s.removals ≡ some removal
  pub reviewer : (removal.removed_by == by) ≡ false
  pub now_is : d ≡ decided outcome by now before
  pub logged : g.write_act (dispute_outcome_act removal d wall actor) s.log ≡ ok log
  pub left : after ≡ record s {
    disputes = map_where (λ e. e.id == id) (decided outcome by now) s.disputes;
    log = log;
  }

abbrev with_disputes :
    {L : Type 0} → (Dispute → Bool) → (Dispute → Dispute) → ModerationDb L → ModerationDb L
with_disputes q set s = record s { disputes = map_where q set s.disputes }

module _ {L : Type 0} (g : ModerationEngine L) where
  get_dispute-ok :
      (id : String) (s s' : ModerationDb L) (d : Dispute)
      → get_dispute g id s ≡ (ok d, s')
      → (find_first (λ e. e.id == id) s.disputes ≡ some d) × (s' ≡ s)
  unfolding get_dispute
  get_dispute-ok id s s' d h = elim (g.dispute_table.take_law (λ e. e.id == id) s.disputes) [
    | inr (x, failed) ↦ absurd (ground arith)
    | inl read ↦ elim (Option-cases (find_first (λ (e : Dispute). e.id == id) s.disputes)) [
      | inl absent ↦ absurd (ground arith)
      | inr (e, there) ↦ (ground arith, ground arith)
    ]
  ]

  get_removal-ok :
      (id : String) (s s' : ModerationDb L) (r : Removal)
      → get_removal g id s ≡ (ok r, s')
      → (find_first (λ e. e.id == id) s.removals ≡ some r) × (s' ≡ s)
  unfolding get_removal
  get_removal-ok id s s' r h = elim (g.removal_table.take_law (λ e. e.id == id) s.removals) [
    | inr (x, failed) ↦ absurd (ground arith)
    | inl read ↦ elim (Option-cases (find_first (λ (e : Removal). e.id == id) s.removals)) [
      | inl absent ↦ absurd (ground arith)
      | inr (e, there) ↦ (ground arith, ground arith)
    ]
  ]

  update-ok :
      (q : Dispute → Bool) (set : Dispute → Dispute) (s s' : ModerationDb L) (n : ℕ)
      → on_disputes (update g.dispute_table q set) s ≡ (ok n, s')
      → s' ≡ record s { disputes = map_where q set s.disputes }
  update-ok q set s s' n h = elim (g.dispute_table.update_law q set s.disputes) [
    | inr (x, failed) ↦ absurd (ground arith)
    | inl done ↦ ground arith
  ]

  write_act-ok :
      (e : ActEntry) (s s' : ModerationDb L) (u : Unit {0})
      → write_act g e s ≡ (ok u, s')
      → (log : L) × (g.write_act e s.log ≡ ok log) × (s' ≡ record s { log = log })
  unfolding write_act
  write_act-ok e s s' u h = elim (Result-cases (g.write_act e s.log)) [
    | inl (x, fails) ↦ absurd (ground arith)
    | inr (log, logs) ↦ (log, logs, ground arith)
  ]

module _ {L : Type 0} (g : ModerationEngine L) (id : String) (outcome : DisputeState) (by : String)
    (now : ℕ) (wall : String) (actor : Actor) where
  -- The steps of `decide_work`, the last of them first.
  abbrev record_act : Removal → Dispute → Exec (ModerationDb L) Dispute
  record_act rem out = do write_act g (dispute_outcome_act rem out wall actor); pure out

  abbrev reread : Removal → Exec (ModerationDb L) Dispute
  reread rem = do out ← get_dispute g id; record_act rem out

  abbrev settle : Removal → Exec (ModerationDb L) Dispute
  settle rem = do
    on_disputes (update g.dispute_table (λ e. e.id == id) (decided outcome by now))
    reread rem

  abbrev review : Removal → Exec (ModerationDb L) Dispute
  review rem = do require (not (rem.removed_by == by)) reviewer_is_remover; settle rem

  abbrev look_up : Dispute → Exec (ModerationDb L) Dispute
  look_up d = do rem ← get_removal g d.removal_id; review rem

  abbrev judge : Dispute → Exec (ModerationDb L) Dispute
  judge d = do require (is_open_state d.state) already_decided; look_up d

  decided_record :
      (s s₂ s₄ s₅ s₆ s₇ s' : ModerationDb L) (e : Dispute) (rem : Removal) (out d : Dispute)
      (log : L)
      → find_first (λ x. x.id == id) s.disputes ≡ some e
      → is_open_state e.state ≡ true
      → s₂ ≡ s
      → find_first (λ r. r.id == e.removal_id) s₂.removals ≡ some rem
      → (rem.removed_by == by) ≡ false
      → s₄ ≡ s₂
      → s₅ ≡ with_disputes (λ x. x.id == id) (decided outcome by now) s₄
      → find_first (λ x. x.id == id) s₅.disputes ≡ some out
      → s₆ ≡ s₅
      → g.write_act (dispute_outcome_act rem out wall actor) s₆.log ≡ ok log
      → s₇ ≡ record s₆ { log = log }
      → out ≡ d
      → s₇ ≡ s'
      → DecidedBy g id outcome by now wall actor s d s'
  decided_record s s₂ s₄ s₅ s₆ s₇ s' e rem out d log was was_open e₂ there differs e₄ e₅ again e₆
        logs e₇ is ends =
      let mine = λ (x : Dispute). x.id == id in
      let set = decided outcome by now in
      let kept = find_first-map_where_self mine set s.disputes e refl was in
      let four : s₄ ≡ s = e₄ ∙ e₂ in
      let five : s₅ ≡ with_disputes mine set s = e₅ ∙ ap (with_disputes mine set) four in
      let found_out : find_first mine (map_where mine set s.disputes) ≡ some out =
        rw five at again in
      let six : s₆ ≡ with_disputes mine set s = e₆ ∙ five in
      let seven : s₇ ≡ record (with_disputes mine set s) { log = log } = rw six at e₇ in
      let logged : g.write_act (dispute_outcome_act rem out wall actor) s.log ≡ ok log =
        rw six at logs in
      let stands : some out ≡ some (set e) = sym found_out ∙ kept in
      record {
        before = e;
        removal = rem;
        log = log;
        was = was;
        was_open = was_open;
        withheld = rw e₂ at there;
        reviewer = differs;
        now_is = cc;
        logged = rw is at logged;
        left = sym ends ∙ seven;
      }

  -- What a decision wrote, from what each of its steps returned.
  decided_steps :
      (s s₁ s₂ s₃ s₄ s₅ s₆ s₇ s' : ModerationDb L) (e : Dispute) (rem : Removal) (out d : Dispute)
      (u₂ u₄ u₇ : Unit {0}) (n : ℕ)
      → get_dispute g id s ≡ (ok e, s₁)
      → require (is_open_state e.state) already_decided s₁ ≡ (ok u₂, s₂)
      → get_removal g e.removal_id s₂ ≡ (ok rem, s₃)
      → require (not (rem.removed_by == by)) reviewer_is_remover s₃ ≡ (ok u₄, s₄)
      → on_disputes (update g.dispute_table (λ e. e.id == id) (decided outcome by now)) s₄
        ≡ (ok n, s₅)
      → get_dispute g id s₅ ≡ (ok out, s₆)
      → write_act g (dispute_outcome_act rem out wall actor) s₆ ≡ (ok u₇, s₇)
      → pure out s₇ ≡ (ok d, s')
      → DecidedBy g id outcome by now wall actor s d s'
  decided_steps s s₁ s₂ s₃ s₄ s₅ s₆ s₇ s' e rem out d u₂ u₄ u₇ n h₁ h₂ h₃ h₄ h₅ h₆ h₇ last =
      let mine = λ (x : Dispute). x.id == id in
      let set = decided outcome by now in
      let (was, e₁) = get_dispute-ok g id s s₁ e h₁ in
      let (was_open, e₂) = require-ok (is_open_state e.state) already_decided s₁ s₂ u₂ h₂ in
      let (there, e₃) = get_removal-ok g e.removal_id s₂ s₃ rem h₃ in
      let (differs, e₄) = require-ok (not (rem.removed_by == by)) reviewer_is_remover s₃ s₄ u₄ h₄ in
      let (again, e₆) = get_dispute-ok g id s₅ s₆ out h₆ in
      let (log, logs, e₇) = write_act-ok g (dispute_outcome_act rem out wall actor) s₆ s₇ u₇ h₇ in
      decided_record s s₂ s₄ s₅ s₆ s₇ s' e rem out d log was was_open (e₂ ∙ e₁) there (ground arith)
        (e₄ ∙ e₃) (update-ok g mine set s₄ s₅ n h₅) again e₆ logs e₇ (ground arith) (ground arith)

  decide_work-ok :
      (s : ModerationDb L) (d : Dispute) (s' : ModerationDb L)
      → decide_work g id outcome by now wall actor s ≡ (ok d, s')
      → DecidedBy g id outcome by now wall actor s d s'
  unfolding decide_work
  decide_work-ok s d s' h =
      let (e, s₁, h₁, r₁) = bind-ok (get_dispute g id) judge s s' d h in
      let (u₂, s₂, h₂, r₂) =
        bind-ok (require (is_open_state e.state) already_decided) (λ u. look_up e) s₁ s' d r₁ in
      let (rem, s₃, h₃, r₃) = bind-ok (get_removal g e.removal_id) review s₂ s' d r₂ in
      let (u₄, s₄, h₄, r₄) =
        bind-ok (require (not (rem.removed_by == by)) reviewer_is_remover) (λ u. settle rem) s₃ s' d
          r₃ in
      let (n, s₅, h₅, r₅) =
        bind-ok (on_disputes (update g.dispute_table (λ e. e.id == id) (decided outcome by now)))
          (λ n. reread rem) s₄ s' d r₄ in
      let (out, s₆, h₆, r₆) = bind-ok (get_dispute g id) (record_act rem) s₅ s' d r₅ in
      let (u₇, s₇, h₇, r₇) =
        bind-ok (write_act g (dispute_outcome_act rem out wall actor)) (λ u. pure out) s₆ s' d r₆ in
      decided_steps s s₁ s₂ s₃ s₄ s₅ s₆ s₇ s' e rem out d u₂ u₄ u₇ n h₁ h₂ h₃ h₄ h₅ h₆ h₇ r₇

  -- A decision that is returned was of an open dispute, by somebody other than the one who made the
  -- removal; it is the dispute's row with the outcome, the reviewer and the time, written together
  -- with the outcome's entry in the log, and with nothing else.
  pub decide_dispute-DecidedBy :
      (s : ModerationDb L) (d : Dispute)
      → (decide_dispute g id outcome by now wall actor s).0 ≡ ok d
      → DecidedBy g id outcome by now wall actor s d
          (decide_dispute g id outcome by now wall actor s).1
  unfolding decide_dispute
  decide_dispute-DecidedBy s d h =
      decide_work-ok s d _
        (committed g.dispute_tx (decide_work g id outcome by now wall actor) s d h)

-- A dispute is decided once: after a decision whose outcome is not to leave it open, no decision of
-- that dispute by anybody, of any outcome, succeeds.
pub decide_dispute_once :
    {L : Type 0} (g : ModerationEngine L) (id : String) (outcome other : DisputeState)
    (by by' : String) (now later : ℕ) (wall wall' : String) (actor actor' : Actor)
    (s : ModerationDb L) (d d' : Dispute)
    → is_open_state outcome ≡ false
    → (decide_dispute g id outcome by now wall actor s).0 ≡ ok d
    → (decide_dispute g id other by' later wall' actor'
        (decide_dispute g id outcome by now wall actor s).1).0
      ≢ ok d'
decide_dispute_once g id outcome other by by' now later wall wall' actor actor' s d d' shut h h' =
    let first = decide_dispute-DecidedBy g id outcome by now wall actor s d h in
    let s' = (decide_dispute g id outcome by now wall actor s).1 in
    let second = decide_dispute-DecidedBy g id other by' later wall' actor' s' d' h' in
    let stands =
      find_first-map_where_self (λ (e : Dispute). e.id == id) (decided outcome by now) s.disputes
        first.before refl first.was in
    let was : find_first (λ e. e.id == id)
          (map_where (λ e. e.id == id) (decided outcome by now) s.disputes)
        ≡ some second.before =
      rw first.left at second.was in
    let same : some (decided outcome by now first.before) ≡ some second.before = sym stands ∙ was in
    let opened = second.was_open in ground arith
