-- ===== src/Standing/Store/Tracked.antt =====
-- The invariant of the workers that send standing messages: what was sent is behind the rows.
use mwanachama_backend_comm.Base.{
  ℕ, ◌≤◌, ◌<◌, Bool, true, false, ◌≡◌, ◌≢◌, refl, ap, ◌∙◌, List, [], ◌∷◌, ◌++◌, String, count, any,
  all, ◌==◌,
}
use mwanachama_backend_comm.Sql.Rows.{map_where}
use mwanachama_backend_comm.Standing.Types.{StandingMessage}
use mwanachama_backend_comm.Standing.Store.{due_from, claimable, sent_at, stopped_by_at}
use mwanachama_backend_comm.Standing.Store.Reached.{
  reached, has_id, all-map_where, all-append, claimed_later, all-reached_claimed, any-map_where,
  any-append_left, claimed-any, unlike-reached, unique_append, reached-sent_at,
}
use mwanachama_backend_comm.Sql.Counts.{count-map_where_keeps}

-- The occurrences that were sent, with the ids of their messages, the newest first.
abbrev pub Log : Type 0
Log = List (String × ℕ)

abbrev pub After : String × ℕ → Log → Type 0
After x [] = Unit {0}
After x (y ∷ ys) = (y.0 ≡ x.0 → y.1 < x.1) × After x ys

-- Every occurrence of a message that was sent is after all those that were sent before it.
abbrev pub Increasing : Log → Type 0
Increasing [] = Unit {0}
Increasing (x ∷ log) = After x log × Increasing log

abbrev pub AllReached : Log → List StandingMessage → Type 0
AllReached [] rows = Unit {0}
AllReached (x ∷ log) rows =
    (all (reached x) rows ≡ true) × (any (has_id x.0) rows ≡ true) × AllReached log rows

AllReached-map_where :
    (q : StandingMessage → Bool) (set : StandingMessage → StandingMessage) (log : Log)
    (rows : List StandingMessage)
    → ((r : StandingMessage) → (set r).id ≡ r.id)
    → ((x : String × ℕ) (r : StandingMessage)
        → q r ≡ true
        → reached x r ≡ true
        → reached x (set r) ≡ true)
    → AllReached log rows
    → AllReached log (map_where q set rows)
AllReached-map_where q set [] rows same keeps h = tt
AllReached-map_where q set (x ∷ log) rows same keeps (past, there, rest) = (
  all-map_where q (reached x) set rows (keeps x) past,
  any-map_where q (has_id x.0) set rows (λ r. ap (λ id. id == x.0) (same r)) ∙ there,
  AllReached-map_where q set log rows same keeps rest,
)

AllReached-append :
    (new : StandingMessage) (log : Log) (rows : List StandingMessage)
    → any (has_id new.id) rows ≡ false
    → AllReached log rows
    → AllReached log (rows ++ new ∷ [])
AllReached-append new [] rows fresh h = tt
AllReached-append new (x ∷ log) rows fresh (past, there, rest) = (
  all-append (reached x) rows new past (unlike-reached new x rows fresh there),
  any-append_left (has_id x.0) rows (new ∷ []) there,
  AllReached-append new log rows fresh rest,
)

AllReached-After :
    (m : StandingMessage) (at : ℕ) (log : Log) (rows : List StandingMessage)
    → due_from m ≤ at
    → count (claimable m) rows ≢ 0
    → AllReached log rows
    → After (m.id, at) log
AllReached-After m at [] rows due met h = tt
AllReached-After m at (x ∷ log) rows due met (past, there, rest) = (
  λ same. claimed_later m at x rows due same met past,
  AllReached-After m at log rows due met rest,
)

pub record Tracked (rows : List StandingMessage) (log : Log) : Type 0 where
  pub unique : (id : String) → count (has_id id) rows ≤ 1
  pub tracked : AllReached log rows
  pub increasing : Increasing log

pub Tracked-works :
    (m : StandingMessage) (at : ℕ) (rows : List StandingMessage) (log : Log)
    → due_from m ≤ at
    → count (claimable m) rows ≢ 0
    → Tracked rows log
    → Tracked (map_where (claimable m) (sent_at at) rows) ((m.id, at) ∷ log)
Tracked-works m at rows log due met t = record {
  unique = λ id.
      rw (count-map_where_keeps (claimable m) (has_id id) (sent_at at) rows (λ r. refl))
        (t.unique id);
  tracked = (
    all-reached_claimed m at rows (t.unique m.id) met,
    any-map_where (claimable m) (has_id m.id) (sent_at at) rows (λ r. refl)
        ∙ claimed-any m rows met,
    AllReached-map_where (claimable m) (sent_at at) log rows (λ r. refl)
        (λ x r. reached-sent_at m r x at due) t.tracked,
  );
  increasing = (AllReached-After m at log rows due met t.tracked, t.increasing);
}

pub Tracked-stops :
    (q : StandingMessage → Bool) (by : String) (at : ℕ) (rows : List StandingMessage) (log : Log)
    → Tracked rows log
    → Tracked (map_where q (stopped_by_at by at) rows) log
Tracked-stops q by at rows log t = record {
  unique = λ id.
      rw (count-map_where_keeps q (has_id id) (stopped_by_at by at) rows (λ r. refl)) (t.unique id);
  tracked =
      AllReached-map_where q (stopped_by_at by at) log rows (λ r. refl) (λ x r mine past. past)
        t.tracked;
  increasing = t.increasing;
}

pub Tracked-creates :
    (new : StandingMessage) (rows : List StandingMessage) (log : Log)
    → any (has_id new.id) rows ≡ false
    → Tracked rows log
    → Tracked (rows ++ new ∷ []) log
Tracked-creates new rows log fresh t = record {
  unique = λ id. unique_append new id rows fresh (t.unique id);
  tracked = AllReached-append new log rows fresh t.tracked;
  increasing = t.increasing;
}
