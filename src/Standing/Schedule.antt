-- ===== src/Standing/Schedule.antt =====
-- standing_impl.go: the schedule that a standing message's texts spell.
use mwanachama_backend_comm.Base.{ℕ, Option, none, some, List, [], ◌∷◌, String, ◌==◌, if◌then◌else◌}
use mwanachama_backend_comm.Errors.{Result, ok, err, standing_invalid, ◌>>=◌}
use mwanachama_backend_comm.Standing.Types.{StandingMessage, Schedule, Recur}

abbrev or_zero_time : Option ℕ → ℕ
or_zero_time none = 0
or_zero_time (some at) = at

module _ {Zone Rule Date : Type 0} (recur : Recur Zone Rule Date) where
  abbrev read_rule : String → Result (Option Rule)
  read_rule raw =
      if raw == ""
      then ok none
      else elim (recur.parse_rule raw) [ none ↦ err standing_invalid | some rule ↦ ok (some rule) ]

  abbrev read_dates : List String → Result (List Date)
  read_dates [] = ok []
  read_dates (raw ∷ rest) = elim (recur.parse_date raw) [
    | none ↦ err standing_invalid
    | some d ↦ elim (read_dates rest) [ err e ↦ err e | ok ds ↦ ok (d ∷ ds) ]
  ]

  abbrev or_bad_zone : String → Option Zone → Result Zone
  or_bad_zone name none = err standing_invalid
  or_bad_zone name (some zone) = if name == "" then err standing_invalid else ok zone

  abbrev when_valid : Schedule Zone Rule Date → Result (Schedule Zone Rule Date)
  when_valid sch = if recur.is_valid sch then ok sch else err standing_invalid

  unfoldable pub schedule_of : StandingMessage → Result (Schedule Zone Rule Date)
  schedule_of m = do
    zone ← or_bad_zone m.zone (recur.load_location m.zone)
    rule ← read_rule m.rule
    dates ← read_dates m.dates
    when_valid record {
      start = m.starts_at;
      zone = zone;
      rule = rule;
      dates = dates;
      end_at = or_zero_time m.ends_at;
    }
