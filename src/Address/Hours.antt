-- ===== src/Address/Hours.antt =====
-- models/address_hours.go: when an address is open, a window for each weekday in the owner's zone.
pub mod Laws
use mwanachama_backend_comm.Base.{
  ℕ, zero, suc, ◌+◌, ◌-◌, ◌*◌, Bool, true, false, not, ◌&&◌, ◌||◌, Option, none, some, List, [],
  ◌∷◌, String, ltb, leb, ◌==◌, is_some, if◌then◌else◌, ℤ, pos, ltb_ℤ, leb_ℤ,
}
use mwanachama_backend_comm.Errors.{Result, ok, err, address_bad_settings}

-- A local time of day, as `time.Time.In(loc)` gives it: Go's weekday (0 is Sunday), hour, minute.
pub record LocalTime : Type 0 where
  pub weekday : ℕ
  pub hour : ℕ
  pub minute : ℕ

-- `time.LoadLocation`, followed by `In`: an instant in the zone of that name, or no such zone.
pub record Zones : Type 0 where
  pub known : String → Bool
  pub local : String → ℕ → LocalTime

-- `AddressDayWindow`.
pub record DayWindow : Type 0 where
  pub from_minute : ℤ
  pub to_minute : ℤ

-- `AddressModeClosed`, `AddressModeSilent`, or any other string; `unset` is the empty one.
pub data Mode : Type 0 where
  unset closed silent : Mode
  other_mode : String → Mode

pub record AddressHours : Type 0 where
  pub zone : String
  pub mode : Mode
  pub days : List (Option DayWindow)

abbrev pub address_minutes_in_day : ℕ
address_minutes_in_day = 24 * 60

-- `addressDayIndex`: Monday first.
unfoldable pub address_day_index : ℕ → ℕ
address_day_index zero = 6
address_day_index (suc d) = d

-- `h.Days[i]`.
abbrev pub day_at : List (Option DayWindow) → ℕ → Option DayWindow
day_at [] i = none
day_at (w ∷ ws) zero = w
day_at (w ∷ ws) (suc i) = day_at ws i

abbrev within : ℕ → DayWindow → Bool
within minute w = leb_ℤ w.from_minute (pos minute) && ltb_ℤ (pos minute) w.to_minute

-- `OpenAt`, at a local time of a zone that is known.
pub open_at_local : List (Option DayWindow) → LocalTime → Bool
open_at_local days t = elim (day_at days (address_day_index t.weekday)) [
  | none ↦ false
  | some w ↦ within (t.hour * 60 + t.minute) w
]

unfoldable pub open_at : Zones → AddressHours → ℕ → Bool
unfolding open_at_local
open_at zones h now =
    if zones.known h.zone then open_at_local h.days (zones.local h.zone now) else true

-- `Any`.
pub any_day : List (Option DayWindow) → Bool
any_day [] = false
any_day (none ∷ ws) = any_day ws
any_day (some w ∷ ws) = true

abbrev is_mode : Mode → Bool
is_mode closed = true
is_mode silent = true
is_mode _ = false

-- The loop of `Validate`.
validate_days : List (Option DayWindow) → Result (Unit {0})
validate_days [] = ok tt
validate_days (none ∷ ws) = validate_days ws
validate_days (some w ∷ ws) =
    let rest = validate_days ws in
    if ltb_ℤ w.from_minute (pos 0) || leb_ℤ (pos address_minutes_in_day) w.from_minute
    then err address_bad_settings
    else if leb_ℤ w.to_minute w.from_minute || ltb_ℤ (pos address_minutes_in_day) w.to_minute
    then err address_bad_settings
    else rest

unfoldable pub hours_validate : Zones → AddressHours → Result (Unit {0})
unfolding validate_days any_day
hours_validate zones h =
    if h.zone == ""
    then err address_bad_settings
    else if not (zones.known h.zone)
    then err address_bad_settings
    else if not (is_mode h.mode)
    then err address_bad_settings
    else elim (validate_days h.days) [
      | ok _ ↦ if any_day h.days then ok tt else err address_bad_settings
      | err e ↦ err e
    ]
