-- ===== src/Address/Hours/Laws.antt =====
-- A schedule that validates.
use mwanachama_backend_comm.Base.{
  ℕ, suc, ◌/◌, ◌%◌, ◌<◌, ◌≤◌, true, false, ◌≡◌, refl, Option, none, some, List, [], ◌∷◌, arith, ℤ,
  pos, negsuc, length, ltb_ℤ, leb_ℤ, if◌then◌else◌,
}
use mwanachama_backend_comm.Errors.{ok}
use mwanachama_backend_comm.Address.Hours.{
  DayWindow, AddressHours, Zones, LocalTime, address_day_index, day_at, open_at_local, any_day,
  validate_days, hours_validate, address_minutes_in_day,
}

-- A window lies in the day, and opens before it closes.
abbrev pub InDay : DayWindow → Type 0
InDay w = (m n : ℕ) × (w.from_minute ≡ pos m) × (w.to_minute ≡ pos n) × (m < n) × (n ≤ 1440)

-- Every window of the week lies in its day.
abbrev pub WeekInDay : List (Option DayWindow) → Type 0
WeekInDay [] = Unit
WeekInDay (none ∷ ws) = WeekInDay ws
WeekInDay (some w ∷ ws) = InDay w × WeekInDay ws

window_InDay :
    (w : DayWindow)
    → ltb_ℤ w.from_minute (pos 0) ≡ false
    → leb_ℤ w.to_minute w.from_minute ≡ false
    → ltb_ℤ (pos address_minutes_in_day) w.to_minute ≡ false
    → InDay w
window_InDay w a b c = go w.from_minute w.to_minute refl refl a b c
  where
    go :
        (from to : ℤ)
        → w.from_minute ≡ from
        → w.to_minute ≡ to
        → ltb_ℤ from (pos 0) ≡ false
        → leb_ℤ to from ≡ false
        → ltb_ℤ (pos address_minutes_in_day) to ≡ false
        → InDay w
    go (pos m) (pos n) f t a b c = (m, n, f, t, ground arith, ground arith)
    go (pos m) (negsuc n) f t a b c = absurd (ground arith)
    go (negsuc m) to f t a b c = absurd (ground arith)

validate_days-WeekInDay : (ws : List (Option DayWindow)) → validate_days ws ≡ ok tt → WeekInDay ws
unfolding validate_days
validate_days-WeekInDay [] h = tt
validate_days-WeekInDay (none ∷ ws) h = validate_days-WeekInDay ws h
validate_days-WeekInDay (some w ∷ ws) h = (
  window_InDay w (ground arith) (ground arith) (ground arith),
  validate_days-WeekInDay ws (ground arith),
)

-- A day of the week that has a window.
open_day :
    (ws : List (Option DayWindow))
    → any_day ws ≡ true
    → WeekInDay ws
    → (k : ℕ) × (w : DayWindow) × (k < length ws) × (day_at ws k ≡ some w) × InDay w
unfolding any_day
open_day [] h v = cc
open_day (none ∷ ws) h v = let (k, w, lt, at, d) = open_day ws h v in (suc k, w, omega arith, at, d)
open_day (some w ∷ ws) h v = (0, w, omega arith, refl, v.0)

-- Go's weekday for a Monday-first index.
weekday_of : ℕ → ℕ
weekday_of k = if ltb_ℤ (pos k) (pos 6) then suc k else 0

weekday_of_lem : (k : ℕ) → k < 7 → (weekday_of k < 7) × (address_day_index (weekday_of k) ≡ k)
unfolding weekday_of address_day_index
weekday_of_lem k h = ground arith

open_in_window :
    (days : List (Option DayWindow)) (w : DayWindow) (k m n : ℕ)
    → k < 7
    → day_at days k ≡ some w
    → w.from_minute ≡ pos m
    → w.to_minute ≡ pos n
    → m < n
    → open_at_local days (record { weekday = weekday_of k; hour = m / 60; minute = m % 60 }) ≡ true
unfolding open_at_local
open_in_window days w k m n small at from to before =
    rw ((weekday_of_lem k small).1, at, from, to, open_at_local) (ground arith)

-- Hours that validate, over the seven days of a week, are open at some time of the week: they
-- are not an address that never opens.
pub hours_validate_opens :
    (zones : Zones) (h : AddressHours)
    → length h.days ≡ 7
    → hours_validate zones h ≡ ok tt
    → (t : LocalTime) × (t.weekday < 7)
      × (t.hour < 24)
      × (t.minute < 60)
      × (open_at_local h.days t ≡ true)
unfolding hours_validate
hours_validate_opens zones h seven valid =
    let (k, w, lt, at, (m, n, from, to, before, inside)) =
      open_day h.days (ground arith) (validate_days-WeekInDay h.days (ground arith)) in
    let small : k < 7 = omega arith in
    (
      record { weekday = weekday_of k; hour = m / 60; minute = m % 60 },
      (weekday_of_lem k small).0,
      omega arith,
      omega arith,
      open_in_window h.days w k m n small at from to before,
    )
