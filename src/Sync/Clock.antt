-- ===== src/Sync/Clock.antt =====
-- The calendar of crates/idiolect-sync-server/src/device_tokens.rs: is_leap_year, days_to_ymd and
-- the numbers that iso8601_now writes. The decimal text of a timestamp is not modelled.
pub mod Calendar
use idiolect.Common.{
  ℕ, zero, suc, ◌+◌, ◌-◌, ◌*◌, ◌/◌, ◌%◌, Bool, not, ◌&&◌, ◌||◌, Option, none, some, List, [], ◌∷◌,
  ltb, ◌==◌, if◌then◌else◌,
}

unfoldable pub is_leap_year : ℕ → Bool
is_leap_year y = (y % 4) == 0 && (not ((y % 100) == 0) || (y % 400) == 0)

abbrev pub year_days : Bool → ℕ
year_days leap = if leap then 366 else 365

abbrev pub month_lengths : Bool → List ℕ
month_lengths leap =
    31 ∷ (if leap then 29 else 28) ∷ 31 ∷ 30 ∷ 31 ∷ 30 ∷ 31 ∷ 31 ∷ 30 ∷ 31 ∷ 30 ∷ 31 ∷ []

-- The first loop: the year, and the days left in it; `none` if the fuel runs out.
unfoldable pub year_of : ℕ → ℕ → ℕ → Option (ℕ × ℕ)
year_of zero y days = none
year_of (suc fuel) y days =
    let rest = year_of fuel (y + 1) (days - year_days (is_leap_year y)) in
    if ltb days (year_days (is_leap_year y)) then some (y, days) else rest

-- The second loop: the month, and the days left in it.
unfoldable pub month_of : List ℕ → ℕ → ℕ → ℕ × ℕ
month_of [] mo days = (mo, days)
month_of (dim ∷ months) mo days =
    let rest = month_of months (mo + 1) (days - dim) in if ltb days dim then (mo, days) else rest

pub record Date : Type 0 where
  pub year : ℕ
  pub month : ℕ
  pub day : ℕ

unfoldable pub in_year : ℕ × ℕ → Date
in_year (y, days) =
    let (mo, days') = month_of (month_lengths (is_leap_year y)) 1 days in
    record { year = y; month = mo; day = days' + 1 }

unfoldable pub dated : Option (ℕ × ℕ) → Option Date
dated none = none
dated (some r) = some (in_year r)

-- A round of the first loop takes a day at least, so that a round for each day is enough.
unfoldable pub days_to_ymd : ℕ → Option Date
unfolding in_year dated
days_to_ymd days = dated (year_of (suc days) 1970 days)

pub record Timestamp : Type 0 where
  pub date : Option Date
  pub hour : ℕ
  pub minute : ℕ
  pub second : ℕ

-- `iso8601_now` at a number of seconds since the epoch.
unfoldable pub iso8601 : ℕ → Timestamp
iso8601 secs = record {
  date = days_to_ymd (secs / 86400);
  hour = (secs / 3600) % 24;
  minute = (secs / 60) % 60;
  second = secs % 60;
}
