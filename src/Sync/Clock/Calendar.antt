-- ===== src/Sync/Clock/Calendar.antt =====
-- The loops of days_to_ymd in device_tokens.rs against the closed formulas of the calendar.
use mathlib.Core.Path.{subst}
use idiolect.Common.{
  sym, ap, ◌∙◌, leb, ◌==◌, ◌&&◌, if◌then◌else◌, ◌%◌, ℕ, zero, suc, ◌+◌, ◌-◌, ◌*◌, ◌/◌, ◌≤◌, ◌<◌,
  ◌≡◌, refl, Bool, true, false, Option, some, List, [], ◌∷◌, length, ltb, ltb→lt, Bool-cases, inl,
  inr, arith,
}
use idiolect.Sync.Clock.{
  is_leap_year, year_days, month_lengths, year_of, month_of, Date, in_year, dated, days_to_ymd,
  iso8601,
}

-- The days of the first years since 1970.
unfoldable pub days_of_years : ℕ → ℕ
days_of_years zero = 0
days_of_years (suc k) = days_of_years k + year_days (is_leap_year (1970 + k))

-- The days of the first months, and the length of a month.
abbrev pub days_of_months : ℕ → List ℕ → ℕ
days_of_months zero ms = 0
days_of_months (suc i) [] = 0
days_of_months (suc i) (m ∷ ms) = m + days_of_months i ms

abbrev pub month_length : ℕ → List ℕ → ℕ
month_length i [] = 0
month_length zero (m ∷ ms) = m
month_length (suc i) (m ∷ ms) = month_length i ms

abbrev sum : List ℕ → ℕ
sum [] = 0
sum (m ∷ ms) = m + sum ms

-- The Gregorian day numbers, without the leap years of the loops: a day more every fourth year, none
-- every hundredth, and one every four hundredth, up to the year before.
unfoldable pub days_before_year : ℕ → ℕ
days_before_year y = (y - 1) * 365 + (y - 1) / 4 - (y - 1) / 100 + (y - 1) / 400

-- The days before the first of a month: thirty and a half each on the average, and from March on
-- counted back from the end of the year. The month 13 is the next January.
unfoldable pub days_before : ℕ → ℕ → ℕ
unfolding days_before_year
days_before y m =
    if leb m 2
    then days_before_year y + (367 * m - 362) / 12
    else days_before_year (y + 1) + (367 * m - 362) / 12 - 367

-- The date is the day of this number since 1970-01-01: it exists, and the numbers agree.
pub record IsDateOf (days : ℕ) (date : Date) : Type 0 where
  pub since_epoch : 1970 ≤ date.year
  pub is_month : (1 ≤ date.month) × (date.month ≤ 12)
  pub is_day :
      (1 ≤ date.day)
      × (days_before date.year date.month + date.day ≤ days_before date.year (date.month + 1))
  pub total : days_before date.year date.month + date.day ≡ days_before 1970 1 + days + 1

-- The date that lies `i` months and `d` days into the year `1970 + k`, as the loops count.
record IsCounted (days : ℕ) (date : Date) : Type 0 where
  pub years : ℕ
  pub months : ℕ
  pub days_left : ℕ
  pub year : date.year ≡ 1970 + years
  pub month : date.month ≡ months + 1
  pub in_year : months < 12
  pub day : date.day ≡ days_left + 1
  pub in_month : days_left < month_length months (month_lengths (is_leap_year date.year))
  pub total :
      days_of_years years
        + days_of_months months (month_lengths (is_leap_year date.year))
        + days_left
      ≡ days

ltb_false→le : (a b : ℕ) → ltb a b ≡ false → b ≤ a
ltb_false→le a b h = ground arith

year_days_pos : (leap : Bool) → 0 < year_days leap
year_days_pos true = omega arith
year_days_pos false = omega arith

-- What the first loop finds, from the start of the year `1970 + k`.
abbrev YearFound : ℕ → ℕ → Option (ℕ × ℕ) → Type 0
YearFound k days found =
    (j : ℕ) × (rest : ℕ) × (found ≡ some (1970 + j, rest))
    × (rest < year_days (is_leap_year (1970 + j)))
    × (days_of_years j + rest ≡ days_of_years k + days)

YearFound-later :
    (k days : ℕ) (found : Option (ℕ × ℕ))
    → year_days (is_leap_year (1970 + k)) ≤ days
    → YearFound (suc k) (days - year_days (is_leap_year (1970 + k))) found
    → YearFound k days found
unfolding days_of_years
YearFound-later k days found h (j, rest, e, l, t) = (j, rest, e, l, omega arith)

year_step :
    (fuel k days : ℕ)
    → ltb days (year_days (is_leap_year (1970 + k))) ≡ false
    → year_of (suc fuel) (1970 + k) days
      ≡ year_of fuel (1970 + suc k) (days - year_days (is_leap_year (1970 + k)))
unfolding year_of
year_step fuel k days e =
    let next : 1970 + k + 1 ≡ 1970 + suc k = omega arith in
    rw e (ap (λ y. year_of fuel y (days - year_days (is_leap_year (1970 + k)))) next)

-- With fuel for more rounds than there are days, the first loop ends in the year of the day.
year_of-YearFound :
    (fuel k days : ℕ) → days < fuel → YearFound k days (year_of fuel (1970 + k) days)
unfolding year_of
year_of-YearFound zero k days h = elim h [ ]
year_of-YearFound (suc fuel) k days h =
    elim (Bool-cases (ltb days (year_days (is_leap_year (1970 + k))))) [
      | inl e ↦ (k, days, rw e refl, ltb→lt _ _ e, refl)
      | inr e ↦
          (let y = year_days (is_leap_year (1970 + k)) in
            let long : y ≤ days = ltb_false→le days y e in
            let pos : 0 < y = year_days_pos (is_leap_year (1970 + k)) in
            let rest : YearFound (suc k) (days - y) (year_of fuel (1970 + suc k) (days - y)) =
              year_of-YearFound fuel (suc k) (days - y) (omega arith) in
            subst (YearFound k days) (sym (year_step fuel k days e))
              (YearFound-later k days _ long rest))
    ]

-- What the second loop finds, from the start of the month `mo`.
abbrev MonthFound : List ℕ → ℕ → ℕ → ℕ × ℕ → Type 0
MonthFound ms mo days found =
    (i : ℕ) × (rest : ℕ) × (found.0 ≡ mo + i)
    × (found.1 ≡ rest)
    × (i < length ms)
    × (rest < month_length i ms)
    × (days_of_months i ms + rest ≡ days)

MonthFound-later :
    (m : ℕ) (ms : List ℕ) (mo days : ℕ) (found : ℕ × ℕ)
    → m ≤ days
    → MonthFound ms (mo + 1) (days - m) found
    → MonthFound (m ∷ ms) mo days found
MonthFound-later m ms mo days found h (i, rest, e, r, l, b, t) =
    (suc i, rest, omega arith, r, omega arith, b, omega arith)

month_of-MonthFound :
    (ms : List ℕ) (mo days : ℕ) → days < sum ms → MonthFound ms mo days (month_of ms mo days)
unfolding month_of
month_of-MonthFound [] mo days h = elim h [ ]
month_of-MonthFound (m ∷ ms) mo days h = elim (Bool-cases (ltb days m)) [
  | inl e ↦ (0, days, rw e (omega arith), rw e refl, omega arith, ltb→lt _ _ e, omega arith)
  | inr e ↦
      (let long : m ≤ days = ltb_false→le days m e in
        rw e (
          MonthFound-later m ms mo days (month_of ms (mo + 1) (days - m)) long
            (month_of-MonthFound ms (mo + 1) (days - m) (omega arith))))
]

year_sum : (leap : Bool) → sum (month_lengths leap) ≡ year_days leap
year_sum true = refl
year_sum false = refl

length_lt : (i : ℕ) (leap : Bool) → i < length (month_lengths leap) → i < 12
length_lt i leap h = h

in_year-IsCounted :
    (days k y rest : ℕ)
    → y ≡ 1970 + k
    → rest < year_days (is_leap_year y)
    → days_of_years k + rest ≡ days
    → IsCounted days (in_year (y, rest))
unfolding in_year
in_year-IsCounted days k y rest e l t =
    let ms = month_lengths (is_leap_year y) in
    let (i, d, month, left, r, b, m) =
      month_of-MonthFound ms 1 rest (rw (year_sum (is_leap_year y)) l) in
    record {
      years = k;
      months = i;
      days_left = d;
      year = e;
      month = month ∙ omega arith;
      in_year = length_lt i (is_leap_year y) r;
      day = ap (λ n. n + 1) left;
      in_month = b;
      total = omega arith;
    }

-- The closed formula takes as many days for a year as the first loop.
days_before_year-suc :
    (y : ℕ) → 1 ≤ y → days_before_year (y + 1) ≡ days_before_year y + year_days (is_leap_year y)
unfolding days_before_year is_leap_year
days_before_year-suc y h = ground arith

days_before_year-of_years :
    (k : ℕ) → days_before_year (1970 + k) ≡ days_before_year 1970 + days_of_years k
unfolding days_of_years
days_before_year-of_years zero =
    let same : 1970 + 0 ≡ 1970 = omega arith in omega (arith, ap days_before_year same)
days_before_year-of_years (suc k) =
    let next : 1970 + suc k ≡ 1970 + k + 1 = omega arith in
    omega (
      arith,
      days_before_year-of_years k,
      days_before_year-suc (1970 + k) (omega arith),
      ap days_before_year next,
    )

-- A test of the first numbers.
abbrev all_below : ℕ → (ℕ → Bool) → Bool
all_below zero p = true
all_below (suc n) p = p n && all_below n p

all_below-holds : (n i : ℕ) (p : ℕ → Bool) → all_below n p ≡ true → i < n → p i ≡ true
all_below-holds zero i p h l = absurd (omega arith)
all_below-holds (suc n) i p h l = elim (Bool-cases (i == n)) [
  | inl same ↦ let e : i ≡ n = ground arith in rw e (ground arith)
  | inr other ↦ all_below-holds n i p (ground arith) (ground arith)
]

-- The tables of the months against the closed formula, and their last days.
abbrev table_agrees : Bool → ℕ → Bool
table_agrees leap i =
    (days_of_months i (month_lengths leap) + (if leb i 1 then 0 else if leap then 1 else 2)
      == (367 * (i + 1) - 362) / 12)

tables_agree :
    (leap : Bool) (i : ℕ)
    → i < 13
    → days_of_months i (month_lengths leap) + (if leb i 1 then 0 else if leap then 1 else 2)
      ≡ (367 * (i + 1) - 362) / 12
tables_agree true i h = ground (arith, all_below-holds 13 i (table_agrees true) refl h)
tables_agree false i h = ground (arith, all_below-holds 13 i (table_agrees false) refl h)

abbrev step_agrees : Bool → ℕ → Bool
step_agrees leap i =
    days_of_months (suc i) (month_lengths leap)
    == days_of_months i (month_lengths leap) + month_length i (month_lengths leap)

steps_agree :
    (leap : Bool) (i : ℕ)
    → i < 12
    → days_of_months (suc i) (month_lengths leap)
      ≡ days_of_months i (month_lengths leap) + month_length i (month_lengths leap)
steps_agree true i h = ground (arith, all_below-holds 12 i (step_agrees true) refl h)
steps_agree false i h = ground (arith, all_below-holds 12 i (step_agrees false) refl h)

-- The first of a month, by the formula and by the loops.
days_before-of_months :
    (k i : ℕ)
    → i < 13
    → days_before (1970 + k) (i + 1)
      ≡ days_before_year 1970
        + days_of_years k
        + days_of_months i (month_lengths (is_leap_year (1970 + k)))
unfolding days_before
days_before-of_months k i h = ground (
  arith,
  tables_agree (is_leap_year (1970 + k)) i h,
  days_before_year-of_years k,
  days_before_year-suc (1970 + k) (omega arith),
)

IsCounted-IsDateOf : (days : ℕ) (date : Date) → IsCounted days date → IsDateOf days date
unfolding days_before
IsCounted-IsDateOf days date c =
    let leap = is_leap_year (1970 + c.years) in
    let this = days_before-of_months c.years c.months (omega (arith, c.in_year)) in
    let next = days_before-of_months c.years (suc c.months) (omega (arith, c.in_year)) in
    let step = steps_agree leap c.months c.in_year in
    let same : is_leap_year date.year ≡ leap = ap is_leap_year c.year in
    let left : c.days_left < month_length c.months (month_lengths leap) =
      subst (λ l. c.days_left < month_length c.months (month_lengths l)) same c.in_month in
    let sum_is : days_of_years c.years + days_of_months c.months (month_lengths leap) + c.days_left
        ≡ days =
      subst
        (λ l.
          days_of_years c.years + days_of_months c.months (month_lengths l) + c.days_left ≡ days)
        same c.total in
    let start : days_before date.year date.month ≡ days_before (1970 + c.years) (c.months + 1) =
      rw (c.year, c.month) refl in
    let after : days_before date.year (date.month + 1)
        ≡ days_before (1970 + c.years) (suc c.months + 1) =
      ap (λ y. days_before y (date.month + 1)) c.year
      ∙ ap (days_before (1970 + c.years)) (omega (arith, c.month)) in
    record {
      since_epoch = omega (arith, c.year);
      is_month = (omega (arith, c.month), omega (arith, c.month, c.in_year));
      is_day = (omega (arith, c.day), omega (arith, start, after, this, next, step, left, c.day));
      total = omega (arith, start, this, c.day, sum_is);
    }

found_date :
    (days : ℕ) (found : Option (ℕ × ℕ))
    → YearFound 0 days found
    → (date : Date) × (dated found ≡ some date) × IsCounted days date
unfolding dated days_of_years
found_date days found (j, rest, e, l, t) = (
  in_year (1970 + j, rest),
  ap dated e,
  in_year-IsCounted days j (1970 + j) rest refl l (omega (arith, t)),
)

-- The conversion always ends with a date, the one that the closed formula of the Gregorian calendar
-- gives for the number of days.
pub days_to_ymd_total :
    (days : ℕ) → (date : Date) × (days_to_ymd days ≡ some date) × IsDateOf days date
unfolding days_to_ymd
days_to_ymd_total days =
    let (date, found, counted) =
      found_date days (year_of (suc days) 1970 days)
        (year_of-YearFound (suc days) 0 days (omega arith)) in
    (date, found, IsCounted-IsDateOf days date counted)

clock_parts :
    (secs : ℕ)
    → (secs / 86400) * 86400 + ((secs / 3600) % 24) * 3600 + ((secs / 60) % 60) * 60 + secs % 60
      ≡ secs
clock_parts secs = omega arith

-- Whatever the clock shows, the loops of the conversion end, and the timestamp tells that time: its
-- date exists and is the one that the closed formula of the Gregorian calendar gives for the number
-- of days, its leap rule included (a year of four, not of a hundred, but of four hundred); its hour,
-- minute and second are in range; and the days and these add up to the seconds given.
pub iso8601_total :
    (secs : ℕ)
    → (days : ℕ) × (date : Date) × ((iso8601 secs).date ≡ some date)
      × IsDateOf days date
      × (days * 86400
            + (iso8601 secs).hour * 3600
            + (iso8601 secs).minute * 60
            + (iso8601 secs).second
          ≡ secs)
      × ((iso8601 secs).hour < 24)
      × ((iso8601 secs).minute < 60)
      × ((iso8601 secs).second < 60)
unfolding iso8601
iso8601_total secs =
    let (date, found, counted) = days_to_ymd_total (secs / 86400) in
    (secs / 86400, date, found, counted, clock_parts secs, omega arith, omega arith, omega arith)
