-- ===== src/Rtc/Calendar.antt =====
-- What a second and a day do to the time and the date that the digits stand for.
use pksx.Base.{
  ℕ, zero, suc, ◌+◌, ◌-◌, ◌*◌, ◌%◌, ◌≤◌, ◌<◌, ◌≡◌, refl, true, not, ◌||◌, arith, ltb, leb, ◌==◌,
  if◌then◌else◌, holds_below, holds_below-test, ok,
}
use native.Mathlib.Decide.{dec_lt}
use pksx.Rtc.Bcd.{IsBcd, value, succ, from_bcd_iff, next-below, succ-IsBcd}
use pksx.Rtc.{Rtc, inc_overflow, inc_overflow_from, days_in_month, day_elapsed}

-- Every counter holds digits in its range. A day may pass the end of its month, as the frontend
-- may set it so.
pub record IsValid (r : Rtc) : Type 0 where
  pub seconds_digits : IsBcd r.seconds
  pub seconds_range : r.seconds ≤ 0x59
  pub minutes_digits : IsBcd r.minutes
  pub minutes_range : r.minutes ≤ 0x59
  pub hours_digits : IsBcd r.hours
  pub hours_range : r.hours ≤ 0x23
  pub week_day_digits : IsBcd r.week_day
  pub week_day_range : (1 ≤ r.week_day) × (r.week_day ≤ 0x07)
  pub day_digits : IsBcd r.day
  pub day_range : (1 ≤ r.day) × (r.day ≤ 0x31)
  pub month_digits : IsBcd r.month
  pub month_range : (1 ≤ r.month) × (r.month ≤ 0x12)
  pub year_digits : IsBcd r.year

-- The digits after a step: one on below the end, and else the start.
abbrev pub bump : ℕ → ℕ → ℕ → ℕ
bump b max min = if ltb b max then succ b else min

pub inc_overflow_lem :
    (b max : ℕ) → IsBcd b → max ≤ 0x99 → inc_overflow b max ≡ ok (bump b max 0, not (ltb b max))
unfolding inc_overflow
inc_overflow_lem b max h k = ground (arith, next-below b h)

pub inc_overflow_from_lem :
    (b max min : ℕ)
    → IsBcd b
    → max ≤ 0x99
    → IsBcd min
    → inc_overflow_from b max min ≡ ok (bump b max min, not (ltb b max))
unfolding inc_overflow_from
inc_overflow_from_lem b max min h k d =
    ground (arith, next-below b h, (from_bcd_iff min min).1 (d, refl))

-- The last day of a month, by the number of the month; February has 28 days.
abbrev pub month_length : ℕ → ℕ
month_length m =
    if m == 0
    then 0
    else if m == 2
    then 28
    else if m == 4 || m == 6 || m == 9 || m == 11
    then 30
    else 31

-- The days of the year before a month.
pub days_before : ℕ → ℕ
days_before zero = 0
days_before (suc m) = days_before m + month_length m

days_in_month_lem :
    (m : ℕ)
    → IsBcd m
    → 1 ≤ m
    → m ≤ 0x12
    → (last : ℕ) × (days_in_month m ≡ ok last)
      × IsBcd last
      × (value last ≡ month_length (value m))
      × (0x28 ≤ last)
      × (last ≤ 0x31)
unfolding days_in_month
days_in_month_lem m d lo hi = (
  if m == 2 then 0x28 else if m == 4 || m == 6 || m == 9 || m == 0x11 then 0x30 else 0x31,
  ground arith,
  ground arith,
  ground arith,
  ground arith,
  ground arith,
)

-- The seconds since midnight, and the days since the start of the century.
abbrev pub second_of_day : Rtc → ℕ
second_of_day r = (value r.hours * 60 + value r.minutes) * 60 + value r.seconds

abbrev pub day_of_century : Rtc → ℕ
day_of_century r = value r.year * 365 + days_before (value r.month) + (value r.day - 1)

-- What `day_elapsed` leaves alone.
abbrev pub SameTime : Rtc → Rtc → Type 0
SameTime r r' =
    (r'.seconds ≡ r.seconds)
    × (r'.minutes ≡ r.minutes)
    × (r'.hours ≡ r.hours)
    × (r'.paused ≡ r.paused)
    × (r'.divider ≡ r.divider)

-- The state after `day_elapsed`, as a function of the digits of the month's last day.
abbrev next_day : ℕ → Rtc → Rtc
next_day last r =
    let r₁ = record r { week_day = bump r.week_day 0x07 0x01; day = bump r.day last 0x01 } in
    if ltb r.day last
    then r₁
    else if ltb r.month 0x12
    then record r₁ { month = succ r.month }
    else record r₁ { month = 0x01; year = bump r.year 0x99 0x00 }

day_elapsed_lem :
    (r : Rtc) (last : ℕ)
    → IsValid r
    → days_in_month r.month ≡ ok last
    → last ≤ 0x31
    → day_elapsed r ≡ ok (next_day last r)
unfolding day_elapsed
day_elapsed_lem r last v e h = ground (
  arith,
  inc_overflow_from_lem r.week_day 0x07 0x01 v.week_day_digits,
  inc_overflow_from_lem r.day last 0x01 v.day_digits,
  inc_overflow_from_lem r.month 0x12 0x01 v.month_digits,
  inc_overflow_from_lem r.year 0x99 0x00 v.year_digits,
)

next_day-IsValid :
    (last : ℕ) (r : Rtc) → IsValid r → 0x28 ≤ last → last ≤ 0x31 → IsValid (next_day last r)
next_day-IsValid last r v lo hi = record {
  seconds_digits = ground (arith, v.seconds_digits);
  seconds_range = ground (arith, v.seconds_range);
  minutes_digits = ground (arith, v.minutes_digits);
  minutes_range = ground (arith, v.minutes_range);
  hours_digits = ground (arith, v.hours_digits);
  hours_range = ground (arith, v.hours_range);
  week_day_digits = ground (arith, v.week_day_digits);
  week_day_range = ground (arith, v.week_day_digits, v.week_day_range);
  day_digits = ground (arith, v.day_digits);
  day_range = ground (arith, v.day_digits, v.day_range);
  month_digits = ground (arith, v.month_digits);
  month_range = ground (arith, v.month_digits, v.month_range);
  year_digits = ground (arith, v.year_digits);
}

days_before-suc : (m : ℕ) → days_before (m + 1) ≡ days_before m + month_length m
days_before-suc m = let e : m + 1 ≡ suc m = omega arith in rw e (unfold days_before in refl)

days_before_ends : (days_before 1 ≡ 0) × (days_before 12 ≡ 334)
unfolding days_before
days_before_ends = (refl, refl)

days_table : holds_below (λ m. leb (days_before m + month_length m) 365) 13 ≡ true
unfolding holds_below days_before
days_table = refl

days_fit : (m : ℕ) → m ≤ 12 → days_before m + month_length m ≤ 365
days_fit m h =
    ground (arith, holds_below-test (λ k. leb (days_before k + month_length k) 365) 13 days_table m)

early_table : holds_below (λ m. leb (days_before m + month_length m) 334) 12 ≡ true
unfolding holds_below days_before
early_table = refl

days_fit_early : (m : ℕ) → m < 12 → days_before m + month_length m ≤ 334
days_fit_early m h =
    ground
      (arith, holds_below-test (λ k. leb (days_before k + month_length k) 334) 12 early_table m)

next_year :
    (r : Rtc) (last : ℕ)
    → IsValid r
    → IsBcd last
    → r.month ≡ 0x12
    → r.day ≡ last
    → value last ≡ month_length 12
    → value (bump r.year 0x99 0x00) * 365 + days_before 1 + 0 ≡ (day_of_century r + 1) % 36500
next_year r last v d december ends e =
    rw december (ground (arith, days_before_ends, succ-IsBcd r.year v.year_digits))

-- On a date that exists the next day is one further in the century.
next_day_of_century :
    (last : ℕ) (r : Rtc)
    → IsValid r
    → IsBcd last
    → value last ≡ month_length (value r.month)
    → r.day ≤ last
    → day_of_century (next_day last r) ≡ (day_of_century r + 1) % 36500
next_day_of_century last r v d e k = elim (dec_lt r.day last) [
  | yes within ↦
      let step : value (succ r.day) ≡ value r.day + 1 =
        (succ-IsBcd r.day v.day_digits (omega arith)).1 in
      let more : next_day last r
          ≡ record r { week_day = bump r.week_day 0x07 0x01; day = succ r.day } =
        ground arith in
      rw more (omega (arith, step, days_fit (value r.month)))
  | no month_ends ↦ elim (dec_lt r.month 0x12) [
    | yes within ↦
        let step : value (succ r.month) ≡ value r.month + 1 =
          (succ-IsBcd r.month v.month_digits (omega arith)).1 in
        let more : next_day last r
            ≡ record r { week_day = bump r.week_day 0x07 0x01; day = 0x01; month = succ r.month } =
          ground arith in
        rw (more, step, days_before-suc) (omega (arith, days_fit_early (value r.month)))
    | no year_ends ↦
        let december : r.month ≡ 0x12 = omega arith in
        let more : next_day last r ≡ record r {
          week_day = bump r.week_day 0x07 0x01;
          day = 0x01;
          month = 0x01;
          year = bump r.year 0x99 0x00;
        } =
          ground arith in
        rw more (next_year r last v d december (omega arith) (rw december at e))
  ]
]

day_elapsed-next_day :
    (r : Rtc)
    → IsValid r
    → (last : ℕ) × (day_elapsed r ≡ ok (next_day last r))
      × IsValid (next_day last r)
      × IsBcd last
      × (value last ≡ month_length (value r.month))
day_elapsed-next_day r v =
    let (last, found, digits, length, lo, hi) =
      days_in_month_lem r.month v.month_digits v.month_range.0 v.month_range.1 in
    (last, day_elapsed_lem r last v found hi, next_day-IsValid last r v lo hi, digits, length)

-- On a valid clock `day_elapsed` returns, keeps the clock valid and the time of day, and the week
-- day goes round in seven days.
pub day_elapsed-IsValid :
    (r : Rtc)
    → IsValid r
    → (r' : Rtc) × (day_elapsed r ≡ ok r')
      × IsValid r'
      × SameTime r r'
      × (r'.week_day ≡ r.week_day % 7 + 1)
day_elapsed-IsValid r v =
    let (last, returns, keeps, _, _) = day_elapsed-next_day r v in
    (next_day last r, returns, keeps, ground arith, ground (arith, v.week_day_range))

-- On a valid clock whose day exists in its month, `day_elapsed` returns and moves the date on by
-- one day, in a century of 100 years of 365 days.
pub day_elapsed-day_of_century :
    (r : Rtc)
    → IsValid r
    → value r.day ≤ month_length (value r.month)
    → (r' : Rtc) × (day_elapsed r ≡ ok r') × (day_of_century r' ≡ (day_of_century r + 1) % 36500)
day_elapsed-day_of_century r v exists =
    let (last, returns, _, digits, length) = day_elapsed-next_day r v in
    (next_day last r, returns, next_day_of_century last r v digits length (omega arith))
