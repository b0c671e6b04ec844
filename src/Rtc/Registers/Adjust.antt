-- ===== src/Rtc/Registers/Adjust.antt =====
-- What the registers of the clock read and write: the packed time and date, and ADJUST.
use pksx.Base.{
  ℕ, ◌+◌, ◌*◌, ◌/◌, ◌%◌, ◌^◌, ◌≤◌, ◌<◌, ◌≡◌, refl, ◌≢◌, true, false, arith, ◌==◌, if◌then◌else◌,
  Panic, ok, panic,
}
use pksx.Base.Bits.Laws.{bit_or_fields}
use pksx.Rtc.Bcd.{IsBcd, from_bcd_iff, next-below}
use pksx.Rtc.{Rtc, day_elapsed}
use pksx.Rtc.Registers.{time, date, adjusted, set_adjust, load}
use pksx.Rtc.Calendar.{IsValid, bump, inc_overflow_from_lem}

time_as_sum :
    (r : Rtc)
    → IsValid r
    → time r ≡ r.seconds + r.minutes * 2 ^ 8 + r.hours * 2 ^ 16 + r.week_day * 2 ^ 24
unfolding time
time_as_sum r v = ground (
  arith,
  bit_or_fields 8 r.seconds r.minutes,
  bit_or_fields 16 (r.seconds + r.minutes * 2 ^ 8) r.hours,
  bit_or_fields 24 (r.seconds + r.minutes * 2 ^ 8 + r.hours * 2 ^ 16) r.week_day,
)

date_as_sum : (r : Rtc) → IsValid r → date r ≡ r.day + r.month * 2 ^ 8 + r.year * 2 ^ 16
unfolding date
date_as_sum r v =
    ground (arith, bit_or_fields 8 r.day r.month, bit_or_fields 16 (r.day + r.month * 2 ^ 8) r.year)

-- The words that loads of TIME and DATE return on a valid clock hold each counter in a byte of its
-- own.
pub load_fields :
    (r : Rtc) (t d : ℕ)
    → IsValid r
    → load 0x8 r ≡ ok t
    → load 0xc r ≡ ok d
    → (t % 256 ≡ r.seconds)
      × (t / 2 ^ 8 % 256 ≡ r.minutes)
      × (t / 2 ^ 16 % 256 ≡ r.hours)
      × (t / 2 ^ 24 ≡ r.week_day)
      × (d % 256 ≡ r.day)
      × (d / 2 ^ 8 % 256 ≡ r.month)
      × (d / 2 ^ 16 ≡ r.year)
load_fields r t d v et ed =
    let et' : t ≡ r.seconds + r.minutes * 2 ^ 8 + r.hours * 2 ^ 16 + r.week_day * 2 ^ 24 =
      unfold load in ground (arith, time_as_sum r v) in
    let ed' : d ≡ r.day + r.month * 2 ^ 8 + r.year * 2 ^ 16 =
      unfold load in ground (arith, date_as_sum r v) in
    (
      omega (arith, v.seconds_digits),
      omega (arith, v.seconds_digits),
      omega (arith, v.seconds_digits),
      omega (arith, v.seconds_digits),
      omega (arith, v.day_digits),
      omega (arith, v.day_digits),
      omega (arith, v.day_digits),
    )

adjusted_lem :
    (counter min max : ℕ)
    → IsBcd counter
    → IsBcd min
    → max ≤ 0x99
    → adjusted counter min max ≡ ok (bump counter max min)
unfolding adjusted
adjusted_lem counter min max h d k =
    ground (arith, next-below counter h, (from_bcd_iff min min).1 (d, refl))

-- The clock after ADJUST of any counter but the month.
abbrev adjusted_clock : Rtc → Rtc
adjusted_clock r =
    if r.skip
    then record r { skip = false }
    else if r.adjust == 0
    then record r { seconds = bump r.seconds 0x59 0x00; skip = true }
    else if r.adjust == 1
    then record r { minutes = bump r.minutes 0x59 0x00; skip = true }
    else if r.adjust == 2
    then record r { hours = bump r.hours 0x23 0x00; skip = true }
    else if r.adjust == 3
    then record r { week_day = bump r.week_day 0x07 0x01; skip = true }
    else if r.adjust == 4
    then record r { day = bump r.day 0x31 0x01; skip = true }
    else record r { year = bump r.year 0x99 0x00; skip = true }

set_adjust_lem :
    (r : Rtc) → IsValid r → r.adjust < 7 → r.adjust ≢ 5 → set_adjust r ≡ ok (adjusted_clock r)
unfolding set_adjust
set_adjust_lem r v known other = ground (
  arith,
  adjusted_lem r.seconds 0x00 0x59 v.seconds_digits,
  adjusted_lem r.minutes 0x00 0x59 v.minutes_digits,
  adjusted_lem r.hours 0x00 0x23 v.hours_digits,
  adjusted_lem r.week_day 0x01 0x07 v.week_day_digits,
  adjusted_lem r.day 0x01 0x31 v.day_digits,
  adjusted_lem r.year 0x00 0x99 v.year_digits,
)

adjusted_clock-IsValid : (r : Rtc) → IsValid r → IsValid (adjusted_clock r)
adjusted_clock-IsValid r v = record {
  seconds_digits = ground (arith, v.seconds_digits);
  seconds_range = ground (arith, v.seconds_digits, v.seconds_range);
  minutes_digits = ground (arith, v.minutes_digits);
  minutes_range = ground (arith, v.minutes_digits, v.minutes_range);
  hours_digits = ground (arith, v.hours_digits);
  hours_range = ground (arith, v.hours_digits, v.hours_range);
  week_day_digits = ground (arith, v.week_day_digits);
  week_day_range = ground (arith, v.week_day_digits, v.week_day_range);
  day_digits = ground (arith, v.day_digits);
  day_range = ground (arith, v.day_digits, v.day_range);
  month_digits = ground (arith, v.month_digits);
  month_range = ground (arith, v.month_digits, v.month_range);
  year_digits = ground (arith, v.year_digits);
}

-- On a valid clock, a write to ADJUST that selects one of the seven counters, but not the month,
-- returns and keeps the clock valid.
pub set_adjust-IsValid :
    (r : Rtc)
    → IsValid r
    → r.adjust < 7
    → r.adjust ≢ 5
    → (r' : Rtc) × (set_adjust r ≡ ok r') × IsValid r'
set_adjust-IsValid r v known other =
    (adjusted_clock r, set_adjust_lem r v known other, adjusted_clock-IsValid r v)

-- On a valid clock in December, a write to ADJUST that selects the month and is not skipped gives
-- a month 0x13, from which the next day panics.
pub set_adjust_december :
    (r : Rtc)
    → IsValid r
    → r.adjust ≡ 5
    → r.skip ≡ false
    → r.month ≡ 0x12
    → (r' : Rtc) × (set_adjust r ≡ ok r')
      × (r'.month ≡ 0x13)
      × (day_elapsed r' ≡ panic Panic.unreachable_code)
set_adjust_december r v selected live december = (
  record r { month = 0x13; skip = true },
  unfold set_adjust in ground (arith, adjusted_lem r.month 0x01 0x31 v.month_digits),
  refl,
  unfold day_elapsed in
      ground (arith, inc_overflow_from_lem r.week_day 0x07 0x01 v.week_day_digits),
)
