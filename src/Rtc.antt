-- ===== src/Rtc.antt =====
-- src/rtc.rs: the real time clock, which counts in binary coded decimals.
pub mod Bcd
pub mod Registers
pub mod Calendar
pub mod Seconds
pub mod Clock
use pksx.Base.{
  ℕ, zero, suc, ◌+◌, ◌-◌, ◌*◌, ◌/◌, ◌^◌, Bool, true, false, not, ◌&&◌, ltb, leb, ◌==◌,
  if◌then◌else◌, Panic, Result, ok, panic, ◌>>=◌, ◌>>◌, unwrap,
}
use Bcd.{from_bcd, next}
use pksx.Irq.{IrqController, rtc, raw_interrupt, set_raw_interrupt}

-- MASTER_CLOCK_HZ of src/lib.rs, and MASTER_DIVIDER.
abbrev pub master_clock_hz : ℕ
master_clock_hz = 31232 * 2 ^ 7

abbrev pub master_divider : ℕ
master_divider = master_clock_hz / 2

pub record Rtc : Type 0 where
  pub paused : Bool
  pub divider : ℕ
  pub seconds : ℕ
  pub minutes : ℕ
  pub hours : ℕ
  pub week_day : ℕ
  pub day : ℕ
  pub month : ℕ
  pub year : ℕ
  pub adjust : ℕ
  pub skip : Bool

abbrev pub new : Rtc
new = record {
  paused = false;
  divider = master_divider;
  seconds = 0;
  minutes = 0;
  hours = 0;
  week_day = 1;
  day = 1;
  month = 1;
  year = 0x99;
  adjust = 0;
  skip = false;
}

-- The closure `inc_overflow` of `second_elapsed`: the new digits, and whether they went round.
unfoldable pub inc_overflow : ℕ → ℕ → Result (ℕ × Bool)
inc_overflow bcd max =
    if ltb bcd max then (do b ← unwrap (next bcd); ok (b, false)) else ok (0, true)

-- The closure of `day_elapsed`, which goes round to `min`.
unfoldable pub inc_overflow_from : ℕ → ℕ → ℕ → Result (ℕ × Bool)
inc_overflow_from bcd max min =
    if ltb bcd max
    then (do b ← unwrap (next bcd); ok (b, false))
    else (do b ← unwrap (from_bcd min); ok (b, true))

pub days_in_month : ℕ → Result ℕ
days_in_month month =
    if month == 0x01
    then ok 0x31
    else if month == 0x02
    then ok 0x28
    else if month == 0x03
    then ok 0x31
    else if month == 0x04
    then ok 0x30
    else if month == 0x05
    then ok 0x31
    else if month == 0x06
    then ok 0x30
    else if month == 0x07
    then ok 0x31
    else if month == 0x08
    then ok 0x31
    else if month == 0x09
    then ok 0x30
    else if month == 0x10
    then ok 0x31
    else if month == 0x11
    then ok 0x30
    else if month == 0x12
    then ok 0x31
    else panic Panic.unreachable_code

unfoldable pub day_elapsed : Rtc → Result Rtc
unfolding inc_overflow_from days_in_month
day_elapsed r = do
  week ← inc_overflow_from r.week_day 0x07 0x01
  let r₁ = record r { week_day = week.0 }
  last ← days_in_month r₁.month
  day ← inc_overflow_from r₁.day last 0x01
  let r₂ = record r₁ { day = day.0 }
  if not day.1 then ok r₂ else do
    month ← inc_overflow_from r₂.month 0x12 0x01
    let r₃ = record r₂ { month = month.0 }
    if not month.1
        then ok r₃
        else do year ← inc_overflow_from r₃.year 0x99 0x00; ok (record r₃ { year = year.0 })

unfoldable pub second_elapsed : Rtc → Result Rtc
unfolding inc_overflow day_elapsed
second_elapsed r = do
  s ← inc_overflow r.seconds 0x59
  let r₁ = record r { seconds = s.0 }
  if not s.1 then ok r₁ else do
    m ← inc_overflow r₁.minutes 0x59
    let r₂ = record r₁ { minutes = m.0 }
    if not m.1 then ok r₂ else do
      h ← inc_overflow r₂.hours 0x23
      let r₃ = record r₂ { hours = h.0 }
      if not h.1 then ok r₃ else day_elapsed r₃

-- What the loop of `tick` does when the divider is exhausted: the line toggles, and a rising edge
-- is a second.
pub toggle : Rtc → IrqController → Result (Rtc × IrqController)
unfolding second_elapsed
toggle r irq =
    let level = not (raw_interrupt rtc irq) in
    let r₁ = record r { divider = master_divider } in
    do
      r₂ ← (if level && not r₁.paused then second_elapsed r₁ else ok r₁)
      ok (r₂, set_raw_interrupt rtc level irq)

-- `while master_ticks > 0`, on fuel.
pub tick_loop : ℕ → ℕ → Rtc → IrqController → Result (Rtc × IrqController)
tick_loop zero master_ticks r irq = panic Panic.out_of_fuel
tick_loop (suc fuel) master_ticks r irq =
    let run_down = toggle r irq >>= λ s. tick_loop fuel (master_ticks - r.divider) s.0 s.1 in
    if master_ticks == 0
    then ok (r, irq)
    else if leb master_ticks r.divider
    then ok (record r { divider = r.divider - master_ticks }, irq)
    else run_down

unfoldable pub tick : ℕ → Rtc → IrqController → Result (Rtc × IrqController)
unfolding tick_loop
tick master_ticks r irq = tick_loop (master_ticks + 2) master_ticks r irq
