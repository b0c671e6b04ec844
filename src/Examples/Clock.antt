-- ===== src/Examples/Clock.antt =====
-- The real time clock.
use pksx.Base.{ℕ, ◌+◌, ◌%◌, ◌≡◌, refl, false, arith, Panic, ok, panic}
use pksx.Irq
use pksx.Irq.{IrqController}
use pksx.Rtc
use pksx.Rtc.{Rtc, day_elapsed, second_elapsed}
use pksx.Rtc.Bcd
use pksx.Rtc.Bcd.{
  IsBcd, value, from_bcd, from_bcd_iff, next, next-value, from_binary, from_binary-value,
}
use pksx.Rtc.Calendar.{
  IsValid, SameTime, day_of_century, day_elapsed-IsValid, day_elapsed-day_of_century,
}
use pksx.Rtc.Clock.{IsTimed, tick-IsTimed}
use pksx.Rtc.Registers
use pksx.Rtc.Registers.{set_adjust}
use pksx.Rtc.Registers.Adjust.{load_fields, set_adjust-IsValid, set_adjust_december}

-- 31 December of the year 99, a second before midnight.
abbrev eve : Rtc
eve = record {
  paused = false;
  divider = 10;
  seconds = 0x59;
  minutes = 0x59;
  hours = 0x23;
  week_day = 7;
  day = 0x31;
  month = 0x12;
  year = 0x99;
  adjust = 0;
  skip = false;
}

eve-IsValid : IsValid eve
eve-IsValid = omega arith

new_year :
    second_elapsed eve
    ≡ ok (record eve {
      seconds = 0;
      minutes = 0;
      hours = 0;
      week_day = 1;
      day = 1;
      month = 1;
      year = 0;
    })
unfolding second_elapsed Bcd.from_bcd Bcd.next
new_year = refl

day_elapsed-IsValid_example :
    (r : Rtc) × (day_elapsed eve ≡ ok r) × IsValid r × SameTime eve r × (r.week_day ≡ 1)
day_elapsed-IsValid_example = day_elapsed-IsValid eve eve-IsValid

day_elapsed-day_of_century_example :
    (r : Rtc) × (day_elapsed eve ≡ ok r) × (day_of_century r ≡ (day_of_century eve + 1) % 36500)
day_elapsed-day_of_century_example = day_elapsed-day_of_century eve eve-IsValid (omega arith)

tick-IsTimed_example : IsTimed 5000000 eve Irq.new (Rtc.tick 5000000 eve Irq.new)
tick-IsTimed_example = tick-IsTimed 5000000 eve Irq.new eve-IsValid (omega arith)

load_fields_example :
    (◌≡◌ {A = ℕ} 0x59 0x59)
    × (◌≡◌ {A = ℕ} 0x59 0x59)
    × (◌≡◌ {A = ℕ} 0x23 0x23)
    × (◌≡◌ {A = ℕ} 7 7)
    × (◌≡◌ {A = ℕ} 0x31 0x31)
    × (◌≡◌ {A = ℕ} 0x12 0x12)
    × (◌≡◌ {A = ℕ} 0x99 0x99)
unfolding Registers.load
load_fields_example = load_fields eve 0x07235959 0x991231 eve-IsValid refl refl

set_adjust-IsValid_example : (r : Rtc) × (set_adjust (record eve { adjust = 4 }) ≡ ok r) × IsValid r
set_adjust-IsValid_example =
    set_adjust-IsValid (record eve { adjust = 4 }) (omega arith) (omega arith) (omega arith)

set_adjust_december_example :
    (r : Rtc) × (set_adjust (record eve { adjust = 5 }) ≡ ok r)
    × (r.month ≡ 0x13)
    × (day_elapsed r ≡ panic Panic.unreachable_code)
set_adjust_december_example =
    set_adjust_december (record eve { adjust = 5 }) (omega arith) refl refl refl
