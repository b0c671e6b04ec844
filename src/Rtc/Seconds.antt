-- ===== src/Rtc/Seconds.antt =====
-- What a second does to the time and the date.
use pksx.Base.{
  ◌+◌, ◌%◌, ◌≡◌, ◌∙◌, inl, inr, Bool, not, ◌&&◌, arith, ltb, if◌then◌else◌, Bool-cases, Result, ok,
}
use pksx.Rtc.Bcd.{succ-IsBcd}
use pksx.Rtc.{Rtc, day_elapsed, second_elapsed}
use pksx.Rtc.Calendar.{IsValid, bump, inc_overflow_lem, second_of_day, day_elapsed-IsValid}

-- The state after `second_elapsed`, before a day that it may begin.
abbrev next_second : Rtc → Rtc
next_second r =
    let r₁ = record r { seconds = bump r.seconds 0x59 0 } in
    if ltb r.seconds 0x59
    then r₁
    else (let r₂ = record r₁ { minutes = bump r.minutes 0x59 0 } in
        if ltb r.minutes 0x59 then r₂ else record r₂ { hours = bump r.hours 0x23 0 })

abbrev day_ends : Rtc → Bool
day_ends r = not (ltb r.seconds 0x59) && not (ltb r.minutes 0x59) && not (ltb r.hours 0x23)

second_elapsed_lem :
    (r : Rtc)
    → IsValid r
    → second_elapsed r ≡ (if day_ends r then day_elapsed (next_second r) else ok (next_second r))
unfolding second_elapsed
second_elapsed_lem r v = ground (
  arith,
  inc_overflow_lem r.seconds 0x59 v.seconds_digits,
  inc_overflow_lem r.minutes 0x59 v.minutes_digits,
  inc_overflow_lem r.hours 0x23 v.hours_digits,
)

next_second-IsValid : (r : Rtc) → IsValid r → IsValid (next_second r)
next_second-IsValid r v = record {
  seconds_digits = ground (arith, v.seconds_digits);
  seconds_range = ground (arith, v.seconds_digits);
  minutes_digits = ground (arith, v.minutes_digits);
  minutes_range = ground (arith, v.minutes_digits, v.minutes_range);
  hours_digits = ground (arith, v.hours_digits);
  hours_range = ground (arith, v.hours_digits, v.hours_range);
  week_day_digits = ground (arith, v.week_day_digits);
  week_day_range = ground (arith, v.week_day_range);
  day_digits = ground (arith, v.day_digits);
  day_range = ground (arith, v.day_range);
  month_digits = ground (arith, v.month_digits);
  month_range = ground (arith, v.month_range);
  year_digits = ground (arith, v.year_digits);
}

second_of_day-next_second :
    (r : Rtc) → IsValid r → second_of_day (next_second r) ≡ (second_of_day r + 1) % 86400
second_of_day-next_second r v = ground (
  arith,
  succ-IsBcd r.seconds v.seconds_digits,
  succ-IsBcd r.minutes v.minutes_digits,
  succ-IsBcd r.hours v.hours_digits,
)

-- What a second on a valid clock comes to: it does not panic, the clock stays valid, and the time
-- of day moves on by one second, round at midnight.
pub record IsSecond (r : Rtc) (result : Result Rtc) : Type 0 where
  pub after : Rtc
  pub returns : result ≡ ok after
  pub keeps : IsValid after
  pub moves : second_of_day after ≡ (second_of_day r + 1) % 86400
  pub same_pause : after.paused ≡ r.paused
  pub same_divider : after.divider ≡ r.divider

-- On a valid clock `second_elapsed` returns, keeps the clock valid, moves the time of day on by
-- one second, round at midnight, and keeps the pause and the divider.
pub second_elapsed-IsSecond : (r : Rtc) → IsValid r → IsSecond r (second_elapsed r)
second_elapsed-IsSecond r v = elim (Bool-cases (day_ends r)) [
  | inr same_day ↦ record {
    after = next_second r;
    returns = second_elapsed_lem r v ∙ rw same_day;
    keeps = next_second-IsValid r v;
    moves = second_of_day-next_second r v;
    same_pause = ground arith;
    same_divider = ground arith;
  }
  | inl midnight ↦
      let (r', returns, keeps, same, _) =
        day_elapsed-IsValid (next_second r) (next_second-IsValid r v) in
      record {
        after = r';
        returns = second_elapsed_lem r v ∙ rw midnight returns;
        keeps = keeps;
        moves = omega (arith, same, second_of_day-next_second r v);
        same_pause = ground (arith, same);
        same_divider = ground (arith, same);
      }
]
