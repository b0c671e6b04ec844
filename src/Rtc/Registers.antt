-- ===== src/Rtc/Registers.antt =====
-- src/rtc.rs: the registers of the clock and the setters for the frontend.
pub mod Adjust
use pksx.Base.{
  ℕ, bit_and, bit_or, true, false, ◌&&◌, ltb, leb, ◌==◌, if◌then◌else◌, Panic, Result, ok, panic,
  ◌>>=◌, ◌>>◌, assert, unwrap, u8, shr, shl32, nonzero,
}
use pksx.Rtc.Bcd.{from_bcd, next}
use pksx.Rtc.{Rtc}

pub set_seconds : ℕ → Rtc → Result Rtc
set_seconds bcd r = do assert (leb bcd 0x59); ok (record r { seconds = bcd })

pub set_minutes : ℕ → Rtc → Result Rtc
set_minutes bcd r = do assert (leb bcd 0x59); ok (record r { minutes = bcd })

pub set_hours : ℕ → Rtc → Result Rtc
set_hours bcd r = do assert (leb bcd 0x23); ok (record r { hours = bcd })

pub set_week_day : ℕ → Rtc → Result Rtc
set_week_day bcd r = do assert (leb 0x01 bcd && leb bcd 0x07); ok (record r { week_day = bcd })

pub set_day : ℕ → Rtc → Result Rtc
set_day bcd r = do assert (leb 0x01 bcd && leb bcd 0x31); ok (record r { day = bcd })

pub set_month : ℕ → Rtc → Result Rtc
set_month bcd r = do assert (leb 0x01 bcd && leb bcd 0x12); ok (record r { month = bcd })

pub set_year : ℕ → Rtc → Rtc
set_year bcd r = record r { year = bcd }

unfoldable pub time : Rtc → ℕ
time r =
    bit_or (bit_or (bit_or r.seconds (shl32 r.minutes 8)) (shl32 r.hours 16)) (shl32 r.week_day 24)

unfoldable pub date : Rtc → ℕ
date r = bit_or (bit_or r.day (shl32 r.month 8)) (shl32 r.year 16)

pub set_mode : ℕ → Rtc → Rtc
set_mode val r = record r { paused = nonzero (bit_and val 1); adjust = u8 (bit_and (shr val 1) 7) }

-- The counter that is adjusted, one step on or round to its minimum.
pub adjusted : ℕ → ℕ → ℕ → Result ℕ
adjusted counter min max = if ltb counter max then unwrap (next counter) else unwrap (from_bcd min)

unfoldable pub set_adjust : Rtc → Result Rtc
unfolding adjusted
set_adjust r =
    if r.skip
    then ok (record r { skip = false })
    else if r.adjust == 0
    then (do c ← adjusted r.seconds 0x00 0x59; ok (record r { seconds = c; skip = true }))
    else if r.adjust == 1
    then (do c ← adjusted r.minutes 0x00 0x59; ok (record r { minutes = c; skip = true }))
    else if r.adjust == 2
    then (do c ← adjusted r.hours 0x00 0x23; ok (record r { hours = c; skip = true }))
    else if r.adjust == 3
    then (do c ← adjusted r.week_day 0x01 0x07; ok (record r { week_day = c; skip = true }))
    else if r.adjust == 4
    then (do c ← adjusted r.day 0x01 0x31; ok (record r { day = c; skip = true }))
    else if r.adjust == 5
    then (do c ← adjusted r.month 0x01 0x31; ok (record r { month = c; skip = true }))
    else if r.adjust == 6
    then (do c ← adjusted r.year 0x00 0x99; ok (record r { year = c; skip = true }))
    else panic Panic.unhandled_register

unfoldable pub store : ℕ → ℕ → Rtc → Result Rtc
unfolding set_mode set_adjust
store offset val r =
    if offset == 0
    then ok (set_mode val r)
    else if offset == 4
    then set_adjust r
    else panic Panic.unhandled_register

unfoldable pub load : ℕ → Rtc → Result ℕ
unfolding time date
load offset r =
    if offset == 0x8
    then ok (time r)
    else if offset == 0xc
    then ok (date r)
    else panic Panic.unhandled_register
