-- ===== src/Bus/Windows.antt =====
-- The windows of the address map: which timer an address selects, and the clock's mode.
use pksx.Base.{ℕ, ◌+◌, ◌-◌, ◌*◌, ◌/◌, ◌%◌, ◌≤◌, ◌<◌, bit_and, ◌≡◌, refl, arith, ok, ◌>>=◌, update}
use pksx.Base.Bits.Laws.{bit_and_mask, bit_or_fields_high}
use pksx.Access.{Addressable}
use pksx.Timer
use pksx.Timer.{Timer}
use pksx.Bus.{
  Interconnect, load_irq_timers, store_irq_timers, load_clocks, store_clocks, timer_count,
}

-- The registers of timer `i` stand at `0x800000 + 16 * i`.
abbrev pub timer_offset : ℕ → ℕ → ℕ
timer_offset i o = 0x800000 + (16 * i + o)

-- A store to an address in the window of a timer goes to that timer and to no other.
store_timer :
    (a : Addressable) (i o val : ℕ) (s : Interconnect)
    → i < timer_count
    → o < 16
    → 16 * i + o ≤ 0x28
    → store_irq_timers a (timer_offset i o) val s
      ≡ (Timer.store a o val (s.timers i) >>= λ t. ok (record s { timers = update s.timers i t }))
unfolding store_irq_timers
store_timer a i o val s h k fits =
    let low : bit_and (timer_offset i o) 0xf ≡ o =
      omega (arith, bit_and_mask 4 (timer_offset i o)) in
    let index : bit_and (timer_offset i o / 16) 3 ≡ i =
      omega (arith, bit_and_mask 2 (timer_offset i o / 16)) in
    rw (low, index) (ground arith)

-- A load from an address in the window of any of the three timers reads the register of timer 0.
pub load_timer :
    (a : Addressable) (i o : ℕ) (s : Interconnect)
    → i < timer_count
    → o < 16
    → 16 * i + o ≤ 0x28
    → load_irq_timers a (timer_offset i o) s ≡ Timer.load a o (s.timers 0)
unfolding load_irq_timers
load_timer a i o s h k fits =
    let low : bit_and (timer_offset i o) 0xf ≡ o =
      omega (arith, bit_and_mask 4 (timer_offset i o)) in
    let index : bit_and (timer_offset i o / 256) 3 ≡ 0 =
      omega (arith, bit_and_mask 2 (timer_offset i o / 256)) in
    rw (low, index) (ground arith)

-- A store to the clock register returns, keeps the divider at most 7, and is read back as its
-- lowest three bits with the ready bit.
pub load-store_clock :
    (val : ℕ) (s : Interconnect)
    → (s' : Interconnect) × (store_clocks 0 val s ≡ ok s')
      × (load_clocks 0 s' ≡ ok (0x10 + val % 8))
      × (s'.cpu_clk_div ≤ 7)
unfolding store_clocks load_clocks
load-store_clock val s = (
  record s { cpu_clk_div = 7 - bit_and val 0x7 },
  refl,
  ground (arith, bit_and_mask 3 val, bit_or_fields_high 4 1 (val % 8)),
  omega arith,
)
