-- ===== src/Timer.antt =====
-- src/timer.rs: a counter with a pre-divider, merged into one counter at the CPU's frequency.
pub mod Bounds
pub mod Expiry
use pksx.Base.{
  ℕ, zero, suc, ◌+◌, ◌-◌, ◌*◌, ◌^◌, bit_and, bit_or, Bool, true, false, ltb, leb, ◌==◌,
  if◌then◌else◌, flag, Panic, Result, ok, panic, ◌>>=◌, ◌>>◌, checked_add, checked_sub, u8, u16,
  shr, shl32, nonzero,
}
use pksx.Access.{Addressable, is_byte}
use pksx.Irq.{Interrupt, IrqController, set_raw_interrupt}

pub record Timer : Type 0 where
  pub enabled : Bool
  pub counter : ℕ
  pub reload : ℕ
  pub divider : ℕ
  pub interrupt : Interrupt

abbrev pub new : Interrupt → Timer
new interrupt = record {
  enabled = false;
  counter = 0;
  reload = 0;
  divider = 0;
  interrupt = interrupt;
}

-- The shift of the pre-divider: /2, /32, /512 and again /2.
pub divider_shift : Timer → Result ℕ
divider_shift t =
    if t.divider == 0
    then ok 1
    else if t.divider == 1
    then ok 5
    else if t.divider == 2
    then ok 9
    else if t.divider == 3
    then ok 1
    else panic Panic.unreachable_code

-- The value that the counter takes when it expires.
pub reloaded : Timer → Result ℕ
unfolding divider_shift
reloaded t = do shift ← divider_shift t; checked_sub (shl32 (t.reload + 1) shift) 1

-- `while cpu_ticks > 0`, on fuel.
pub tick_loop : ℕ → ℕ → Timer → IrqController → Result (Timer × IrqController)
tick_loop zero cpu_ticks t irq = panic Panic.out_of_fuel
tick_loop (suc fuel) cpu_ticks t irq =
    let expire = reloaded t >>= λ counter.
    tick_loop fuel (cpu_ticks - t.counter) (record t { counter = counter })
      (set_raw_interrupt t.interrupt true irq) in
    if cpu_ticks == 0
    then ok (t, irq)
    else if leb cpu_ticks t.counter
    then ok (record t { counter = t.counter - cpu_ticks }, set_raw_interrupt t.interrupt false irq)
    else expire

unfoldable pub tick : ℕ → Timer → IrqController → Result (Timer × IrqController)
unfolding tick_loop
tick cpu_ticks t irq = if t.enabled then tick_loop (cpu_ticks + 2) cpu_ticks t irq else ok (t, irq)

-- The value of the counter register.
pub counter_value : Timer → Result ℕ
unfolding divider_shift
counter_value t = do shift ← divider_shift t; ok (u16 (shr t.counter shift))

abbrev pub mode : Timer → ℕ
mode t = bit_or t.divider (flag t.enabled * 2 ^ 2)

-- The counter after the pre-divider changes from one shift to another.
abbrev pub rescale : ℕ → ℕ → ℕ → Result ℕ
rescale shift_prev shift counter =
    if ltb shift shift_prev
    then ok (shr counter (shift_prev - shift))
    else do up ← checked_add 32 counter 1; checked_add 32 (shl32 up (shift - shift_prev)) 1

unfoldable pub set_mode : ℕ → Timer → Result Timer
unfolding divider_shift
set_mode val t = do
  shift_prev ← divider_shift t
  let t' = record t { divider = bit_and val 3; enabled = nonzero (bit_and val 4) }
  shift ← divider_shift t'
  counter ← rescale shift_prev shift t.counter
  ok (record t' { counter = counter })

unfoldable pub store : Addressable → ℕ → ℕ → Timer → Result Timer
unfolding set_mode
store a offset val t =
    if is_byte a
    then panic Panic.unhandled_size
    else if offset == 0
    then ok (record t { reload = u16 val })
    else if offset == 8
    then set_mode (u8 val) t
    else panic Panic.unhandled_register

unfoldable pub load : Addressable → ℕ → Timer → Result ℕ
unfolding counter_value
load a offset t =
    if is_byte a
    then panic Panic.unhandled_size
    else if offset == 4
    then counter_value t
    else if offset == 8
    then ok (mode t)
    else panic Panic.unhandled_register
