-- ===== src/Dac.antt =====
-- src/dac.rs: the audio output. A sample is an `i16`, kept as its bit pattern below 2 ^ 16.
-- The backend is a trait object that the frontend supplies; it is known by the calls of
-- `push_sample` that it has received, the latest first.
pub mod Rate
use pksx.Base.{
  ℕ, zero, suc, ◌+◌, ◌-◌, bit_and, Bool, false, not, List, ◌∷◌, leb, ◌==◌, if◌then◌else◌, flag,
  Panic, Result, ok, panic, u16, nonzero,
}
use pksx.Access.{Addressable, size, is_byte}

-- MASTER_CLOCK_DIV.
abbrev pub master_clock_div : ℕ
master_clock_div = 90

pub record Dac : Type 0 where
  pub sample : ℕ
  pub enabled : Bool
  pub backend : List ℕ
  pub divider : ℕ

abbrev pub new : List ℕ → Dac
new backend = record { sample = 0; enabled = false; backend = backend; divider = master_clock_div }

-- The body of the loop's second branch after the divider is reloaded: one sample goes out.
push_sample : Dac → Dac
push_sample d = record d {
  divider = master_clock_div;
  backend = (if d.enabled then d.sample else 0) ∷ d.backend;
}

-- `while master_ticks > 0`, on fuel.
tick_loop : ℕ → ℕ → Dac → Result Dac
unfolding push_sample
tick_loop zero master_ticks d = panic Panic.out_of_fuel
tick_loop (suc fuel) master_ticks d =
    let rest = tick_loop fuel (master_ticks - d.divider) (push_sample d) in
    if master_ticks == 0
    then ok d
    else if leb master_ticks d.divider
    then ok (record d { divider = d.divider - master_ticks })
    else rest

unfoldable pub tick : ℕ → Dac → Result Dac
unfolding tick_loop
tick master_ticks d = tick_loop (master_ticks + 2) master_ticks d

unfoldable pub store : Addressable → ℕ → ℕ → Dac → Result Dac
store a offset val d =
    if is_byte a
    then panic Panic.unhandled_size
    else if offset == 0
    then ok (record d { enabled = nonzero (bit_and val 1) })
    else if offset == 4
    then ok (record d { sample = u16 val })
    else panic Panic.unhandled_register

unfoldable pub load : Addressable → ℕ → Dac → Result ℕ
load a offset d =
    if not (size a == 4)
    then panic Panic.unhandled_size
    else if offset == 0
    then ok (flag d.enabled)
    else if offset == 4
    then ok d.sample
    else panic Panic.unhandled_register

unfoldable pub set_backend : List ℕ → Dac → Dac
set_backend backend d = record d { backend = backend }
