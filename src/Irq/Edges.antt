-- ===== src/Irq/Edges.antt =====
-- What a change of a line's level does to each bit of the controller.
use pksx.Base.{
  ℕ, ◌-◌, ◌^◌, ◌<◌, ◌≡◌, Bool, true, false, ◌&&◌, arith, bit_and, flag, ◌==◌, if◌then◌else◌,
}
use pksx.Base.Bits.{bit}
use pksx.Base.Bits.Laws.{bit-lt_two, bit-bit_and, bit-bit_or, bit-not, bit-pow, nonzero-bit_and_pow}
use pksx.Irq.{Interrupt, action_button, IrqController, number, line, set_raw_interrupt}

pub number-lt : (irq : Interrupt) → number irq < 14
number-lt action_button = omega arith
number-lt _ = omega arith

pub line-lt : (irq : Interrupt) → line irq < 2 ^ 16
line-lt action_button = omega arith
line-lt _ = omega arith

-- A rising edge: the line was low, and is enabled in the mask.
abbrev pub latches : Interrupt → Bool → IrqController → Bool
latches irq level c = level && bit c.raw (number irq) == 0 && bit c.mask (number irq) == 1

-- Setting the level of a line writes its bit of the 16 raw levels and no other.
pub raw-set_raw_interrupt :
    (irq : Interrupt) (level : Bool) (c : IrqController) (i : ℕ)
    → i < 16
    → bit (set_raw_interrupt irq level c).raw i
      ≡ (if i == number irq then flag level else bit c.raw i)
unfolding set_raw_interrupt
raw-set_raw_interrupt irq true c i h =
    ground (arith, bit-bit_or c.raw (line irq) i, bit-pow (number irq) i, bit-lt_two c.raw i)
raw-set_raw_interrupt irq false c i h = ground (
  arith,
  bit-bit_and c.raw (2 ^ 16 - 1 - line irq) i,
  bit-not 16 (line irq) i (line-lt irq) h,
  bit-pow (number irq) i,
  bit-lt_two c.raw i,
)

-- Setting the level of a line latches its interrupt exactly where the line rises and its mask bit
-- is set, and keeps every other bit of the latch.
pub latch-set_raw_interrupt :
    (irq : Interrupt) (level : Bool) (c : IrqController) (i : ℕ)
    → bit (set_raw_interrupt irq level c).latch i
      ≡ (if i == number irq && latches irq level c then 1 else bit c.latch i)
unfolding set_raw_interrupt
latch-set_raw_interrupt irq true c i = ground (
  arith,
  nonzero-bit_and_pow c.raw (number irq),
  bit-bit_or c.latch (bit_and (line irq) c.mask) i,
  bit-bit_and (line irq) c.mask i,
  bit-pow (number irq) i,
  bit-lt_two c.raw (number irq),
  bit-lt_two c.latch i,
  bit-lt_two c.mask i,
)
latch-set_raw_interrupt irq false c i = ground arith

pub mask-set_raw_interrupt :
    (irq : Interrupt) (level : Bool) (c : IrqController)
    → (set_raw_interrupt irq level c).mask ≡ c.mask
unfolding set_raw_interrupt
mask-set_raw_interrupt irq true c = λ i. c.mask
mask-set_raw_interrupt irq false c = λ i. c.mask
