-- ===== src/Irq.antt =====
-- src/interrupt.rs: the interrupt lines and the controller that latches and masks them.
-- The registers are `u16`.
pub mod Edges
pub mod Pending
use pksx.Base.{
  ℕ, ◌^◌, ◌<◌, Bool, true, false, not, Result, ok, panic, Panic, bit_and, bit_or, nonzero, u16,
  not16, ◌==◌, if◌then◌else◌,
}
use pksx.Access.{Addressable, is_byte}

pub data Interrupt : Type 0 where
  action_button right_button left_button down_button up_button : Interrupt
  com_port timer0 timer1 rtc battery_low docked irda timer2 : Interrupt

-- `irq as u16`, the number of the line.
abbrev pub number : Interrupt → ℕ
number action_button = 0
number right_button = 1
number left_button = 2
number down_button = 3
number up_button = 4
number com_port = 6
number timer0 = 7
number timer1 = 8
number rtc = 9
number battery_low = 10
number docked = 11
number irda = 12
number timer2 = 13

-- `1 << (irq as u16)`: the number is at most 13, so the shift keeps every bit.
abbrev pub line : Interrupt → ℕ
line irq = 2 ^ number irq

fiq_mask : ℕ
fiq_mask = bit_or (line com_port) (line timer2)

irq_mask : ℕ
unfolding fiq_mask
irq_mask = not16 fiq_mask

pub record IrqController : Type 0 where
  pub raw : ℕ
  pub latch : ℕ
  pub mask : ℕ

abbrev pub new : IrqController
new = record { raw = 0; latch = 0; mask = 0 }

-- The registers are words of 16 bits.
pub record IsValid (c : IrqController) : Type 0 where
  pub raw_fits : c.raw < 2 ^ 16
  pub latch_fits : c.latch < 2 ^ 16
  pub mask_fits : c.mask < 2 ^ 16

unfoldable pub pending : IrqController → Bool
pending c = nonzero (bit_and c.latch c.mask)

unfoldable pub irq_pending : IrqController → Bool
unfolding irq_mask
irq_pending c = nonzero (bit_and (bit_and c.latch c.mask) irq_mask)

unfoldable pub fiq_pending : IrqController → Bool
unfolding fiq_mask
fiq_pending c = nonzero (bit_and (bit_and c.latch c.mask) fiq_mask)

unfoldable pub store : Addressable → ℕ → ℕ → IrqController → Result IrqController
store a offset val c =
    if is_byte a
    then panic Panic.unhandled_size
    else let val = u16 val in
      if offset == 0x08
      then ok (record c { mask = bit_or c.mask val })
      else if offset == 0x0c
      then ok (record c { mask = bit_and c.mask (not16 val) })
      else if offset == 0x10
      then ok (record c { latch = bit_and c.latch (not16 val) })
      else panic Panic.unhandled_register

unfoldable pub load : Addressable → ℕ → IrqController → Result ℕ
load a offset c =
    if is_byte a
    then panic Panic.unhandled_size
    else if offset == 0x00
    then ok c.latch
    else if offset == 0x04
    then ok c.raw
    else if offset == 0x08
    then ok c.mask
    else panic Panic.unhandled_register

unfoldable pub ack : ℕ → IrqController → IrqController
ack val c = record c { latch = bit_and c.latch (not16 val) }

unfoldable pub raw_interrupt : Interrupt → IrqController → Bool
raw_interrupt irq c = nonzero (bit_and c.raw (line irq))

unfoldable pub set_raw_interrupt : Interrupt → Bool → IrqController → IrqController
unfolding raw_interrupt
set_raw_interrupt irq true c =
    let latch' =
      if not (raw_interrupt irq c) then bit_or c.latch (bit_and (line irq) c.mask) else c.latch in
    record c { latch = latch'; raw = bit_or c.raw (line irq) }
set_raw_interrupt irq false c = record c { raw = bit_and c.raw (not16 (line irq)) }
