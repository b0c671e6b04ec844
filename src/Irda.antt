-- ===== src/Irda.antt =====
-- src/irda.rs: the registers of the infrared port.
use pksx.Base.{
  ℕ, bit_and, Bool, false, not, ◌==◌, if◌then◌else◌, flag, Panic, Result, ok, panic, u8, nonzero,
}
use pksx.Access.{Addressable, size}

pub record Irda : Type 0 where
  pub mode : ℕ
  pub led_on : Bool

abbrev pub new : Irda
new = record { mode = 0; led_on = false }

unfoldable pub store : Addressable → ℕ → ℕ → Irda → Result Irda
store a offset val d =
    if not (size a == 4)
    then panic Panic.unhandled_size
    else if offset == 0
    then ok (record d { mode = u8 val })
    else if offset == 4
    then ok (record d { led_on = nonzero (bit_and val 1) })
    else panic Panic.unhandled_register

unfoldable pub load : Addressable → ℕ → Irda → Result ℕ
load a offset d =
    if not (size a == 4)
    then panic Panic.unhandled_size
    else if offset == 0
    then ok d.mode
    else if offset == 4
    then ok (flag d.led_on)
    else panic Panic.unhandled_register
