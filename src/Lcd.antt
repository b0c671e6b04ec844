-- ===== src/Lcd.antt =====
-- src/lcd.rs: the registers of the screen and its framebuffer of 32 words.
pub mod Frame
use pksx.Base.{
  ℕ, ◌/◌, bit_and, Bool, not, ◌==◌, if◌then◌else◌, between, Panic, Result, ok, panic, ◌>>=◌, ◌>>◌,
  u8, nonzero, read, write,
}
use pksx.Access.{Addressable, size}

pub record Lcd : Type 0 where
  pub mode : ℕ
  pub calibration : ℕ
  pub fb : ℕ → ℕ

abbrev pub new : Lcd
new = record { mode = 0; calibration = 0; fb = λ _. 0xaaaa5555 }

-- The length of the framebuffer.
abbrev pub fb_len : ℕ
fb_len = 32

unfoldable pub store : Addressable → ℕ → ℕ → Lcd → Result Lcd
store a offset val l =
    if not (size a == 4)
    then panic Panic.unhandled_size
    else if offset == 0
    then ok (record l { mode = u8 val })
    else if offset == 4
    then ok (record l { calibration = u8 val })
    else if between 0x100 0x17c offset
    then (do fb ← write fb_len l.fb (bit_and offset 0x7f / 4) val; ok (record l { fb = fb }))
    else panic Panic.unhandled_register

unfoldable pub load : Addressable → ℕ → Lcd → Result ℕ
load a offset l =
    if not (size a == 4)
    then panic Panic.unhandled_size
    else if offset == 0
    then ok l.mode
    else if offset == 4
    then ok l.calibration
    else if between 0x100 0x17c offset
    then read fb_len l.fb (bit_and offset 0x7f / 4)
    else panic Panic.unhandled_register

unfoldable pub framebuffer : Lcd → ℕ → ℕ
framebuffer l = l.fb

unfoldable pub rotated : Lcd → Bool
rotated l = nonzero (bit_and l.mode 0x80)
