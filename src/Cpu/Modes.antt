-- ===== src/Cpu/Modes.antt =====
-- src/cpu/mod.rs, `Mode`: the operating modes and the field that encodes them.
use pksx.Base.{
  ℕ, ◌≡◌, refl, Bool, true, not, ◌&&◌, arith, ◌==◌, if◌then◌else◌, Panic, Result, ok, panic,
}

pub data Mode : Type 0 where
  user fiq irq supervisor abort undefined system : Mode

-- `mode as u32`.
abbrev pub code : Mode → ℕ
code user = 0b10000
code fiq = 0b10001
code irq = 0b10010
code supervisor = 0b10011
code abort = 0b10111
code undefined = 0b11011
code system = 0b11111

-- `==` of two modes.
abbrev pub same_mode : Mode → Mode → Bool
same_mode a b = code a == code b

unfoldable pub from_field : ℕ → Result Mode
from_field mode =
    if mode == 0b10000
    then ok user
    else if mode == 0b10001
    then ok fiq
    else if mode == 0b10010
    then ok irq
    else if mode == 0b10011
    then ok supervisor
    else if mode == 0b10111
    then ok abort
    else if mode == 0b11011
    then ok undefined
    else if mode == 0b11111
    then ok system
    else panic Panic.invalid_mode

abbrev pub is_privileged : Mode → Bool
is_privileged m = not (same_mode m user)

abbrev pub has_spsr : Mode → Bool
has_spsr m = not (same_mode m user) && not (same_mode m system)

pub from_field-code : (m : Mode) → from_field (code m) ≡ ok m
unfolding from_field
from_field-code user = refl
from_field-code _ = refl

pub same_mode→eq : (a b : Mode) → same_mode a b ≡ true → a ≡ b
same_mode→eq a b h = ground arith
