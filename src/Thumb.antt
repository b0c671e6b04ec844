-- ===== src/Thumb.antt =====
-- src/cpu/thumbv1_is.rs: the fields of a 16-bit Thumb instruction, which is a number, and the sums
-- that set the flags.
pub mod Arithmetic
pub mod Shifts
pub mod Transfers
pub mod Stack
pub mod Branches
pub mod Opcodes
pub mod Table
pub mod Conditions
pub mod Calls
pub mod Carries
pub mod Pushes
use pksx.Base.{
  ℕ, bit_and, bit_or, ltb, ◌==◌, shr, shl32, wrapping_add, wrapping_sub, is_neg, sign_extend, asr,
}
use pksx.Cpu.{Cpu}
use pksx.Arm.Sums.{add_flags, sub_flags}

unfoldable pub opcode : ℕ → ℕ
opcode i = shr i 6

unfoldable pub reg_0 : ℕ → ℕ
reg_0 i = bit_and i 7

unfoldable pub reg_3 : ℕ → ℕ
reg_3 i = bit_and (shr i 3) 7

unfoldable pub reg_6 : ℕ → ℕ
reg_6 i = bit_and (shr i 6) 7

unfoldable pub reg_8 : ℕ → ℕ
reg_8 i = bit_and (shr i 8) 7

unfoldable pub reg_0_full : ℕ → ℕ
reg_0_full i = let lo = bit_and i 0x7 in let hi = bit_and (shr i 7) 1 in bit_or (shl32 hi 3) lo

unfoldable pub reg_3_full : ℕ → ℕ
reg_3_full i = bit_and (shr i 3) 0xf

unfoldable pub imm8 : ℕ → ℕ
imm8 i = bit_and i 0xff

unfoldable pub imm7 : ℕ → ℕ
imm7 i = bit_and i 0x7f

unfoldable pub imm5 : ℕ → ℕ
imm5 i = bit_and (shr i 6) 0x1f

unfoldable pub imm3 : ℕ → ℕ
imm3 i = bit_and (shr i 6) 7

unfoldable pub signed_imm11 : ℕ → ℕ
signed_imm11 i = asr (shl32 (bit_and i 0x7ff) 21) 21

unfoldable pub signed_imm8 : ℕ → ℕ
signed_imm8 i = sign_extend 8 (bit_and i 0xff)

unfoldable pub b_imm_offset_11 : ℕ → ℕ
b_imm_offset_11 i = bit_and i 0x7ff

unfoldable pub register_list : ℕ → ℕ
register_list i = bit_and i 0xff

-- The value of a sum or difference, with the processor after its flags are set.
unfoldable pub adds : ℕ → ℕ → Cpu → ℕ × Cpu
adds a b c = let val = wrapping_add a b in (val, add_flags a b val (ltb val a) c)

unfoldable pub subs : ℕ → ℕ → Cpu → ℕ × Cpu
subs a b c = let val = wrapping_sub a b in (val, sub_flags a b val c)

-- The flags N and Z of a value.
abbrev pub nz_flags : ℕ → Cpu → Cpu
nz_flags val c = record c { n = is_neg val; z = val == 0 }
