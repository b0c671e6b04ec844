-- ===== src/Arm/Multiply.antt =====
-- src/cpu/armv4_is.rs: the multiplications. The parameter `S: ModeFlag` is a Boolean.
use pksx.Base.{
  ℕ, Bool, not, ◌||◌, ◌==◌, if◌then◌else◌, Panic, Result, ok, ◌>>◌, guard, wrapping_add,
  wrapping_mul, is_neg,
}
use pksx.Cpu.{Cpu, reg, set_reg}
use pksx.Arm.{rn, rd, rs, rm, is_pc}

-- The flags N and Z where the instruction sets them.
abbrev multiply_flags : Bool → ℕ → Cpu → Cpu
multiply_flags s val c = if s then record c { n = is_neg val; z = val == 0 } else c

-- The destination is where the first operand is in other instructions.
unfoldable pub mul : Bool → ℕ → Cpu → Result Cpu
mul s i c = do
  guard (not (is_pc (rn i) || is_pc (rm i) || is_pc (rs i))) Panic.unpredictable
  let val = wrapping_mul (reg (rm i) c) (reg (rs i) c)
  ok (multiply_flags s val (set_reg (rn i) val c))

unfoldable pub mla : Bool → ℕ → Cpu → Result Cpu
mla s i c = do
  guard (not (is_pc (rn i) || is_pc (rm i) || is_pc (rs i) || is_pc (rd i))) Panic.unpredictable
  let val = wrapping_add (wrapping_mul (reg (rm i) c) (reg (rs i) c)) (reg (rd i) c)
  ok (multiply_flags s val (set_reg (rn i) val c))
