-- ===== src/Arm/Branches.antt =====
-- src/cpu/armv4_is.rs: the branches, the supervisor call and the moves from and to the status.
pub mod Returns
use pksx.Base.{
  asr, ℕ, bit_and, not, ◌&&◌, ◌==◌, Panic, Result, ok, ◌>>=◌, ◌>>◌, guard, shr, shl32, not32,
  wrapping_add, nonzero,
}
use pksx.Cpu as Processor
use pksx.Cpu.{Cpu, reg, set_reg, set_pc, set_pc_thumb, cpsr, spsr}
use pksx.Arm.{rd, rm, is_pc}

-- The offset has 24 bits with a sign, and counts words.
unfoldable pub branch_imm_offset : ℕ → ℕ
branch_imm_offset i = asr (shl32 i 8) 6

unfoldable pub msr_field_mask : ℕ → ℕ
msr_field_mask i = bit_and (shr i 16) 0xf

unfoldable pub mrs_cpsr : ℕ → Cpu → Result Cpu
mrs_cpsr i c = do
  guard (bit_and i 0xf0fff == 0xf0000) Panic.unpredictable
  ok (set_reg (rd i) (cpsr c) c)

unfoldable pub msr_cpsr : ℕ → Cpu → Result Cpu
msr_cpsr i c = do
  guard (bit_and i 0xff00 == 0xf000) Panic.unpredictable
  Processor.msr_cpsr (reg (rm i) c) (msr_field_mask i) c

unfoldable pub bx : ℕ → Cpu → Result Cpu
bx i c = do
  guard (bit_and i 0xfff00 == 0xfff00) Panic.unpredictable
  let target = reg (rm i) c
  ok (set_pc_thumb (bit_and target (not32 1)) (nonzero (bit_and target 1)) c)

unfoldable pub mrs_spsr : ℕ → Cpu → Result Cpu
mrs_spsr i c = do
  guard (not (is_pc (rd i)) && bit_and i 0xf0fff == 0xf0000) Panic.unpredictable
  val ← spsr c
  ok (set_reg (rd i) val c)

unfoldable pub b : ℕ → Cpu → Result Cpu
b i c = ok (set_pc (wrapping_add (reg 15 c) (branch_imm_offset i)) c)

unfoldable pub bl : ℕ → Cpu → Result Cpu
bl i c =
    let pc = wrapping_add (c.registers 15) (branch_imm_offset i) in
    ok (set_pc pc (set_reg 14 c.next_pc c))

unfoldable pub swi : ℕ → Cpu → Result Cpu
swi i c = ok (Processor.swi c)
