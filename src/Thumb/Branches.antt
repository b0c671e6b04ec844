-- ===== src/Thumb/Branches.antt =====
-- src/cpu/thumbv1_is.rs: the branches.
use pksx.Base.{
  ℕ, bit_and, bit_or, Bool, not, xor, ◌&&◌, ◌||◌, if◌then◌else◌, Panic, Result, ok, ◌>>◌, guard,
  shl32, not32, wrapping_add, nonzero,
}
use pksx.Cpu as Processor
use pksx.Cpu.{Cpu, reg, set_reg, set_pc, set_pc_thumb}
use pksx.Thumb.{reg_3_full, signed_imm8, signed_imm11, b_imm_offset_11}

-- What the fourteen conditional branches share: the jump by the signed offset in half words.
abbrev branch_if : Bool → ℕ → Cpu → Cpu
branch_if taken i c =
    if taken then set_pc (wrapping_add (reg 15 c) (shl32 (signed_imm8 i) 1)) c else c

unfoldable pub op340_beq : ℕ → Cpu → Cpu
op340_beq i c = branch_if c.z i c

unfoldable pub op344_bne : ℕ → Cpu → Cpu
op344_bne i c = branch_if (not c.z) i c

unfoldable pub op348_bcs : ℕ → Cpu → Cpu
op348_bcs i c = branch_if c.c i c

unfoldable pub op34c_bcc : ℕ → Cpu → Cpu
op34c_bcc i c = branch_if (not c.c) i c

unfoldable pub op350_bmi : ℕ → Cpu → Cpu
op350_bmi i c = branch_if c.n i c

unfoldable pub op354_bpl : ℕ → Cpu → Cpu
op354_bpl i c = branch_if (not c.n) i c

unfoldable pub op360_bhi : ℕ → Cpu → Cpu
op360_bhi i c = branch_if (c.c && not c.z) i c

unfoldable pub op364_bls : ℕ → Cpu → Cpu
op364_bls i c = branch_if (not c.c || c.z) i c

unfoldable pub op368_bge : ℕ → Cpu → Cpu
op368_bge i c = branch_if (not (xor c.n c.v)) i c

unfoldable pub op36c_blt : ℕ → Cpu → Cpu
op36c_blt i c = branch_if (xor c.n c.v) i c

unfoldable pub op370_bgt : ℕ → Cpu → Cpu
op370_bgt i c = branch_if (not c.z && not (xor c.n c.v)) i c

unfoldable pub op374_ble : ℕ → Cpu → Cpu
op374_ble i c = branch_if (c.z || xor c.n c.v) i c

unfoldable pub op11c_bx : ℕ → Cpu → Result Cpu
op11c_bx i c = do
  guard (not (nonzero (bit_and i 7))) Panic.unpredictable
  let target = reg (reg_3_full i) c
  ok (set_pc_thumb (bit_and target (not32 1)) (nonzero (bit_and target 1)) c)

unfoldable pub op37c_swi : ℕ → Cpu → Cpu
op37c_swi i c = Processor.swi c

unfoldable pub op38x_b : ℕ → Cpu → Cpu
op38x_b i c = set_pc (wrapping_add (reg 15 c) (shl32 (signed_imm11 i) 1)) c

-- A branch with a link, in two instructions.
unfoldable pub op3cx_bl_hi : ℕ → Cpu → Cpu
op3cx_bl_hi i c = set_reg 14 (wrapping_add (reg 15 c) (shl32 (signed_imm11 i) 12)) c

unfoldable pub op3ex_bl_lo : ℕ → Cpu → Cpu
op3ex_bl_lo i c =
    let target = wrapping_add (reg 14 c) (shl32 (b_imm_offset_11 i) 1) in
    set_pc target (set_reg 14 (bit_or c.next_pc 1) c)
