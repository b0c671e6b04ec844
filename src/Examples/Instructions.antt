-- ===== src/Examples/Instructions.antt =====
-- ARM instructions: CMP R1, R2; ADDS R0, R1, R2; ADC R3, R4, R5; MOVS R0, R2, ROR #4; BL and BX LR.
use pksx.Base.{asr, rotate_right, ◌+◌, ◌*◌, ◌%◌, ◌^◌, ◌≡◌, refl, true, false, xor, arith, update}
use pksx.Cpu.{Cpu, reg, set_reg, set_pc}
use pksx.Arm.{rn, rd, rm}
use pksx.Arm.Operands.{ror_imm, mode1_lsl_imm, mode1_ror_imm}
use pksx.Arm.Sums.{cmp, adds, adc}
use pksx.Arm.Compare.{IsComparison, cmp-IsComparison}
use pksx.Arm.Double.{adds-adc}
use pksx.Arm.Shifts.{value_carry-value}
use pksx.Arm.Branches.{branch_imm_offset, bl, bx}
use pksx.Arm.Branches.Returns.{IsCall, bl-bx}
use pksx.Examples.Processor.{program}

-- After the comparison of 101 with 102.
abbrev compared : Cpu
compared = record program { n = true; z = false; c = false; v = false }

cmp-IsComparison_example : IsComparison 101 102 compared
unfolding cmp mode1_lsl_imm rn rd rm reg mathlib.Core.Bool.xor
cmp-IsComparison_example =
    cmp-IsComparison mode1_lsl_imm 0xe1510002 program compared refl (omega arith) (omega arith)

-- After the addition of the low words 101 and 102, and of the high words 104 and 105.
abbrev added_low : Cpu
added_low = record program {
  n = false;
  z = false;
  c = false;
  v = false;
  registers = update program.registers 0 203;
}

abbrev added : Cpu
added = record added_low { registers = update added_low.registers 3 209 }

adds-adc_example : 203 + 2 ^ 32 * 209 ≡ (101 + 2 ^ 32 * 104 + (102 + 2 ^ 32 * 105)) % 2 ^ 64
unfolding adds adc mode1_lsl_imm rn rd rm reg set_reg mathlib.Core.Bool.xor
adds-adc_example =
    adds-adc mode1_lsl_imm mode1_lsl_imm 0xe0910002 0xe0a43005 program added_low added refl refl
      refl refl (omega arith) (omega arith)

value_carry-value_example : mode1_ror_imm.value 0xe1b00262 program ≡ 0x60000006
unfolding mode1_ror_imm rm reg rotate_right
value_carry-value_example =
    value_carry-value ror_imm 0xe1b00262 program 0x60000006 false refl (omega arith)

-- After BL by 16 words.
abbrev called : Cpu
called = record program {
  next_pc = 179;
  registers = update (update program.registers 14 0x2000) 15 181;
}

bl-bx_example : IsCall 0xeb000010 program called (bx 0xe12fff1e called)
unfolding bl branch_imm_offset asr reg set_reg set_pc
bl-bx_example = bl-bx 0xeb000010 program called (omega arith) refl refl
