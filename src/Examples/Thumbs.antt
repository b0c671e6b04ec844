-- ===== src/Examples/Thumbs.antt =====
-- The tables of opcodes, and Thumb instructions: BLT, CMP R1, R2, ADC R0, R1, BL and BX LR.
use pksx.Base.{◌↔◌, ◌-◌, ◌^◌, ◌≡◌, refl, true, false, xor, arith, ok}
use pksx.Cpu.{Cpu, reg}
use pksx.Cpu.Machine.{Machine, no_debugger, with_cpu}
use pksx.Arm as Arm
use pksx.Arm.Table as ArmTable
use pksx.Arm.Table.Encoding.{encodes, has_zeros, opcode_lut-encodes}
use pksx.Arm.Compare.{IsComparison}
use pksx.Thumb.{opcode, reg_0, reg_3}
use pksx.Thumb.Opcodes.{unimplemented}
use pksx.Thumb.Arithmetic.{op10a_cmp, op105_adc_rr}
use pksx.Thumb.Branches.{op3cx_bl_hi, op3ex_bl_lo, op11c_bx}
use pksx.Thumb.Table.{opcode_lut, execute}
use pksx.Thumb.Table.Decoding.{cmp_high, has_handler, decode, opcode_lut-decode}
use pksx.Thumb.Conditions.{jump, branch-cond_true, op10a_cmp-IsComparison}
use pksx.Thumb.Calls.{IsCall, bl_hi-bl_lo}
use pksx.Thumb.Carries.{op105_adc_rr_carry}
use pksx.Examples.Processor.{program}

-- LDMIA R0!, {R1, R15} with the S bit.
opcode_lut-encodes_example : encodes (ArmTable.opcode_lut (Arm.opcode 0xe8f08002)) 0xe8f08002 ≡ true
unfolding has_zeros ArmTable.opcode_lut pksx.Arm.Table.Transfers.table_8
    pksx.Arm.Transfers.Multiple.register_list
opcode_lut-encodes_example = opcode_lut-encodes 0xe8f08002 refl

-- CMP R8, R0.
opcode_lut-decode_example :
    (opcode_lut (opcode 0x4580) ≡ unimplemented)
    × ((opcode_lut (opcode 0x4580) ≡ unimplemented) ↔ (has_handler cmp_high ≡ false))
unfolding decode
opcode_lut-decode_example = opcode_lut-decode 0x4580 (omega arith)

abbrev pub machine : Machine (Unit {0})
machine = record { debugger = tt; cpu = program }

branch-cond_true_example :
    execute no_debugger 0xdbfe machine ≡ ok (with_cpu (jump 0xdbfe true) machine)
unfolding Arm.cond_true mathlib.Core.Bool.xor
branch-cond_true_example =
    branch-cond_true no_debugger 0xdbfe machine true refl (omega arith) (omega arith) (omega arith)
      refl

op10a_cmp-IsComparison_example : IsComparison 101 102 (op10a_cmp 0x4291 program)
unfolding reg reg_0 reg_3
op10a_cmp-IsComparison_example = op10a_cmp-IsComparison 0x4291 program (omega arith) (omega arith)

op105_adc_rr_carry_example :
    (op105_adc_rr 0x4148 (record program { registers = λ _. 2 ^ 32 - 1 })).c ≡ false
unfolding reg
op105_adc_rr_carry_example =
    op105_adc_rr_carry 0x4148 (record program { registers = λ _. 2 ^ 32 - 1 }) (omega arith)
      (omega arith)

-- The processor between the two instructions.
abbrev between_halves : Cpu
between_halves = record (op3cx_bl_hi 0xf7ff program) { next_pc = 0x2004 }

bl_hi-bl_lo_example :
    IsCall 0xf7ff 0xfffe program between_halves
      (op11c_bx 0x4770 (op3ex_bl_lo 0xfffe between_halves))
bl_hi-bl_lo_example =
    bl_hi-bl_lo 0xf7ff 0xfffe program between_halves (λ r k. refl) (omega arith) refl
