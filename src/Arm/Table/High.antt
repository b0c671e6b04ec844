-- ===== src/Arm/Table/High.antt =====
-- src/cpu/armv4_is.rs, `OPCODE_LUT`: the other data-processing instructions of a register, with half words in between.
use pksx.Base.{true, false, List, [], ◌∷◌}
use pksx.Arm.Operands.{Shifter, lsl_imm, lsr_imm, lsr_reg, asr_imm, asr_reg, ror_imm, ror_reg}
use pksx.Arm.Opcodes.{
  AluOp, half_imm, half_imm_pre, half_reg, Entry, unimplemented, mrs_cpsr, msr_cpsr, mrs_spsr, bx,
  alu, ldrh, ldrsh, strh, ldrsb,
}
use pksx.Arm.Table.Rows.{next, sixteen}

-- Opcodes 0x100 to 0x1ff.
unfoldable pub table_1 : List (List Entry)
table_1 =
    (mrs_cpsr ∷ next 15 unimplemented [])
    ∷ (alu AluOp.tst lsl_imm
        ∷ alu AluOp.tst Shifter.lsl_reg
        ∷ alu AluOp.tst lsr_imm
        ∷ alu AluOp.tst lsr_reg
        ∷ alu AluOp.tst asr_imm
        ∷ alu AluOp.tst asr_reg
        ∷ alu AluOp.tst ror_imm
        ∷ alu AluOp.tst ror_reg
        ∷ alu AluOp.tst lsl_imm
        ∷ unimplemented
        ∷ alu AluOp.tst lsr_imm
        ∷ unimplemented
        ∷ alu AluOp.tst asr_imm
        ∷ unimplemented
        ∷ alu AluOp.tst ror_imm
        ∷ unimplemented
        ∷ [])
    ∷ (msr_cpsr ∷ bx ∷ next 14 unimplemented [])
    ∷ (alu AluOp.teq lsl_imm
        ∷ unimplemented
        ∷ alu AluOp.teq lsr_imm
        ∷ next 5 unimplemented (
            alu AluOp.teq lsl_imm
            ∷ unimplemented
            ∷ alu AluOp.teq lsr_imm
            ∷ next 5 unimplemented []))
    ∷ (mrs_spsr ∷ next 10 unimplemented (strh half_imm false ∷ next 4 unimplemented []))
    ∷ (alu AluOp.cmp lsl_imm
        ∷ unimplemented
        ∷ alu AluOp.cmp lsr_imm
        ∷ unimplemented
        ∷ alu AluOp.cmp asr_imm
        ∷ unimplemented
        ∷ alu AluOp.cmp ror_imm
        ∷ unimplemented
        ∷ alu AluOp.cmp lsl_imm
        ∷ unimplemented
        ∷ alu AluOp.cmp lsr_imm
        ∷ ldrh half_imm false
        ∷ alu AluOp.cmp asr_imm
        ∷ next 2 unimplemented (ldrsh half_imm false ∷ []))
    ∷ (next 11 unimplemented (strh half_imm_pre false ∷ next 4 unimplemented []))
    ∷ (sixteen unimplemented)
    ∷ (alu AluOp.orr lsl_imm
        ∷ alu AluOp.orr Shifter.lsl_reg
        ∷ alu AluOp.orr lsr_imm
        ∷ alu AluOp.orr lsr_reg
        ∷ alu AluOp.orr asr_imm
        ∷ alu AluOp.orr asr_reg
        ∷ alu AluOp.orr ror_imm
        ∷ alu AluOp.orr ror_reg
        ∷ alu AluOp.orr lsl_imm
        ∷ unimplemented
        ∷ alu AluOp.orr lsr_imm
        ∷ strh half_reg true
        ∷ alu AluOp.orr asr_imm
        ∷ unimplemented
        ∷ alu AluOp.orr ror_imm
        ∷ unimplemented
        ∷ [])
    ∷ (alu AluOp.orrs lsl_imm
        ∷ alu AluOp.orrs Shifter.lsl_reg
        ∷ alu AluOp.orrs lsr_imm
        ∷ alu AluOp.orrs lsr_reg
        ∷ alu AluOp.orrs asr_imm
        ∷ alu AluOp.orrs asr_reg
        ∷ alu AluOp.orrs ror_imm
        ∷ alu AluOp.orrs ror_reg
        ∷ alu AluOp.orrs lsl_imm
        ∷ unimplemented
        ∷ alu AluOp.orrs lsr_imm
        ∷ ldrh half_reg true
        ∷ alu AluOp.orrs asr_imm
        ∷ ldrsb half_reg true
        ∷ unimplemented
        ∷ ldrsh half_reg true
        ∷ [])
    ∷ (alu AluOp.mov lsl_imm
        ∷ alu AluOp.mov Shifter.lsl_reg
        ∷ alu AluOp.mov lsr_imm
        ∷ alu AluOp.mov lsr_reg
        ∷ alu AluOp.mov asr_imm
        ∷ alu AluOp.mov asr_reg
        ∷ alu AluOp.mov ror_imm
        ∷ alu AluOp.mov ror_reg
        ∷ alu AluOp.mov lsl_imm
        ∷ unimplemented
        ∷ alu AluOp.mov lsr_imm
        ∷ unimplemented
        ∷ alu AluOp.mov asr_imm
        ∷ next 3 unimplemented [])
    ∷ (alu AluOp.movs lsl_imm
        ∷ alu AluOp.movs Shifter.lsl_reg
        ∷ alu AluOp.movs lsr_imm
        ∷ alu AluOp.movs lsr_reg
        ∷ alu AluOp.movs asr_imm
        ∷ unimplemented
        ∷ alu AluOp.movs ror_imm
        ∷ unimplemented
        ∷ alu AluOp.movs lsl_imm
        ∷ unimplemented
        ∷ alu AluOp.movs lsr_imm
        ∷ unimplemented
        ∷ alu AluOp.movs asr_imm
        ∷ next 3 unimplemented [])
    ∷ (alu AluOp.bic lsl_imm
        ∷ alu AluOp.bic Shifter.lsl_reg
        ∷ alu AluOp.bic lsr_imm
        ∷ alu AluOp.bic lsr_reg
        ∷ alu AluOp.bic asr_imm
        ∷ alu AluOp.bic asr_reg
        ∷ alu AluOp.bic ror_imm
        ∷ alu AluOp.bic ror_reg
        ∷ alu AluOp.bic lsl_imm
        ∷ unimplemented
        ∷ alu AluOp.bic lsr_imm
        ∷ strh half_imm true
        ∷ alu AluOp.bic asr_imm
        ∷ next 3 unimplemented [])
    ∷ (alu AluOp.bics lsl_imm
        ∷ alu AluOp.bics Shifter.lsl_reg
        ∷ next 6 unimplemented (
            alu AluOp.bics lsl_imm
            ∷ next 2 unimplemented (
                ldrh half_imm true
                ∷ unimplemented
                ∷ ldrsb half_imm true
                ∷ unimplemented
                ∷ ldrsh half_imm true
                ∷ [])))
    ∷ (alu AluOp.mvn lsl_imm
        ∷ alu AluOp.mvn Shifter.lsl_reg
        ∷ alu AluOp.mvn lsr_imm
        ∷ alu AluOp.mvn lsr_reg
        ∷ alu AluOp.mvn asr_imm
        ∷ unimplemented
        ∷ alu AluOp.mvn ror_imm
        ∷ unimplemented
        ∷ alu AluOp.mvn lsl_imm
        ∷ unimplemented
        ∷ alu AluOp.mvn lsr_imm
        ∷ unimplemented
        ∷ alu AluOp.mvn asr_imm
        ∷ next 3 unimplemented [])
    ∷ (next 11 unimplemented (ldrh half_imm_pre true ∷ next 4 unimplemented []))
    ∷ []
