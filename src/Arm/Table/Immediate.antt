-- ===== src/Arm/Table/Immediate.antt =====
-- src/cpu/armv4_is.rs, `OPCODE_LUT`: the data-processing instructions of an immediate.
use pksx.Base.{List, [], ◌∷◌}
use pksx.Arm.Operands.{Shifter}
use pksx.Arm.Opcodes.{AluOp, Entry, unimplemented, alu}
use pksx.Arm.Table.Rows.{next, sixteen}

-- Opcodes 0x200 to 0x2ff.
unfoldable pub table_2 : List (List Entry)
table_2 =
    (sixteen (alu AluOp.and Shifter.imm))
    ∷ (sixteen (alu AluOp.ands Shifter.imm))
    ∷ (sixteen (alu AluOp.eor Shifter.imm))
    ∷ (sixteen (alu AluOp.eors Shifter.imm))
    ∷ (sixteen (alu AluOp.sub Shifter.imm))
    ∷ (sixteen (alu AluOp.subs Shifter.imm))
    ∷ (sixteen (alu AluOp.rsb Shifter.imm))
    ∷ (sixteen (alu AluOp.rsbs Shifter.imm))
    ∷ (sixteen (alu AluOp.add Shifter.imm))
    ∷ (sixteen (alu AluOp.adds Shifter.imm))
    ∷ next 6 (sixteen unimplemented) []

-- Opcodes 0x300 to 0x3ff.
unfoldable pub table_3 : List (List Entry)
table_3 =
    (sixteen unimplemented)
    ∷ (sixteen (alu AluOp.tst Shifter.imm))
    ∷ next 3 (sixteen unimplemented) (
        (sixteen (alu AluOp.cmp Shifter.imm))
        ∷ (sixteen unimplemented)
        ∷ (sixteen (alu AluOp.cmn Shifter.imm))
        ∷ (sixteen (alu AluOp.orr Shifter.imm))
        ∷ (sixteen (alu AluOp.orrs Shifter.imm))
        ∷ (sixteen (alu AluOp.mov Shifter.imm))
        ∷ (sixteen unimplemented)
        ∷ (sixteen (alu AluOp.bic Shifter.imm))
        ∷ (sixteen (alu AluOp.bics Shifter.imm))
        ∷ (sixteen (alu AluOp.mvn Shifter.imm))
        ∷ (sixteen unimplemented)
        ∷ [])
