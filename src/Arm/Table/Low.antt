-- ===== src/Arm/Table/Low.antt =====
-- src/cpu/armv4_is.rs, `OPCODE_LUT`: the first data-processing instructions, of a register, with the multiplications.
use pksx.Base.{true, false, List, [], ◌∷◌}
use pksx.Arm.Operands.{Shifter, lsl_imm, lsr_imm, lsr_reg, asr_imm, asr_reg, ror_imm, ror_reg}
use pksx.Arm.Opcodes.{AluOp, half_imm_post, Entry, unimplemented, alu, mul, mla, ldrh, strh}
use pksx.Arm.Table.Rows.{next, sixteen}

-- Opcodes 0x000 to 0x0ff.
unfoldable pub table_0 : List (List Entry)
table_0 =
    (alu AluOp.and lsl_imm
      ∷ alu AluOp.and Shifter.lsl_reg
      ∷ alu AluOp.and lsr_imm
      ∷ alu AluOp.and lsr_reg
      ∷ alu AluOp.and asr_imm
      ∷ alu AluOp.and asr_reg
      ∷ alu AluOp.and ror_imm
      ∷ alu AluOp.and ror_reg
      ∷ alu AluOp.and lsl_imm
      ∷ mul false
      ∷ alu AluOp.and lsr_imm
      ∷ unimplemented
      ∷ alu AluOp.and asr_imm
      ∷ next 3 unimplemented [])
    ∷ (next 9 unimplemented (mul true ∷ next 6 unimplemented []))
    ∷ (alu AluOp.eor lsl_imm
        ∷ alu AluOp.eor Shifter.lsl_reg
        ∷ alu AluOp.eor lsr_imm
        ∷ alu AluOp.eor lsr_reg
        ∷ alu AluOp.eor asr_imm
        ∷ alu AluOp.eor asr_reg
        ∷ alu AluOp.eor ror_imm
        ∷ alu AluOp.eor ror_reg
        ∷ alu AluOp.eor lsl_imm
        ∷ mla false
        ∷ alu AluOp.eor lsr_imm
        ∷ unimplemented
        ∷ alu AluOp.eor asr_imm
        ∷ next 3 unimplemented [])
    ∷ (next 4 unimplemented (
        alu AluOp.eors asr_imm
        ∷ next 7 unimplemented (alu AluOp.eors asr_imm ∷ next 3 unimplemented [])))
    ∷ (alu AluOp.sub lsl_imm
        ∷ unimplemented
        ∷ alu AluOp.sub lsr_imm
        ∷ unimplemented
        ∷ alu AluOp.sub asr_imm
        ∷ next 3 unimplemented (
            alu AluOp.sub lsl_imm
            ∷ unimplemented
            ∷ alu AluOp.sub lsr_imm
            ∷ unimplemented
            ∷ alu AluOp.sub asr_imm
            ∷ next 3 unimplemented []))
    ∷ (alu AluOp.subs lsl_imm
        ∷ unimplemented
        ∷ alu AluOp.subs lsr_imm
        ∷ next 5 unimplemented (
            alu AluOp.subs lsl_imm
            ∷ unimplemented
            ∷ alu AluOp.subs lsr_imm
            ∷ next 5 unimplemented []))
    ∷ (alu AluOp.rsb lsl_imm
        ∷ unimplemented
        ∷ alu AluOp.rsb lsr_imm
        ∷ next 5 unimplemented (
            alu AluOp.rsb lsl_imm
            ∷ unimplemented
            ∷ alu AluOp.rsb lsr_imm
            ∷ next 5 unimplemented []))
    ∷ (alu AluOp.rsbs lsl_imm
        ∷ unimplemented
        ∷ alu AluOp.rsbs lsr_imm
        ∷ next 5 unimplemented (
            alu AluOp.rsbs lsl_imm
            ∷ unimplemented
            ∷ alu AluOp.rsbs lsr_imm
            ∷ next 5 unimplemented []))
    ∷ (alu AluOp.add lsl_imm
        ∷ alu AluOp.add Shifter.lsl_reg
        ∷ alu AluOp.add lsr_imm
        ∷ alu AluOp.add lsr_reg
        ∷ alu AluOp.add asr_imm
        ∷ alu AluOp.add asr_reg
        ∷ alu AluOp.add ror_imm
        ∷ alu AluOp.add ror_reg
        ∷ alu AluOp.add lsl_imm
        ∷ unimplemented
        ∷ alu AluOp.add lsr_imm
        ∷ unimplemented
        ∷ alu AluOp.add asr_imm
        ∷ next 3 unimplemented [])
    ∷ (alu AluOp.adds lsl_imm
        ∷ alu AluOp.adds Shifter.lsl_reg
        ∷ alu AluOp.adds lsr_imm
        ∷ alu AluOp.adds lsr_reg
        ∷ alu AluOp.adds asr_imm
        ∷ alu AluOp.adds asr_reg
        ∷ alu AluOp.adds ror_imm
        ∷ alu AluOp.adds ror_reg
        ∷ alu AluOp.adds lsl_imm
        ∷ unimplemented
        ∷ alu AluOp.adds lsr_imm
        ∷ unimplemented
        ∷ alu AluOp.adds asr_imm
        ∷ next 3 unimplemented [])
    ∷ (alu AluOp.adc lsl_imm
        ∷ next 7 unimplemented (alu AluOp.adc lsl_imm ∷ next 7 unimplemented []))
    ∷ (sixteen unimplemented)
    ∷ (next 11 unimplemented (strh half_imm_post true ∷ next 4 unimplemented []))
    ∷ (next 11 unimplemented (ldrh half_imm_post true ∷ next 4 unimplemented []))
    ∷ next 2 (sixteen unimplemented) []
