-- ===== src/Arm/Table/Transfers.antt =====
-- src/cpu/armv4_is.rs, `OPCODE_LUT`: the loads and stores of words, of bytes and of several registers.
use pksx.Base.{true, false, List, [], ◌∷◌}
use pksx.Arm.Opcodes.{
  Mode2, imm_pre, imm_post, lsl_reg_pre, Entry, unimplemented, ldr, str, ldrb, strb, ldm, ldms, stm,
}
use pksx.Arm.Table.Rows.{next, sixteen}

-- Opcodes 0x400 to 0x4ff.
unfoldable pub table_4 : List (List Entry)
table_4 = next 4 (sixteen unimplemented) (
    (sixteen (strb imm_post false))
    ∷ next 3 (sixteen unimplemented) (
        (sixteen (str imm_post true))
        ∷ (sixteen (ldr imm_post true))
        ∷ next 2 (sixteen unimplemented) (
            (sixteen (strb imm_post true))
            ∷ (sixteen (ldrb imm_post true))
            ∷ next 2 (sixteen unimplemented) [])))

-- Opcodes 0x500 to 0x5ff.
unfoldable pub table_5 : List (List Entry)
table_5 =
    (sixteen (str Mode2.imm false))
    ∷ (sixteen (ldr Mode2.imm false))
    ∷ (sixteen (str imm_pre false))
    ∷ (sixteen (ldr imm_pre false))
    ∷ (sixteen (strb Mode2.imm false))
    ∷ (sixteen (ldrb Mode2.imm false))
    ∷ next 2 (sixteen unimplemented) (
        (sixteen (str Mode2.imm true))
        ∷ (sixteen (ldr Mode2.imm true))
        ∷ (sixteen (str imm_pre true))
        ∷ (sixteen (ldr imm_pre true))
        ∷ (sixteen (strb Mode2.imm true))
        ∷ (sixteen (ldrb Mode2.imm true))
        ∷ (sixteen (strb imm_pre true))
        ∷ (sixteen (ldrb imm_pre true))
        ∷ [])

-- Opcodes 0x600 to 0x6ff.
unfoldable pub table_6 : List (List Entry)
table_6 = next 16 (sixteen unimplemented) []

-- Opcodes 0x700 to 0x7ff.
unfoldable pub table_7 : List (List Entry)
table_7 = next 8 (sixteen unimplemented) (
    (str Mode2.lsl_reg true
      ∷ next 7 unimplemented (str Mode2.lsl_reg true ∷ next 7 unimplemented []))
    ∷ (ldr Mode2.lsl_reg true
        ∷ next 7 unimplemented (ldr Mode2.lsl_reg true ∷ next 7 unimplemented []))
    ∷ (sixteen unimplemented)
    ∷ (ldr lsl_reg_pre true ∷ next 15 unimplemented [])
    ∷ (strb Mode2.lsl_reg true
        ∷ next 7 unimplemented (strb Mode2.lsl_reg true ∷ next 7 unimplemented []))
    ∷ (ldrb Mode2.lsl_reg true
        ∷ next 7 unimplemented (ldrb Mode2.lsl_reg true ∷ next 7 unimplemented []))
    ∷ (strb lsl_reg_pre true
        ∷ next 7 unimplemented (strb lsl_reg_pre true ∷ next 7 unimplemented []))
    ∷ (ldrb lsl_reg_pre true
        ∷ next 7 unimplemented (ldrb lsl_reg_pre true ∷ next 7 unimplemented []))
    ∷ [])

-- Opcodes 0x800 to 0x8ff.
unfoldable pub table_8 : List (List Entry)
table_8 = next 8 (sixteen unimplemented) (
    (sixteen (stm true false false))
    ∷ (sixteen (ldm true false false))
    ∷ (sixteen (stm true false true))
    ∷ (sixteen (ldm true false true))
    ∷ next 3 (sixteen unimplemented) ((sixteen (ldms true false true)) ∷ []))

-- Opcodes 0x900 to 0x9ff.
unfoldable pub table_9 : List (List Entry)
table_9 =
    (sixteen unimplemented)
    ∷ (sixteen (ldm false true false))
    ∷ (sixteen (stm false true true))
    ∷ next 13 (sixteen unimplemented) []
