-- ===== src/Thumb/Table.antt =====
-- src/cpu/thumbv1_is.rs: the table of opcodes and the execution of an instruction.
pub mod Codes
pub mod Decoding
use pksx.Base.{ℕ, ◌/◌, ◌%◌, List, [], ◌∷◌, get_or}
use pksx.Cpu.Machine.{Debugger, Handler}
use pksx.Thumb.{opcode}
use pksx.Thumb.Opcodes.{
  Entry, unimplemented, op00x_lsl_ri5, op02x_lsr_ri5, op04x_asr_ri5, op06x_add_rr, op06x_sub_rr,
  op07x_add_i3, op07x_sub_i3, op08x_mov_i8, op0ax_cmp_i8, op0cx_add_i8, op0ex_sub_i8, op100_and,
  op101_eor, op102_lsl_r, op103_lsr_r, op104_asr_r, op105_adc_rr, op107_ror, op108_tst, op109_neg,
  op10a_cmp, op10b_cmn, op10c_orr, op10d_mul, op10e_bic, op10f_mvn, op111_add_hi, op115_cmp_hi,
  op118_cpy, op11c_bx, op12x_ldr_pc, op14x_str_rr, op14x_strh_rr, op15x_strb_rr, op15x_ldrsb_rr,
  op16x_ldr_rr, op16x_ldrh_rr, op17x_ldrb_rr, op17x_ldrsh_rr, op18x_str_ri5, op1ax_ldr_ri5,
  op1cx_strb_ri5, op1ex_ldrb_ri5, op20x_strh_ri5, op22x_ldrh_ri5, op24x_str_sp, op26x_ldr_sp,
  op28x_add_pc, op2ax_add_sp_i, op2c0_add_sp, op2c2_sub_sp, op2d0_push, op2d4_push_lr, op2f0_pop,
  op2f4_pop_pc, op30x_stmia, op32x_ldmia, op340_beq, op344_bne, op348_bcs, op34c_bcc, op350_bmi,
  op354_bpl, op360_bhi, op364_bls, op368_bge, op36c_blt, op370_bgt, op374_ble, op37c_swi, op38x_b,
  op3cx_bl_hi, op3ex_bl_lo, handler,
}
use pksx.Arm.Table.Rows.{next, sixteen}

-- Opcodes 0x000 to 0x0ff.
unfoldable pub table_0 : List (List Entry)
table_0 =
    (sixteen op00x_lsl_ri5)
    ∷ (sixteen op00x_lsl_ri5)
    ∷ (sixteen op02x_lsr_ri5)
    ∷ (sixteen op02x_lsr_ri5)
    ∷ (sixteen op04x_asr_ri5)
    ∷ (sixteen op04x_asr_ri5)
    ∷ (next 8 op06x_add_rr (next 8 op06x_sub_rr []))
    ∷ (next 8 op07x_add_i3 (next 8 op07x_sub_i3 []))
    ∷ (sixteen op08x_mov_i8)
    ∷ (sixteen op08x_mov_i8)
    ∷ (sixteen op0ax_cmp_i8)
    ∷ (sixteen op0ax_cmp_i8)
    ∷ (sixteen op0cx_add_i8)
    ∷ (sixteen op0cx_add_i8)
    ∷ (sixteen op0ex_sub_i8)
    ∷ (sixteen op0ex_sub_i8)
    ∷ []

-- Opcodes 0x100 to 0x1ff.
unfoldable pub table_1 : List (List Entry)
table_1 =
    (op100_and ∷ op101_eor ∷ op102_lsl_r ∷ op103_lsr_r ∷ op104_asr_r ∷ op105_adc_rr ∷ unimplemented
      ∷ op107_ror ∷ op108_tst ∷ op109_neg ∷ op10a_cmp ∷ op10b_cmn ∷ op10c_orr ∷ op10d_mul
      ∷ op10e_bic ∷ op10f_mvn ∷ [])
    ∷ (unimplemented
        ∷ next 3 op111_add_hi (
            unimplemented
            ∷ op115_cmp_hi
            ∷ next 2 unimplemented (next 4 op118_cpy (next 2 op11c_bx (next 2 unimplemented [])))))
    ∷ (sixteen op12x_ldr_pc)
    ∷ (sixteen op12x_ldr_pc)
    ∷ (next 8 op14x_str_rr (next 8 op14x_strh_rr []))
    ∷ (next 8 op15x_strb_rr (next 8 op15x_ldrsb_rr []))
    ∷ (next 8 op16x_ldr_rr (next 8 op16x_ldrh_rr []))
    ∷ (next 8 op17x_ldrb_rr (next 8 op17x_ldrsh_rr []))
    ∷ (sixteen op18x_str_ri5)
    ∷ (sixteen op18x_str_ri5)
    ∷ (sixteen op1ax_ldr_ri5)
    ∷ (sixteen op1ax_ldr_ri5)
    ∷ (sixteen op1cx_strb_ri5)
    ∷ (sixteen op1cx_strb_ri5)
    ∷ (sixteen op1ex_ldrb_ri5)
    ∷ (sixteen op1ex_ldrb_ri5)
    ∷ []

-- Opcodes 0x200 to 0x2ff.
unfoldable pub table_2 : List (List Entry)
table_2 =
    (sixteen op20x_strh_ri5)
    ∷ (sixteen op20x_strh_ri5)
    ∷ (sixteen op22x_ldrh_ri5)
    ∷ (sixteen op22x_ldrh_ri5)
    ∷ (sixteen op24x_str_sp)
    ∷ (sixteen op24x_str_sp)
    ∷ (sixteen op26x_ldr_sp)
    ∷ (sixteen op26x_ldr_sp)
    ∷ (sixteen op28x_add_pc)
    ∷ (sixteen op28x_add_pc)
    ∷ (sixteen op2ax_add_sp_i)
    ∷ (sixteen op2ax_add_sp_i)
    ∷ (next 2 op2c0_add_sp (next 2 op2c2_sub_sp (next 12 unimplemented [])))
    ∷ (next 4 op2d0_push (next 4 op2d4_push_lr (next 8 unimplemented [])))
    ∷ (sixteen unimplemented)
    ∷ (next 4 op2f0_pop (next 4 op2f4_pop_pc (next 8 unimplemented [])))
    ∷ []

-- Opcodes 0x300 to 0x3ff.
unfoldable pub table_3 : List (List Entry)
table_3 =
    (sixteen op30x_stmia)
    ∷ (sixteen op30x_stmia)
    ∷ (sixteen op32x_ldmia)
    ∷ (sixteen op32x_ldmia)
    ∷ (next 4 op340_beq (next 4 op344_bne (next 4 op348_bcs (next 4 op34c_bcc []))))
    ∷ (next 4 op350_bmi (next 4 op354_bpl (next 8 unimplemented [])))
    ∷ (next 4 op360_bhi (next 4 op364_bls (next 4 op368_bge (next 4 op36c_blt []))))
    ∷ (next 4 op370_bgt (next 4 op374_ble (next 4 unimplemented (next 4 op37c_swi []))))
    ∷ (sixteen op38x_b)
    ∷ (sixteen op38x_b)
    ∷ (sixteen unimplemented)
    ∷ (sixteen unimplemented)
    ∷ (sixteen op3cx_bl_hi)
    ∷ (sixteen op3cx_bl_hi)
    ∷ (sixteen op3ex_bl_lo)
    ∷ (sixteen op3ex_bl_lo)
    ∷ []

unfoldable pub opcode_lut : ℕ → Entry
opcode_lut op =
    let tables = table_0 ∷ table_1 ∷ table_2 ∷ table_3 ∷ [] in
    get_or (get_or (get_or tables (op / 256) []) (op / 16 % 16) []) (op % 16) unimplemented

-- `Instruction::execute`.
unfoldable pub execute : {D : Type 0} → Debugger D → Handler D
execute dbg i s = handler dbg (opcode_lut (opcode i)) i s
