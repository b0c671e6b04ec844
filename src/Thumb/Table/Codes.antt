-- ===== src/Thumb/Table/Codes.antt =====
-- src/cpu/thumbv1_is.rs: a number for each handler of the table of opcodes.
use pksx.Base.{ℕ, ◌≡◌, refl, sym, ap, ◌∙◌, true, List, [], ◌∷◌, ◌==◌, ==_iff, get_or}
use pksx.Thumb.Opcodes.{
  Entry, unimplemented, op00x_lsl_ri5, op02x_lsr_ri5, op04x_asr_ri5, op06x_add_rr, op06x_sub_rr,
  op07x_add_i3, op07x_sub_i3, op08x_mov_i8, op0ax_cmp_i8, op0cx_add_i8, op0ex_sub_i8, op100_and,
  op101_eor, op102_lsl_r, op103_lsr_r, op104_asr_r, op105_adc_rr, op107_ror, op108_tst, op109_neg,
  op10a_cmp, op10b_cmn, op10c_orr, op10d_mul, op10e_bic, op10f_mvn, op111_add_hi, op115_cmp_hi,
  op118_cpy, op11c_bx, op12x_ldr_pc, op14x_str_rr, op14x_strh_rr, op15x_strb_rr, op15x_ldrsb_rr,
  op16x_ldr_rr, op16x_ldrh_rr, op17x_ldrb_rr, op17x_ldrsh_rr, op18x_str_ri5, op1ax_ldr_ri5,
  op1cx_strb_ri5, op1ex_ldrb_ri5, op20x_strh_ri5, op22x_ldrh_ri5, op24x_str_sp, op26x_ldr_sp,
  op28x_add_pc, op2ax_add_sp_i, op2c0_add_sp, op2c2_sub_sp, op2d0_push, op2d4_push_lr, op2f0_pop,
  op2f4_pop_pc, op30x_stmia, op32x_ldmia, op340_beq, op344_bne, op348_bcs, op34c_bcc, op350_bmi,
  op354_bpl, op360_bhi, op364_bls, op368_bge, op36c_blt, op370_bgt, op374_ble, op37c_swi, op38x_b,
  op3cx_bl_hi, op3ex_bl_lo,
}

-- A number for each entry, to compare them by.
abbrev pub code : Entry → ℕ
code unimplemented = 0
code op00x_lsl_ri5 = 1
code op02x_lsr_ri5 = 2
code op04x_asr_ri5 = 3
code op06x_add_rr = 4
code op06x_sub_rr = 5
code op07x_add_i3 = 6
code op07x_sub_i3 = 7
code op08x_mov_i8 = 8
code op0ax_cmp_i8 = 9
code op0cx_add_i8 = 10
code op0ex_sub_i8 = 11
code op100_and = 12
code op101_eor = 13
code op102_lsl_r = 14
code op103_lsr_r = 15
code op104_asr_r = 16
code op105_adc_rr = 17
code op107_ror = 18
code op108_tst = 19
code op109_neg = 20
code op10a_cmp = 21
code op10b_cmn = 22
code op10c_orr = 23
code op10d_mul = 24
code op10e_bic = 25
code op10f_mvn = 26
code op111_add_hi = 27
code op115_cmp_hi = 28
code op118_cpy = 29
code op11c_bx = 30
code op12x_ldr_pc = 31
code op14x_str_rr = 32
code op14x_strh_rr = 33
code op15x_strb_rr = 34
code op15x_ldrsb_rr = 35
code op16x_ldr_rr = 36
code op16x_ldrh_rr = 37
code op17x_ldrb_rr = 38
code op17x_ldrsh_rr = 39
code op18x_str_ri5 = 40
code op1ax_ldr_ri5 = 41
code op1cx_strb_ri5 = 42
code op1ex_ldrb_ri5 = 43
code op20x_strh_ri5 = 44
code op22x_ldrh_ri5 = 45
code op24x_str_sp = 46
code op26x_ldr_sp = 47
code op28x_add_pc = 48
code op2ax_add_sp_i = 49
code op2c0_add_sp = 50
code op2c2_sub_sp = 51
code op2d0_push = 52
code op2d4_push_lr = 53
code op2f0_pop = 54
code op2f4_pop_pc = 55
code op30x_stmia = 56
code op32x_ldmia = 57
code op340_beq = 58
code op344_bne = 59
code op348_bcs = 60
code op34c_bcc = 61
code op350_bmi = 62
code op354_bpl = 63
code op360_bhi = 64
code op364_bls = 65
code op368_bge = 66
code op36c_blt = 67
code op370_bgt = 68
code op374_ble = 69
code op37c_swi = 70
code op38x_b = 71
code op3cx_bl_hi = 72
code op3ex_bl_lo = 73

abbrev entries : List Entry
entries =
    unimplemented ∷ op00x_lsl_ri5 ∷ op02x_lsr_ri5 ∷ op04x_asr_ri5 ∷ op06x_add_rr ∷ op06x_sub_rr
    ∷ op07x_add_i3 ∷ op07x_sub_i3 ∷ op08x_mov_i8 ∷ op0ax_cmp_i8 ∷ op0cx_add_i8 ∷ op0ex_sub_i8
    ∷ op100_and ∷ op101_eor ∷ op102_lsl_r ∷ op103_lsr_r ∷ op104_asr_r ∷ op105_adc_rr ∷ op107_ror
    ∷ op108_tst ∷ op109_neg ∷ op10a_cmp ∷ op10b_cmn ∷ op10c_orr ∷ op10d_mul ∷ op10e_bic ∷ op10f_mvn
    ∷ op111_add_hi ∷ op115_cmp_hi ∷ op118_cpy ∷ op11c_bx ∷ op12x_ldr_pc ∷ op14x_str_rr
    ∷ op14x_strh_rr ∷ op15x_strb_rr ∷ op15x_ldrsb_rr ∷ op16x_ldr_rr ∷ op16x_ldrh_rr ∷ op17x_ldrb_rr
    ∷ op17x_ldrsh_rr ∷ op18x_str_ri5 ∷ op1ax_ldr_ri5 ∷ op1cx_strb_ri5 ∷ op1ex_ldrb_ri5
    ∷ op20x_strh_ri5 ∷ op22x_ldrh_ri5 ∷ op24x_str_sp ∷ op26x_ldr_sp ∷ op28x_add_pc ∷ op2ax_add_sp_i
    ∷ op2c0_add_sp ∷ op2c2_sub_sp ∷ op2d0_push ∷ op2d4_push_lr ∷ op2f0_pop ∷ op2f4_pop_pc
    ∷ op30x_stmia ∷ op32x_ldmia ∷ op340_beq ∷ op344_bne ∷ op348_bcs ∷ op34c_bcc ∷ op350_bmi
    ∷ op354_bpl ∷ op360_bhi ∷ op364_bls ∷ op368_bge ∷ op36c_blt ∷ op370_bgt ∷ op374_ble ∷ op37c_swi
    ∷ op38x_b ∷ op3cx_bl_hi ∷ op3ex_bl_lo ∷ []

abbrev entry_at : ℕ → Entry
entry_at n = get_or entries n unimplemented

entry_at-code : (e : Entry) → entry_at (code e) ≡ e
entry_at-code unimplemented = refl
entry_at-code op00x_lsl_ri5 = refl
entry_at-code op02x_lsr_ri5 = refl
entry_at-code op04x_asr_ri5 = refl
entry_at-code op06x_add_rr = refl
entry_at-code op06x_sub_rr = refl
entry_at-code op07x_add_i3 = refl
entry_at-code op07x_sub_i3 = refl
entry_at-code op08x_mov_i8 = refl
entry_at-code op0ax_cmp_i8 = refl
entry_at-code op0cx_add_i8 = refl
entry_at-code op0ex_sub_i8 = refl
entry_at-code op100_and = refl
entry_at-code op101_eor = refl
entry_at-code op102_lsl_r = refl
entry_at-code op103_lsr_r = refl
entry_at-code op104_asr_r = refl
entry_at-code op105_adc_rr = refl
entry_at-code op107_ror = refl
entry_at-code op108_tst = refl
entry_at-code op109_neg = refl
entry_at-code op10a_cmp = refl
entry_at-code op10b_cmn = refl
entry_at-code op10c_orr = refl
entry_at-code op10d_mul = refl
entry_at-code op10e_bic = refl
entry_at-code op10f_mvn = refl
entry_at-code op111_add_hi = refl
entry_at-code op115_cmp_hi = refl
entry_at-code op118_cpy = refl
entry_at-code op11c_bx = refl
entry_at-code op12x_ldr_pc = refl
entry_at-code op14x_str_rr = refl
entry_at-code op14x_strh_rr = refl
entry_at-code op15x_strb_rr = refl
entry_at-code op15x_ldrsb_rr = refl
entry_at-code op16x_ldr_rr = refl
entry_at-code op16x_ldrh_rr = refl
entry_at-code op17x_ldrb_rr = refl
entry_at-code op17x_ldrsh_rr = refl
entry_at-code op18x_str_ri5 = refl
entry_at-code op1ax_ldr_ri5 = refl
entry_at-code op1cx_strb_ri5 = refl
entry_at-code op1ex_ldrb_ri5 = refl
entry_at-code op20x_strh_ri5 = refl
entry_at-code op22x_ldrh_ri5 = refl
entry_at-code op24x_str_sp = refl
entry_at-code op26x_ldr_sp = refl
entry_at-code op28x_add_pc = refl
entry_at-code op2ax_add_sp_i = refl
entry_at-code op2c0_add_sp = refl
entry_at-code op2c2_sub_sp = refl
entry_at-code op2d0_push = refl
entry_at-code op2d4_push_lr = refl
entry_at-code op2f0_pop = refl
entry_at-code op2f4_pop_pc = refl
entry_at-code op30x_stmia = refl
entry_at-code op32x_ldmia = refl
entry_at-code op340_beq = refl
entry_at-code op344_bne = refl
entry_at-code op348_bcs = refl
entry_at-code op34c_bcc = refl
entry_at-code op350_bmi = refl
entry_at-code op354_bpl = refl
entry_at-code op360_bhi = refl
entry_at-code op364_bls = refl
entry_at-code op368_bge = refl
entry_at-code op36c_blt = refl
entry_at-code op370_bgt = refl
entry_at-code op374_ble = refl
entry_at-code op37c_swi = refl
entry_at-code op38x_b = refl
entry_at-code op3cx_bl_hi = refl
entry_at-code op3ex_bl_lo = refl

pub code-injective : (e f : Entry) → (code e == code f) ≡ true → e ≡ f
code-injective e f h =
    let same = (==_iff (code e) (code f)).0 h in
    sym (entry_at-code e) ∙ (ap entry_at same ∙ entry_at-code f)
