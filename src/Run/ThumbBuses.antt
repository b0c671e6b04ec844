-- ===== src/Run/ThumbBuses.antt =====
-- The Thumb instructions that leave the bus alone.
use pksx.Base.{ℕ, ◌≡◌, arith, ok}
use pksx.Cpu.{Cpu, set_reg, set_pc, set_pc_thumb}
use pksx.Run.Buses.{swi-inter}
use pksx.Thumb.{adds, subs}
use pksx.Thumb.Arithmetic.{
  op06x_add_rr, op06x_sub_rr, op07x_add_i3, op07x_sub_i3, op08x_mov_i8, op0ax_cmp_i8, op0cx_add_i8,
  op0ex_sub_i8, op100_and, op101_eor, op105_adc_rr, op108_tst, op109_neg, op10a_cmp, op10b_cmn,
  op10c_orr, op10d_mul, op10e_bic, op10f_mvn, op111_add_hi, op115_cmp_hi, op118_cpy,
}
use pksx.Thumb.Shifts.{
  op00x_lsl_ri5, op02x_lsr_ri5, op04x_asr_ri5, op102_lsl_r, op103_lsr_r, op104_asr_r, op107_ror,
}
use pksx.Thumb.Transfers.{op28x_add_pc, op2ax_add_sp_i, op2c0_add_sp, op2c2_sub_sp}
use pksx.Thumb.Branches.{
  op340_beq, op344_bne, op348_bcs, op34c_bcc, op350_bmi, op354_bpl, op360_bhi, op364_bls, op368_bge,
  op36c_blt, op370_bgt, op374_ble, op37c_swi, op38x_b, op3cx_bl_hi, op3ex_bl_lo,
}
use pksx.Thumb.Branches.{op11c_bx}

pub op06x_add_rr-inter : (i : ℕ) (c : Cpu) → (op06x_add_rr i c).inter ≡ c.inter
unfolding op06x_add_rr adds subs set_reg set_pc
op06x_add_rr-inter i c = ground arith

pub op06x_sub_rr-inter : (i : ℕ) (c : Cpu) → (op06x_sub_rr i c).inter ≡ c.inter
unfolding op06x_sub_rr adds subs set_reg set_pc
op06x_sub_rr-inter i c = ground arith

pub op07x_add_i3-inter : (i : ℕ) (c : Cpu) → (op07x_add_i3 i c).inter ≡ c.inter
unfolding op07x_add_i3 adds subs set_reg set_pc
op07x_add_i3-inter i c = ground arith

pub op07x_sub_i3-inter : (i : ℕ) (c : Cpu) → (op07x_sub_i3 i c).inter ≡ c.inter
unfolding op07x_sub_i3 adds subs set_reg set_pc
op07x_sub_i3-inter i c = ground arith

pub op08x_mov_i8-inter : (i : ℕ) (c : Cpu) → (op08x_mov_i8 i c).inter ≡ c.inter
unfolding op08x_mov_i8 adds subs set_reg set_pc
op08x_mov_i8-inter i c = ground arith

pub op0ax_cmp_i8-inter : (i : ℕ) (c : Cpu) → (op0ax_cmp_i8 i c).inter ≡ c.inter
unfolding op0ax_cmp_i8 adds subs set_reg set_pc
op0ax_cmp_i8-inter i c = ground arith

pub op0cx_add_i8-inter : (i : ℕ) (c : Cpu) → (op0cx_add_i8 i c).inter ≡ c.inter
unfolding op0cx_add_i8 adds subs set_reg set_pc
op0cx_add_i8-inter i c = ground arith

pub op0ex_sub_i8-inter : (i : ℕ) (c : Cpu) → (op0ex_sub_i8 i c).inter ≡ c.inter
unfolding op0ex_sub_i8 adds subs set_reg set_pc
op0ex_sub_i8-inter i c = ground arith

pub op100_and-inter : (i : ℕ) (c : Cpu) → (op100_and i c).inter ≡ c.inter
unfolding op100_and adds subs set_reg set_pc
op100_and-inter i c = ground arith

pub op101_eor-inter : (i : ℕ) (c : Cpu) → (op101_eor i c).inter ≡ c.inter
unfolding op101_eor adds subs set_reg set_pc
op101_eor-inter i c = ground arith

pub op105_adc_rr-inter : (i : ℕ) (c : Cpu) → (op105_adc_rr i c).inter ≡ c.inter
unfolding op105_adc_rr adds subs set_reg set_pc
op105_adc_rr-inter i c = ground arith

pub op108_tst-inter : (i : ℕ) (c : Cpu) → (op108_tst i c).inter ≡ c.inter
unfolding op108_tst adds subs set_reg set_pc
op108_tst-inter i c = ground arith

pub op109_neg-inter : (i : ℕ) (c : Cpu) → (op109_neg i c).inter ≡ c.inter
unfolding op109_neg adds subs set_reg set_pc
op109_neg-inter i c = ground arith

pub op10a_cmp-inter : (i : ℕ) (c : Cpu) → (op10a_cmp i c).inter ≡ c.inter
unfolding op10a_cmp adds subs set_reg set_pc
op10a_cmp-inter i c = ground arith

pub op10b_cmn-inter : (i : ℕ) (c : Cpu) → (op10b_cmn i c).inter ≡ c.inter
unfolding op10b_cmn adds subs set_reg set_pc
op10b_cmn-inter i c = ground arith

pub op10c_orr-inter : (i : ℕ) (c : Cpu) → (op10c_orr i c).inter ≡ c.inter
unfolding op10c_orr adds subs set_reg set_pc
op10c_orr-inter i c = ground arith

pub op10d_mul-inter : (i : ℕ) (c : Cpu) → (op10d_mul i c).inter ≡ c.inter
unfolding op10d_mul adds subs set_reg set_pc
op10d_mul-inter i c = ground arith

pub op10e_bic-inter : (i : ℕ) (c : Cpu) → (op10e_bic i c).inter ≡ c.inter
unfolding op10e_bic adds subs set_reg set_pc
op10e_bic-inter i c = ground arith

pub op10f_mvn-inter : (i : ℕ) (c : Cpu) → (op10f_mvn i c).inter ≡ c.inter
unfolding op10f_mvn adds subs set_reg set_pc
op10f_mvn-inter i c = ground arith

pub op111_add_hi-inter : (i : ℕ) (c : Cpu) → (op111_add_hi i c).inter ≡ c.inter
unfolding op111_add_hi adds subs set_reg set_pc
op111_add_hi-inter i c = ground arith

pub op115_cmp_hi-inter : (i : ℕ) (c : Cpu) → (op115_cmp_hi i c).inter ≡ c.inter
unfolding op115_cmp_hi adds subs set_reg set_pc
op115_cmp_hi-inter i c = ground arith

pub op118_cpy-inter : (i : ℕ) (c : Cpu) → (op118_cpy i c).inter ≡ c.inter
unfolding op118_cpy adds subs set_reg set_pc
op118_cpy-inter i c = ground arith

pub op00x_lsl_ri5-inter : (i : ℕ) (c : Cpu) → (op00x_lsl_ri5 i c).inter ≡ c.inter
unfolding op00x_lsl_ri5 adds subs set_reg set_pc
op00x_lsl_ri5-inter i c = ground arith

pub op02x_lsr_ri5-inter : (i : ℕ) (c : Cpu) → (op02x_lsr_ri5 i c).inter ≡ c.inter
unfolding op02x_lsr_ri5 adds subs set_reg set_pc
op02x_lsr_ri5-inter i c = ground arith

pub op04x_asr_ri5-inter : (i : ℕ) (c : Cpu) → (op04x_asr_ri5 i c).inter ≡ c.inter
unfolding op04x_asr_ri5 adds subs set_reg set_pc
op04x_asr_ri5-inter i c = ground arith

pub op102_lsl_r-inter : (i : ℕ) (c : Cpu) → (op102_lsl_r i c).inter ≡ c.inter
unfolding op102_lsl_r adds subs set_reg set_pc
op102_lsl_r-inter i c = ground arith

pub op103_lsr_r-inter : (i : ℕ) (c : Cpu) → (op103_lsr_r i c).inter ≡ c.inter
unfolding op103_lsr_r adds subs set_reg set_pc
op103_lsr_r-inter i c = ground arith

pub op104_asr_r-inter : (i : ℕ) (c : Cpu) → (op104_asr_r i c).inter ≡ c.inter
unfolding op104_asr_r adds subs set_reg set_pc
op104_asr_r-inter i c = ground arith

pub op107_ror-inter : (i : ℕ) (c : Cpu) → (op107_ror i c).inter ≡ c.inter
unfolding op107_ror adds subs set_reg set_pc
op107_ror-inter i c = ground arith

pub op28x_add_pc-inter : (i : ℕ) (c : Cpu) → (op28x_add_pc i c).inter ≡ c.inter
unfolding op28x_add_pc adds subs set_reg set_pc
op28x_add_pc-inter i c = ground arith

pub op2ax_add_sp_i-inter : (i : ℕ) (c : Cpu) → (op2ax_add_sp_i i c).inter ≡ c.inter
unfolding op2ax_add_sp_i adds subs set_reg set_pc
op2ax_add_sp_i-inter i c = ground arith

pub op2c0_add_sp-inter : (i : ℕ) (c : Cpu) → (op2c0_add_sp i c).inter ≡ c.inter
unfolding op2c0_add_sp adds subs set_reg set_pc
op2c0_add_sp-inter i c = ground arith

pub op2c2_sub_sp-inter : (i : ℕ) (c : Cpu) → (op2c2_sub_sp i c).inter ≡ c.inter
unfolding op2c2_sub_sp adds subs set_reg set_pc
op2c2_sub_sp-inter i c = ground arith

pub op340_beq-inter : (i : ℕ) (c : Cpu) → (op340_beq i c).inter ≡ c.inter
unfolding op340_beq adds subs set_reg set_pc
op340_beq-inter i c = ground arith

pub op344_bne-inter : (i : ℕ) (c : Cpu) → (op344_bne i c).inter ≡ c.inter
unfolding op344_bne adds subs set_reg set_pc
op344_bne-inter i c = ground arith

pub op348_bcs-inter : (i : ℕ) (c : Cpu) → (op348_bcs i c).inter ≡ c.inter
unfolding op348_bcs adds subs set_reg set_pc
op348_bcs-inter i c = ground arith

pub op34c_bcc-inter : (i : ℕ) (c : Cpu) → (op34c_bcc i c).inter ≡ c.inter
unfolding op34c_bcc adds subs set_reg set_pc
op34c_bcc-inter i c = ground arith

pub op350_bmi-inter : (i : ℕ) (c : Cpu) → (op350_bmi i c).inter ≡ c.inter
unfolding op350_bmi adds subs set_reg set_pc
op350_bmi-inter i c = ground arith

pub op354_bpl-inter : (i : ℕ) (c : Cpu) → (op354_bpl i c).inter ≡ c.inter
unfolding op354_bpl adds subs set_reg set_pc
op354_bpl-inter i c = ground arith

pub op360_bhi-inter : (i : ℕ) (c : Cpu) → (op360_bhi i c).inter ≡ c.inter
unfolding op360_bhi adds subs set_reg set_pc
op360_bhi-inter i c = ground arith

pub op364_bls-inter : (i : ℕ) (c : Cpu) → (op364_bls i c).inter ≡ c.inter
unfolding op364_bls adds subs set_reg set_pc
op364_bls-inter i c = ground arith

pub op368_bge-inter : (i : ℕ) (c : Cpu) → (op368_bge i c).inter ≡ c.inter
unfolding op368_bge adds subs set_reg set_pc
op368_bge-inter i c = ground arith

pub op36c_blt-inter : (i : ℕ) (c : Cpu) → (op36c_blt i c).inter ≡ c.inter
unfolding op36c_blt adds subs set_reg set_pc
op36c_blt-inter i c = ground arith

pub op370_bgt-inter : (i : ℕ) (c : Cpu) → (op370_bgt i c).inter ≡ c.inter
unfolding op370_bgt adds subs set_reg set_pc
op370_bgt-inter i c = ground arith

pub op374_ble-inter : (i : ℕ) (c : Cpu) → (op374_ble i c).inter ≡ c.inter
unfolding op374_ble adds subs set_reg set_pc
op374_ble-inter i c = ground arith

pub op37c_swi-inter : (i : ℕ) (c : Cpu) → (op37c_swi i c).inter ≡ c.inter
unfolding op37c_swi
op37c_swi-inter i c = swi-inter c

pub op38x_b-inter : (i : ℕ) (c : Cpu) → (op38x_b i c).inter ≡ c.inter
unfolding op38x_b adds subs set_reg set_pc
op38x_b-inter i c = ground arith

pub op3cx_bl_hi-inter : (i : ℕ) (c : Cpu) → (op3cx_bl_hi i c).inter ≡ c.inter
unfolding op3cx_bl_hi adds subs set_reg set_pc
op3cx_bl_hi-inter i c = ground arith

pub op3ex_bl_lo-inter : (i : ℕ) (c : Cpu) → (op3ex_bl_lo i c).inter ≡ c.inter
unfolding op3ex_bl_lo adds subs set_reg set_pc
op3ex_bl_lo-inter i c = ground arith

pub op11c_bx-inter : (i : ℕ) (c c' : Cpu) → op11c_bx i c ≡ ok c' → c'.inter ≡ c.inter
unfolding op11c_bx set_pc_thumb set_pc
op11c_bx-inter i c c' h = ground arith
