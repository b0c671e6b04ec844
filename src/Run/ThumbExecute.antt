-- ===== src/Run/ThumbExecute.antt =====
-- A Thumb instruction keeps the frame's count and the range of the clock divider.
use pksx.Base.{ℕ, ◌≡◌, ok}
use pksx.Cpu.Machine.{Machine, no_debugger}
use pksx.Thumb.Opcodes.{Entry, handler}
use pksx.Thumb.Table as ThumbTable
use pksx.Thumb.{opcode}
use pksx.Thumb.Arithmetic
use pksx.Thumb.Shifts
use pksx.Thumb.Branches
use pksx.Thumb.Transfers
use pksx.Run.Stores.{Keeps, on_cpu-Keeps, always-Keeps}
use pksx.Run.ThumbBuses
use pksx.Run.ThumbKeeps
use pksx.Run.ThumbStack

pub handler-Keeps :
    (e : Entry) (i : ℕ) (s s' : Machine (Unit {0}))
    → handler no_debugger e i s ≡ ok s'
    → Keeps s.cpu.inter s'.cpu.inter
unfolding handler
handler-Keeps Entry.unimplemented i s s' h = cc
handler-Keeps Entry.op00x_lsl_ri5 i s s' h =
    always-Keeps Shifts.op00x_lsl_ri5 i s s' (ThumbBuses.op00x_lsl_ri5-inter i s.cpu) h
handler-Keeps Entry.op02x_lsr_ri5 i s s' h =
    always-Keeps Shifts.op02x_lsr_ri5 i s s' (ThumbBuses.op02x_lsr_ri5-inter i s.cpu) h
handler-Keeps Entry.op04x_asr_ri5 i s s' h =
    always-Keeps Shifts.op04x_asr_ri5 i s s' (ThumbBuses.op04x_asr_ri5-inter i s.cpu) h
handler-Keeps Entry.op06x_add_rr i s s' h =
    always-Keeps Arithmetic.op06x_add_rr i s s' (ThumbBuses.op06x_add_rr-inter i s.cpu) h
handler-Keeps Entry.op06x_sub_rr i s s' h =
    always-Keeps Arithmetic.op06x_sub_rr i s s' (ThumbBuses.op06x_sub_rr-inter i s.cpu) h
handler-Keeps Entry.op07x_add_i3 i s s' h =
    always-Keeps Arithmetic.op07x_add_i3 i s s' (ThumbBuses.op07x_add_i3-inter i s.cpu) h
handler-Keeps Entry.op07x_sub_i3 i s s' h =
    always-Keeps Arithmetic.op07x_sub_i3 i s s' (ThumbBuses.op07x_sub_i3-inter i s.cpu) h
handler-Keeps Entry.op08x_mov_i8 i s s' h =
    always-Keeps Arithmetic.op08x_mov_i8 i s s' (ThumbBuses.op08x_mov_i8-inter i s.cpu) h
handler-Keeps Entry.op0ax_cmp_i8 i s s' h =
    always-Keeps Arithmetic.op0ax_cmp_i8 i s s' (ThumbBuses.op0ax_cmp_i8-inter i s.cpu) h
handler-Keeps Entry.op0cx_add_i8 i s s' h =
    always-Keeps Arithmetic.op0cx_add_i8 i s s' (ThumbBuses.op0cx_add_i8-inter i s.cpu) h
handler-Keeps Entry.op0ex_sub_i8 i s s' h =
    always-Keeps Arithmetic.op0ex_sub_i8 i s s' (ThumbBuses.op0ex_sub_i8-inter i s.cpu) h
handler-Keeps Entry.op100_and i s s' h =
    always-Keeps Arithmetic.op100_and i s s' (ThumbBuses.op100_and-inter i s.cpu) h
handler-Keeps Entry.op101_eor i s s' h =
    always-Keeps Arithmetic.op101_eor i s s' (ThumbBuses.op101_eor-inter i s.cpu) h
handler-Keeps Entry.op102_lsl_r i s s' h =
    always-Keeps Shifts.op102_lsl_r i s s' (ThumbBuses.op102_lsl_r-inter i s.cpu) h
handler-Keeps Entry.op103_lsr_r i s s' h =
    always-Keeps Shifts.op103_lsr_r i s s' (ThumbBuses.op103_lsr_r-inter i s.cpu) h
handler-Keeps Entry.op104_asr_r i s s' h =
    always-Keeps Shifts.op104_asr_r i s s' (ThumbBuses.op104_asr_r-inter i s.cpu) h
handler-Keeps Entry.op105_adc_rr i s s' h =
    always-Keeps Arithmetic.op105_adc_rr i s s' (ThumbBuses.op105_adc_rr-inter i s.cpu) h
handler-Keeps Entry.op107_ror i s s' h =
    always-Keeps Shifts.op107_ror i s s' (ThumbBuses.op107_ror-inter i s.cpu) h
handler-Keeps Entry.op108_tst i s s' h =
    always-Keeps Arithmetic.op108_tst i s s' (ThumbBuses.op108_tst-inter i s.cpu) h
handler-Keeps Entry.op109_neg i s s' h =
    always-Keeps Arithmetic.op109_neg i s s' (ThumbBuses.op109_neg-inter i s.cpu) h
handler-Keeps Entry.op10a_cmp i s s' h =
    always-Keeps Arithmetic.op10a_cmp i s s' (ThumbBuses.op10a_cmp-inter i s.cpu) h
handler-Keeps Entry.op10b_cmn i s s' h =
    always-Keeps Arithmetic.op10b_cmn i s s' (ThumbBuses.op10b_cmn-inter i s.cpu) h
handler-Keeps Entry.op10c_orr i s s' h =
    always-Keeps Arithmetic.op10c_orr i s s' (ThumbBuses.op10c_orr-inter i s.cpu) h
handler-Keeps Entry.op10d_mul i s s' h =
    always-Keeps Arithmetic.op10d_mul i s s' (ThumbBuses.op10d_mul-inter i s.cpu) h
handler-Keeps Entry.op10e_bic i s s' h =
    always-Keeps Arithmetic.op10e_bic i s s' (ThumbBuses.op10e_bic-inter i s.cpu) h
handler-Keeps Entry.op10f_mvn i s s' h =
    always-Keeps Arithmetic.op10f_mvn i s s' (ThumbBuses.op10f_mvn-inter i s.cpu) h
handler-Keeps Entry.op111_add_hi i s s' h =
    always-Keeps Arithmetic.op111_add_hi i s s' (ThumbBuses.op111_add_hi-inter i s.cpu) h
handler-Keeps Entry.op115_cmp_hi i s s' h =
    always-Keeps Arithmetic.op115_cmp_hi i s s' (ThumbBuses.op115_cmp_hi-inter i s.cpu) h
handler-Keeps Entry.op118_cpy i s s' h =
    always-Keeps Arithmetic.op118_cpy i s s' (ThumbBuses.op118_cpy-inter i s.cpu) h
handler-Keeps Entry.op11c_bx i s s' h =
    on_cpu-Keeps Branches.op11c_bx i s s' (ThumbBuses.op11c_bx-inter i s.cpu) h
handler-Keeps Entry.op12x_ldr_pc i s s' h = ThumbKeeps.op12x_ldr_pc-Keeps i s s' h
handler-Keeps Entry.op14x_str_rr i s s' h = ThumbKeeps.op14x_str_rr-Keeps i s s' h
handler-Keeps Entry.op14x_strh_rr i s s' h = ThumbKeeps.op14x_strh_rr-Keeps i s s' h
handler-Keeps Entry.op15x_strb_rr i s s' h = ThumbKeeps.op15x_strb_rr-Keeps i s s' h
handler-Keeps Entry.op15x_ldrsb_rr i s s' h = ThumbKeeps.op15x_ldrsb_rr-Keeps i s s' h
handler-Keeps Entry.op16x_ldr_rr i s s' h = ThumbKeeps.op16x_ldr_rr-Keeps i s s' h
handler-Keeps Entry.op16x_ldrh_rr i s s' h = ThumbKeeps.op16x_ldrh_rr-Keeps i s s' h
handler-Keeps Entry.op17x_ldrb_rr i s s' h = ThumbKeeps.op17x_ldrb_rr-Keeps i s s' h
handler-Keeps Entry.op17x_ldrsh_rr i s s' h = ThumbKeeps.op17x_ldrsh_rr-Keeps i s s' h
handler-Keeps Entry.op18x_str_ri5 i s s' h = ThumbKeeps.op18x_str_ri5-Keeps i s s' h
handler-Keeps Entry.op1ax_ldr_ri5 i s s' h = ThumbKeeps.op1ax_ldr_ri5-Keeps i s s' h
handler-Keeps Entry.op1cx_strb_ri5 i s s' h = ThumbKeeps.op1cx_strb_ri5-Keeps i s s' h
handler-Keeps Entry.op1ex_ldrb_ri5 i s s' h = ThumbKeeps.op1ex_ldrb_ri5-Keeps i s s' h
handler-Keeps Entry.op20x_strh_ri5 i s s' h = ThumbKeeps.op20x_strh_ri5-Keeps i s s' h
handler-Keeps Entry.op22x_ldrh_ri5 i s s' h = ThumbKeeps.op22x_ldrh_ri5-Keeps i s s' h
handler-Keeps Entry.op24x_str_sp i s s' h = ThumbKeeps.op24x_str_sp-Keeps i s s' h
handler-Keeps Entry.op26x_ldr_sp i s s' h = ThumbKeeps.op26x_ldr_sp-Keeps i s s' h
handler-Keeps Entry.op28x_add_pc i s s' h =
    always-Keeps Transfers.op28x_add_pc i s s' (ThumbBuses.op28x_add_pc-inter i s.cpu) h
handler-Keeps Entry.op2ax_add_sp_i i s s' h =
    always-Keeps Transfers.op2ax_add_sp_i i s s' (ThumbBuses.op2ax_add_sp_i-inter i s.cpu) h
handler-Keeps Entry.op2c0_add_sp i s s' h =
    always-Keeps Transfers.op2c0_add_sp i s s' (ThumbBuses.op2c0_add_sp-inter i s.cpu) h
handler-Keeps Entry.op2c2_sub_sp i s s' h =
    always-Keeps Transfers.op2c2_sub_sp i s s' (ThumbBuses.op2c2_sub_sp-inter i s.cpu) h
handler-Keeps Entry.op2d0_push i s s' h = ThumbStack.op2d0_push-Keeps i s s' h
handler-Keeps Entry.op2d4_push_lr i s s' h = ThumbStack.op2d4_push_lr-Keeps i s s' h
handler-Keeps Entry.op2f0_pop i s s' h = ThumbStack.op2f0_pop-Keeps i s s' h
handler-Keeps Entry.op2f4_pop_pc i s s' h = ThumbStack.op2f4_pop_pc-Keeps i s s' h
handler-Keeps Entry.op30x_stmia i s s' h = ThumbStack.op30x_stmia-Keeps i s s' h
handler-Keeps Entry.op32x_ldmia i s s' h = ThumbStack.op32x_ldmia-Keeps i s s' h
handler-Keeps Entry.op340_beq i s s' h =
    always-Keeps Branches.op340_beq i s s' (ThumbBuses.op340_beq-inter i s.cpu) h
handler-Keeps Entry.op344_bne i s s' h =
    always-Keeps Branches.op344_bne i s s' (ThumbBuses.op344_bne-inter i s.cpu) h
handler-Keeps Entry.op348_bcs i s s' h =
    always-Keeps Branches.op348_bcs i s s' (ThumbBuses.op348_bcs-inter i s.cpu) h
handler-Keeps Entry.op34c_bcc i s s' h =
    always-Keeps Branches.op34c_bcc i s s' (ThumbBuses.op34c_bcc-inter i s.cpu) h
handler-Keeps Entry.op350_bmi i s s' h =
    always-Keeps Branches.op350_bmi i s s' (ThumbBuses.op350_bmi-inter i s.cpu) h
handler-Keeps Entry.op354_bpl i s s' h =
    always-Keeps Branches.op354_bpl i s s' (ThumbBuses.op354_bpl-inter i s.cpu) h
handler-Keeps Entry.op360_bhi i s s' h =
    always-Keeps Branches.op360_bhi i s s' (ThumbBuses.op360_bhi-inter i s.cpu) h
handler-Keeps Entry.op364_bls i s s' h =
    always-Keeps Branches.op364_bls i s s' (ThumbBuses.op364_bls-inter i s.cpu) h
handler-Keeps Entry.op368_bge i s s' h =
    always-Keeps Branches.op368_bge i s s' (ThumbBuses.op368_bge-inter i s.cpu) h
handler-Keeps Entry.op36c_blt i s s' h =
    always-Keeps Branches.op36c_blt i s s' (ThumbBuses.op36c_blt-inter i s.cpu) h
handler-Keeps Entry.op370_bgt i s s' h =
    always-Keeps Branches.op370_bgt i s s' (ThumbBuses.op370_bgt-inter i s.cpu) h
handler-Keeps Entry.op374_ble i s s' h =
    always-Keeps Branches.op374_ble i s s' (ThumbBuses.op374_ble-inter i s.cpu) h
handler-Keeps Entry.op37c_swi i s s' h =
    always-Keeps Branches.op37c_swi i s s' (ThumbBuses.op37c_swi-inter i s.cpu) h
handler-Keeps Entry.op38x_b i s s' h =
    always-Keeps Branches.op38x_b i s s' (ThumbBuses.op38x_b-inter i s.cpu) h
handler-Keeps Entry.op3cx_bl_hi i s s' h =
    always-Keeps Branches.op3cx_bl_hi i s s' (ThumbBuses.op3cx_bl_hi-inter i s.cpu) h
handler-Keeps Entry.op3ex_bl_lo i s s' h =
    always-Keeps Branches.op3ex_bl_lo i s s' (ThumbBuses.op3ex_bl_lo-inter i s.cpu) h

pub execute-Keeps :
    (i : ℕ) (s s' : Machine (Unit {0}))
    → ThumbTable.execute no_debugger i s ≡ ok s'
    → Keeps s.cpu.inter s'.cpu.inter
unfolding ThumbTable.execute
execute-Keeps i s s' h = handler-Keeps (ThumbTable.opcode_lut (opcode i)) i s s' h
