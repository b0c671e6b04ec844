-- ===== src/Thumb/Opcodes.antt =====
-- src/cpu/thumbv1_is.rs: the handlers that stand in the table of opcodes, as data.
use pksx.Base.{ℕ, Panic, ok, panic}
use pksx.Cpu.{Cpu}
use pksx.Cpu.Machine.{Debugger, Handler, on_cpu}
use pksx.Thumb.Arithmetic
use pksx.Thumb.Shifts
use pksx.Thumb.Transfers
use pksx.Thumb.Stack
use pksx.Thumb.Branches

pub data Entry : Type 0 where
  unimplemented : Entry
  op00x_lsl_ri5 op02x_lsr_ri5 op04x_asr_ri5 op06x_add_rr op06x_sub_rr op07x_add_i3 : Entry
  op07x_sub_i3 op08x_mov_i8 op0ax_cmp_i8 op0cx_add_i8 op0ex_sub_i8 op100_and : Entry
  op101_eor op102_lsl_r op103_lsr_r op104_asr_r op105_adc_rr op107_ror : Entry
  op108_tst op109_neg op10a_cmp op10b_cmn op10c_orr op10d_mul : Entry
  op10e_bic op10f_mvn op111_add_hi op115_cmp_hi op118_cpy op11c_bx : Entry
  op12x_ldr_pc op14x_str_rr op14x_strh_rr op15x_strb_rr op15x_ldrsb_rr op16x_ldr_rr : Entry
  op16x_ldrh_rr op17x_ldrb_rr op17x_ldrsh_rr op18x_str_ri5 op1ax_ldr_ri5 op1cx_strb_ri5 : Entry
  op1ex_ldrb_ri5 op20x_strh_ri5 op22x_ldrh_ri5 op24x_str_sp op26x_ldr_sp op28x_add_pc : Entry
  op2ax_add_sp_i op2c0_add_sp op2c2_sub_sp op2d0_push op2d4_push_lr op2f0_pop : Entry
  op2f4_pop_pc op30x_stmia op32x_ldmia op340_beq op344_bne op348_bcs : Entry
  op34c_bcc op350_bmi op354_bpl op360_bhi op364_bls op368_bge : Entry
  op36c_blt op370_bgt op374_ble op37c_swi op38x_b op3cx_bl_hi : Entry
  op3ex_bl_lo : Entry

-- A handler that neither fails nor calls the debugger.
abbrev always : {D : Type 0} → (ℕ → Cpu → Cpu) → Handler D
always f = on_cpu (λ i c. ok (f i c))

-- The handler that an entry names.
unfoldable pub handler : {D : Type 0} → Debugger D → Entry → Handler D
handler dbg unimplemented = λ i s. panic Panic.unimplemented
handler dbg op00x_lsl_ri5 = always Shifts.op00x_lsl_ri5
handler dbg op02x_lsr_ri5 = always Shifts.op02x_lsr_ri5
handler dbg op04x_asr_ri5 = always Shifts.op04x_asr_ri5
handler dbg op06x_add_rr = always Arithmetic.op06x_add_rr
handler dbg op06x_sub_rr = always Arithmetic.op06x_sub_rr
handler dbg op07x_add_i3 = always Arithmetic.op07x_add_i3
handler dbg op07x_sub_i3 = always Arithmetic.op07x_sub_i3
handler dbg op08x_mov_i8 = always Arithmetic.op08x_mov_i8
handler dbg op0ax_cmp_i8 = always Arithmetic.op0ax_cmp_i8
handler dbg op0cx_add_i8 = always Arithmetic.op0cx_add_i8
handler dbg op0ex_sub_i8 = always Arithmetic.op0ex_sub_i8
handler dbg op100_and = always Arithmetic.op100_and
handler dbg op101_eor = always Arithmetic.op101_eor
handler dbg op102_lsl_r = always Shifts.op102_lsl_r
handler dbg op103_lsr_r = always Shifts.op103_lsr_r
handler dbg op104_asr_r = always Shifts.op104_asr_r
handler dbg op105_adc_rr = always Arithmetic.op105_adc_rr
handler dbg op107_ror = always Shifts.op107_ror
handler dbg op108_tst = always Arithmetic.op108_tst
handler dbg op109_neg = always Arithmetic.op109_neg
handler dbg op10a_cmp = always Arithmetic.op10a_cmp
handler dbg op10b_cmn = always Arithmetic.op10b_cmn
handler dbg op10c_orr = always Arithmetic.op10c_orr
handler dbg op10d_mul = always Arithmetic.op10d_mul
handler dbg op10e_bic = always Arithmetic.op10e_bic
handler dbg op10f_mvn = always Arithmetic.op10f_mvn
handler dbg op111_add_hi = always Arithmetic.op111_add_hi
handler dbg op115_cmp_hi = always Arithmetic.op115_cmp_hi
handler dbg op118_cpy = always Arithmetic.op118_cpy
handler dbg op11c_bx = on_cpu Branches.op11c_bx
handler dbg op12x_ldr_pc = Transfers.op12x_ldr_pc dbg
handler dbg op14x_str_rr = Transfers.op14x_str_rr dbg
handler dbg op14x_strh_rr = Transfers.op14x_strh_rr dbg
handler dbg op15x_strb_rr = Transfers.op15x_strb_rr dbg
handler dbg op15x_ldrsb_rr = Transfers.op15x_ldrsb_rr dbg
handler dbg op16x_ldr_rr = Transfers.op16x_ldr_rr dbg
handler dbg op16x_ldrh_rr = Transfers.op16x_ldrh_rr dbg
handler dbg op17x_ldrb_rr = Transfers.op17x_ldrb_rr dbg
handler dbg op17x_ldrsh_rr = Transfers.op17x_ldrsh_rr dbg
handler dbg op18x_str_ri5 = Transfers.op18x_str_ri5 dbg
handler dbg op1ax_ldr_ri5 = Transfers.op1ax_ldr_ri5 dbg
handler dbg op1cx_strb_ri5 = Transfers.op1cx_strb_ri5 dbg
handler dbg op1ex_ldrb_ri5 = Transfers.op1ex_ldrb_ri5 dbg
handler dbg op20x_strh_ri5 = Transfers.op20x_strh_ri5 dbg
handler dbg op22x_ldrh_ri5 = Transfers.op22x_ldrh_ri5 dbg
handler dbg op24x_str_sp = Transfers.op24x_str_sp dbg
handler dbg op26x_ldr_sp = Transfers.op26x_ldr_sp dbg
handler dbg op28x_add_pc = always Transfers.op28x_add_pc
handler dbg op2ax_add_sp_i = always Transfers.op2ax_add_sp_i
handler dbg op2c0_add_sp = always Transfers.op2c0_add_sp
handler dbg op2c2_sub_sp = always Transfers.op2c2_sub_sp
handler dbg op2d0_push = Stack.op2d0_push dbg
handler dbg op2d4_push_lr = Stack.op2d4_push_lr dbg
handler dbg op2f0_pop = Stack.op2f0_pop dbg
handler dbg op2f4_pop_pc = Stack.op2f4_pop_pc dbg
handler dbg op30x_stmia = Stack.op30x_stmia dbg
handler dbg op32x_ldmia = Stack.op32x_ldmia dbg
handler dbg op340_beq = always Branches.op340_beq
handler dbg op344_bne = always Branches.op344_bne
handler dbg op348_bcs = always Branches.op348_bcs
handler dbg op34c_bcc = always Branches.op34c_bcc
handler dbg op350_bmi = always Branches.op350_bmi
handler dbg op354_bpl = always Branches.op354_bpl
handler dbg op360_bhi = always Branches.op360_bhi
handler dbg op364_bls = always Branches.op364_bls
handler dbg op368_bge = always Branches.op368_bge
handler dbg op36c_blt = always Branches.op36c_blt
handler dbg op370_bgt = always Branches.op370_bgt
handler dbg op374_ble = always Branches.op374_ble
handler dbg op37c_swi = always Branches.op37c_swi
handler dbg op38x_b = always Branches.op38x_b
handler dbg op3cx_bl_hi = always Branches.op3cx_bl_hi
handler dbg op3ex_bl_lo = always Branches.op3ex_bl_lo
