-- ===== src/Thumb/Transfers.antt =====
-- src/cpu/thumbv1_is.rs: the loads and stores of one register, and the addresses from R15 and R13.
use pksx.Base.{
  ℕ, bit_and, not, Panic, ok, ◌>>=◌, ◌>>◌, guard, shl32, not32, wrapping_add, wrapping_sub, nonzero,
  sign_extend,
}
use pksx.Access.{word, half_word, byte}
use pksx.Cpu.{Cpu, reg, set_reg}
use pksx.Cpu.Machine.{Debugger, Handler, with_cpu, load, store}
use pksx.Thumb.{reg_0, reg_3, reg_6, reg_8, imm8, imm7, imm5}

-- The address of two registers, and that of a register and an offset.
abbrev pub indexed : ℕ → Cpu → ℕ
indexed i c = wrapping_add (reg (reg_3 i) c) (reg (reg_6 i) c)

abbrev pub displaced : ℕ → ℕ → Cpu → ℕ
displaced offset i c = wrapping_add (reg (reg_3 i) c) offset

module _ {D : Type 0} (dbg : Debugger D) where
  unfoldable pub op12x_ldr_pc : Handler D
  op12x_ldr_pc i s = do
    (val, s') ← load dbg word (wrapping_add (bit_and (reg 15 s.cpu) (not32 3)) (shl32 (imm8 i) 2)) s
    ok (with_cpu (set_reg (reg_8 i) val) s')

  unfoldable pub op14x_str_rr : Handler D
  op14x_str_rr i s = store dbg word (indexed i s.cpu) (reg (reg_0 i) s.cpu) s

  unfoldable pub op14x_strh_rr : Handler D
  op14x_strh_rr i s = do
    let addr = indexed i s.cpu
    guard (not (nonzero (bit_and addr 1))) Panic.unpredictable
    store dbg half_word addr (reg (reg_0 i) s.cpu) s

  unfoldable pub op15x_strb_rr : Handler D
  op15x_strb_rr i s = store dbg byte (indexed i s.cpu) (reg (reg_0 i) s.cpu) s

  unfoldable pub op15x_ldrsb_rr : Handler D
  op15x_ldrsb_rr i s = do
    (val, s') ← load dbg byte (indexed i s.cpu) s
    ok (with_cpu (set_reg (reg_0 i) (sign_extend 8 val)) s')

  unfoldable pub op16x_ldr_rr : Handler D
  op16x_ldr_rr i s = do
    (val, s') ← load dbg word (indexed i s.cpu) s
    ok (with_cpu (set_reg (reg_0 i) val) s')

  unfoldable pub op16x_ldrh_rr : Handler D
  op16x_ldrh_rr i s = do
    (val, s') ← load dbg half_word (indexed i s.cpu) s
    ok (with_cpu (set_reg (reg_0 i) val) s')

  unfoldable pub op17x_ldrb_rr : Handler D
  op17x_ldrb_rr i s = do
    (val, s') ← load dbg byte (indexed i s.cpu) s
    ok (with_cpu (set_reg (reg_0 i) val) s')

  unfoldable pub op17x_ldrsh_rr : Handler D
  op17x_ldrsh_rr i s = do
    (val, s') ← load dbg half_word (indexed i s.cpu) s
    ok (with_cpu (set_reg (reg_0 i) (sign_extend 16 val)) s')

  unfoldable pub op18x_str_ri5 : Handler D
  op18x_str_ri5 i s = store dbg word (displaced (shl32 (imm5 i) 2) i s.cpu) (reg (reg_0 i) s.cpu) s

  unfoldable pub op1ax_ldr_ri5 : Handler D
  op1ax_ldr_ri5 i s = do
    (val, s') ← load dbg word (displaced (shl32 (imm5 i) 2) i s.cpu) s
    ok (with_cpu (set_reg (reg_0 i) val) s')

  unfoldable pub op1cx_strb_ri5 : Handler D
  op1cx_strb_ri5 i s = store dbg byte (displaced (imm5 i) i s.cpu) (reg (reg_0 i) s.cpu) s

  unfoldable pub op1ex_ldrb_ri5 : Handler D
  op1ex_ldrb_ri5 i s = do
    (val, s') ← load dbg byte (displaced (imm5 i) i s.cpu) s
    ok (with_cpu (set_reg (reg_0 i) val) s')

  unfoldable pub op20x_strh_ri5 : Handler D
  op20x_strh_ri5 i s = do
    let addr = displaced (shl32 (imm5 i) 1) i s.cpu
    guard (not (nonzero (bit_and addr 1))) Panic.unpredictable
    store dbg half_word addr (reg (reg_0 i) s.cpu) s

  unfoldable pub op22x_ldrh_ri5 : Handler D
  op22x_ldrh_ri5 i s = do
    (val, s') ← load dbg half_word (displaced (shl32 (imm5 i) 1) i s.cpu) s
    ok (with_cpu (set_reg (reg_0 i) val) s')

  unfoldable pub op24x_str_sp : Handler D
  op24x_str_sp i s =
      store dbg word (wrapping_add (reg 13 s.cpu) (shl32 (imm8 i) 2)) (reg (reg_8 i) s.cpu) s

  unfoldable pub op26x_ldr_sp : Handler D
  op26x_ldr_sp i s = do
    (val, s') ← load dbg word (wrapping_add (reg 13 s.cpu) (shl32 (imm8 i) 2)) s
    ok (with_cpu (set_reg (reg_8 i) val) s')

unfoldable pub op28x_add_pc : ℕ → Cpu → Cpu
op28x_add_pc i c =
    let val = wrapping_add (reg 15 c) (shl32 (imm8 i) 2) in
    set_reg (reg_8 i) (bit_and val (not32 3)) c

unfoldable pub op2ax_add_sp_i : ℕ → Cpu → Cpu
op2ax_add_sp_i i c = set_reg (reg_8 i) (wrapping_add (reg 13 c) (shl32 (imm8 i) 2)) c

unfoldable pub op2c0_add_sp : ℕ → Cpu → Cpu
op2c0_add_sp i c = set_reg 13 (wrapping_add (reg 13 c) (shl32 (imm7 i) 2)) c

unfoldable pub op2c2_sub_sp : ℕ → Cpu → Cpu
op2c2_sub_sp i c = set_reg 13 (wrapping_sub (reg 13 c) (shl32 (imm7 i) 2)) c
