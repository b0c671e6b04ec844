-- ===== src/Thumb/Arithmetic.antt =====
-- src/cpu/thumbv1_is.rs: the instructions that add, subtract, compare, multiply and combine bits.
use pksx.Base.{
  ℕ, bit_and, bit_or, bit_xor, ltb, if◌then◌else◌, flag, not32, wrapping_add, wrapping_mul,
}
use pksx.Cpu.{Cpu, reg, set_reg}
use pksx.Arm.{is_pc}
use pksx.Arm.Sums.{add_flags}
use pksx.Thumb.{
  reg_0, reg_3, reg_6, reg_8, reg_0_full, reg_3_full, imm8, imm3, adds, subs, nz_flags,
}

unfoldable pub op06x_add_rr : ℕ → Cpu → Cpu
op06x_add_rr i c = let r = adds (reg (reg_3 i) c) (reg (reg_6 i) c) c in set_reg (reg_0 i) r.0 r.1

unfoldable pub op06x_sub_rr : ℕ → Cpu → Cpu
op06x_sub_rr i c = let r = subs (reg (reg_3 i) c) (reg (reg_6 i) c) c in set_reg (reg_0 i) r.0 r.1

unfoldable pub op07x_add_i3 : ℕ → Cpu → Cpu
op07x_add_i3 i c = let r = adds (reg (reg_3 i) c) (imm3 i) c in set_reg (reg_0 i) r.0 r.1

unfoldable pub op07x_sub_i3 : ℕ → Cpu → Cpu
op07x_sub_i3 i c = let r = subs (reg (reg_3 i) c) (imm3 i) c in set_reg (reg_0 i) r.0 r.1

unfoldable pub op08x_mov_i8 : ℕ → Cpu → Cpu
op08x_mov_i8 i c = let val = imm8 i in nz_flags val (set_reg (reg_8 i) val c)

unfoldable pub op0ax_cmp_i8 : ℕ → Cpu → Cpu
op0ax_cmp_i8 i c = (subs (reg (reg_8 i) c) (imm8 i) c).1

unfoldable pub op0cx_add_i8 : ℕ → Cpu → Cpu
op0cx_add_i8 i c = let r = adds (reg (reg_8 i) c) (imm8 i) c in set_reg (reg_8 i) r.0 r.1

unfoldable pub op0ex_sub_i8 : ℕ → Cpu → Cpu
op0ex_sub_i8 i c = let r = subs (reg (reg_8 i) c) (imm8 i) c in set_reg (reg_8 i) r.0 r.1

unfoldable pub op100_and : ℕ → Cpu → Cpu
op100_and i c =
    let a = reg (reg_0 i) c in
    let b = reg (reg_3 i) c in let val = bit_and a b in nz_flags val (set_reg (reg_0 i) val c)

unfoldable pub op101_eor : ℕ → Cpu → Cpu
op101_eor i c =
    let a = reg (reg_0 i) c in
    let b = reg (reg_3 i) c in let val = bit_xor a b in nz_flags val (set_reg (reg_0 i) val c)

-- The carry is that of `val < a`.
unfoldable pub op105_adc_rr : ℕ → Cpu → Cpu
op105_adc_rr i c =
    let a = reg (reg_0 i) c in
    let b = reg (reg_3 i) c in
    let val = wrapping_add (wrapping_add a b) (flag c.c) in
    add_flags a b val (ltb val a) (set_reg (reg_0 i) val c)

unfoldable pub op108_tst : ℕ → Cpu → Cpu
op108_tst i c = nz_flags (bit_and (reg (reg_0 i) c) (reg (reg_3 i) c)) c

unfoldable pub op109_neg : ℕ → Cpu → Cpu
op109_neg i c = let r = subs 0 (reg (reg_3 i) c) c in set_reg (reg_0 i) r.0 r.1

unfoldable pub op10a_cmp : ℕ → Cpu → Cpu
op10a_cmp i c = (subs (reg (reg_0 i) c) (reg (reg_3 i) c) c).1

unfoldable pub op10b_cmn : ℕ → Cpu → Cpu
op10b_cmn i c = (adds (reg (reg_0 i) c) (reg (reg_3 i) c) c).1

unfoldable pub op10c_orr : ℕ → Cpu → Cpu
op10c_orr i c =
    let a = reg (reg_0 i) c in
    let b = reg (reg_3 i) c in let val = bit_or a b in nz_flags val (set_reg (reg_0 i) val c)

unfoldable pub op10d_mul : ℕ → Cpu → Cpu
op10d_mul i c =
    let a = reg (reg_0 i) c in
    let b = reg (reg_3 i) c in let val = wrapping_mul a b in nz_flags val (set_reg (reg_0 i) val c)

unfoldable pub op10e_bic : ℕ → Cpu → Cpu
op10e_bic i c =
    let a = reg (reg_0 i) c in
    let b = reg (reg_3 i) c in
    let val = bit_and a (not32 b) in nz_flags val (set_reg (reg_0 i) val c)

unfoldable pub op10f_mvn : ℕ → Cpu → Cpu
op10f_mvn i c = let val = not32 (reg (reg_3 i) c) in nz_flags val (set_reg (reg_0 i) val c)

unfoldable pub op111_add_hi : ℕ → Cpu → Cpu
op111_add_hi i c =
    let a = reg (reg_0_full i) c in
    let b = reg (reg_3_full i) c in set_reg (reg_0_full i) (wrapping_add a b) c

unfoldable pub op115_cmp_hi : ℕ → Cpu → Cpu
op115_cmp_hi i c = (subs (reg (reg_0_full i) c) (reg (reg_3_full i) c) c).1

-- Also known as MOV(3).
unfoldable pub op118_cpy : ℕ → Cpu → Cpu
op118_cpy i c =
    let val = reg (reg_3_full i) c in
    let rd = reg_0_full i in set_reg rd (if is_pc rd then bit_and val (not32 1) else val) c
