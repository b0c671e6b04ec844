-- ===== src/Run/ThumbKeeps.antt =====
-- The Thumb instructions that access memory keep the frame's count and the range of the clock divider.
use pksx.Base.{
  ℕ, bit_and, ◌≡◌, not, Panic, ok, guard, >>=-eq-ok, shl32, not32, wrapping_add, nonzero,
  sign_extend,
}
use pksx.Access.{word, half_word, byte}
use pksx.Cpu.{reg, set_reg}
use pksx.Cpu.Machine.{Machine, no_debugger}
use pksx.Thumb.{reg_0, reg_8, imm8, imm5}
use pksx.Run.Buses.{set_reg-inter}
use pksx.Run.Stores.{Keeps, Keeps-eq, load_then-inter, store-Keeps}
use pksx.Thumb.Transfers.{
  op12x_ldr_pc, op14x_str_rr, op14x_strh_rr, op15x_strb_rr, op15x_ldrsb_rr, op16x_ldr_rr,
  op16x_ldrh_rr, op17x_ldrb_rr, op17x_ldrsh_rr, op18x_str_ri5, op1ax_ldr_ri5, op1cx_strb_ri5,
  op1ex_ldrb_ri5, op20x_strh_ri5, op22x_ldrh_ri5, op24x_str_sp, op26x_ldr_sp, indexed, displaced,
}

pub op12x_ldr_pc-Keeps :
    (i : ℕ) (s s' : Machine (Unit {0}))
    → op12x_ldr_pc no_debugger i s ≡ ok s'
    → Keeps s.cpu.inter s'.cpu.inter
unfolding op12x_ldr_pc
op12x_ldr_pc-Keeps i s s' h = Keeps-eq s.cpu.inter s'.cpu.inter (
    load_then-inter (λ v. set_reg (reg_8 i) v) (λ v. set_reg-inter (reg_8 i) v) word
      (wrapping_add (bit_and (reg 15 s.cpu) (not32 3)) (shl32 (imm8 i) 2)) s s' h)

pub op14x_str_rr-Keeps :
    (i : ℕ) (s s' : Machine (Unit {0}))
    → op14x_str_rr no_debugger i s ≡ ok s'
    → Keeps s.cpu.inter s'.cpu.inter
unfolding op14x_str_rr
op14x_str_rr-Keeps i s s' h = store-Keeps word (indexed i s.cpu) s (reg (reg_0 i) s.cpu) s' h

pub op14x_strh_rr-Keeps :
    (i : ℕ) (s s' : Machine (Unit {0}))
    → op14x_strh_rr no_debugger i s ≡ ok s'
    → Keeps s.cpu.inter s'.cpu.inter
unfolding op14x_strh_rr
op14x_strh_rr-Keeps i s s' h =
    let addr = indexed i s.cpu in
    let (_, _, h') = >>=-eq-ok (guard (not (nonzero (bit_and addr 1))) Panic.unpredictable) _ h in
    store-Keeps half_word addr s (reg (reg_0 i) s.cpu) s' h'

pub op15x_strb_rr-Keeps :
    (i : ℕ) (s s' : Machine (Unit {0}))
    → op15x_strb_rr no_debugger i s ≡ ok s'
    → Keeps s.cpu.inter s'.cpu.inter
unfolding op15x_strb_rr
op15x_strb_rr-Keeps i s s' h = store-Keeps byte (indexed i s.cpu) s (reg (reg_0 i) s.cpu) s' h

pub op15x_ldrsb_rr-Keeps :
    (i : ℕ) (s s' : Machine (Unit {0}))
    → op15x_ldrsb_rr no_debugger i s ≡ ok s'
    → Keeps s.cpu.inter s'.cpu.inter
unfolding op15x_ldrsb_rr
op15x_ldrsb_rr-Keeps i s s' h = Keeps-eq s.cpu.inter s'.cpu.inter (
    load_then-inter (λ v. set_reg (reg_0 i) (sign_extend 8 v))
      (λ v. set_reg-inter (reg_0 i) (sign_extend 8 v)) byte (indexed i s.cpu) s s' h)

pub op16x_ldr_rr-Keeps :
    (i : ℕ) (s s' : Machine (Unit {0}))
    → op16x_ldr_rr no_debugger i s ≡ ok s'
    → Keeps s.cpu.inter s'.cpu.inter
unfolding op16x_ldr_rr
op16x_ldr_rr-Keeps i s s' h = Keeps-eq s.cpu.inter s'.cpu.inter (
    load_then-inter (λ v. set_reg (reg_0 i) v) (λ v. set_reg-inter (reg_0 i) v) word
      (indexed i s.cpu) s s' h)

pub op16x_ldrh_rr-Keeps :
    (i : ℕ) (s s' : Machine (Unit {0}))
    → op16x_ldrh_rr no_debugger i s ≡ ok s'
    → Keeps s.cpu.inter s'.cpu.inter
unfolding op16x_ldrh_rr
op16x_ldrh_rr-Keeps i s s' h = Keeps-eq s.cpu.inter s'.cpu.inter (
    load_then-inter (λ v. set_reg (reg_0 i) v) (λ v. set_reg-inter (reg_0 i) v) half_word
      (indexed i s.cpu) s s' h)

pub op17x_ldrb_rr-Keeps :
    (i : ℕ) (s s' : Machine (Unit {0}))
    → op17x_ldrb_rr no_debugger i s ≡ ok s'
    → Keeps s.cpu.inter s'.cpu.inter
unfolding op17x_ldrb_rr
op17x_ldrb_rr-Keeps i s s' h = Keeps-eq s.cpu.inter s'.cpu.inter (
    load_then-inter (λ v. set_reg (reg_0 i) v) (λ v. set_reg-inter (reg_0 i) v) byte
      (indexed i s.cpu) s s' h)

pub op17x_ldrsh_rr-Keeps :
    (i : ℕ) (s s' : Machine (Unit {0}))
    → op17x_ldrsh_rr no_debugger i s ≡ ok s'
    → Keeps s.cpu.inter s'.cpu.inter
unfolding op17x_ldrsh_rr
op17x_ldrsh_rr-Keeps i s s' h = Keeps-eq s.cpu.inter s'.cpu.inter (
    load_then-inter (λ v. set_reg (reg_0 i) (sign_extend 16 v))
      (λ v. set_reg-inter (reg_0 i) (sign_extend 16 v)) half_word (indexed i s.cpu) s s' h)

pub op18x_str_ri5-Keeps :
    (i : ℕ) (s s' : Machine (Unit {0}))
    → op18x_str_ri5 no_debugger i s ≡ ok s'
    → Keeps s.cpu.inter s'.cpu.inter
unfolding op18x_str_ri5
op18x_str_ri5-Keeps i s s' h =
    store-Keeps word (displaced (shl32 (imm5 i) 2) i s.cpu) s (reg (reg_0 i) s.cpu) s' h

pub op1ax_ldr_ri5-Keeps :
    (i : ℕ) (s s' : Machine (Unit {0}))
    → op1ax_ldr_ri5 no_debugger i s ≡ ok s'
    → Keeps s.cpu.inter s'.cpu.inter
unfolding op1ax_ldr_ri5
op1ax_ldr_ri5-Keeps i s s' h = Keeps-eq s.cpu.inter s'.cpu.inter (
    load_then-inter (λ v. set_reg (reg_0 i) v) (λ v. set_reg-inter (reg_0 i) v) word
      (displaced (shl32 (imm5 i) 2) i s.cpu) s s' h)

pub op1cx_strb_ri5-Keeps :
    (i : ℕ) (s s' : Machine (Unit {0}))
    → op1cx_strb_ri5 no_debugger i s ≡ ok s'
    → Keeps s.cpu.inter s'.cpu.inter
unfolding op1cx_strb_ri5
op1cx_strb_ri5-Keeps i s s' h =
    store-Keeps byte (displaced (imm5 i) i s.cpu) s (reg (reg_0 i) s.cpu) s' h

pub op1ex_ldrb_ri5-Keeps :
    (i : ℕ) (s s' : Machine (Unit {0}))
    → op1ex_ldrb_ri5 no_debugger i s ≡ ok s'
    → Keeps s.cpu.inter s'.cpu.inter
unfolding op1ex_ldrb_ri5
op1ex_ldrb_ri5-Keeps i s s' h = Keeps-eq s.cpu.inter s'.cpu.inter (
    load_then-inter (λ v. set_reg (reg_0 i) v) (λ v. set_reg-inter (reg_0 i) v) byte
      (displaced (imm5 i) i s.cpu) s s' h)

pub op20x_strh_ri5-Keeps :
    (i : ℕ) (s s' : Machine (Unit {0}))
    → op20x_strh_ri5 no_debugger i s ≡ ok s'
    → Keeps s.cpu.inter s'.cpu.inter
unfolding op20x_strh_ri5
op20x_strh_ri5-Keeps i s s' h =
    let addr = displaced (shl32 (imm5 i) 1) i s.cpu in
    let (_, _, h') = >>=-eq-ok (guard (not (nonzero (bit_and addr 1))) Panic.unpredictable) _ h in
    store-Keeps half_word addr s (reg (reg_0 i) s.cpu) s' h'

pub op22x_ldrh_ri5-Keeps :
    (i : ℕ) (s s' : Machine (Unit {0}))
    → op22x_ldrh_ri5 no_debugger i s ≡ ok s'
    → Keeps s.cpu.inter s'.cpu.inter
unfolding op22x_ldrh_ri5
op22x_ldrh_ri5-Keeps i s s' h = Keeps-eq s.cpu.inter s'.cpu.inter (
    load_then-inter (λ v. set_reg (reg_0 i) v) (λ v. set_reg-inter (reg_0 i) v) half_word
      (displaced (shl32 (imm5 i) 1) i s.cpu) s s' h)

pub op24x_str_sp-Keeps :
    (i : ℕ) (s s' : Machine (Unit {0}))
    → op24x_str_sp no_debugger i s ≡ ok s'
    → Keeps s.cpu.inter s'.cpu.inter
unfolding op24x_str_sp
op24x_str_sp-Keeps i s s' h =
    store-Keeps word (wrapping_add (reg 13 s.cpu) (shl32 (imm8 i) 2)) s (reg (reg_8 i) s.cpu) s' h

pub op26x_ldr_sp-Keeps :
    (i : ℕ) (s s' : Machine (Unit {0}))
    → op26x_ldr_sp no_debugger i s ≡ ok s'
    → Keeps s.cpu.inter s'.cpu.inter
unfolding op26x_ldr_sp
op26x_ldr_sp-Keeps i s s' h = Keeps-eq s.cpu.inter s'.cpu.inter (
    load_then-inter (λ v. set_reg (reg_8 i) v) (λ v. set_reg-inter (reg_8 i) v) word
      (wrapping_add (reg 13 s.cpu) (shl32 (imm8 i) 2)) s s' h)
