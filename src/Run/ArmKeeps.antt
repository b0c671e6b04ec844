-- ===== src/Run/ArmKeeps.antt =====
-- The ARM loads and stores keep the frame's count and the range of the clock divider.
use pksx.Base.{
  ℕ, ◌*◌, bit_and, ◌≡◌, ◌∙◌, Bool, true, false, not, arith, Panic, ok, guard, assert, >>=-eq-ok,
  not32, sign_extend, rotate_right,
}
use pksx.Access.{word, half_word, byte}
use pksx.Cpu.{Cpu, reg, set_reg, set_pc, set_reg_pc_mask}
use pksx.Cpu.Machine.{Machine, no_debugger}
use pksx.Arm.{rd, is_pc}
use pksx.Arm.Transfers.{
  mode2_imm, mode2_imm_pre, mode2_imm_post, mode2_lsl_reg, mode2_lsl_reg_pre, ldr, str, ldrb, strb,
}
use pksx.Arm.Transfers.Extra.{
  mode3_imm, mode3_imm_pre, mode3_imm_post, mode3_reg, ldrh, ldrsh, strh, ldrsb,
}
use pksx.Arm.Opcodes.{
  Mode2, imm, imm_pre, imm_post, lsl_reg, lsl_reg_pre, mode2, Mode3, half_imm, half_imm_pre,
  half_imm_post, half_reg, mode3,
}
use pksx.Run.Buses.{set_reg-inter, set_reg_pc_mask-inter}
use pksx.Run.Stores.{Keeps, Keeps-eq, Keeps-trans, load_then-inter, store-Keeps}

-- An address may write the base register back.
mode2-inter :
    (m : Mode2) (u : Bool) (i : ℕ) (c c' : Cpu) (addr : ℕ)
    → (mode2 m).address u i c ≡ ok (addr, c')
    → c'.inter ≡ c.inter
unfolding mode2_imm mode2_imm_pre mode2_imm_post mode2_lsl_reg mode2_lsl_reg_pre set_reg set_pc
mode2-inter imm u i c c' addr h = ground arith
mode2-inter imm_pre u i c c' addr h = ground arith
mode2-inter imm_post u i c c' addr h = ground arith
mode2-inter lsl_reg u i c c' addr h = ground arith
mode2-inter lsl_reg_pre u i c c' addr h = ground arith

mode3-inter :
    (m : Mode3) (u : Bool) (i : ℕ) (c c' : Cpu) (addr : ℕ)
    → (mode3 m).address u i c ≡ ok (addr, c')
    → c'.inter ≡ c.inter
unfolding mode3_imm mode3_imm_pre mode3_imm_post mode3_reg set_reg set_pc
mode3-inter half_imm u i c c' addr h = ground arith
mode3-inter half_imm_pre u i c c' addr h = ground arith
mode3-inter half_imm_post u i c c' addr h = ground arith
mode3-inter half_reg u i c c' addr h = ground arith

pub ldr-Keeps :
    (m : Mode2) (u : Bool) (i : ℕ) (s s' : Machine (Unit {0}))
    → ldr no_debugger (mode2 m) u i s ≡ ok s'
    → Keeps s.cpu.inter s'.cpu.inter
unfolding ldr
ldr-Keeps m u i s s' h =
    let ((addr, c), located, h₁) = >>=-eq-ok ((mode2 m).address u i s.cpu) _ h in
    let (_, _, h₂) = >>=-eq-ok (assert ((mode2 m).is_valid u i true false)) _ h₁ in
    Keeps-eq s.cpu.inter s'.cpu.inter (
      load_then-inter (λ v. set_reg_pc_mask (rd i) (rotate_right v (bit_and addr 3 * 8)))
        (λ v. set_reg_pc_mask-inter (rd i) (rotate_right v (bit_and addr 3 * 8))) word
        (bit_and addr (not32 3)) (record s { cpu = c }) s' h₂
      ∙ mode2-inter m u i s.cpu c addr located)

pub str-Keeps :
    (m : Mode2) (u : Bool) (i : ℕ) (s s' : Machine (Unit {0}))
    → str no_debugger (mode2 m) u i s ≡ ok s'
    → Keeps s.cpu.inter s'.cpu.inter
unfolding str
str-Keeps m u i s s' h =
    let ((addr, c), located, h₁) = >>=-eq-ok ((mode2 m).address u i s.cpu) _ h in
    let (_, _, h₂) = >>=-eq-ok (assert ((mode2 m).is_valid u i false false)) _ h₁ in
    let (_, _, h₃) = >>=-eq-ok (guard (not (is_pc (rd i))) Panic.unpredictable) _ h₂ in
    Keeps-trans s.cpu.inter c.inter s'.cpu.inter
      (Keeps-eq s.cpu.inter c.inter (mode2-inter m u i s.cpu c addr located))
      (store-Keeps word addr (record s { cpu = c }) (reg (rd i) c) s' h₃)

pub ldrb-Keeps :
    (m : Mode2) (u : Bool) (i : ℕ) (s s' : Machine (Unit {0}))
    → ldrb no_debugger (mode2 m) u i s ≡ ok s'
    → Keeps s.cpu.inter s'.cpu.inter
unfolding ldrb
ldrb-Keeps m u i s s' h =
    let ((addr, c), located, h₁) = >>=-eq-ok ((mode2 m).address u i s.cpu) _ h in
    let (_, _, h₂) = >>=-eq-ok (assert ((mode2 m).is_valid u i true true)) _ h₁ in
    Keeps-eq s.cpu.inter s'.cpu.inter (
      load_then-inter (λ v. set_reg_pc_mask (rd i) (v)) (λ v. set_reg_pc_mask-inter (rd i) (v)) byte
        (addr) (record s { cpu = c }) s' h₂
      ∙ mode2-inter m u i s.cpu c addr located)

pub strb-Keeps :
    (m : Mode2) (u : Bool) (i : ℕ) (s s' : Machine (Unit {0}))
    → strb no_debugger (mode2 m) u i s ≡ ok s'
    → Keeps s.cpu.inter s'.cpu.inter
unfolding strb
strb-Keeps m u i s s' h =
    let ((addr, c), located, h₁) = >>=-eq-ok ((mode2 m).address u i s.cpu) _ h in
    let (_, _, h₂) = >>=-eq-ok (assert ((mode2 m).is_valid u i false true)) _ h₁ in
    let (_, _, h₃) = >>=-eq-ok (guard (not (is_pc (rd i))) Panic.unpredictable) _ h₂ in
    Keeps-trans s.cpu.inter c.inter s'.cpu.inter
      (Keeps-eq s.cpu.inter c.inter (mode2-inter m u i s.cpu c addr located))
      (store-Keeps byte addr (record s { cpu = c }) (reg (rd i) c) s' h₃)

pub ldrh-Keeps :
    (m : Mode3) (u : Bool) (i : ℕ) (s s' : Machine (Unit {0}))
    → ldrh no_debugger (mode3 m) u i s ≡ ok s'
    → Keeps s.cpu.inter s'.cpu.inter
unfolding ldrh
ldrh-Keeps m u i s s' h =
    let ((addr, c), located, h₁) = >>=-eq-ok ((mode3 m).address u i s.cpu) _ h in
    let (_, _, h₂) = >>=-eq-ok (assert ((mode3 m).is_valid u i true false false)) _ h₁ in
    Keeps-eq s.cpu.inter s'.cpu.inter (
      load_then-inter (λ v. set_reg (rd i) (v)) (λ v. set_reg-inter (rd i) (v)) half_word (addr)
        (record s { cpu = c }) s' h₂
      ∙ mode3-inter m u i s.cpu c addr located)

pub ldrsh-Keeps :
    (m : Mode3) (u : Bool) (i : ℕ) (s s' : Machine (Unit {0}))
    → ldrsh no_debugger (mode3 m) u i s ≡ ok s'
    → Keeps s.cpu.inter s'.cpu.inter
unfolding ldrsh
ldrsh-Keeps m u i s s' h =
    let ((addr, c), located, h₁) = >>=-eq-ok ((mode3 m).address u i s.cpu) _ h in
    let (_, _, h₂) = >>=-eq-ok (assert ((mode3 m).is_valid u i true false true)) _ h₁ in
    Keeps-eq s.cpu.inter s'.cpu.inter (
      load_then-inter (λ v. set_reg (rd i) (sign_extend 16 v))
        (λ v. set_reg-inter (rd i) (sign_extend 16 v)) half_word (addr) (record s { cpu = c }) s' h₂
      ∙ mode3-inter m u i s.cpu c addr located)

pub strh-Keeps :
    (m : Mode3) (u : Bool) (i : ℕ) (s s' : Machine (Unit {0}))
    → strh no_debugger (mode3 m) u i s ≡ ok s'
    → Keeps s.cpu.inter s'.cpu.inter
unfolding strh
strh-Keeps m u i s s' h =
    let ((addr, c), located, h₁) = >>=-eq-ok ((mode3 m).address u i s.cpu) _ h in
    let (_, _, h₂) = >>=-eq-ok (assert ((mode3 m).is_valid u i false false false)) _ h₁ in
    Keeps-trans s.cpu.inter c.inter s'.cpu.inter
      (Keeps-eq s.cpu.inter c.inter (mode3-inter m u i s.cpu c addr located))
      (store-Keeps half_word addr (record s { cpu = c }) (reg (rd i) c) s' h₂)

pub ldrsb-Keeps :
    (m : Mode3) (u : Bool) (i : ℕ) (s s' : Machine (Unit {0}))
    → ldrsb no_debugger (mode3 m) u i s ≡ ok s'
    → Keeps s.cpu.inter s'.cpu.inter
unfolding ldrsb
ldrsb-Keeps m u i s s' h =
    let ((addr, c), located, h₁) = >>=-eq-ok ((mode3 m).address u i s.cpu) _ h in
    let (_, _, h₂) = >>=-eq-ok (assert ((mode3 m).is_valid u i true true true)) _ h₁ in
    Keeps-eq s.cpu.inter s'.cpu.inter (
      load_then-inter (λ v. set_reg (rd i) (sign_extend 8 v))
        (λ v. set_reg-inter (rd i) (sign_extend 8 v)) byte (addr) (record s { cpu = c }) s' h₂
      ∙ mode3-inter m u i s.cpu c addr located)
