-- ===== src/Arm/Transfers.antt =====
-- src/cpu/armv4_is.rs, `Mode2Addressing` and its instructions: the loads and stores of a word or an
-- unsigned byte. The parameter `U: ModeFlag` is a Boolean.
pub mod Extra
pub mod Multiple
pub mod Stacks
use pksx.Base.{
  ℕ, ◌*◌, bit_and, Bool, true, false, not, ◌&&◌, ◌==◌, if◌then◌else◌, flag, Panic, Result, ok,
  ◌>>=◌, ◌>>◌, guard, assert, shr, shl32, not32, wrapping_add, wrapping_sub, rotate_right,
}
use pksx.Access.{word, byte}
use pksx.Cpu.{Cpu, reg, set_reg, set_reg_pc_mask}
use pksx.Cpu.Machine.{Machine, Debugger, Handler, with_cpu, load, store}
use pksx.Arm.{rn, rd, rm, is_pc}

-- One addressing mode: the address with the processor after the write-back, and whether an
-- instruction is encoded with this mode, the direction `u`, as a load and as a byte.
pub record Mode2Addressing : Type 0 where
  pub address : Bool → ℕ → Cpu → Result (ℕ × Cpu)
  pub is_valid : Bool → ℕ → Bool → Bool → Bool

-- `base.wrapping_add(offset)` or `base.wrapping_sub(offset)`.
abbrev pub offset_by : Bool → ℕ → ℕ → ℕ
offset_by u base offset = if u then wrapping_add base offset else wrapping_sub base offset

-- What every `is_valid` checks: the class, the load bit, the byte bit and the direction.
abbrev encoded : ℕ → ℕ → Bool → Bool → Bool → Bool
encoded i class l b u =
    (bit_and (shr i 24) 0xf == class)
    && (bit_and (shr i 20) 1 == flag l)
    && (bit_and (shr i 22) 1 == flag b)
    && (bit_and (shr i 23) 1 == flag u)

unfoldable pub mode2_imm : Mode2Addressing
mode2_imm = record {
  address = λ u i c. ok (offset_by u (reg (rn i) c) (bit_and i 0xfff), c);
  is_valid = λ u i l b. encoded i 0b0101 l b u;
}

unfoldable pub mode2_imm_pre : Mode2Addressing
mode2_imm_pre = record {
  address = λ u i c. do
    guard (not (is_pc (rn i))) Panic.unpredictable
    guard (not (rd i == rn i)) Panic.unpredictable
    let addr = offset_by u (reg (rn i) c) (bit_and i 0xfff)
    ok (addr, set_reg (rn i) addr c);
  is_valid = λ u i l b. encoded i 0b0101 l b u;
}

unfoldable pub mode2_imm_post : Mode2Addressing
mode2_imm_post = record {
  address = λ u i c. do
    guard (not (is_pc (rn i))) Panic.unpredictable
    guard (not (rd i == rn i)) Panic.unpredictable
    let base = reg (rn i) c
    ok (base, set_reg (rn i) (offset_by u base (bit_and i 0xfff)) c);
  is_valid = λ u i l b. encoded i 0b0100 l b u;
}

-- The register `rm`, shifted.
abbrev lsl_offset : ℕ → Cpu → ℕ
lsl_offset i c = shl32 (reg (rm i) c) (bit_and (shr i 7) 0x1f)

unfoldable pub mode2_lsl_reg : Mode2Addressing
mode2_lsl_reg = record {
  address = λ u i c. ok (offset_by u (reg (rn i) c) (lsl_offset i c), c);
  is_valid = λ u i l b.
      encoded i 0b0111 l b u && (bit_and (shr i 21) 1 == 0) && (bit_and (shr i 4) 7 == 0);
}

unfoldable pub mode2_lsl_reg_pre : Mode2Addressing
mode2_lsl_reg_pre = record {
  address = λ u i c.
      let addr = offset_by u (reg (rn i) c) (lsl_offset i c) in ok (addr, set_reg (rn i) addr c);
  is_valid = λ u i l b.
      encoded i 0b0111 l b u && (bit_and (shr i 21) 1 == 1) && (bit_and (shr i 4) 7 == 0);
}

module _ {D : Type 0} (dbg : Debugger D) where
  unfoldable pub ldr : Mode2Addressing → Bool → Handler D
  ldr m u i s = do
    (addr, c) ← m.address u i s.cpu
    assert (m.is_valid u i true false)
    let rot = bit_and addr 3 * 8
    (val, s') ← load dbg word (bit_and addr (not32 3)) (record s { cpu = c })
    ok (with_cpu (set_reg_pc_mask (rd i) (rotate_right val rot)) s')

  unfoldable pub str : Mode2Addressing → Bool → Handler D
  str m u i s = do
    (addr, c) ← m.address u i s.cpu
    assert (m.is_valid u i false false)
    guard (not (is_pc (rd i))) Panic.unpredictable
    store dbg word addr (reg (rd i) c) (record s { cpu = c })

  unfoldable pub ldrb : Mode2Addressing → Bool → Handler D
  ldrb m u i s = do
    (addr, c) ← m.address u i s.cpu
    assert (m.is_valid u i true true)
    (val, s') ← load dbg byte addr (record s { cpu = c })
    ok (with_cpu (set_reg_pc_mask (rd i) val) s')

  unfoldable pub strb : Mode2Addressing → Bool → Handler D
  strb m u i s = do
    (addr, c) ← m.address u i s.cpu
    assert (m.is_valid u i false true)
    guard (not (is_pc (rd i))) Panic.unpredictable
    store dbg byte addr (reg (rd i) c) (record s { cpu = c })
