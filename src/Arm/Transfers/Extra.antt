-- ===== src/Arm/Transfers/Extra.antt =====
-- src/cpu/armv4_is.rs, `Mode3Addressing` and its instructions: the loads and stores of half words
-- and of signed bytes.
use pksx.Base.{
  ℕ, bit_and, bit_or, Bool, true, false, not, ◌&&◌, ◌==◌, flag, Panic, Result, ok, ◌>>=◌, ◌>>◌,
  guard, assert, shr, shl32, sign_extend,
}
use pksx.Access.{half_word, byte}
use pksx.Cpu.{Cpu, reg, set_reg}
use pksx.Cpu.Machine.{Debugger, Handler, with_cpu, load, store}
use pksx.Arm.{rn, rd, rm}
use pksx.Arm.Transfers.{offset_by}

-- One addressing mode, as for words; `is_valid` also takes whether the value is signed.
pub record Mode3Addressing : Type 0 where
  pub address : Bool → ℕ → Cpu → Result (ℕ × Cpu)
  pub is_valid : Bool → ℕ → Bool → Bool → Bool → Bool

-- What every `is_valid` checks: the class, the direction, the form, and the bits of the operation.
abbrev encoded : ℕ → ℕ → ℕ → Bool → Bool → Bool → Bool → Bool
encoded i class form u l b signed =
    (bit_and (shr i 24) 0xf == class)
    && (bit_and (shr i 23) 1 == flag u)
    && (bit_and (shr i 21) 3 == form)
    && (bit_and (shr i 20) 1 == flag l)
    && (bit_and (shr i 7) 1 == 1)
    && (bit_and (shr i 6) 1 == flag signed)
    && (bit_and (shr i 5) 1 == flag (not b))
    && (bit_and (shr i 4) 1 == 1)

abbrev imm_offset : ℕ → ℕ
imm_offset i = bit_or (shl32 (bit_and (shr i 8) 0xf) 4) (bit_and i 0xf)

unfoldable pub mode3_imm : Mode3Addressing
mode3_imm = record {
  address = λ u i c. ok (offset_by u (reg (rn i) c) (imm_offset i), c);
  is_valid = λ u i l b signed. encoded i 0b0001 2 u l b signed;
}

unfoldable pub mode3_imm_pre : Mode3Addressing
mode3_imm_pre = record {
  address = λ u i c. do
    guard (not (rd i == rn i)) Panic.unpredictable
    let addr = offset_by u (reg (rn i) c) (imm_offset i)
    ok (addr, set_reg (rn i) addr c);
  is_valid = λ u i l b signed. encoded i 0b0001 3 u l b signed;
}

unfoldable pub mode3_imm_post : Mode3Addressing
mode3_imm_post = record {
  address = λ u i c. do
    guard (not (rd i == rn i)) Panic.unpredictable
    let base = reg (rn i) c
    ok (base, set_reg (rn i) (offset_by u base (imm_offset i)) c);
  is_valid = λ u i l b signed. encoded i 0b0000 2 u l b signed;
}

unfoldable pub mode3_reg : Mode3Addressing
mode3_reg = record {
  address = λ u i c. ok (offset_by u (reg (rn i) c) (reg (rm i) c), c);
  is_valid = λ u i l b signed. encoded i 0b0001 0 u l b signed && (bit_and (shr i 7) 0x1f == 1);
}

module _ {D : Type 0} (dbg : Debugger D) where
  unfoldable pub ldrh : Mode3Addressing → Bool → Handler D
  ldrh m u i s = do
    (addr, c) ← m.address u i s.cpu
    assert (m.is_valid u i true false false)
    (val, s') ← load dbg half_word addr (record s { cpu = c })
    ok (with_cpu (set_reg (rd i) val) s')

  unfoldable pub ldrsh : Mode3Addressing → Bool → Handler D
  ldrsh m u i s = do
    (addr, c) ← m.address u i s.cpu
    assert (m.is_valid u i true false true)
    (val, s') ← load dbg half_word addr (record s { cpu = c })
    ok (with_cpu (set_reg (rd i) (sign_extend 16 val)) s')

  unfoldable pub strh : Mode3Addressing → Bool → Handler D
  strh m u i s = do
    (addr, c) ← m.address u i s.cpu
    assert (m.is_valid u i false false false)
    store dbg half_word addr (reg (rd i) c) (record s { cpu = c })

  unfoldable pub ldrsb : Mode3Addressing → Bool → Handler D
  ldrsb m u i s = do
    (addr, c) ← m.address u i s.cpu
    assert (m.is_valid u i true true true)
    (val, s') ← load dbg byte addr (record s { cpu = c })
    ok (with_cpu (set_reg (rd i) (sign_extend 8 val)) s')
