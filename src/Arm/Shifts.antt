-- ===== src/Arm/Shifts.antt =====
-- src/cpu/armv4_is.rs: the two readings of an operand, with the carry of the shifter and without.
use pksx.Base.Bits.Laws.{bit_or-zero, bit_and_mask}
use pksx.Base.{
  rotate_right, ℕ, ◌^◌, ◌<◌, bit_and, bit_or, ◌≡◌, ap, ◌∙◌, Bool, true, false, arith, ◌==◌,
  if◌then◌else◌, Result, ok, panic, shr, shl32,
}
use pksx.Cpu.{Cpu, reg}
use pksx.Arm.{rm, rs}
use pksx.Arm.Operands.{
  Shifter, imm, lsl_imm, lsr_imm, lsl_reg, lsr_reg, asr_imm, asr_reg, ror_imm, ror_reg, mode1,
  mode1_imm, mode1_lsl_imm, mode1_lsr_imm, mode1_lsl_reg, mode1_lsr_reg, mode1_asr_imm,
  mode1_asr_reg, mode1_ror_imm, mode1_ror_reg,
}

-- The value that a test chooses, of a result that it chooses.
value_of : Result (ℕ × Bool) → ℕ
value_of (ok p) = p.0
value_of (panic e) = 0

chosen :
    (t : Bool) (p q r : ℕ × Bool)
    → (if t then ok p else ok q) ≡ ok r
    → (if t then p.0 else q.0) ≡ r.0
unfolding value_of
chosen true p q r h = ap value_of h
chosen false p q r h = ap value_of h

rotate_right-zero : (x : ℕ) → rotate_right x 0 ≡ x
unfolding rotate_right
rotate_right-zero x =
    let high : shl32 x 32 ≡ 0 = omega arith in
    let low : shr x 0 ≡ x = omega arith in
    ap (bit_or (shr x 0)) high ∙ (bit_or-zero (shr x 0) ∙ low)

-- In each of the nine addressing modes, where the shifted register is a word and the operand with
-- its carry is returned, that operand is the one computed without the carry.
pub value_carry-value :
    (k : Shifter) (i : ℕ) (c : Cpu) (b : ℕ) (carry : Bool)
    → (mode1 k).value_carry i c ≡ ok (b, carry)
    → reg (rm i) c < 2 ^ 32
    → (mode1 k).value i c ≡ b
unfolding mode1_imm mode1_lsl_imm mode1_lsr_imm mode1_lsl_reg mode1_lsr_reg mode1_asr_imm
    mode1_asr_reg mode1_ror_imm mode1_ror_reg
value_carry-value imm i c b carry h w = ground (
  arith,
  chosen (bit_and (shr i 8) 0xf == 0) _ _ (b, carry) h,
  rotate_right-zero (bit_and i 0xff),
)
value_carry-value lsl_imm i c b carry h w =
    ground (arith, chosen (bit_and (shr i 7) 0x1f == 0) _ _ (b, carry) h)
value_carry-value lsr_imm i c b carry h w =
    ground (arith, chosen (bit_and (shr i 7) 0x1f == 0) _ _ (b, carry) h)
value_carry-value lsl_reg i c b carry h w = ground arith
value_carry-value lsr_reg i c b carry h w = ground arith
value_carry-value asr_imm i c b carry h w =
    ground (arith, chosen (bit_and (shr i 7) 0x1f == 0) _ _ (b, carry) h)
value_carry-value asr_reg i c b carry h w = ground arith
value_carry-value ror_imm i c b carry h w =
    ground (arith, chosen (bit_and (shr i 7) 0x1f == 0) _ _ (b, carry) h)
value_carry-value ror_reg i c b carry h w =
    let val = reg (rm i) c in
    let shift = bit_and (reg (rs i) c) 0xff in
    let low : bit_and shift 0x1f ≡ bit_and (reg (rs i) c) 0x1f =
      omega (
        arith,
        bit_and_mask 5 shift,
        bit_and_mask 8 (reg (rs i) c),
        bit_and_mask 5 (reg (rs i) c),
      ) in
    ground (arith, low, bit_and_mask 5 shift, rotate_right-zero (reg (rm i) c))
