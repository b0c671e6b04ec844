-- ===== src/Arm/Operands.antt =====
-- src/cpu/armv4_is.rs, `Mode1Addressing`: the second operand of the data-processing instructions,
-- an immediate or a register shifted by an immediate or by a register.
use pksx.Base.{
  rotate_right, asr, ℕ, ◌-◌, bit_and, bit_or, Bool, ◌&&◌, leb, ◌==◌, if◌then◌else◌, flag, Panic,
  Result, ok, panic, shr, shl32, nonzero, is_neg,
}
use pksx.Cpu.{Cpu, reg}
use pksx.Arm.{rm, rs}

-- One addressing mode: the operand, the operand with the carry of the shifter, and whether an
-- instruction is encoded with this mode, the given opcode and the given S bit.
pub record Mode1Addressing : Type 0 where
  pub value : ℕ → Cpu → ℕ
  pub value_carry : ℕ → Cpu → Result (ℕ × Bool)
  pub is_valid : ℕ → ℕ → Bool → Bool

-- What every `is_valid` checks: the S bit, the opcode and the class of the operand.
abbrev encoded : ℕ → ℕ → Bool → ℕ → Bool
encoded i opcode s class =
    (bit_and (shr i 20) 1 == flag s)
    && (bit_and (shr i 21) 0xf == opcode)
    && (bit_and (shr i 25) 7 == class)

-- The shift amount of an instruction, and the one in its register `rs`.
abbrev imm_shift : ℕ → ℕ
imm_shift i = bit_and (shr i 7) 0x1f

abbrev reg_shift : ℕ → Cpu → ℕ
reg_shift i c = bit_and (reg (rs i) c) 0xff

unfoldable pub mode1_imm : Mode1Addressing
mode1_imm = record {
  value = λ i c. rotate_right (bit_and i 0xff) (shl32 (bit_and (shr i 8) 0xf) 1);
  value_carry = λ i c.
      let rot = bit_and (shr i 8) 0xf in
      let imm = bit_and i 0xff in
      let imm' = rotate_right imm (shl32 rot 1) in
      if rot == 0 then ok (imm, c.c) else ok (imm', is_neg imm');
  is_valid = λ i opcode s. encoded i opcode s 1;
}

unfoldable pub mode1_lsl_imm : Mode1Addressing
mode1_lsl_imm = record {
  value = λ i c. shl32 (reg (rm i) c) (imm_shift i);
  value_carry = λ i c.
      let shift = imm_shift i in
      let val = reg (rm i) c in
      if shift == 0
      then ok (val, c.c)
      else ok (shl32 val shift, nonzero (bit_and (shl32 val (shift - 1)) 0x80000000));
  is_valid = λ i opcode s. encoded i opcode s 0 && (bit_and (shr i 4) 7 == 0);
}

-- A shift of 0 stands for one of 32.
unfoldable pub mode1_lsr_imm : Mode1Addressing
mode1_lsr_imm = record {
  value = λ i c. if imm_shift i == 0 then 0 else shr (reg (rm i) c) (imm_shift i);
  value_carry = λ i c.
      let shift = imm_shift i in
      let val = reg (rm i) c in
      if shift == 0
      then ok (0, is_neg val)
      else ok (shr val shift, nonzero (bit_and (shr val (shift - 1)) 1));
  is_valid = λ i opcode s. encoded i opcode s 0 && (bit_and (shr i 4) 7 == 0b010);
}

unfoldable pub mode1_lsl_reg : Mode1Addressing
mode1_lsl_reg = record {
  value =
      λ i c. let shift = reg_shift i c in if leb shift 31 then shl32 (reg (rm i) c) shift else 0;
  value_carry = λ i c. panic Panic.unimplemented;
  is_valid = λ i opcode s. encoded i opcode s 0 && (bit_and (shr i 4) 0xf == 0b0001);
}

unfoldable pub mode1_lsr_reg : Mode1Addressing
mode1_lsr_reg = record {
  value = λ i c. let shift = reg_shift i c in if leb shift 31 then shr (reg (rm i) c) shift else 0;
  value_carry = λ i c. panic Panic.unimplemented;
  is_valid = λ i opcode s. encoded i opcode s 0 && (bit_and (shr i 4) 0xf == 0b0011);
}

-- A shift of 0 stands for one of 32, which repeats the sign as one of 31 does.
unfoldable pub mode1_asr_imm : Mode1Addressing
mode1_asr_imm = record {
  value = λ i c.
      let shift = imm_shift i in
      let val = reg (rm i) c in if shift == 0 then asr val 31 else asr val shift;
  value_carry = λ i c.
      let shift = imm_shift i in
      let val = reg (rm i) c in
      if shift == 0
      then ok (asr val 31, is_neg val)
      else ok (asr val shift, nonzero (bit_and (asr val (shift - 1)) 1));
  is_valid = λ i opcode s. encoded i opcode s 0 && (bit_and (shr i 4) 7 == 0b100);
}

unfoldable pub mode1_asr_reg : Mode1Addressing
mode1_asr_reg = record {
  value = λ i c.
      let shift = reg_shift i c in
      let val = reg (rm i) c in if leb shift 31 then asr val shift else asr val 31;
  value_carry = λ i c. panic Panic.unimplemented;
  is_valid = λ i opcode s. encoded i opcode s 0 && (bit_and (shr i 4) 0xf == 0b0101);
}

-- A shift of 0 stands for a rotation by one place through the carry.
unfoldable pub mode1_ror_imm : Mode1Addressing
mode1_ror_imm = record {
  value = λ i c.
      let shift = imm_shift i in
      let val = reg (rm i) c in
      if shift == 0 then bit_or (shl32 (flag c.c) 31) (shr val 1) else rotate_right val shift;
  value_carry = λ i c.
      let shift = imm_shift i in
      let val = reg (rm i) c in
      let r = bit_or (shl32 (flag c.c) 31) (shr val 1) in
      if shift == 0
      then ok (r, nonzero (bit_and r 1))
      else ok (rotate_right val shift, nonzero (bit_and (shr val (shift - 1)) 1));
  is_valid = λ i opcode s. encoded i opcode s 0 && (bit_and (shr i 4) 7 == 0b110);
}

unfoldable pub mode1_ror_reg : Mode1Addressing
mode1_ror_reg = record {
  value = λ i c. rotate_right (reg (rm i) c) (bit_and (reg (rs i) c) 0x1f);
  value_carry = λ i c.
      let shift = reg_shift i c in
      let val = reg (rm i) c in
      let shift' = bit_and shift 0x1f in
      if shift == 0
      then ok (val, c.c)
      else if shift' == 0
      then ok (val, is_neg val)
      else ok (rotate_right val shift', nonzero (bit_and (shr val (shift' - 1)) 1));
  is_valid = λ i opcode s. encoded i opcode s 0 && (bit_and (shr i 4) 0xf == 0b0111);
}

-- The nine types that are addressing modes.
pub data Shifter : Type 0 where
  imm lsl_imm lsr_imm lsl_reg lsr_reg asr_imm asr_reg ror_imm ror_reg : Shifter

abbrev pub mode1 : Shifter → Mode1Addressing
mode1 imm = mode1_imm
mode1 lsl_imm = mode1_lsl_imm
mode1 lsr_imm = mode1_lsr_imm
mode1 lsl_reg = mode1_lsl_reg
mode1 lsr_reg = mode1_lsr_reg
mode1 asr_imm = mode1_asr_imm
mode1 asr_reg = mode1_asr_reg
mode1 ror_imm = mode1_ror_imm
mode1 ror_reg = mode1_ror_reg
