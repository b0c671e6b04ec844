-- ===== src/Arm/Table/Encoding.antt =====
-- src/cpu/armv4_is.rs: the entries of the table and the fields of the instructions they stand for.
use pksx.Base.{
  ℕ, ◌+◌, ◌*◌, ◌<◌, bit_and, ◌≡◌, refl, ◌∙◌, Bool, true, false, not, ◌&&◌, ◌||◌, arith, ◌==◌, flag,
  holds_below, holds_below-test, shr, nonzero, ◌^◌,
}
use pksx.Arm.{opcode}
use pksx.Arm.Operands.{
  Shifter, imm, lsl_imm, lsr_imm, asr_imm, ror_imm, mode1, mode1_imm, mode1_lsl_imm, mode1_lsr_imm,
  mode1_lsl_reg, mode1_lsr_reg, mode1_asr_imm, mode1_asr_reg, mode1_ror_imm, mode1_ror_reg,
}
use pksx.Arm.Transfers.{mode2_imm, mode2_imm_pre, mode2_imm_post, mode2_lsl_reg, mode2_lsl_reg_pre}
use pksx.Arm.Transfers.Extra.{mode3_imm, mode3_imm_pre, mode3_imm_post, mode3_reg}
use pksx.Arm.Transfers.Multiple.{mode4_is_valid, register_list}
use pksx.Arm.Opcodes.{AluOp, Entry, Mode2, Mode3, half_reg, mode2, mode3}
use pksx.Arm.Table.{opcode_lut}
use pksx.Arm.Table.Fields.{bare, opcode_lem, SameOpcode, bare-SameOpcode}
use pksx.Arm.Table.Low.{table_0}
use pksx.Arm.Table.High.{table_1}
use pksx.Arm.Table.Immediate.{table_2, table_3}
use pksx.Arm.Table.Transfers.{table_4, table_5, table_6, table_7, table_8, table_9}
use pksx.Arm.Table.Branches.{table_a, table_b, table_c, table_d, table_e, table_f}

-- The four bits that an instruction of mode 1 has for its operation, and its S bit.
abbrev alu_code : AluOp → ℕ
alu_code AluOp.and = 0
alu_code AluOp.ands = 0
alu_code AluOp.eor = 1
alu_code AluOp.eors = 1
alu_code AluOp.sub = 2
alu_code AluOp.subs = 2
alu_code AluOp.rsb = 3
alu_code AluOp.rsbs = 3
alu_code AluOp.add = 4
alu_code AluOp.adds = 4
alu_code AluOp.adc = 5
alu_code AluOp.tst = 8
alu_code AluOp.teq = 9
alu_code AluOp.cmp = 10
alu_code AluOp.cmn = 11
alu_code AluOp.orr = 12
alu_code AluOp.orrs = 12
alu_code AluOp.mov = 13
alu_code AluOp.movs = 13
alu_code AluOp.bic = 14
alu_code AluOp.bics = 14
alu_code AluOp.mvn = 15

abbrev alu_sets : AluOp → Bool
alu_sets AluOp.and = false
alu_sets AluOp.eor = false
alu_sets AluOp.sub = false
alu_sets AluOp.rsb = false
alu_sets AluOp.add = false
alu_sets AluOp.adc = false
alu_sets AluOp.orr = false
alu_sets AluOp.mov = false
alu_sets AluOp.bic = false
alu_sets AluOp.mvn = false
alu_sets _ = true

-- What the handler of an entry asserts of the bits that choose it; where it asserts nothing, those
-- that the architecture gives the instruction.
pub has_opcode_bits : Entry → ℕ → Bool
has_opcode_bits Entry.unimplemented i = true
has_opcode_bits Entry.mrs_cpsr i = opcode i == 0x100
has_opcode_bits Entry.msr_cpsr i = opcode i == 0x120
has_opcode_bits Entry.mrs_spsr i = opcode i == 0x140
has_opcode_bits Entry.bx i = opcode i == 0x121
has_opcode_bits Entry.b i = bit_and (shr i 24) 0xf == 0xa
has_opcode_bits Entry.bl i = bit_and (shr i 24) 0xf == 0xb
has_opcode_bits Entry.swi i = bit_and (shr i 24) 0xf == 0xf
has_opcode_bits (Entry.alu op k) i = (mode1 k).is_valid i (alu_code op) (alu_sets op)
has_opcode_bits (Entry.mul s) i = opcode i == 0x009 + flag s * 0x10
has_opcode_bits (Entry.mla s) i = opcode i == 0x029 + flag s * 0x10
has_opcode_bits (Entry.ldr m u) i = (mode2 m).is_valid u i true false
has_opcode_bits (Entry.str m u) i = (mode2 m).is_valid u i false false
has_opcode_bits (Entry.ldrb m u) i = (mode2 m).is_valid u i true true
has_opcode_bits (Entry.strb m u) i = (mode2 m).is_valid u i false true
has_opcode_bits (Entry.ldrh m u) i = (mode3 m).is_valid u i true false false
has_opcode_bits (Entry.ldrsh m u) i = (mode3 m).is_valid u i true false true
has_opcode_bits (Entry.strh m u) i = (mode3 m).is_valid u i false false false
has_opcode_bits (Entry.ldrsb m u) i = (mode3 m).is_valid u i true true true
has_opcode_bits (Entry.ldm u p w) i = mode4_is_valid i p u false w true
has_opcode_bits (Entry.ldms u p w) i = mode4_is_valid i p u true w true
has_opcode_bits (Entry.stm u p w) i = mode4_is_valid i p u false w false

-- R15 is in the list of registers.
abbrev lists_pc : ℕ → Bool
lists_pc i = nonzero (bit_and (register_list i) (2 ^ 15))

-- All that a handler asserts: `ldms` also that there is no write-back where R15 is not in the list.
unfoldable pub encodes : Entry → ℕ → Bool
encodes (Entry.ldms u p w) i = has_opcode_bits (Entry.ldms u p w) i && (lists_pc i || not w)
encodes e i = has_opcode_bits e i

-- The four bits that a transfer at a register offset leaves out, and that should be zero.
abbrev at_register : Mode3 → Bool
at_register half_reg = true
at_register _ = false

has_zero_field : Entry → ℕ → Bool
has_zero_field (Entry.ldrh m u) i = not (at_register m) || (bit_and (shr i 7) 0x1f == 1)
has_zero_field (Entry.ldrsh m u) i = not (at_register m) || (bit_and (shr i 7) 0x1f == 1)
has_zero_field (Entry.strh m u) i = not (at_register m) || (bit_and (shr i 7) 0x1f == 1)
has_zero_field (Entry.ldrsb m u) i = not (at_register m) || (bit_and (shr i 7) 0x1f == 1)
has_zero_field _ i = true

-- The bits that should be zero: that field, and the write-back bit of a LDM with the S bit whose list
-- does not have R15, which loads the registers of user mode.
unfoldable pub has_zeros : Entry → ℕ → Bool
unfolding has_zero_field
has_zeros (Entry.ldms u p w) i = lists_pc i || (bit_and (shr i 21) 1 == 0)
has_zeros e i = has_zero_field e i

module _ (i j : ℕ) (same : SameOpcode i j) where
  mode1_same :
      (k : Shifter) (op : ℕ) (s : Bool) → (mode1 k).is_valid i op s ≡ (mode1 k).is_valid j op s
  unfolding mode1_imm mode1_lsl_imm mode1_lsr_imm mode1_lsl_reg mode1_lsr_reg mode1_asr_imm
      mode1_asr_reg mode1_ror_imm mode1_ror_reg
  mode1_same imm op s = rw (same.f20_1, same.f21_4, same.f25_3)
  mode1_same lsl_imm op s = rw (same.f20_1, same.f21_4, same.f25_3, same.f4_3)
  mode1_same lsr_imm op s = rw (same.f20_1, same.f21_4, same.f25_3, same.f4_3)
  mode1_same asr_imm op s = rw (same.f20_1, same.f21_4, same.f25_3, same.f4_3)
  mode1_same ror_imm op s = rw (same.f20_1, same.f21_4, same.f25_3, same.f4_3)
  mode1_same _ op s = rw (same.f20_1, same.f21_4, same.f25_3, same.f4_4)

  mode2_same : (m : Mode2) (u l b : Bool) → (mode2 m).is_valid u i l b ≡ (mode2 m).is_valid u j l b
  unfolding mode2_imm mode2_imm_pre mode2_imm_post mode2_lsl_reg mode2_lsl_reg_pre
  mode2_same Mode2.lsl_reg u l b =
      rw (same.f24_4, same.f20_1, same.f22_1, same.f23_1, same.f21_1, same.f4_3)
  mode2_same Mode2.lsl_reg_pre u l b =
      rw (same.f24_4, same.f20_1, same.f22_1, same.f23_1, same.f21_1, same.f4_3)
  mode2_same _ u l b = rw (same.f24_4, same.f20_1, same.f22_1, same.f23_1)

  mode3_same :
      (m : Mode3) (u l b g : Bool)
      → (not (at_register m) || (bit_and (shr i 7) 0x1f == 1)) ≡ true
      → (not (at_register m) || (bit_and (shr j 7) 0x1f == 1)) ≡ true
      → (mode3 m).is_valid u i l b g ≡ (mode3 m).is_valid u j l b g
  unfolding mode3_imm mode3_imm_pre mode3_imm_post mode3_reg
  mode3_same half_reg u l b g p q = rw (
    same.f24_4, same.f23_1, same.f21_2, same.f20_1, same.f7_1, same.f6_1, same.f5_1, same.f4_1, p,
    q,
  )
  mode3_same _ u l b g p q =
      rw
        (same.f24_4, same.f23_1, same.f21_2, same.f20_1, same.f7_1, same.f6_1, same.f5_1, same.f4_1)

  mode4_same : (p u s w l : Bool) → mode4_is_valid i p u s w l ≡ mode4_is_valid j p u s w l
  mode4_same p u s w l = rw (same.f25_3, same.f24_1, same.f23_1, same.f22_1, same.f21_1, same.f20_1)

  has_opcode_bits_same :
      (e : Entry)
      → has_zero_field e i ≡ true
      → has_zero_field e j ≡ true
      → has_opcode_bits e i ≡ has_opcode_bits e j
  unfolding has_zero_field has_opcode_bits
  has_opcode_bits_same Entry.unimplemented p q = refl
  has_opcode_bits_same Entry.mrs_cpsr p q = rw same.opcodes
  has_opcode_bits_same Entry.msr_cpsr p q = rw same.opcodes
  has_opcode_bits_same Entry.mrs_spsr p q = rw same.opcodes
  has_opcode_bits_same Entry.bx p q = rw same.opcodes
  has_opcode_bits_same Entry.b p q = rw same.f24_4
  has_opcode_bits_same Entry.bl p q = rw same.f24_4
  has_opcode_bits_same Entry.swi p q = rw same.f24_4
  has_opcode_bits_same (Entry.alu op k) p q = mode1_same k (alu_code op) (alu_sets op)
  has_opcode_bits_same (Entry.mul s) p q = rw same.opcodes
  has_opcode_bits_same (Entry.mla s) p q = rw same.opcodes
  has_opcode_bits_same (Entry.ldr m u) p q = mode2_same m u true false
  has_opcode_bits_same (Entry.str m u) p q = mode2_same m u false false
  has_opcode_bits_same (Entry.ldrb m u) p q = mode2_same m u true true
  has_opcode_bits_same (Entry.strb m u) p q = mode2_same m u false true
  has_opcode_bits_same (Entry.ldrh m u) p q = mode3_same m u true false false p q
  has_opcode_bits_same (Entry.ldrsh m u) p q = mode3_same m u true false true p q
  has_opcode_bits_same (Entry.strh m u) p q = mode3_same m u false false false p q
  has_opcode_bits_same (Entry.ldrsb m u) p q = mode3_same m u true true true p q
  has_opcode_bits_same (Entry.ldm u r w) p q = mode4_same r u false w true
  has_opcode_bits_same (Entry.ldms u r w) p q = mode4_same r u true w true
  has_opcode_bits_same (Entry.stm u r w) p q = mode4_same r u false w false

both_true : (a : Bool) {b : Bool} → (a && b) ≡ true → (a ≡ true) × (b ≡ true)
both_true true h = (refl, h)
both_true false h = absurd cc

table_bits :
    holds_below
      (λ op. has_opcode_bits (opcode_lut op) (bare op) && has_zero_field (opcode_lut op) (bare op))
      4096
    ≡ true
unfolding holds_below has_opcode_bits has_zero_field opcode_lut table_0 table_1 table_2 table_3
    table_4 table_5 table_6 table_7 table_8 table_9 table_a table_b table_c table_d table_e table_f
    mode1_imm mode1_lsl_imm mode1_lsr_imm mode1_lsl_reg mode1_lsr_reg mode1_asr_imm mode1_asr_reg
    mode1_ror_imm mode1_ror_reg mode2_imm mode2_imm_pre mode2_imm_post mode2_lsl_reg
    mode2_lsl_reg_pre mode3_imm mode3_imm_pre mode3_imm_post mode3_reg
table_bits = refl

opcode_bits :
    (i : ℕ)
    → has_zero_field (opcode_lut (opcode i)) i ≡ true
    → has_opcode_bits (opcode_lut (opcode i)) i ≡ true
opcode_bits i zeros =
    let op = opcode i in
    let below : op < 4096 = omega (arith, opcode_lem i) in
    let both =
      holds_below-test
        (λ o. has_opcode_bits (opcode_lut o) (bare o) && has_zero_field (opcode_lut o) (bare o))
        4096 table_bits op below in
    let (valid, clear) = both_true (has_opcode_bits (opcode_lut op) (bare op)) both in
    has_opcode_bits_same i (bare op) (bare-SameOpcode i) (opcode_lut op) zeros clear ∙ valid

-- Without R15 in the list, a write-back bit of 0 is that of the entry.
no_write_back :
    (i : ℕ) (u p w : Bool)
    → has_opcode_bits (Entry.ldms u p w) i ≡ true
    → (lists_pc i || (bit_and (shr i 21) 1 == 0)) ≡ true
    → (lists_pc i || not w) ≡ true
unfolding has_opcode_bits
no_write_back i u p w valid zeros = ground arith

zeros-encodes :
    (e : Entry) (i : ℕ)
    → (has_zero_field e i ≡ true → has_opcode_bits e i ≡ true)
    → has_zeros e i ≡ true
    → encodes e i ≡ true
unfolding has_zeros encodes has_zero_field
zeros-encodes (Entry.ldms u p w) i bits zeros =
    let valid = bits refl in rw (valid, no_write_back i u p w valid zeros) refl
zeros-encodes _ i bits zeros = bits zeros

-- For every instruction word in which the bits are zero that should be (`has_zeros`: bits 8 to 11
-- of a half-word or signed-byte transfer at a register offset, and the write-back bit of a LDM
-- with the S bit and without R15 in its list), every `debug_assert!` in the handler that the table
-- gives for its opcode holds: on the bits that choose the handler, and in `ldms` that there is no
-- write-back where R15 is not in the list. For a handler without one, other than `unimplemented`,
-- the bits that choose it are those that the architecture gives the instruction.
pub opcode_lut-encodes :
    (i : ℕ) → has_zeros (opcode_lut (opcode i)) i ≡ true → encodes (opcode_lut (opcode i)) i ≡ true
opcode_lut-encodes i zeros = zeros-encodes (opcode_lut (opcode i)) i (opcode_bits i) zeros
