-- ===== src/Thumb/Table/Decoding.antt =====
-- src/cpu/thumbv1_is.rs: the table of opcodes against the formats of the Thumb instructions.
use mathlib.Core.Path.{subst}
use pksx.Base.{
  ℕ, Bool, false, ◌&&◌, ◌↔◌, nonzero, ◌*◌, ◌/◌, ◌%◌, ◌^◌, ◌<◌, ◌≡◌, refl, ap, true, List, [], ◌∷◌,
  arith, ◌==◌, if◌then◌else◌, holds_below, holds_below-test, get_or,
}
use pksx.Thumb.{opcode}
use pksx.Thumb.Opcodes.{
  Entry, unimplemented, op00x_lsl_ri5, op02x_lsr_ri5, op04x_asr_ri5, op06x_add_rr, op06x_sub_rr,
  op07x_add_i3, op07x_sub_i3, op08x_mov_i8, op0ax_cmp_i8, op0cx_add_i8, op0ex_sub_i8, op100_and,
  op101_eor, op102_lsl_r, op103_lsr_r, op104_asr_r, op105_adc_rr, op107_ror, op108_tst, op109_neg,
  op10a_cmp, op10b_cmn, op10c_orr, op10d_mul, op10e_bic, op10f_mvn, op111_add_hi, op115_cmp_hi,
  op118_cpy, op11c_bx, op12x_ldr_pc, op14x_str_rr, op14x_strh_rr, op15x_strb_rr, op15x_ldrsb_rr,
  op16x_ldr_rr, op16x_ldrh_rr, op17x_ldrb_rr, op17x_ldrsh_rr, op18x_str_ri5, op1ax_ldr_ri5,
  op1cx_strb_ri5, op1ex_ldrb_ri5, op20x_strh_ri5, op22x_ldrh_ri5, op24x_str_sp, op26x_ldr_sp,
  op28x_add_pc, op2ax_add_sp_i, op2c0_add_sp, op2c2_sub_sp, op2d0_push, op2d4_push_lr, op2f0_pop,
  op2f4_pop_pc, op30x_stmia, op32x_ldmia, op340_beq, op344_bne, op348_bcs, op34c_bcc, op350_bmi,
  op354_bpl, op360_bhi, op364_bls, op368_bge, op36c_blt, op370_bgt, op374_ble, op37c_swi, op38x_b,
  op3cx_bl_hi, op3ex_bl_lo,
}
use pksx.Thumb.Table.Codes.{code, code-injective}
use pksx.Thumb.Table.{opcode_lut, table_0, table_1, table_2, table_3}

-- The instructions of the Thumb set of ARMv4T: those that have a handler, those that have none, and
-- the words that the set leaves undefined or unpredictable by their bits 15 to 6. `cmp_high` is a CMP whose first register
-- is high. A MOV of two low registers, which the set leaves unpredictable too, is read as CPY.
pub data Instruction : Type 0 where
  known : Entry → Instruction
  sbc cmp_high bvs bvc undefined : Instruction

-- What the table should hold for an instruction: no handler for SBC, BVS, BVC, a CMP whose first
-- register is high, and undefined words.
abbrev pub entry_of : Instruction → Entry
entry_of (known e) = e
entry_of _ = unimplemented

abbrev pub has_handler : Instruction → Bool
has_handler (known e) = true
has_handler _ = false

-- The one of a list that a field selects.
abbrev pub select : List Instruction → ℕ → Instruction
select instructions n = get_or instructions n undefined

-- A list of instructions that have handlers, and what follows it.
abbrev pub knowns : List Entry → List Instruction → List Instruction
knowns [] rest = rest
knowns (e ∷ es) rest = known e ∷ knowns es rest

abbrev register_ops : List Instruction
register_ops =
    knowns (op100_and ∷ op101_eor ∷ op102_lsl_r ∷ op103_lsr_r ∷ op104_asr_r ∷ op105_adc_rr ∷ []) (
      sbc
      ∷ knowns
          (op107_ror ∷ op108_tst ∷ op109_neg ∷ op10a_cmp ∷ op10b_cmn ∷ op10c_orr ∷ op10d_mul
            ∷ op10e_bic ∷ op10f_mvn ∷ [])
          [])

-- The operations on high registers, by their code and the two bits of the registers, the first
-- register's first. ADD and CMP want a high register, BX has no first register.
abbrev high_ops : List Instruction
high_ops =
    undefined
    ∷ knowns (op111_add_hi ∷ op111_add_hi ∷ op111_add_hi ∷ []) (
        undefined
        ∷ known op115_cmp_hi
        ∷ cmp_high
        ∷ cmp_high
        ∷ knowns (op118_cpy ∷ op118_cpy ∷ op118_cpy ∷ op118_cpy ∷ op11c_bx ∷ op11c_bx ∷ [])
            (undefined ∷ undefined ∷ []))

abbrev indexed_ops : List Instruction
indexed_ops =
    knowns
      (op14x_str_rr ∷ op14x_strh_rr ∷ op15x_strb_rr ∷ op15x_ldrsb_rr ∷ op16x_ldr_rr ∷ op16x_ldrh_rr
        ∷ op17x_ldrb_rr ∷ op17x_ldrsh_rr ∷ [])
      []

-- The conditional branches, with SWI in the place of the condition 15.
abbrev pub conditional_ops : List Instruction
conditional_ops =
    knowns (op340_beq ∷ op344_bne ∷ op348_bcs ∷ op34c_bcc ∷ op350_bmi ∷ op354_bpl ∷ []) (
      bvs
      ∷ bvc
      ∷ knowns (op360_bhi ∷ op364_bls ∷ op368_bge ∷ op36c_blt ∷ op370_bgt ∷ op374_ble ∷ [])
          (undefined ∷ known op37c_swi ∷ []))

-- The format 0b1011: the stack.
abbrev stack_op : ℕ → Instruction
stack_op i =
    let n = i / 2 ^ 8 % 16 in
    if n == 0
    then (if i / 2 ^ 7 % 2 == 0 then known op2c0_add_sp else known op2c2_sub_sp)
    else if n == 4
    then known op2d0_push
    else if n == 5
    then known op2d4_push_lr
    else if n == 12
    then known op2f0_pop
    else if n == 13
    then known op2f4_pop_pc
    else undefined

-- The formats 0b000 and 0b010.
abbrev format_0 : ℕ → Instruction
format_0 i =
    let sums = knowns (op06x_add_rr ∷ op06x_sub_rr ∷ op07x_add_i3 ∷ op07x_sub_i3 ∷ []) [] in
    select
      (knowns (op00x_lsl_ri5 ∷ op02x_lsr_ri5 ∷ op04x_asr_ri5 ∷ [])
        (select sums (i / 2 ^ 9 % 4) ∷ []))
      (i / 2 ^ 11 % 4)

abbrev format_2 : ℕ → Instruction
format_2 i =
    if i / 2 ^ 12 % 2 == 1
    then select indexed_ops (i / 2 ^ 9 % 8)
    else if i / 2 ^ 11 % 2 == 1
    then known op12x_ldr_pc
    else if i / 2 ^ 10 % 2 == 1
    then select high_ops (i / 2 ^ 6 % 16)
    else select register_ops (i / 2 ^ 6 % 16)

-- What the highest bits of an instruction, and then its fields, say that it is.
unfoldable pub decode : ℕ → Instruction
decode i =
    let n = i / 2 ^ 11 % 4 in
    select
      (format_0 i
        ∷ select (knowns (op08x_mov_i8 ∷ op0ax_cmp_i8 ∷ op0cx_add_i8 ∷ op0ex_sub_i8 ∷ []) []) n
        ∷ format_2 i
        ∷ select (knowns (op18x_str_ri5 ∷ op1ax_ldr_ri5 ∷ op1cx_strb_ri5 ∷ op1ex_ldrb_ri5 ∷ []) [])
            n
        ∷ select (knowns (op20x_strh_ri5 ∷ op22x_ldrh_ri5 ∷ op24x_str_sp ∷ op26x_ldr_sp ∷ []) []) n
        ∷ select (knowns (op28x_add_pc ∷ op2ax_add_sp_i ∷ []) (stack_op i ∷ stack_op i ∷ [])) n
        ∷ select
            (knowns (op30x_stmia ∷ op32x_ldmia ∷ []) (
              select conditional_ops (i / 2 ^ 8 % 16)
              ∷ select conditional_ops (i / 2 ^ 8 % 16)
              ∷ []))
            n
        ∷ select (known op38x_b ∷ undefined ∷ knowns (op3cx_bl_hi ∷ op3ex_bl_lo ∷ []) []) n
        ∷ [])
      (i / 2 ^ 13)

-- The table holds the handlers of the set, and lacks those of the others.
abbrev is_right : ℕ → Instruction → Bool
is_right op instruction =
    let n = code (opcode_lut op) in
    (n == code (entry_of instruction)) && (if has_handler instruction then nonzero n else (n == 0))

table_decode : holds_below (λ op. is_right op (decode (op * 64))) 1024 ≡ true
unfolding holds_below opcode_lut decode table_0 table_1 table_2 table_3
table_decode = refl

-- The fields that decide lie above the lowest six bits.
decode-opcode : (i : ℕ) → decode (i / 64 * 64) ≡ decode i
unfolding decode
decode-opcode i =
    let j = i / 64 * 64 in
    let f6 : j / 2 ^ 6 ≡ i / 2 ^ 6 = omega arith in
    let f7 : j / 2 ^ 7 ≡ i / 2 ^ 7 = omega arith in
    let f8 : j / 2 ^ 8 ≡ i / 2 ^ 8 = omega arith in
    let f9 : j / 2 ^ 9 ≡ i / 2 ^ 9 = omega arith in
    let f10 : j / 2 ^ 10 ≡ i / 2 ^ 10 = omega arith in
    let f11 : j / 2 ^ 11 ≡ i / 2 ^ 11 = omega arith in
    let f12 : j / 2 ^ 12 ≡ i / 2 ^ 12 = omega arith in
    let f13 : j / 2 ^ 13 ≡ i / 2 ^ 13 = omega arith in rw (f6, f7, f8, f9, f10, f11, f12, f13)

-- An entry is `unimplemented` where its number is 0.
unimplemented_iff :
    (e : Entry) (handled : Bool)
    → (if handled then nonzero (code e) else (code e == 0)) ≡ true
    → (e ≡ unimplemented) ↔ (handled ≡ false)
unimplemented_iff e true h = (λ same. absurd (cc (ap code same)), λ off. absurd cc)
unimplemented_iff e false h = (λ same. refl, λ off. code-injective e unimplemented h)

both_true : (a : Bool) {b : Bool} → (a && b) ≡ true → (a ≡ true) × (b ≡ true)
both_true true h = (refl, h)
both_true false h = absurd cc

-- For every 16-bit instruction, the table gives its opcode the handler of the instruction that the
-- fields of the word decode to, and none exactly where the word decodes to SBC, BVS, BVC, a CMP
-- whose first register is high, or to no instruction. Words whose bits 15 to 6 the set leaves
-- undefined or unpredictable decode to none, but for a MOV of two low registers, which is read as
-- CPY.
pub opcode_lut-decode :
    (i : ℕ)
    → i < 2 ^ 16
    → (opcode_lut (opcode i) ≡ entry_of (decode i))
      × ((opcode_lut (opcode i) ≡ unimplemented) ↔ (has_handler (decode i) ≡ false))
unfolding opcode
opcode_lut-decode i h =
    let op = i / 64 in
    let right : is_right op (decode (op * 64)) ≡ true =
      holds_below-test (λ o. is_right o (decode (o * 64))) 1024 table_decode op (omega arith) in
    let here = subst (λ d. is_right op d ≡ true) (decode-opcode i) right in
    let (entry, handled) = both_true (code (opcode_lut op) == code (entry_of (decode i))) here in
    (
      code-injective (opcode_lut op) (entry_of (decode i)) entry,
      unimplemented_iff (opcode_lut op) (has_handler (decode i)) handled,
    )
