-- ===== src/Thumb/Conditions.antt =====
-- src/cpu/thumbv1_is.rs: the conditional branches, and the comparison before one.
use pksx.Base.{
  ℕ, zero, suc, ◌+◌, ◌-◌, ◌*◌, ◌/◌, ◌%◌, ◌^◌, ◌≤◌, ◌<◌, ◌≡◌, refl, sym, ap, ◌∙◌, ◌≢◌, ◌⊎◌, inl, inr,
  Bool, true, false, not, xor, ◌||◌, arith, ltb, if◌then◌else◌, Result, ok, panic, shl32,
  wrapping_add,
}
use pksx.Base.Bits.Laws.{bit_and_mask}
use pksx.Cpu.{Cpu, reg, set_pc}
use pksx.Cpu.Machine.{Machine, Debugger, with_cpu}
use pksx.Arm.{cond_true}
use pksx.Arm.Compare.{IsComparison, sub_flags-IsComparison}
use pksx.Thumb.{signed_imm8, reg_0, reg_3, subs}
use pksx.Thumb.Arithmetic.{op10a_cmp}
use pksx.Thumb.Branches.{
  op340_beq, op344_bne, op348_bcs, op34c_bcc, op350_bmi, op354_bpl, op360_bhi, op364_bls, op368_bge,
  op36c_blt, op370_bgt, op374_ble,
}
use pksx.Thumb.Opcodes.{handler}
use pksx.Thumb.Table.{execute}
use pksx.Thumb.Table.Decoding.{entry_of, decode, conditional_ops, select, opcode_lut-decode}

-- Twice the signed number in the low eight bits of an instruction, as a word.
abbrev pub half_word_offset : ℕ → ℕ
half_word_offset i = let n = i % 2 ^ 8 in if ltb n (2 ^ 7) then 2 * n else 2 * n + 2 ^ 32 - 2 ^ 9

-- The jump of a branch that is taken.
abbrev pub jump : ℕ → Bool → Cpu → Cpu
jump i taken c = if taken then set_pc (wrapping_add (reg 15 c) (half_word_offset i)) c else c

offset_lem : (i : ℕ) → shl32 (signed_imm8 i) 1 ≡ half_word_offset i
unfolding signed_imm8
offset_lem i = let low = bit_and_mask 8 i in ground (arith, low)

not_twice : (x : Bool) → not (not x) ≡ x
not_twice true = refl
not_twice false = refl

ok_bool : {x y : Bool} → ok x ≡ ok y → x ≡ y
ok_bool {x} h = ap (λ (r : Result Bool). elim r [ ok b ↦ b | panic e ↦ x ]) h

module _ {D : Type 0} (dbg : Debugger D) (i : ℕ) (s : Machine D) where
  jump_eq :
      {x taken : Bool}
      → ok x ≡ ok taken
      → ok (
          with_cpu
            (λ c. if x then set_pc (wrapping_add (reg 15 c) (shl32 (signed_imm8 i) 1)) c else c)
            s)
        ≡ ok (with_cpu (jump i taken) s)
  jump_eq {taken = taken} h =
      ap
        (λ t. ok (
          with_cpu
            (λ c. if t then set_pc (wrapping_add (reg 15 c) (shl32 (signed_imm8 i) 1)) c else c) s))
        (ok_bool h)
      ∙ ap (λ o. ok (with_cpu (λ c. if taken then set_pc (wrapping_add (reg 15 c) o) c else c) s))
          (offset_lem i)

  conditional_lem :
      (n : ℕ) (taken : Bool)
      → n < 14
      → n ≢ 6
      → n ≢ 7
      → cond_true n s.cpu ≡ ok taken
      → handler dbg (entry_of (select conditional_ops n)) i s ≡ ok (with_cpu (jump i taken) s)
  unfolding cond_true handler op340_beq op344_bne op348_bcs op34c_bcc op350_bmi op354_bpl op360_bhi
      op364_bls op368_bge op36c_blt op370_bgt op374_ble
  conditional_lem zero taken k k6 k7 h = jump_eq h
  conditional_lem (suc zero) taken k k6 k7 h = jump_eq h
  conditional_lem (suc (suc zero)) taken k k6 k7 h = jump_eq h
  conditional_lem (suc (suc (suc zero))) taken k k6 k7 h = jump_eq h
  conditional_lem (suc (suc (suc (suc zero)))) taken k k6 k7 h = jump_eq h
  conditional_lem (suc (suc (suc (suc (suc zero))))) taken k k6 k7 h = jump_eq h
  conditional_lem (suc (suc (suc (suc (suc (suc zero)))))) taken k k6 k7 h = absurd (omega arith)
  conditional_lem (suc (suc (suc (suc (suc (suc (suc zero))))))) taken k k6 k7 h =
      absurd (omega arith)
  conditional_lem (suc (suc (suc (suc (suc (suc (suc (suc zero)))))))) taken k k6 k7 h = jump_eq h
  conditional_lem (suc (suc (suc (suc (suc (suc (suc (suc (suc zero))))))))) taken k k6 k7 h =
      jump_eq h
  conditional_lem (suc (suc (suc (suc (suc (suc (suc (suc (suc (suc zero)))))))))) taken k k6 k7 h =
      jump_eq h
  conditional_lem (suc (suc (suc (suc (suc (suc (suc (suc (suc (suc (suc zero))))))))))) taken k k6
        k7 h =
      jump_eq (ap ok (sym (not_twice (xor s.cpu.n s.cpu.v))) ∙ h)
  conditional_lem (suc (suc (suc (suc (suc (suc (suc (suc (suc (suc (suc (suc zero)))))))))))) taken
        k k6 k7 h =
      jump_eq h
  conditional_lem (suc (suc (suc (suc (suc (suc (suc (suc (suc (suc (suc (suc (suc zero)))))))))))))
        taken k k6 k7 h =
      jump_eq (ap (λ x. ok (s.cpu.z || x)) (sym (not_twice (xor s.cpu.n s.cpu.v))) ∙ h)
  conditional_lem
        (suc (suc (suc (suc (suc (suc (suc (suc (suc (suc (suc (suc (suc (suc n)))))))))))))) taken
        k k6 k7 h =
      absurd (omega arith)

-- The format of the conditional branches.
decode_conditional : (i : ℕ) → i / 2 ^ 12 ≡ 13 → decode i ≡ select conditional_ops (i / 2 ^ 8 % 16)
unfolding decode
decode_conditional i h =
    let top : i / 2 ^ 13 ≡ 6 = omega arith in
    elim (two_cases (i / 2 ^ 11 % 4) (omega arith) (omega arith)) [
      | inl e ↦ rw (top, e)
      | inr e ↦ rw (top, e)
    ]
  where
    two_cases : (n : ℕ) → 2 ≤ n → n < 4 → (n ≡ 2) ⊎ (n ≡ 3)
    two_cases n p q = ground arith

-- A Thumb conditional branch of a condition below 14, other than the overflow conditions 6 and 7,
-- that the ARM instruction set evaluates to `taken`, jumps by twice its signed 8-bit offset from
-- R15 where it is taken, and changes nothing where it is not.
pub branch-cond_true :
    {D : Type 0} (dbg : Debugger D) (i : ℕ) (s : Machine D) (taken : Bool)
    → i / 2 ^ 12 ≡ 13
    → i / 2 ^ 8 % 16 < 14
    → i / 2 ^ 8 % 16 ≢ 6
    → i / 2 ^ 8 % 16 ≢ 7
    → cond_true (i / 2 ^ 8 % 16) s.cpu ≡ ok taken
    → execute dbg i s ≡ ok (with_cpu (jump i taken) s)
unfolding execute
branch-cond_true dbg i s taken format k k6 k7 h =
    ap (λ e. handler dbg e i s)
      ((opcode_lut-decode i (omega arith)).0 ∙ ap entry_of (decode_conditional i format))
    ∙ conditional_lem dbg i s (i / 2 ^ 8 % 16) taken k k6 k7 h

-- After a Thumb CMP of two registers that hold words, the condition codes EQ, NE, CS, CC, HI and
-- LS are the unsigned tests of the operands and GE, LT, GT and LE the signed ones.
pub op10a_cmp-IsComparison :
    (i : ℕ) (c : Cpu)
    → reg (reg_0 i) c < 2 ^ 32
    → reg (reg_3 i) c < 2 ^ 32
    → IsComparison (reg (reg_0 i) c) (reg (reg_3 i) c) (op10a_cmp i c)
unfolding op10a_cmp subs
op10a_cmp-IsComparison i c ha hb =
    sub_flags-IsComparison (reg (reg_0 i) c) (reg (reg_3 i) c) c ha hb
