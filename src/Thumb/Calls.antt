-- ===== src/Thumb/Calls.antt =====
-- src/cpu/thumbv1_is.rs: a call by the two instructions of BL and the return from it by BX LR.
use pksx.Base.{
  ℕ, ◌+◌, ◌-◌, ◌*◌, ◌/◌, ◌%◌, ◌^◌, ◌<◌, bit_and, bit_or, ◌≡◌, refl, sym, ap, ◌∙◌, true, arith, ltb,
  if◌then◌else◌, Result, ok, shl32, not32, wrapping_add, nonzero, asr,
}
use pksx.Base.Bits.Laws.{bit_and_mask, bit_or_fields_high, bit_and-add_not}
use pksx.Cpu.{Cpu, reg, set_reg, set_pc, set_pc_thumb}
use pksx.Thumb.{reg_3_full, signed_imm11, b_imm_offset_11}
use pksx.Thumb.Branches.{op11c_bx, op3cx_bl_hi, op3ex_bl_lo}

-- The signed number of 22 bits whose halves are in two instructions, doubled, as a word.
abbrev pub call_offset : ℕ → ℕ → ℕ
call_offset i j =
    let hi = i % 2 ^ 11 in
    let n = 2 ^ 12 * hi + 2 * (j % 2 ^ 11) in if ltb hi (2 ^ 10) then n else n + 2 ^ 32 - 2 ^ 23

high_lem :
    (i : ℕ)
    → shl32 (signed_imm11 i) 12 ≡ (
        if ltb (i % 2 ^ 11) (2 ^ 10)
        then 2 ^ 12 * (i % 2 ^ 11)
        else 2 ^ 12 * (i % 2 ^ 11) + 2 ^ 32 - 2 ^ 23)
unfolding signed_imm11 asr
high_lem i = let low = bit_and_mask 11 i in ground (arith, low)

low_lem : (j : ℕ) → shl32 (b_imm_offset_11 j) 1 ≡ 2 * (j % 2 ^ 11)
unfolding b_imm_offset_11
low_lem j = omega (arith, bit_and_mask 11 j)

-- The link of a call from Thumb code has its lowest bit set.
link_lem :
    (a : ℕ)
    → a < 2 ^ 32
    → a % 2 ≡ 0
    → (bit_or a 1 ≡ a + 1) × (bit_and (a + 1) 1 ≡ 1) × (bit_and (a + 1) (not32 1) ≡ a)
link_lem a h even =
    let joined = bit_or_fields_high 1 (a / 2) 1 (omega arith) in
    let low = bit_and_mask 1 (a + 1) in
    let split = bit_and-add_not 32 (a + 1) 1 (omega arith) (omega arith) in
    let whole : a / 2 * 2 ^ 1 ≡ a = omega arith in
    (ap (λ x. bit_or x 1) (sym whole) ∙ (joined ∙ omega arith), omega arith, omega arith)

-- A call, and the return from it.
pub record IsCall (i j : ℕ) (c c₁ : Cpu) (result : Result Cpu) : Type 0 where
  pub after : Cpu
  pub returns : result ≡ ok after
  pub called : (op3ex_bl_lo j c₁).next_pc ≡ wrapping_add (c.registers 15) (call_offset i j)
  pub back : after.next_pc ≡ c₁.next_pc
  pub in_thumb : after.thumb ≡ true
  pub kept : (r : ℕ) → r < 14 → after.registers r ≡ c.registers r

-- What the two instructions leave.
call_lem :
    (i j : ℕ) (c c₁ : Cpu)
    → c₁.registers 14 ≡ (op3cx_bl_hi i c).registers 14
    → ((op3ex_bl_lo j c₁).next_pc ≡ wrapping_add (c.registers 15) (call_offset i j))
      × ((op3ex_bl_lo j c₁).registers 14 ≡ bit_or c₁.next_pc 1)
unfolding op3cx_bl_hi op3ex_bl_lo reg set_reg set_pc
call_lem i j c c₁ link =
    let high = high_lem i in
    let low = low_lem j in
    let base : c₁.registers 14 ≡ wrapping_add (c.registers 15) (shl32 (signed_imm11 i) 12) = link in
    (ground (arith, base, high, low), refl)

low_registers :
    (i j : ℕ) (c c₁ : Cpu) (r : ℕ)
    → r < 14
    → ((op3ex_bl_lo j c₁).registers r ≡ c₁.registers r)
      × ((op3cx_bl_hi i c).registers r ≡ c.registers r)
unfolding op3cx_bl_hi op3ex_bl_lo reg set_reg set_pc
low_registers i j c c₁ r k = (ground arith, ground arith)

-- Where the registers R0 to R14 are as the first half of a Thumb BL left them, and the next
-- program counter is an even word, the second half goes to R15 of the first plus the signed 23-bit
-- offset of the two halves, as a word; BX LR then returns to the next program counter, in Thumb
-- state, with R0 to R13 as before the call.
pub bl_hi-bl_lo :
    (i j : ℕ) (c c₁ : Cpu)
    → ((r : ℕ) → r < 15 → c₁.registers r ≡ (op3cx_bl_hi i c).registers r)
    → c₁.next_pc < 2 ^ 32
    → c₁.next_pc % 2 ≡ 0
    → IsCall i j c c₁ (op11c_bx 0x4770 (op3ex_bl_lo j c₁))
unfolding op11c_bx reg reg_3_full set_pc_thumb set_pc
bl_hi-bl_lo i j c c₁ still h even =
    let (target, link) = call_lem i j c c₁ (still 14 (omega arith)) in
    let (joined, odd, masked) = link_lem c₁.next_pc h even in
    let address = link ∙ joined in
    let back = (op3ex_bl_lo j c₁).registers 14 in
    record {
      after = set_pc_thumb (bit_and back (not32 1)) (nonzero (bit_and back 1)) (op3ex_bl_lo j c₁);
      returns = refl;
      called = target;
      back = ap (λ a. bit_and a (not32 1)) address ∙ masked;
      in_thumb = ap (λ a. nonzero (bit_and a 1)) address ∙ ap nonzero odd;
      kept = λ r k. let same = low_registers i j c c₁ r k in ground (arith, still r (omega arith));
    }
