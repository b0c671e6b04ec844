-- ===== src/Arm/Branches/Returns.antt =====
-- src/cpu/armv4_is.rs: a call by BL and the return from it by BX LR.
use pksx.Base.{
  asr, ℕ, ◌+◌, ◌-◌, ◌*◌, ◌%◌, ◌^◌, ◌<◌, bit_and, ◌≡◌, refl, ap, ◌∙◌, false, arith, ltb,
  if◌then◌else◌, Result, ok, not32, wrapping_add, nonzero,
}
use pksx.Base.Bits.Laws.{bit_and_mask, bit_and-add_not}
use pksx.Cpu.{Cpu, reg, set_reg, set_pc, set_pc_thumb}
use pksx.Arm.{rm}
use pksx.Arm.Branches.{branch_imm_offset, bx, bl}

-- Four times the signed number in the low 24 bits of an instruction, as a word.
abbrev pub word_offset : ℕ → ℕ
word_offset i = let n = i % 2 ^ 24 in if ltb n (2 ^ 23) then 4 * n else 4 * n + 2 ^ 32 - 2 ^ 26

branch_imm_offset_lem : (i : ℕ) → branch_imm_offset i ≡ word_offset i
unfolding branch_imm_offset asr
branch_imm_offset_lem i = ground arith

-- An even address is left alone by the mask of a target.
even_target : (a : ℕ) → a < 2 ^ 32 → a % 2 ≡ 0 → (bit_and a 1 ≡ 0) × (bit_and a (not32 1) ≡ a)
even_target a h even =
    let low = bit_and_mask 1 a in
    let split = bit_and-add_not 32 a 1 h (omega arith) in (omega arith, omega arith)

-- What BL leaves: the link, the target and the lower registers.
bl_lem :
    (i : ℕ) (c c₁ : Cpu)
    → bl i c ≡ ok c₁
    → (c₁.registers 14 ≡ c.next_pc)
      × (c₁.next_pc ≡ wrapping_add (c.registers 15) (branch_imm_offset i))
      × ((r : ℕ) → r < 14 → c₁.registers r ≡ c.registers r)
unfolding bl reg set_reg set_pc
bl_lem i c c₁ call = (ground arith, ground arith, λ r k. ground arith)

-- A call, and the return from it.
pub record IsCall (i : ℕ) (c c₁ : Cpu) (result : Result Cpu) : Type 0 where
  pub after : Cpu
  pub returns : result ≡ ok after
  pub called : c₁.next_pc ≡ wrapping_add (c.registers 15) (word_offset i)
  pub back : after.next_pc ≡ c.next_pc
  pub in_arm : after.thumb ≡ false
  pub kept : (r : ℕ) → r < 14 → after.registers r ≡ c.registers r

-- A BL that starts where the next program counter is an even word returns with the next program
-- counter at R15 plus four times the signed 24-bit offset, as a word; BX LR then returns to the
-- old next program counter in ARM state, with R0 to R13 as before.
pub bl-bx :
    (i : ℕ) (c c₁ : Cpu)
    → c.next_pc < 2 ^ 32
    → c.next_pc % 2 ≡ 0
    → bl i c ≡ ok c₁
    → IsCall i c c₁ (bx 0xe12fff1e c₁)
unfolding bx rm reg set_pc set_pc_thumb
bl-bx i c c₁ h even call =
    let (link, target, lower) = bl_lem i c c₁ call in
    let (arm, masked) = even_target c.next_pc h even in
    record {
      after =
          set_pc_thumb (bit_and (c₁.registers 14) (not32 1)) (nonzero (bit_and (c₁.registers 14) 1))
            c₁;
      returns = refl;
      called = target ∙ rw branch_imm_offset_lem;
      back = ap (λ a. bit_and a (not32 1)) link ∙ masked;
      in_arm = ap (λ a. nonzero (bit_and a 1)) link ∙ ap nonzero arm;
      kept = λ r k. ground (arith, lower r k);
    }
