-- ===== src/Arm/Transfers/Stacks.antt =====
-- src/cpu/armv4_is.rs: STM with a decremented base and LDM with an incremented one, a push and a pop.
use pksx.Base.{
  ℕ, ◌+◌, ◌-◌, ◌*◌, ◌^◌, ◌≤◌, ◌<◌, bit_and, ◌≡◌, refl, sym, ap, ◌∙◌, inl, inr, Bool, true, false,
  ◌&&◌, arith, ◌==◌, ==_iff, Bool-cases, holds_below, holds_below-test, ok, shl32, wrapping_add,
  wrapping_sub, nonzero, update, count_ones,
}
use mathlib.Core.Path.{subst}
use pksx.Cpu.{Cpu, reg, set_reg_pc_mask}
use pksx.Cpu.Machine.{Machine, no_debugger}
use pksx.Cpu.Blocks.{
  in_list, count_from, IsBlock, with_bytes, with_registers, store_words, restored,
}
use pksx.Cpu.Blocks.Loops.{
  Holds, store_registers_lem, store_words-IsBytes, store_words-Holds, load_registers_lem,
}
use pksx.Cpu.Restored.{
  in_list-lt, restored_lem, popped, sub_word, count_from-count_ones, in_list-bit, set_reg-plain,
}
use pksx.Arm.{rn}
use pksx.Arm.Transfers.Multiple.{
  register_list, mode4_start_wb, mode4_is_valid, unpredictable_list, stm, ldm,
}

set_reg_pc_mask-plain :
    (r v : ℕ) (c : Cpu)
    → r < 15
    → set_reg_pc_mask r v c ≡ record c { registers = update c.registers r v }
unfolding set_reg_pc_mask
set_reg_pc_mask-plain r v c h = ground arith

-- The start of the block that a push by the base writes.
abbrev pub pushed_at : ℕ → Machine (Unit {0}) → ℕ
pushed_at i s = s.cpu.registers (rn i) - 4 * count_ones 32 (register_list i)

-- A list that a push and a pop by the base may go with: of registers other than the base and R15.
pub record IsPushable (i : ℕ) : Type 0 where
  pub base : rn i < 15
  pub occupied : 1 ≤ register_list i
  pub below : register_list i < 2 ^ 15
  pub apart : in_list (register_list i) (rn i) ≡ false

one_bit : (r : ℕ) → r < 15 → shl32 1 r ≡ 2 ^ r
unfolding holds_below
one_bit r h =
    (==_iff (shl32 1 r) (2 ^ r)).0 (holds_below-test (λ k. shl32 1 k == 2 ^ k) 15 refl r h)

occupied_list : (list : ℕ) → 1 ≤ list → (list == 0) ≡ false
occupied_list list h = ground arith

other_register : (r : ℕ) → r < 15 → (r == 15) ≡ false
other_register r h = ground arith

predictable : (i : ℕ) → IsPushable i → unpredictable_list true i ≡ false
predictable i p =
    let list = register_list i in
    let masked : nonzero (bit_and list (shl32 1 (rn i))) ≡ false =
      ap (λ b. nonzero (bit_and list b)) (one_bit (rn i) p.base)
      ∙ (in_list-bit list (rn i) ∙ p.apart) in
    let some_register : (list == 0) ≡ false = occupied_list list p.occupied in
    let other : (rn i == 15) ≡ false = other_register (rn i) p.base in
    rw (some_register, other, masked) refl

no_pc : (i : ℕ) → IsPushable i → nonzero (bit_and (register_list i) (2 ^ 15)) ≡ false
no_pc i p = in_list-bit (register_list i) 15 ∙ elim (Bool-cases (in_list (register_list i) 15)) [
  | inr out ↦ out
  | inl into ↦ absurd (omega (arith, in_list-lt 15 (register_list i) 15 p.below into))
]

counts :
    (i : ℕ) → IsPushable i → count_from (register_list i) 16 0 ≡ count_ones 32 (register_list i)
counts i p = count_from-count_ones 16 16 (register_list i) (omega (arith, p.below))

abbrev pushed : ℕ → Machine (Unit {0}) → Machine (Unit {0})
pushed i s = with_registers (update s.cpu.registers (rn i) (pushed_at i s)) (
    with_bytes
      (store_words (register_list i) 16 0 (pushed_at i s) s.cpu.registers s.cpu.inter.ram.bytes) s)

four_times : (n : ℕ) → n * 4 ≡ 4 * n
four_times n = omega arith

free_of_clash :
    (x : ℕ → Bool) (base r : ℕ) → x base ≡ false → x r ≡ true → (true && r == base) ≡ false
free_of_clash x base r out into = elim (Bool-cases (r == base)) [
  | inr other ↦ other
  | inl same ↦ absurd (cc (ap x ((==_iff r base).0 same)))
]

stm_lem :
    (i : ℕ) (s : Machine (Unit {0}))
    → mode4_is_valid i true false false true false ≡ true
    → IsPushable i
    → 4 * count_ones 32 (register_list i) ≤ s.cpu.registers (rn i)
    → IsBlock (pushed_at i s) (count_ones 32 (register_list i)) s.cpu.inter
    → stm no_debugger false true true i s ≡ ok (pushed i s)
unfolding stm mode4_start_wb reg
stm_lem i s valid p room b =
    let list = register_list i in
    let n = count_ones 32 list in
    let start : wrapping_sub (s.cpu.registers (rn i)) (n * 4) ≡ pushed_at i s =
      ap (λ m. wrapping_sub (s.cpu.registers (rn i)) m) (four_times n)
      ∙ sub_word (s.cpu.registers (rn i)) (4 * n) room (omega (arith, b.fits)) in
    let stores =
      store_registers_lem (λ r. true && r == rn i) list 16 0 (pushed_at i s) true s
        (λ r h. free_of_clash (in_list list) (rn i) r p.apart h)
        (subst (λ m. IsBlock (pushed_at i s) m s.cpu.inter) (sym (counts i p)) b) in
    let s' =
      with_bytes (store_words list 16 0 (pushed_at i s) s.cpu.registers s.cpu.inter.ram.bytes) s in
    rw (valid, predictable i p, no_pc i p, start, stores)
      (ap (λ c. ok (record s' { cpu = c })) (set_reg-plain (rn i) (pushed_at i s) s'.cpu p.base))

ldm_lem :
    (i : ℕ) (saved : ℕ → ℕ) (addr : ℕ) (t : Machine (Unit {0}))
    → mode4_is_valid i false true false true true ≡ true
    → IsPushable i
    → t.cpu.registers (rn i) ≡ addr
    → saved (rn i) ≡ addr + 4 * count_ones 32 (register_list i)
    → IsBlock addr (count_ones 32 (register_list i)) t.cpu.inter
    → Holds (register_list i) saved t.cpu.inter.ram.bytes 16 0 addr
    → ldm no_debugger true false true i t
      ≡ ok (with_registers (popped (rn i) (register_list i) saved t.cpu.registers) t)
unfolding ldm mode4_start_wb reg
ldm_lem i saved addr t valid p at above b holds =
    let list = register_list i in
    let n = count_ones 32 list in
    let end : wrapping_add addr (n * 4) ≡ saved (rn i) =
      omega (arith, four_times n, above, b.fits) in
    let loads =
      load_registers_lem set_reg_pc_mask list saved 16 0 addr t set_reg_pc_mask-plain
        (λ r h. in_list-lt 15 list r p.below h)
        (subst (λ m. IsBlock addr m t.cpu.inter) (sym (counts i p)) b) holds in
    let t' = with_registers (restored list 16 0 saved t.cpu.registers) t in
    rw (valid, predictable i p, at, loads, end)
      (ap (λ c. ok (record t' { cpu = c })) (set_reg-plain (rn i) (saved (rn i)) t'.cpu p.base)
        ∙ ap (λ f. ok (with_registers f t))
            (rw (restored_lem 16 list saved t.cpu.registers (omega (arith, p.below))) refl))

updated : (f : ℕ → ℕ) (r v : ℕ) → update f r v r ≡ v
updated f r v = ground arith

-- Where R0 to R15 hold words, and the block below the base is aligned and in a RAM that is visible
-- at 0 and holds bytes, take a STMDB and an LDMIA with write-back, of the same base and the same
-- list of at least one register, without the base and R15: the STM returns with the base at the
-- block below it, and whatever the other registers are then, the LDM returns with the registers of
-- the list and the base as they were before the STM.
pub stm-ldm :
    (i j : ℕ) (s : Machine (Unit {0})) (others : ℕ → ℕ)
    → mode4_is_valid i true false false true false ≡ true
    → mode4_is_valid j false true false true true ≡ true
    → rn j ≡ rn i
    → register_list j ≡ register_list i
    → IsPushable i
    → 4 * count_ones 32 (register_list i) ≤ s.cpu.registers (rn i)
    → ((r : ℕ) → r < 16 → s.cpu.registers r < 2 ^ 32)
    → IsBlock (pushed_at i s) (count_ones 32 (register_list i)) s.cpu.inter
    → others (rn i) ≡ pushed_at i s
    → (s₁ : Machine (Unit {0})) × (stm no_debugger false true true i s ≡ ok s₁)
      × (s₁.cpu.registers (rn i) ≡ pushed_at i s)
      × (ldm no_debugger true false true j (with_registers others s₁)
          ≡ ok (with_registers (popped (rn i) (register_list i) s.cpu.registers others) s₁))
stm-ldm i j s others valid valid' base same p room words b at =
    let list = register_list i in
    let bytes = s.cpu.inter.ram.bytes in
    let after : IsBlock (pushed_at i s) (count_ones 32 list) (pushed i s).cpu.inter = record {
      visible = b.visible;
      bytes = store_words-IsBytes list 16 0 (pushed_at i s) s.cpu.registers bytes b.bytes;
      aligned = b.aligned;
      fits = b.fits;
    } in
    let holds =
      store_words-Holds list 16 0 (pushed_at i s) s.cpu.registers bytes words (omega arith) in
    let p' : IsPushable j = record {
      base = rw base p.base;
      occupied = rw same p.occupied;
      below = rw same p.below;
      apart = rw (same, base) p.apart;
    } in
    let pops =
      ldm_lem j s.cpu.registers (pushed_at i s) (with_registers others (pushed i s)) valid' p'
        (rw base at) (rw (same, base) (omega (arith, room))) (rw same after) (rw same holds) in
    (
      pushed i s,
      stm_lem i s valid p room b,
      updated s.cpu.registers (rn i) (pushed_at i s),
      subst
          (λ l.
            ldm no_debugger true false true j (with_registers others (pushed i s))
            ≡ ok (with_registers (popped (rn i) l s.cpu.registers others) (pushed i s)))
          same
          (subst
            (λ k.
              ldm no_debugger true false true j (with_registers others (pushed i s))
              ≡ ok
                  (with_registers (popped k (register_list j) s.cpu.registers others) (pushed i s)))
            base pops),
    )
