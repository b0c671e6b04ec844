-- ===== src/Cpu/Blocks/Loops.antt =====
-- The loops of the multiple loads and stores, as loops on the bytes of the RAM, and back.
use pksx.Base.{
  ℕ, zero, suc, ◌+◌, ◌*◌, ◌^◌, ◌≤◌, ◌<◌, ◌≡◌, refl, ap, ◌∙◌, inl, inr, Bool, true, false, arith,
  Bool-cases, ok, wrapping_add, update,
}
use mathlib.Core.Path.{subst}
use pksx.Access.{word}
use pksx.Memory.Bytes.Words.{IsBytes, little_endian, stored, stored-IsBytes, little_endian-stored}
use pksx.Memory.Ram.Access.{little_endian_elsewhere}
use pksx.Cpu.{Cpu, reg}
use pksx.Cpu.Machine.{Machine, no_debugger, with_cpu, load_registers, store_registers}
use pksx.Cpu.Blocks.{
  IsBlock, count-into, count-out, count_from, in_list, load_word, rest-IsBlock, restored,
  restored-into, restored-out, store_word, store_words, store_words-into, store_words-out,
  with_bytes, with_registers,
}

pub store_registers_lem :
    (clash : ℕ → Bool) (list left i addr : ℕ) (first : Bool) (s : Machine (Unit {0}))
    → ((r : ℕ) → in_list list r ≡ true → clash r ≡ false)
    → IsBlock addr (count_from list left i) s.cpu.inter
    → store_registers no_debugger clash list left i addr first s
      ≡ ok (
        addr + 4 * count_from list left i,
        with_bytes (store_words list left i addr s.cpu.registers s.cpu.inter.ram.bytes) s,
      )
unfolding store_registers reg
store_registers_lem clash list zero i addr first s free b =
    unfold store_words in unfold count_from in ap (λ a. ok (a, s)) (omega arith)
store_registers_lem clash list (suc left) i addr first s free b =
    elim (Bool-cases (in_list list i)) [
      | inr out ↦
          rw
            (
              count-out list left i out,
              store_words-out list left i addr s.cpu.registers s.cpu.inter.ram.bytes out,
              out,
              store_registers,
            )
            (store_registers_lem clash list left (i + 1) addr first s free
              (subst (λ n. IsBlock addr n s.cpu.inter) (count-out list left i out) b))
      | inl into ↦
          let n = count_from list left (i + 1) in
          let block = subst (λ k. IsBlock addr k s.cpu.inter) (count-into list left i into) b in
          let bytes = s.cpu.inter.ram.bytes in
          let s₁ = with_bytes (stored word bytes addr (s.cpu.registers i)) s in
          let after =
            rest-IsBlock addr n s.cpu.inter s₁.cpu.inter block refl
              (stored-IsBytes word bytes addr (s.cpu.registers i) block.bytes) in
          let next : wrapping_add addr 4 ≡ addr + 4 = omega (arith, block.fits) in
          let sum : addr + 4 * suc n ≡ addr + 4 + 4 * n = omega arith in
          rw
            (
              count-into list left i into,
              store_words-into list left i addr s.cpu.registers bytes into,
              into,
              store_registers,
              free i into,
              store_word addr n (s.cpu.registers i) s block,
              next,
              sum,
            )
            (store_registers_lem clash list left (i + 1) (addr + 4) false s₁ free after)
    ]

pub store_words-IsBytes :
    (list left i addr : ℕ) (registers bytes : ℕ → ℕ)
    → IsBytes bytes
    → IsBytes (store_words list left i addr registers bytes)
unfolding store_words
store_words-IsBytes list zero i addr registers bytes h = h
store_words-IsBytes list (suc left) i addr registers bytes h = elim (Bool-cases (in_list list i)) [
  | inr out ↦
      rw (store_words-out list left i addr registers bytes out)
        (store_words-IsBytes list left (i + 1) addr registers bytes h)
  | inl into ↦ rw (store_words-into list left i addr registers bytes into) (
      store_words-IsBytes list left (i + 1) (addr + 4) registers
        (stored word bytes addr (registers i)) (stored-IsBytes word bytes addr (registers i) h))
]

-- The stores leave the words below them.
store_words-below :
    (list left i addr p : ℕ) (registers bytes : ℕ → ℕ)
    → p + 4 ≤ addr
    → little_endian word (store_words list left i addr registers bytes) p
      ≡ little_endian word bytes p
store_words-below list zero i addr p registers bytes h = unfold store_words in refl
store_words-below list (suc left) i addr p registers bytes h = elim (Bool-cases (in_list list i)) [
  | inr out ↦
      ap (λ b. little_endian word b p) (store_words-out list left i addr registers bytes out)
      ∙ store_words-below list left (i + 1) addr p registers bytes h
  | inl into ↦
      ap (λ b. little_endian word b p) (store_words-into list left i addr registers bytes into)
      ∙ (store_words-below list left (i + 1) (addr + 4) p registers
            (stored word bytes addr (registers i)) (omega arith)
          ∙ little_endian_elsewhere word word bytes addr p (registers i) (inl h))
]

-- The words of the block are those of the registers in the list, in order.
pub data Holds (list : ℕ) (saved bytes : ℕ → ℕ) : ℕ → ℕ → ℕ → Type 0 where
  done : (i addr : ℕ) → Holds list saved bytes zero i addr
  skips :
      (left i addr : ℕ)
      → in_list list i ≡ false
      → Holds list saved bytes left (i + 1) addr
      → Holds list saved bytes (suc left) i addr
  keeps :
      (left i addr : ℕ)
      → in_list list i ≡ true
      → little_endian word bytes addr ≡ saved i
      → Holds list saved bytes left (i + 1) (addr + 4)
      → Holds list saved bytes (suc left) i addr

pub store_words-Holds :
    (list left i addr : ℕ) (saved bytes : ℕ → ℕ)
    → ((r : ℕ) → r < 16 → saved r < 2 ^ 32)
    → left + i ≤ 16
    → Holds list saved (store_words list left i addr saved bytes) left i addr
store_words-Holds list zero i addr saved bytes words room = done i addr
store_words-Holds list (suc left) i addr saved bytes words room =
    elim (Bool-cases (in_list list i)) [
      | inr out ↦ rw (store_words-out list left i addr saved bytes out) (
          skips left i addr out
            (store_words-Holds list left (i + 1) addr saved bytes words (omega arith)))
      | inl into ↦
          let bytes' = stored word bytes addr (saved i) in
          let first =
            store_words-below list left (i + 1) (addr + 4) addr saved bytes' (omega arith)
            ∙ little_endian-stored word bytes addr (saved i) in
          let small = words i (omega arith) in
          rw (store_words-into list left i addr saved bytes into) (
            keeps left i addr into (first ∙ omega arith)
              (store_words-Holds list left (i + 1) (addr + 4) saved bytes' words (omega arith)))
    ]

pub load_registers_lem :
    (set : ℕ → ℕ → Cpu → Cpu) (list : ℕ) (saved : ℕ → ℕ) (left i addr : ℕ) (s : Machine (Unit {0}))
    → ((r v : ℕ) (c : Cpu) → r < 15 → set r v c ≡ record c { registers = update c.registers r v })
    → ((r : ℕ) → in_list list r ≡ true → r < 15)
    → IsBlock addr (count_from list left i) s.cpu.inter
    → Holds list saved s.cpu.inter.ram.bytes left i addr
    → load_registers no_debugger set list left i addr s
      ≡ ok (
        addr + 4 * count_from list left i,
        with_registers (restored list left i saved s.cpu.registers) s,
      )
unfolding load_registers
load_registers_lem set list saved zero i addr s plain low b (done _ _) =
    unfold restored in unfold count_from in ap (λ a. ok (a, s)) (omega arith)
load_registers_lem set list saved (suc k) i addr s plain low b (skips _ _ _ out holds) =
    rw
      (count-out list k i out, restored-out list k i saved s.cpu.registers out, out, load_registers)
      (load_registers_lem set list saved k (i + 1) addr s plain low
        (subst (λ n. IsBlock addr n s.cpu.inter) (count-out list k i out) b) holds)
load_registers_lem set list saved (suc k) i addr s plain low b (keeps _ _ _ into word_at holds) =
    let n = count_from list k (i + 1) in
    let block = subst (λ m. IsBlock addr m s.cpu.inter) (count-into list k i into) b in
    let s₁ = with_registers (update s.cpu.registers i (saved i)) s in
    let after = rest-IsBlock addr n s.cpu.inter s₁.cpu.inter block refl block.bytes in
    let next : wrapping_add addr 4 ≡ addr + 4 = omega (arith, block.fits) in
    let sum : addr + 4 * suc n ≡ addr + 4 + 4 * n = omega arith in
    let written : with_cpu (set i (saved i)) s ≡ s₁ =
      ap (λ c. record s { cpu = c }) (plain i (saved i) s.cpu (low i into)) in
    rw
      (
        count-into list k i into,
        restored-into list k i saved s.cpu.registers into,
        into,
        load_registers,
        load_word addr n s block,
        word_at,
        next,
        sum,
        written,
      )
      (load_registers_lem set list saved k (i + 1) (addr + 4) s₁ plain low after holds)
