-- ===== src/Thumb/Pushes.antt =====
-- src/cpu/thumbv1_is.rs: PUSH and POP of the low registers, one after the other.
use pksx.Base.{
  ℕ, ◌+◌, ◌-◌, ◌*◌, ◌^◌, ◌≤◌, ◌<◌, ◌≡◌, refl, sym, ap, ◌∙◌, true, false, arith, ◌==◌, ==_iff,
  holds_below, holds_below-test, ok, update, count_ones,
}
use mathlib.Core.Path.{subst}
use pksx.Base.Bits.Laws.{bit_and_mask}
use pksx.Cpu.{reg, set_reg}
use pksx.Cpu.Machine.{Machine, no_debugger}
use pksx.Cpu.Blocks.{count_from, IsBlock, with_bytes, with_registers, store_words, restored}
use pksx.Cpu.Blocks.Loops.{
  Holds, store_registers_lem, store_words-IsBytes, store_words-Holds, load_registers_lem,
}
use pksx.Cpu.Restored.{in_list-lt, restored_lem, popped, sub_word, set_reg-plain}
use pksx.Thumb.{register_list}
use pksx.Thumb.Stack.{op2d0_push, op2f0_pop}

register_list-lt : (i : ℕ) → register_list i < 2 ^ 8
unfolding register_list
register_list-lt i = let low = bit_and_mask 8 i in omega (arith, low)

-- The number of registers is that of the rounds that access memory.
count_from-count_ones : (list : ℕ) → list < 2 ^ 8 → count_from list 8 0 ≡ count_ones 32 list
unfolding holds_below count_from
count_from-count_ones list h =
    (==_iff (count_from list 8 0) (count_ones 32 list)).0
      (holds_below-test (λ l. count_from l 8 0 == count_ones 32 l) 256 refl list h)

-- The start of the block that a push writes.
abbrev pub pushed_at : ℕ → Machine (Unit {0}) → ℕ
pushed_at i s = s.cpu.registers 13 - 4 * count_ones 32 (register_list i)

-- The machine after a push.
abbrev pushed : ℕ → Machine (Unit {0}) → Machine (Unit {0})
pushed i s = with_registers (update s.cpu.registers 13 (pushed_at i s)) (
    with_bytes
      (store_words (register_list i) 8 0 (pushed_at i s) s.cpu.registers s.cpu.inter.ram.bytes) s)

none_left : (n : ℕ) → 1 ≤ n → (n == 0) ≡ false
none_left n h = ground arith

push_lem :
    (i : ℕ) (s : Machine (Unit {0}))
    → 1 ≤ count_ones 32 (register_list i)
    → 4 * count_ones 32 (register_list i) ≤ s.cpu.registers 13
    → IsBlock (pushed_at i s) (count_ones 32 (register_list i)) s.cpu.inter
    → op2d0_push no_debugger i s ≡ ok (pushed i s)
unfolding op2d0_push reg
push_lem i s occupied room b =
    let list = register_list i in
    let n = count_ones 32 list in
    let counts : count_from list 8 0 ≡ n = count_from-count_ones list (register_list-lt i) in
    let start = sub_word (s.cpu.registers 13) (4 * n) room (omega (arith, b.fits)) in
    let stores =
      store_registers_lem (λ _. false) list 8 0 (pushed_at i s) true s (λ r h. refl)
        (subst (λ m. IsBlock (pushed_at i s) m s.cpu.inter) (sym counts) b) in
    let s' =
      with_bytes (store_words list 8 0 (pushed_at i s) s.cpu.registers s.cpu.inter.ram.bytes) s in
    rw (none_left n occupied, start, stores)
      (ap (λ c. ok (record s' { cpu = c })) (set_reg-plain 13 (pushed_at i s) s'.cpu (omega arith)))

pop_lem :
    (i : ℕ) (saved : ℕ → ℕ) (addr : ℕ) (t : Machine (Unit {0}))
    → 1 ≤ count_ones 32 (register_list i)
    → t.cpu.registers 13 ≡ addr
    → saved 13 ≡ addr + 4 * count_ones 32 (register_list i)
    → IsBlock addr (count_ones 32 (register_list i)) t.cpu.inter
    → Holds (register_list i) saved t.cpu.inter.ram.bytes 8 0 addr
    → op2f0_pop no_debugger i t
      ≡ ok (with_registers (popped 13 (register_list i) saved t.cpu.registers) t)
unfolding op2f0_pop reg
pop_lem i saved addr t occupied at above b holds =
    let list = register_list i in
    let n = count_ones 32 list in
    let counts : count_from list 8 0 ≡ n = count_from-count_ones list (register_list-lt i) in
    let loads =
      load_registers_lem set_reg list saved 8 0 addr t set_reg-plain
        (λ r h. omega (arith, in_list-lt 8 list r (register_list-lt i) h))
        (subst (λ m. IsBlock addr m t.cpu.inter) (sym counts) b) holds in
    let t' = with_registers (restored list 8 0 saved t.cpu.registers) t in
    let end : addr + 4 * count_from list 8 0 ≡ saved 13 = rw (counts, above) refl in
    rw (none_left n occupied, at, loads)
      (ap (λ c. ok (record t' { cpu = c }))
          (set_reg-plain 13 (addr + 4 * count_from list 8 0) t'.cpu (omega arith))
        ∙ ap (λ f. ok (with_registers f t)) rw
            (end, restored_lem 8 list saved t.cpu.registers (register_list-lt i)) refl)

-- Where R0 to R15 hold words, and the block below the stack pointer is aligned and in a RAM that
-- is visible at 0 and holds bytes, a PUSH of at least one register returns, with the stack pointer
-- at that block. Whatever the other registers are then, a POP of the same list returns with the
-- registers of the list and the stack pointer as they were before the PUSH, and every other
-- register and the bus as they are.
pub op2d0_push-op2f0_pop :
    (i j : ℕ) (s : Machine (Unit {0})) (others : ℕ → ℕ)
    → register_list j ≡ register_list i
    → 1 ≤ count_ones 32 (register_list i)
    → 4 * count_ones 32 (register_list i) ≤ s.cpu.registers 13
    → ((r : ℕ) → r < 16 → s.cpu.registers r < 2 ^ 32)
    → IsBlock (pushed_at i s) (count_ones 32 (register_list i)) s.cpu.inter
    → others 13 ≡ pushed_at i s
    → (s₁ : Machine (Unit {0})) × (op2d0_push no_debugger i s ≡ ok s₁)
      × (s₁.cpu.registers 13 ≡ pushed_at i s)
      × (op2f0_pop no_debugger j (with_registers others s₁)
          ≡ ok (with_registers (popped 13 (register_list i) s.cpu.registers others) s₁))
op2d0_push-op2f0_pop i j s others same occupied room words b at =
    let list = register_list i in
    let bytes = s.cpu.inter.ram.bytes in
    let after : IsBlock (pushed_at i s) (count_ones 32 list) (pushed i s).cpu.inter = record {
      visible = b.visible;
      bytes = store_words-IsBytes list 8 0 (pushed_at i s) s.cpu.registers bytes b.bytes;
      aligned = b.aligned;
      fits = b.fits;
    } in
    let holds =
      store_words-Holds list 8 0 (pushed_at i s) s.cpu.registers bytes words (omega arith) in
    (
      pushed i s,
      push_lem i s occupied room b,
      refl,
      subst
          (λ l.
            op2f0_pop no_debugger j (with_registers others (pushed i s))
            ≡ ok (with_registers (popped 13 l s.cpu.registers others) (pushed i s)))
          same
          (pop_lem j s.cpu.registers (pushed_at i s) (with_registers others (pushed i s))
            (rw same occupied) at (rw same (omega (arith, room))) (rw same after) (rw same holds)),
    )
