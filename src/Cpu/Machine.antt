-- ===== src/Cpu/Machine.antt =====
-- src/debugger.rs and the loads and stores of src/cpu/mod.rs: the processor together with the
-- debugger that is called at each instruction and access. A debugger has a state of its own, and its
-- callbacks may change the processor.
use pksx.Base.{
  ℕ, zero, suc, ◌+◌, ◌-◌, bit_and, Bool, true, false, not, ◌&&◌, Panic, Result, ok, ◌>>=◌, ◌>>◌,
  guard, shr, wrapping_add, nonzero,
}
use pksx.Access
use pksx.Access.{Addressable, size}
use pksx.Bus
use pksx.Cpu.{Cpu, reg}

pub record Machine (D : Type 0) : Type 0 where
  pub debugger : D
  pub cpu : Cpu

-- The trait `Debugger`.
pub record Debugger (D : Type 0) : Type 0 where
  pub trigger_break : D → D
  pub pc_change : Machine D → Result (Machine D)
  pub memory_read : ℕ → Machine D → Result (Machine D)
  pub memory_write : ℕ → Machine D → Result (Machine D)

-- The implementation for `()`, which does nothing.
abbrev pub no_debugger : Debugger (Unit {0})
no_debugger = record {
  trigger_break = λ d. d;
  pc_change = λ s. ok s;
  memory_read = λ addr s. ok s;
  memory_write = λ addr s. ok s;
}

-- `fn (Instruction, &mut Debugger, &mut Cpu)`.
abbrev pub Handler : Type 0 → Type 0
Handler D = ℕ → Machine D → Result (Machine D)

-- A handler that does not call the debugger.
abbrev pub on_cpu : {D : Type 0} → (ℕ → Cpu → Result Cpu) → Handler D
on_cpu handler i s = do c ← handler i s.cpu; ok (record s { cpu = c })

abbrev pub with_cpu : {D : Type 0} → (Cpu → Cpu) → Machine D → Machine D
with_cpu f s = record s { cpu = f s.cpu }

module _ {D : Type 0} (dbg : Debugger D) where
  unfoldable pub load : Addressable → ℕ → Machine D → Result (ℕ × Machine D)
  load a addr s = do
    s' ← dbg.memory_read addr s
    guard (not (nonzero (bit_and addr (size a - 1)))) Panic.misaligned
    val ← Bus.load a addr s'.cpu.inter
    ok (val, s')

  unfoldable pub store : Addressable → ℕ → ℕ → Machine D → Result (Machine D)
  store a addr val s = do
    s' ← dbg.memory_write addr s
    guard (not (nonzero (bit_and addr (size a - 1)))) Panic.misaligned
    inter ← Bus.store a addr val s'.cpu.inter
    ok (with_cpu (λ c. record c { inter = inter }) s')

  -- `for i in 0..16 { if list & (1 << i) != 0 { .. } }` with the load of a register from each
  -- following word: the address after the last one. The rounds left, and `set`, the write of a
  -- register.
  unfoldable pub load_registers :
      (ℕ → ℕ → Cpu → Cpu) → ℕ → ℕ → ℕ → ℕ → Machine D → Result (ℕ × Machine D)
  load_registers set list zero i addr s = ok (addr, s)
  load_registers set list (suc left) i addr s = elim (nonzero (bit_and (shr list i) 1)) [
    | false ↦ load_registers set list left (i + 1) addr s
    | true ↦ do
      (val, s') ← load Access.word addr s
      load_registers set list left (i + 1) (wrapping_add addr 4) (with_cpu (set i val) s')
  ]

  -- The same with stores, and `clash`, a register that may only be the first.
  unfoldable pub store_registers :
      (ℕ → Bool) → ℕ → ℕ → ℕ → ℕ → Bool → Machine D → Result (ℕ × Machine D)
  store_registers clash list zero i addr first s = ok (addr, s)
  store_registers clash list (suc left) i addr first s = elim (nonzero (bit_and (shr list i) 1)) [
    | false ↦ store_registers clash list left (i + 1) addr first s
    | true ↦ do
      guard (not (clash i && not first)) Panic.unpredictable
      s' ← store Access.word addr (reg i s.cpu) s
      store_registers clash list left (i + 1) (wrapping_add addr 4) false s'
  ]
