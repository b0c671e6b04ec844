-- ===== src/Thumb/Stack.antt =====
-- src/cpu/thumbv1_is.rs: the stack, and the loads and stores of several registers. A list has a bit
-- for each of the eight low registers.
use pksx.Base.{
  ◌+◌, ◌*◌, bit_and, true, false, not, ◌==◌, Panic, ok, ◌>>=◌, ◌>>◌, guard, checked_add, not32,
  wrapping_add, wrapping_sub, count_ones,
}
use pksx.Access.{word}
use pksx.Cpu.{reg, set_reg, set_pc}
use pksx.Cpu.Machine.{Debugger, Handler, with_cpu, load, store, load_registers, store_registers}
use pksx.Thumb.{reg_8, register_list}

module _ {D : Type 0} (dbg : Debugger D) where
  unfoldable pub op2d0_push : Handler D
  op2d0_push i s = do
    let list = register_list i
    let num_regs = count_ones 32 list
    guard (not (num_regs == 0)) Panic.unpredictable
    let start_addr = wrapping_sub (reg 13 s.cpu) (4 * num_regs)
    (_, s') ← store_registers dbg (λ _. false) list 8 0 start_addr true s
    ok (with_cpu (set_reg 13 start_addr) s')

  unfoldable pub op2d4_push_lr : Handler D
  op2d4_push_lr i s = do
    let list = register_list i
    let num_regs = count_ones 32 list + 1
    let start_addr = wrapping_sub (reg 13 s.cpu) (4 * num_regs)
    (addr, s₁) ← store_registers dbg (λ _. false) list 8 0 start_addr true s
    s₂ ← store dbg word addr (reg 14 s₁.cpu) s₁
    ok (with_cpu (set_reg 13 start_addr) s₂)

  unfoldable pub op2f0_pop : Handler D
  op2f0_pop i s = do
    let list = register_list i
    guard (not (count_ones 32 list == 0)) Panic.unpredictable
    (addr, s') ← load_registers dbg set_reg list 8 0 (reg 13 s.cpu) s
    ok (with_cpu (set_reg 13 addr) s')

  unfoldable pub op2f4_pop_pc : Handler D
  op2f4_pop_pc i s = do
    (addr, s₁) ← load_registers dbg set_reg (register_list i) 8 0 (reg 13 s.cpu) s
    (pc, s₂) ← load dbg word addr s₁
    ok (with_cpu (λ c. set_reg 13 (wrapping_add addr 4) (set_pc (bit_and pc (not32 1)) c)) s₂)

  -- A base that is in the list may only be its first register.
  unfoldable pub op30x_stmia : Handler D
  op30x_stmia i s = do
    let rn = reg_8 i
    (addr, s') ← store_registers dbg (λ r. r == rn) (register_list i) 8 0 (reg rn s.cpu) true s
    ok (with_cpu (set_reg rn addr) s')

  -- The base is written before the loads, so that a loaded base is kept.
  unfoldable pub op32x_ldmia : Handler D
  op32x_ldmia i s = do
    let list = register_list i
    let rn = reg_8 i
    let addr = reg rn s.cpu
    end_address ← checked_add 32 addr (4 * count_ones 32 list)
    (_, s') ← load_registers dbg set_reg list 8 0 addr (with_cpu (set_reg rn end_address) s)
    ok s'
