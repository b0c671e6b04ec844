-- ===== src/Arm/Transfers/Multiple.antt =====
-- src/cpu/armv4_is.rs: the loads and stores of several registers. The parameters `U`, `P` and `W`
-- are Booleans: upwards, the base left out, write-back.
use pksx.Base.{
  ℕ, zero, suc, ◌+◌, ◌*◌, ◌^◌, bit_and, Bool, true, false, not, ◌&&◌, ◌||◌, ◌==◌, if◌then◌else◌,
  flag, Panic, Result, ok, ◌>>=◌, ◌>>◌, guard, assert, checked_add, shr, shl32, wrapping_add,
  wrapping_sub, nonzero, count_ones,
}
use pksx.Access.{word}
use pksx.Cpu.{reg, set_reg, set_reg_pc_mask, spsr, set_pc_cpsr}
use pksx.Cpu.Machine.{Machine, Debugger, Handler, with_cpu, load, load_registers, store_registers}
use pksx.Arm.{rn, is_pc}

unfoldable pub register_list : ℕ → ℕ
register_list i = bit_and i 0xffff

-- The first address and the value written back.
unfoldable pub mode4_start_wb : Bool → Bool → ℕ → ℕ → Result (ℕ × ℕ)
mode4_start_wb u p base list =
    let len_bytes = count_ones 32 list * 4 in
    if u
    then (do
      start_addr ← (if p then checked_add 32 base 4 else ok base)
      ok (start_addr, wrapping_add base len_bytes))
    else (do
      start_addr ←
          (if p
            then ok (wrapping_sub base len_bytes)
            else checked_add 32 (wrapping_sub base len_bytes) 4)
      ok (start_addr, wrapping_sub base len_bytes))

-- The `debug_assert!` of each of the three: the class and the bits P, U, S, W and L.
abbrev pub mode4_is_valid : ℕ → Bool → Bool → Bool → Bool → Bool → Bool
mode4_is_valid i p u s w l =
    (bit_and (shr i 25) 7 == 0b100)
    && (bit_and (shr i 24) 1 == flag p)
    && (bit_and (shr i 23) 1 == flag u)
    && (bit_and (shr i 22) 1 == flag s)
    && (bit_and (shr i 21) 1 == flag w)
    && (bit_and (shr i 20) 1 == flag l)

-- The registers that no list may go with.
abbrev pub unpredictable_list : Bool → ℕ → Bool
unpredictable_list w i =
    (register_list i == 0)
    || is_pc (rn i)
    || (w && nonzero (bit_and (register_list i) (shl32 1 (rn i))))

module _ {D : Type 0} (dbg : Debugger D) where
  unfoldable pub ldm : Bool → Bool → Bool → Handler D
  ldm u p w i s = do
    assert (mode4_is_valid i p u false w true)
    guard (not (unpredictable_list w i)) Panic.unpredictable
    (addr, wb) ← mode4_start_wb u p (reg (rn i) s.cpu) (register_list i)
    (_, s') ← load_registers dbg set_reg_pc_mask (register_list i) 16 0 addr s
    ok (if w then with_cpu (set_reg (rn i) wb) s' else s')

  -- The loop of `ldms`: the last value loaded for R15, and the machine.
  unfoldable pub ldms_loop : Bool → ℕ → ℕ → ℕ → ℕ → ℕ → Machine D → Result (ℕ × Machine D)
  ldms_loop load_spsr list zero i addr pc s = ok (pc, s)
  ldms_loop load_spsr list (suc left) i addr pc s = elim (nonzero (bit_and (shr list i) 1)) [
    | false ↦ ldms_loop load_spsr list left (i + 1) addr pc s
    | true ↦ do
      (val, s₁) ← load dbg word addr s
      guard load_spsr Panic.unimplemented
      (pc', s₂) ← (if i == 15 then load dbg word addr s₁ else ok (pc, with_cpu (set_reg i val) s₁))
      ldms_loop load_spsr list left (i + 1) (wrapping_add addr 4) pc' s₂
  ]

  unfoldable pub ldms : Bool → Bool → Bool → Handler D
  ldms u p w i s = do
    assert (mode4_is_valid i p u true w true)
    guard (not (unpredictable_list w i)) Panic.unpredictable
    let load_spsr = nonzero (bit_and (register_list i) (2 ^ 15))
    assert (load_spsr || not w)
    (addr, wb) ← mode4_start_wb u p (reg (rn i) s.cpu) (register_list i)
    (pc, s₁) ← ldms_loop load_spsr (register_list i) 16 0 addr 0 s
    let s₂ = if w then with_cpu (set_reg (rn i) wb) s₁ else s₁
    if not load_spsr
        then ok s₂
        else do status ← spsr s₂.cpu; c ← set_pc_cpsr pc status s₂.cpu; ok (record s₂ { cpu = c })

  unfoldable pub stm : Bool → Bool → Bool → Handler D
  stm u p w i s = do
    assert (mode4_is_valid i p u false w false)
    guard (not (unpredictable_list w i)) Panic.unpredictable
    guard (not (nonzero (bit_and (register_list i) (2 ^ 15)))) Panic.unpredictable
    (addr, wb) ← mode4_start_wb u p (reg (rn i) s.cpu) (register_list i)
    (_, s') ← store_registers dbg (λ r. w && r == rn i) (register_list i) 16 0 addr true s
    ok (if w then with_cpu (set_reg (rn i) wb) s' else s')
