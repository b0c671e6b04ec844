-- ===== src/Cpu.antt =====
-- src/cpu/mod.rs: the processor's state, its modes with their banked registers, the status
-- register and the entry into interrupts. Arrays are functions of the index. A register index is
-- cut from four bits of an instruction, or is a number below 16.
pub mod Modes
pub mod Banks
pub mod Status
pub mod Interrupts
pub mod Machine
pub mod Blocks
pub mod Restored
pub mod Delivery
use pksx.Base.{
  ℕ, bit_and, bit_or, Bool, true, false, not, ◌&&◌, ◌==◌, if◌then◌else◌, flag, Panic, Result, ok,
  panic, ◌>>=◌, ◌>>◌, guard, checked_add, shr, shl32, not32, wrapping_add, wrapping_sub, nonzero,
  update,
}
use pksx.Access.{Addressable, size, half_word, word}
use pksx.Bus
use pksx.Bus.{Interconnect}
use pksx.Irq
use pksx.Irq.{IrqController}
use Modes.{
  Mode, user, fiq, irq, supervisor, abort, undefined, system, code, same_mode, from_field,
  is_privileged, has_spsr,
}

pub record Cpu : Type 0 where
  pub n : Bool
  pub z : Bool
  pub c : Bool
  pub v : Bool
  pub registers : ℕ → ℕ
  pub user_system_bank : ℕ → ℕ
  pub supervisor_bank : ℕ → ℕ
  pub abort_bank : ℕ → ℕ
  pub undefined_bank : ℕ → ℕ
  pub irq_bank : ℕ → ℕ
  pub fiq_bank : ℕ → ℕ
  pub next_pc : ℕ
  pub thumb : Bool
  pub mode : Mode
  pub irq_en : Bool
  pub fiq_en : Bool
  pub spsr : ℕ
  pub inter : Interconnect
  pub debug_on_bkpt : Bool

unfoldable pub reg : ℕ → Cpu → ℕ
reg r c = c.registers r

-- How far R15 is ahead of the next instruction.
abbrev pub r15_offset : Cpu → ℕ
r15_offset c = if c.thumb then 2 else 4

unfoldable pub set_pc : ℕ → Cpu → Cpu
set_pc pc c = record c {
  next_pc = pc;
  registers = update c.registers 15 (wrapping_add pc (r15_offset c));
}

unfoldable pub set_reg : ℕ → ℕ → Cpu → Cpu
set_reg r v c = if r == 15 then set_pc v c else record c { registers = update c.registers r v }

unfoldable pub set_reg_pc_mask : ℕ → ℕ → Cpu → Cpu
set_reg_pc_mask r v c =
    if r == 15
    then set_pc (bit_and v (not32 3)) c
    else record c { registers = update c.registers r v }

unfoldable pub current_pc : Cpu → ℕ
current_pc c = wrapping_sub c.next_pc (r15_offset c)

unfoldable pub set_pc_thumb : ℕ → Bool → Cpu → Cpu
set_pc_thumb pc thumb c = set_pc pc (record c { thumb = thumb })

-- `swap(&mut self.fiq_bank[k], &mut self.registers[r])`.
abbrev pub swap_fiq : ℕ → ℕ → Cpu → Cpu
swap_fiq k r c = record c {
  fiq_bank = update c.fiq_bank k (c.registers r);
  registers = update c.registers r (c.fiq_bank k);
}

-- The five swaps of R12 to R8.
abbrev pub swap_fiq_registers : Cpu → Cpu
swap_fiq_registers c = swap_fiq 7 8 (swap_fiq 6 9 (swap_fiq 5 10 (swap_fiq 4 11 (swap_fiq 3 12 c))))

-- SPSR, LR and SP into a bank, and back from it.
abbrev pub saved : Cpu → (ℕ → ℕ) → ℕ → ℕ
saved c bank = update (update (update bank 0 c.spsr) 1 (c.registers 14)) 2 (c.registers 13)

abbrev pub loaded : (ℕ → ℕ) → Cpu → Cpu
loaded bank c = record c {
  spsr = bank 0;
  registers = update (update c.registers 14 (bank 1)) 13 (bank 2);
}

-- The first `match` of `change_mode`: the registers of the mode that is left.
unfoldable pub save_bank : Mode → Cpu → Cpu
save_bank user c = record c {
  user_system_bank = update (update c.user_system_bank 0 (c.registers 14)) 1 (c.registers 13);
}
save_bank system c = record c {
  user_system_bank = update (update c.user_system_bank 0 (c.registers 14)) 1 (c.registers 13);
}
save_bank supervisor c = record c { supervisor_bank = saved c c.supervisor_bank }
save_bank abort c = record c { abort_bank = saved c c.abort_bank }
save_bank undefined c = record c { undefined_bank = saved c c.undefined_bank }
save_bank irq c = record c { irq_bank = saved c c.irq_bank }
save_bank fiq c = swap_fiq_registers (record c { fiq_bank = saved c c.fiq_bank })

-- The second `match`: the registers of the mode that is entered.
unfoldable pub load_bank : Mode → Cpu → Cpu
load_bank user c = record c {
  registers = update (update c.registers 14 (c.user_system_bank 0)) 13 (c.user_system_bank 1);
}
load_bank system c = record c {
  registers = update (update c.registers 14 (c.user_system_bank 0)) 13 (c.user_system_bank 1);
}
load_bank supervisor c = loaded c.supervisor_bank c
load_bank abort c = loaded c.abort_bank c
load_bank undefined c = loaded c.undefined_bank c
load_bank irq c = loaded c.irq_bank c
load_bank fiq c = swap_fiq_registers (loaded c.fiq_bank c)

unfoldable pub change_mode : Mode → Cpu → Cpu
change_mode m c =
    if same_mode c.mode m then c else record (load_bank m (save_bank c.mode c)) { mode = m }

unfoldable pub reset : Cpu → Cpu
reset c =
    let c' = record c {
      inter = Bus.reset c.inter;
      thumb = false;
      irq_en = false;
      fiq_en = false;
    } in
    set_pc 0 (change_mode supervisor c')

unfoldable pub new : Interconnect → Cpu
new inter = reset (record {
  n = true;
  z = true;
  c = true;
  v = true;
  registers = λ _. 0xdeadbeef;
  user_system_bank = λ _. 0;
  supervisor_bank = λ _. 0;
  abort_bank = λ _. 0;
  undefined_bank = λ _. 0;
  irq_bank = λ _. 0;
  fiq_bank = λ _. 0;
  next_pc = 0;
  thumb = false;
  mode = supervisor;
  irq_en = false;
  fiq_en = false;
  spsr = 0;
  inter = inter;
  debug_on_bkpt = false;
})

-- The four flags, from the top bits of a status word.
abbrev pub with_flags : ℕ → Cpu → Cpu
with_flags status c =
    let flags = shr status 28 in
    record c {
      v = nonzero (bit_and flags 1);
      c = nonzero (bit_and flags 2);
      z = nonzero (bit_and flags 4);
      n = nonzero (bit_and flags 8);
    }

unfoldable pub set_pc_cpsr : ℕ → ℕ → Cpu → Result Cpu
set_pc_cpsr pc cpsr c = do
  mode ← from_field (bit_and cpsr 0x1f)
  let c₁ = change_mode mode c
  let c₂ = record c₁ {
    thumb = nonzero (bit_and cpsr 0x20);
    fiq_en = bit_and cpsr 0x40 == 0;
    irq_en = bit_and cpsr 0x80 == 0;
  }
  ok (set_pc pc (with_flags cpsr c₂))

-- The status word of its parts, as `cpsr` joins them.
abbrev pub status_word : Mode → Bool → Bool → Bool → Bool → Bool → Bool → Bool → ℕ
status_word mode thumb fiq_en irq_en v c z n =
    let r₀ = bit_or 0 (code mode) in
    let r₁ = bit_or r₀ (shl32 (flag thumb) 5) in
    let r₂ = bit_or r₁ (shl32 (flag (not fiq_en)) 6) in
    let r₃ = bit_or r₂ (shl32 (flag (not irq_en)) 7) in
    let r₄ = bit_or r₃ (shl32 (flag v) 28) in
    let r₅ = bit_or r₄ (shl32 (flag c) 29) in
    let r₆ = bit_or r₅ (shl32 (flag z) 30) in bit_or r₆ (shl32 (flag n) 31)

unfoldable pub cpsr : Cpu → ℕ
cpsr c = status_word c.mode c.thumb c.fiq_en c.irq_en c.v c.c c.z c.n

unfoldable pub spsr : Cpu → Result ℕ
spsr c = if has_spsr c.mode then ok c.spsr else panic Panic.no_spsr

-- The common end of `swi`, `fiq` and `irq`: in the new mode, with the status and the return
-- address saved, at the vector.
abbrev pub enter : Mode → ℕ → ℕ → ℕ → Cpu → Cpu
enter m ra status vector c =
    set_pc vector (set_reg 14 ra (record (change_mode m c) { spsr = status }))

unfoldable pub swi : Cpu → Cpu
swi c = enter supervisor c.next_pc (cpsr c) 0x8 (record c { thumb = false; irq_en = false })

unfoldable pub fiq_entry : Cpu → Result Cpu
fiq_entry c = do
  ra ← checked_add 32 c.next_pc 4
  ok (enter fiq ra (cpsr c) 0x1c (record c { thumb = false; fiq_en = false; irq_en = false }))

unfoldable pub irq_entry : Cpu → Result Cpu
irq_entry c = do
  ra ← checked_add 32 c.next_pc 4
  ok (enter irq ra (cpsr c) 0x18 (record c { thumb = false; irq_en = false }))

unfoldable pub msr_cpsr : ℕ → ℕ → Cpu → Result Cpu
msr_cpsr val field_mask c =
    let flags_of = λ (k : Cpu). if nonzero (bit_and field_mask 8) then with_flags val k else k in
    if nonzero (bit_and val 0x0fffff00)
    then panic Panic.reserved_bits
    else if nonzero (bit_and field_mask 1) && is_privileged c.mode
    then (do
      mode ← from_field (bit_or (bit_and val 0xf) 0x10)
      let c₁ = change_mode mode c
      guard (not (nonzero (bit_and val 0x20))) Panic.thumb_msr
      ok (flags_of (record c₁ { fiq_en = bit_and val 0x40 == 0; irq_en = bit_and val 0x80 == 0 })))
    else ok (flags_of c)

-- The dispatch of `run_next_instruction` on what the controller has pending.
abbrev pub service : IrqController → Cpu → Result Cpu
service controller c =
    if not (Irq.pending controller)
    then ok c
    else if c.fiq_en && Irq.fiq_pending controller
    then fiq_entry c
    else if c.irq_en && Irq.irq_pending controller
    then irq_entry c
    else ok c

-- The start of `run_next_instruction`: one tick of the bus, then an interrupt that is pending and
-- enabled, an FIQ first.
unfoldable pub check_interrupts : Cpu → Result Cpu
check_interrupts c = do
  inter ← Bus.tick 1 c.inter
  let c₁ = record c { inter = inter }
  let controller = inter.irq_controller
  service controller c₁

-- `Cpu::examine`: a panic of the load is caught.
unfoldable pub examine : Addressable → ℕ → Cpu → ℕ
examine a addr c = elim (Bus.load a addr c.inter) [ ok v ↦ v | panic e ↦ 0xbadbadbd ]

abbrev pub set_debug_on_bkpt : Bool → Cpu → Cpu
set_debug_on_bkpt enabled c = record c { debug_on_bkpt = enabled }
