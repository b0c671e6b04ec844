-- ===== src/Run.antt =====
-- src/cpu/mod.rs, `run_ticks` and `run_next_instruction`: the loop over a frame and one instruction,
-- with its fetch.
pub mod Buses
pub mod ThumbBuses
pub mod Stores
pub mod ArmKeeps
pub mod ThumbKeeps
pub mod ArmMultiple
pub mod ThumbStack
pub mod ThumbExecute
pub mod ArmExecute
pub mod Steps
pub mod Frames
use pksx.Base.{
  ℕ, zero, suc, ◌+◌, bit_and, true, false, not, ltb, if◌then◌else◌, Panic, Result, ok, panic, ◌>>=◌,
  ◌>>◌, guard, checked_add, u16, nonzero, update,
}
use pksx.Access.{word, half_word}
use pksx.Bus
use pksx.Cpu.{check_interrupts}
use pksx.Cpu.Machine.{Machine, Debugger, Handler}
use pksx.Arm.Table as ArmTable
use pksx.Thumb.Table as ThumbTable

-- R15 moves on by the size of an instruction.
abbrev pub advance : {D : Type 0} → ℕ → Machine D → Result (Machine D)
advance bytes s = do
  r15 ← checked_add 32 (s.cpu.registers 15) bytes
  ok (record s { cpu = record s.cpu { registers = update s.cpu.registers 15 r15 } })

-- `self.inter.set_frame_ticks(0)`.
abbrev pub over_again : {D : Type 0} → Machine D → Machine D
over_again s = record s { cpu = record s.cpu { inter = record s.cpu.inter { frame_ticks = 0 } } }

module _ {D : Type 0} (dbg : Debugger D) where
  unfoldable pub run_thumb : Handler D
  run_thumb pc s = do
    s' ← advance 2 s
    guard (not (nonzero (bit_and pc 1))) Panic.misaligned_pc
    instruction ← Bus.load half_word pc s'.cpu.inter
    ThumbTable.execute dbg (u16 instruction) s'

  unfoldable pub run_arm : Handler D
  run_arm pc s = do
    s' ← advance 4 s
    guard (not (nonzero (bit_and pc 3))) Panic.misaligned_pc
    instruction ← Bus.load word pc s'.cpu.inter
    ArmTable.execute dbg instruction s'

  unfoldable pub run_next_instruction : Machine D → Result (Machine D)
  run_next_instruction s = do
    c ← check_interrupts s.cpu
    let pc = c.next_pc
    s₁ ← dbg.pc_change (record s { cpu = record c { next_pc = c.registers 15 } })
    if s₁.cpu.thumb then run_thumb pc s₁ else run_arm pc s₁

  -- `while self.inter.frame_ticks() < master_ticks`, on fuel.
  unfoldable pub run_loop : ℕ → ℕ → Machine D → Result (Machine D)
  run_loop zero master_ticks s = panic Panic.out_of_fuel
  run_loop (suc fuel) master_ticks s = elim (ltb s.cpu.inter.frame_ticks master_ticks) [
    | false ↦ ok s
    | true ↦ do s' ← run_next_instruction s; run_loop fuel master_ticks s'
  ]

  unfoldable pub run_ticks : ℕ → Machine D → Result (Machine D)
  run_ticks master_ticks s = do s' ← run_loop (master_ticks + 1) master_ticks s; ok (over_again s')
