-- ===== src/Examples/Processor.antt =====
-- The processor's modes, status and interrupts.
use pksx.Base.{◌+◌, ◌≡◌, refl, true, false, arith, ok}
use pksx.Cpu.{Cpu, change_mode, set_pc_cpsr, cpsr, irq_entry}
use pksx.Cpu.Modes.{user, fiq, irq}
use pksx.Cpu.Banks.{SameState, change_mode_lem, change_mode_back}
use pksx.Cpu.Status.{cpsr-set_pc_cpsr}
use pksx.Cpu.Interrupts.{IsService, irq_entry-IsService}
use pksx.Examples.Memories.{console}

-- A processor in user mode, in Thumb state.
abbrev pub program : Cpu
program = record {
  n = true;
  z = false;
  c = true;
  v = false;
  registers = λ i. 100 + i;
  user_system_bank = λ _. 0;
  supervisor_bank = λ _. 1;
  abort_bank = λ _. 2;
  undefined_bank = λ _. 3;
  irq_bank = λ _. 4;
  fiq_bank = λ _. 5;
  next_pc = 0x2000;
  thumb = true;
  mode = user;
  irq_en = true;
  fiq_en = true;
  spsr = 0;
  inter = console;
  debug_on_bkpt = false;
}

change_mode_lem_example :
    ((change_mode fiq program).mode ≡ fiq)
    × SameState program (change_mode fiq program)
    × ((change_mode fiq program).registers 7 ≡ 107)
change_mode_lem_example = change_mode_lem fiq program 7 refl

change_mode_back_example :
    ((change_mode user (change_mode fiq program)).registers 8 ≡ 108)
    × ((change_mode user (change_mode fiq program)).mode ≡ user)
change_mode_back_example = change_mode_back fiq program 8

program_status : cpsr program ≡ 0xa0000030
unfolding cpsr
program_status = refl

cpsr-set_pc_cpsr_example :
    (d : Cpu) × (set_pc_cpsr 0x40 (cpsr program) (record program { mode = irq; n = false }) ≡ ok d)
    × (cpsr d ≡ cpsr program)
    × (d.next_pc ≡ 0x40)
cpsr-set_pc_cpsr_example = cpsr-set_pc_cpsr 0x40 program (record program { mode = irq; n = false })

irq_entry-IsService_example : IsService irq 4 0x18 program (irq_entry program)
irq_entry-IsService_example = irq_entry-IsService program refl (omega arith)
