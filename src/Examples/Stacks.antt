-- ===== src/Examples/Stacks.antt =====
-- PUSH {R0, R2} and POP {R0, R2}; STMDB R13!, {R1, R14} and LDMIA R13!, {R1, R14}.
use pksx.Base.{ℕ, ◌≡◌, refl, true, false, arith, ◌==◌, if◌then◌else◌, ok}
use pksx.Cpu.Machine.{Machine, no_debugger}
use pksx.Cpu.Blocks.{IsBlock, with_registers}
use pksx.Cpu.Restored.{popped}
use pksx.Thumb as Thumb
use pksx.Thumb.Stack.{op2d0_push, op2f0_pop}
use pksx.Thumb.Pushes.{op2d0_push-op2f0_pop}
use pksx.Arm.{rn}
use pksx.Arm.Transfers.Multiple.{register_list, stm, ldm}
use pksx.Arm.Transfers.Stacks.{IsPushable, stm-ldm}
use pksx.Examples.Memories.{console}
use pksx.Examples.Processor.{program}

abbrev stacked : Machine (Unit {0})
stacked = record {
  debugger = tt;
  cpu = record program {
    registers = λ r. 0x400;
    inter = record console {
      flash = record console.flash { bios_at_0 = false };
      ram = record { bytes = λ a. 0xca };
    };
  };
}

-- The registers before the pop.
abbrev others : ℕ → ℕ
others r = if r == 13 then 0x3f8 else r

stacked-IsBlock : IsBlock 0x3f8 2 stacked.cpu.inter
stacked-IsBlock = record {
  visible = refl;
  bytes = λ i. omega arith;
  aligned = refl;
  fits = omega arith;
}

op2d0_push-op2f0_pop_example :
    (s₁ : Machine (Unit {0})) × (op2d0_push no_debugger 0xb405 stacked ≡ ok s₁)
    × (s₁.cpu.registers 13 ≡ 0x3f8)
    × (op2f0_pop no_debugger 0xbc05 (with_registers others s₁)
        ≡ ok (with_registers (popped 13 5 (λ r. 0x400) others) s₁))
unfolding Thumb.register_list
op2d0_push-op2f0_pop_example =
    op2d0_push-op2f0_pop 0xb405 0xbc05 stacked others refl (omega arith) (omega arith)
      (λ r h. omega arith) stacked-IsBlock refl

stored-IsPushable : IsPushable 0xe92d4002
unfolding rn register_list
stored-IsPushable = record {
  base = omega arith;
  occupied = omega arith;
  below = omega arith;
  apart = refl;
}

stm-ldm_example :
    (s₁ : Machine (Unit {0})) × (stm no_debugger false true true 0xe92d4002 stacked ≡ ok s₁)
    × (s₁.cpu.registers 13 ≡ 0x3f8)
    × (ldm no_debugger true false true 0xe8bd4002 (with_registers others s₁)
        ≡ ok (with_registers (popped 13 0x4002 (λ r. 0x400) others) s₁))
unfolding rn register_list
stm-ldm_example =
    stm-ldm 0xe92d4002 0xe8bd4002 stacked others refl refl refl refl stored-IsPushable (omega arith)
      (λ r h. omega arith) stacked-IsBlock refl
