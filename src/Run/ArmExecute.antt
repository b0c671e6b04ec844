-- ===== src/Run/ArmExecute.antt =====
-- An ARM instruction keeps the frame's count and the range of the clock divider.
use pksx.Base.{ℕ, ◌≡◌, sym, ap, inl, inr, Bool-cases, ok, >>=-eq-ok, ok-injective}
use pksx.Cpu.{Cpu}
use pksx.Cpu as Processor
use pksx.Cpu.Machine.{Machine, no_debugger}
use pksx.Arm.{opcode, condition_code, cond_true}
use pksx.Arm.Operands.{mode1}
use pksx.Arm.Multiply
use pksx.Arm.Branches
use pksx.Arm.Opcodes.{Entry, handler, alu_handler}
use pksx.Arm.Table as ArmTable
use pksx.Run.Stores.{Keeps, Keeps-eq, on_cpu-Keeps}
use pksx.Run.Buses.{
  swi-inter, alu_handler-inter, multiply-inter, mrs_cpsr-inter, msr_cpsr-inter, mrs_spsr-inter,
  bx-inter, b-inter, bl-inter,
}
use pksx.Run.ArmKeeps
use pksx.Run.ArmMultiple

swi_handler-inter : (i : ℕ) (c c' : Cpu) → Branches.swi i c ≡ ok c' → c'.inter ≡ c.inter
unfolding Branches.swi
swi_handler-inter i c c' h =
    let same : Processor.swi c ≡ c' = ok-injective h in rw (sym same) (swi-inter c)

pub handler-Keeps :
    (e : Entry) (i : ℕ) (s s' : Machine (Unit {0}))
    → handler no_debugger e i s ≡ ok s'
    → Keeps s.cpu.inter s'.cpu.inter
unfolding handler
handler-Keeps Entry.unimplemented i s s' h = cc
handler-Keeps Entry.mrs_cpsr i s s' h =
    on_cpu-Keeps Branches.mrs_cpsr i s s' (mrs_cpsr-inter i s.cpu) h
handler-Keeps Entry.msr_cpsr i s s' h =
    on_cpu-Keeps Branches.msr_cpsr i s s' (msr_cpsr-inter i s.cpu) h
handler-Keeps Entry.mrs_spsr i s s' h =
    on_cpu-Keeps Branches.mrs_spsr i s s' (mrs_spsr-inter i s.cpu) h
handler-Keeps Entry.bx i s s' h = on_cpu-Keeps Branches.bx i s s' (bx-inter i s.cpu) h
handler-Keeps Entry.b i s s' h = on_cpu-Keeps Branches.b i s s' (b-inter i s.cpu) h
handler-Keeps Entry.bl i s s' h = on_cpu-Keeps Branches.bl i s s' (bl-inter i s.cpu) h
handler-Keeps Entry.swi i s s' h = on_cpu-Keeps Branches.swi i s s' (swi_handler-inter i s.cpu) h
handler-Keeps (Entry.alu op k) i s s' h =
    on_cpu-Keeps (alu_handler op (mode1 k)) i s s' (alu_handler-inter op (mode1 k) i s.cpu) h
handler-Keeps (Entry.mul f) i s s' h =
    on_cpu-Keeps (Multiply.mul f) i s s' (λ c' e. multiply-inter f i s.cpu c' (inl e)) h
handler-Keeps (Entry.mla f) i s s' h =
    on_cpu-Keeps (Multiply.mla f) i s s' (λ c' e. multiply-inter f i s.cpu c' (inr e)) h
handler-Keeps (Entry.ldr m u) i s s' h = ArmKeeps.ldr-Keeps m u i s s' h
handler-Keeps (Entry.str m u) i s s' h = ArmKeeps.str-Keeps m u i s s' h
handler-Keeps (Entry.ldrb m u) i s s' h = ArmKeeps.ldrb-Keeps m u i s s' h
handler-Keeps (Entry.strb m u) i s s' h = ArmKeeps.strb-Keeps m u i s s' h
handler-Keeps (Entry.ldrh m u) i s s' h = ArmKeeps.ldrh-Keeps m u i s s' h
handler-Keeps (Entry.ldrsh m u) i s s' h = ArmKeeps.ldrsh-Keeps m u i s s' h
handler-Keeps (Entry.strh m u) i s s' h = ArmKeeps.strh-Keeps m u i s s' h
handler-Keeps (Entry.ldrsb m u) i s s' h = ArmKeeps.ldrsb-Keeps m u i s s' h
handler-Keeps (Entry.ldm u p w) i s s' h = ArmMultiple.ldm-Keeps u p w i s s' h
handler-Keeps (Entry.ldms u p w) i s s' h = ArmMultiple.ldms-Keeps u p w i s s' h
handler-Keeps (Entry.stm u p w) i s s' h = ArmMultiple.stm-Keeps u p w i s s' h

pub execute-Keeps :
    (i : ℕ) (s s' : Machine (Unit {0}))
    → ArmTable.execute no_debugger i s ≡ ok s'
    → Keeps s.cpu.inter s'.cpu.inter
unfolding ArmTable.execute
execute-Keeps i s s' h =
    let (holds, _, h₁) = >>=-eq-ok (cond_true (condition_code i) s.cpu) _ h in
    elim (Bool-cases holds) [
      | inl runs ↦ handler-Keeps (ArmTable.opcode_lut (opcode i)) i s s' (rw runs at h₁)
      | inr skips ↦
          Keeps-eq s.cpu.inter s'.cpu.inter
            (ap (λ t. t.cpu.inter) (sym (ok-injective (rw skips at h₁))))
    ]
