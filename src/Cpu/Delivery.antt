-- ===== src/Cpu/Delivery.antt =====
-- From a timer's counter to the processor's vector: the tick at the start of an instruction, the
-- interrupt controller, and the entry into the interrupt.
use pksx.Base.{
  ℕ, ◌+◌, ◌^◌, ◌<◌, ◌≡◌, refl, sym, ap, ◌∙◌, Bool, true, false, not, ◌&&◌, arith, if◌then◌else◌, ok,
  shl32,
}
use pksx.Base.Bits.{bit}
use pksx.Irq
use mathlib.Core.Path.{subst}
use pksx.Irq.{IrqController, pending, irq_pending, fiq_pending}
use pksx.Irq.Pending.{timer0-irq_pending, timer2-fiq_pending}
use pksx.Timer.{Timer}
use pksx.Bus
use pksx.Bus.{Interconnect}
use pksx.Bus.Ticks
use pksx.Bus.Ticks.{tick-IsBusTick, latch_after}
use pksx.Cpu.{Cpu, check_interrupts, irq_entry, fiq_entry}
use pksx.Cpu.Modes.{irq, fiq, same_mode}
use pksx.Cpu.Interrupts.{IsService, irq_entry-IsService, fiq_entry-IsService}

-- A timer whose counter has run out under an open mask is latched by the next cycle.
expired-latch_after :
    (t : Timer) (c : IrqController) (k : ℕ)
    → Irq.number t.interrupt ≡ k
    → t.enabled ≡ true
    → t.counter ≡ 0
    → bit c.mask k ≡ 1
    → latch_after 1 t c ≡ 1
expired-latch_after t c k e on out unmasked =
    let mask = subst (λ j. bit c.mask j ≡ 1) (sym e) unmasked in rw (on, out, mask) refl

-- The branches that an IRQ and an FIQ take.
module _ {ℓ} {A : Type ℓ} (waits fiq_en fiqs irq_en irqs : Bool) (none first second : A) where
  irq_branch :
      waits ≡ true
      → fiq_en ≡ false
      → irq_en ≡ true
      → irqs ≡ true
      → (if not waits
          then none
          else if fiq_en && fiqs
          then first
          else if irq_en && irqs
          then second
          else none)
        ≡ second
  irq_branch a b c d = rw (a, b, c, d) refl

  fiq_branch :
      waits ≡ true
      → fiq_en ≡ true
      → fiqs ≡ true
      → (if not waits
          then none
          else if fiq_en && fiqs
          then first
          else if irq_en && irqs
          then second
          else none)
        ≡ first
  fiq_branch a b c = rw (a, b, c) refl

-- On a valid bus whose frame's count does not overflow, where timer 0 is enabled with its counter
-- at 0 and its mask is open, IRQs are enabled and FIQs are not, and the processor is in another
-- mode than the IRQ mode with a return address that does not overflow, the next instruction starts
-- with the tick of the bus and then enters the IRQ mode at 0x18 in ARM state, from where writing
-- the saved status back, at the link less 4, returns to the interrupted program.
pub check_interrupts-IsService_timer0 :
    (c : Cpu)
    → Ticks.IsValid c.inter
    → c.inter.frame_ticks + shl32 1 c.inter.cpu_clk_div < 2 ^ 32
    → (c.inter.timers 0).enabled ≡ true
    → (c.inter.timers 0).counter ≡ 0
    → bit c.inter.irq_controller.mask 7 ≡ 1
    → c.irq_en ≡ true
    → c.fiq_en ≡ false
    → same_mode c.mode irq ≡ false
    → c.next_pc + 4 < 2 ^ 32
    → (inter : Interconnect) × (Bus.tick 1 c.inter ≡ ok inter)
      × IsService irq 4 0x18 (record c { inter = inter }) (check_interrupts c)
unfolding check_interrupts
check_interrupts-IsService_timer0 c v room on out unmasked irqs fiqs other link =
    let t = tick-IsBusTick 1 c.inter (omega arith) room v in
    let latched =
      t.latched.0
      ∙ expired-latch_after (c.inter.timers 0) c.inter.irq_controller 7 (ap Irq.number v.line0) on
          out unmasked in
    let mask = ap (λ m. bit m 7) t.mask_kept ∙ unmasked in
    let (waits, waits_irq) = timer0-irq_pending t.after.irq_controller latched mask in
    let k = t.after.irq_controller in
    let c' = record c { inter = t.after } in
    (
      t.after,
      t.returns,
      rw t.returns (
          subst (IsService irq 4 0x18 c')
            (sym (
              irq_branch (pending k) c.fiq_en (fiq_pending k) c.irq_en (irq_pending k) (ok c')
                (fiq_entry c') (irq_entry c') waits fiqs irqs waits_irq))
            (irq_entry-IsService c' other link)),
    )

-- On a valid bus whose frame's count does not overflow, where timer 2 is enabled with its counter
-- at 0 and its mask is open, FIQs are enabled, and the processor is in another mode than the FIQ
-- mode with a return address that does not overflow, the next instruction starts with the tick of
-- the bus and then enters the FIQ mode at 0x1c in ARM state, whatever IRQs wait, from where
-- writing the saved status back, at the link less 4, returns to the interrupted program.
pub check_interrupts-IsService_timer2 :
    (c : Cpu)
    → Ticks.IsValid c.inter
    → c.inter.frame_ticks + shl32 1 c.inter.cpu_clk_div < 2 ^ 32
    → (c.inter.timers 2).enabled ≡ true
    → (c.inter.timers 2).counter ≡ 0
    → bit c.inter.irq_controller.mask 13 ≡ 1
    → c.fiq_en ≡ true
    → same_mode c.mode fiq ≡ false
    → c.next_pc + 4 < 2 ^ 32
    → (inter : Interconnect) × (Bus.tick 1 c.inter ≡ ok inter)
      × IsService fiq 4 0x1c (record c { inter = inter }) (check_interrupts c)
unfolding check_interrupts
check_interrupts-IsService_timer2 c v room on out unmasked fiqs other link =
    let t = tick-IsBusTick 1 c.inter (omega arith) room v in
    let latched =
      t.latched.2
      ∙ expired-latch_after (c.inter.timers 2) c.inter.irq_controller 13 (ap Irq.number v.line2) on
          out unmasked in
    let mask = ap (λ m. bit m 13) t.mask_kept ∙ unmasked in
    let (waits, waits_fiq) = timer2-fiq_pending t.after.irq_controller latched mask in
    let k = t.after.irq_controller in
    let c' = record c { inter = t.after } in
    (
      t.after,
      t.returns,
      rw t.returns (
          subst (IsService fiq 4 0x1c c')
            (sym (
              fiq_branch (pending k) c.fiq_en (fiq_pending k) c.irq_en (irq_pending k) (ok c')
                (fiq_entry c') (irq_entry c') waits fiqs waits_fiq))
            (fiq_entry-IsService c' other link)),
    )
