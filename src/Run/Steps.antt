-- ===== src/Run/Steps.antt =====
-- An instruction that returns takes at least one master clock period and at most 128 of them.
use pksx.Base.{
  ℕ, ◌+◌, ◌≤◌, bit_and, ◌≡◌, refl, sym, ap, ◌∙◌, Bool, true, false, not, ◌&&◌, arith, ltb,
  if◌then◌else◌, holds_below, holds_below-test, Panic, ok, guard, checked_add, >>=-eq-ok,
  ok-injective, u16, shl32, nonzero,
}
use mathlib.Core.Path.{subst}
use pksx.Rtc
use pksx.Dac
use pksx.Timer
use pksx.Bus
use pksx.Bus.{Interconnect}
use pksx.Irq.{IrqController}
use pksx.Access.{word, half_word}
use pksx.Cpu.{Cpu, service, irq_entry, fiq_entry, check_interrupts, set_reg, set_pc}
use pksx.Cpu.Modes.{irq, fiq}
use pksx.Cpu.Machine.{Machine, no_debugger}
use pksx.Run.{advance, run_arm, run_thumb, run_next_instruction}
use pksx.Run.Stores.{Keeps}
use pksx.Run.Buses.{change_mode-inter}
use pksx.Run.ArmExecute as ArmExecute
use pksx.Run.ThumbExecute as ThumbExecute

tick_timer-frame :
    (i n : ℕ) (s s' : Interconnect)
    → Bus.tick_timer i n s ≡ ok s'
    → (s'.frame_ticks ≡ s.frame_ticks) × (s'.cpu_clk_div ≡ s.cpu_clk_div)
unfolding Bus.tick_timer
tick_timer-frame i n s s' h =
    let (ticked, _, h₁) = >>=-eq-ok (Timer.tick n (s.timers i) s.irq_controller) _ h in
    let same = sym (ok-injective h₁) in (ap (λ t. t.frame_ticks) same, ap (λ t. t.cpu_clk_div) same)

-- The tick counts the frame and leaves the divider.
tick-frame :
    (n : ℕ) (s s' : Interconnect)
    → Bus.tick n s ≡ ok s'
    → (s'.frame_ticks ≡ s.frame_ticks + shl32 n s.cpu_clk_div) × (s'.cpu_clk_div ≡ s.cpu_clk_div)
unfolding Bus.tick
tick-frame n s s' h =
    let m : ℕ = shl32 n s.cpu_clk_div in
    let (clock, _, h₁) = >>=-eq-ok (Rtc.tick m s.rtc s.irq_controller) _ h in
    let (dac, _, h₂) = >>=-eq-ok (Dac.tick m s.dac) _ h₁ in
    let s₂ : Interconnect = record s { rtc = clock.0; irq_controller = clock.1; dac = dac } in
    let (s₃, e₃, h₃) = >>=-eq-ok (Bus.tick_timer 0 n s₂) _ h₂ in
    let (s₄, e₄, h₄) = >>=-eq-ok (Bus.tick_timer 1 n s₃) _ h₃ in
    let (s₅, e₅, h₅) = >>=-eq-ok (Bus.tick_timer 2 n s₄) _ h₄ in
    let (f₃, d₃) = tick_timer-frame 0 n s₂ s₃ e₃ in
    let (f₄, d₄) = tick_timer-frame 1 n s₃ s₄ e₄ in
    let (f₅, d₅) = tick_timer-frame 2 n s₄ s₅ e₅ in
    let frame : s₅.frame_ticks ≡ s.frame_ticks = f₅ ∙ (f₄ ∙ f₃) in
    let divider : s₅.cpu_clk_div ≡ s.cpu_clk_div = d₅ ∙ (d₄ ∙ d₃) in ground arith

service-inter : (k : IrqController) (c c' : Cpu) → service k c ≡ ok c' → c'.inter ≡ c.inter
unfolding irq_entry fiq_entry set_reg set_pc
service-inter k c c' h = ground (
  arith,
  change_mode-inter fiq (record c { thumb = false; fiq_en = false; irq_en = false }),
  change_mode-inter irq (record c { thumb = false; irq_en = false }),
)

-- One CPU cycle is from 1 to 128 master clock periods.
period_bounds : (d : ℕ) → d ≤ 7 → (1 ≤ shl32 1 d) × (shl32 1 d ≤ 128)
unfolding holds_below
period_bounds d h =
    let within =
      holds_below-test (λ k. ltb 0 (shl32 1 k) && ltb (shl32 1 k) 129) 8 refl d (omega arith) in
    ground arith

-- An instruction that returns counts from 1 to 128 master clock periods.
pub record IsStep (s s' : Interconnect) : Type 0 where
  pub moves_on : s.frame_ticks + 1 ≤ s'.frame_ticks
  pub within : s'.frame_ticks ≤ s.frame_ticks + 128
  pub divider : s'.cpu_clk_div ≤ 7

check_interrupts-IsStep :
    (c c' : Cpu) → c.inter.cpu_clk_div ≤ 7 → check_interrupts c ≡ ok c' → IsStep c.inter c'.inter
unfolding check_interrupts
check_interrupts-IsStep c c' d h =
    let (inter, ticks, h₁) = >>=-eq-ok (Bus.tick 1 c.inter) _ h in
    let (frame, divider) = tick-frame 1 c.inter inter ticks in
    let same : c'.inter ≡ inter =
      service-inter inter.irq_controller (record c { inter = inter }) c' h₁ in
    let (least, most) = period_bounds c.inter.cpu_clk_div d in
    subst (λ x. IsStep c.inter x) (sym same)
      (record {
        moves_on = rw frame (omega arith);
        within = rw frame (omega arith);
        divider = rw divider d;
      })

-- The fetch and the execution.
advance-inter :
    (bytes : ℕ) (s s' : Machine (Unit {0})) → advance bytes s ≡ ok s' → s'.cpu.inter ≡ s.cpu.inter
advance-inter bytes s s' h =
    let (r15, _, h₁) = >>=-eq-ok (checked_add 32 (s.cpu.registers 15) bytes) _ h in
    ap (λ t. t.cpu.inter) (sym (ok-injective h₁))

run_thumb-Keeps :
    (pc : ℕ) (s s' : Machine (Unit {0}))
    → run_thumb no_debugger pc s ≡ ok s'
    → Keeps s.cpu.inter s'.cpu.inter
unfolding run_thumb
run_thumb-Keeps pc s s' h =
    let (s₁, moved, h₁) = >>=-eq-ok (advance 2 s) _ h in
    let (_, _, h₂) = >>=-eq-ok (guard (not (nonzero (bit_and pc 1))) Panic.misaligned_pc) _ h₁ in
    let (instruction, _, h₃) = >>=-eq-ok (Bus.load half_word pc s₁.cpu.inter) _ h₂ in
    subst (λ x. Keeps x s'.cpu.inter) (advance-inter 2 s s₁ moved)
      (ThumbExecute.execute-Keeps (u16 instruction) s₁ s' h₃)

run_arm-Keeps :
    (pc : ℕ) (s s' : Machine (Unit {0}))
    → run_arm no_debugger pc s ≡ ok s'
    → Keeps s.cpu.inter s'.cpu.inter
unfolding run_arm
run_arm-Keeps pc s s' h =
    let (s₁, moved, h₁) = >>=-eq-ok (advance 4 s) _ h in
    let (_, _, h₂) = >>=-eq-ok (guard (not (nonzero (bit_and pc 3))) Panic.misaligned_pc) _ h₁ in
    let (instruction, _, h₃) = >>=-eq-ok (Bus.load word pc s₁.cpu.inter) _ h₂ in
    subst (λ x. Keeps x s'.cpu.inter) (advance-inter 4 s s₁ moved)
      (ArmExecute.execute-Keeps instruction s₁ s' h₃)

either_way {ℓ κ} :
    {A : Type ℓ} {P : Type κ} (b : Bool) (x y : A) {z : A}
    → (if b then x else y) ≡ z
    → (x ≡ z → P)
    → (y ≡ z → P)
    → P
either_way true x y h on off = on h
either_way false x y h on off = off h

fetch-Keeps :
    (pc : ℕ) (s s' : Machine (Unit {0}))
    → (if s.cpu.thumb then run_thumb no_debugger pc s else run_arm no_debugger pc s) ≡ ok s'
    → Keeps s.cpu.inter s'.cpu.inter
fetch-Keeps pc s s' h =
    either_way s.cpu.thumb (run_thumb no_debugger pc s) (run_arm no_debugger pc s) h
      (run_thumb-Keeps pc s s') (run_arm-Keeps pc s s')

pub run_next_instruction-IsStep :
    (s s' : Machine (Unit {0}))
    → s.cpu.inter.cpu_clk_div ≤ 7
    → run_next_instruction no_debugger s ≡ ok s'
    → IsStep s.cpu.inter s'.cpu.inter
unfolding run_next_instruction
run_next_instruction-IsStep s s' d h =
    let (c, checked, h₁) = >>=-eq-ok (check_interrupts s.cpu) _ h in
    let step = check_interrupts-IsStep s.cpu c d checked in
    let s₁ = record s { cpu = record c { next_pc = c.registers 15 } } in
    let keeps : Keeps c.inter s'.cpu.inter = fetch-Keeps c.next_pc s₁ s' h₁ in
    record {
      moves_on = rw keeps.0 step.moves_on;
      within = rw keeps.0 step.within;
      divider = keeps.1 step.divider;
    }
