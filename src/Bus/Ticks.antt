-- ===== src/Bus/Ticks.antt =====
-- What one tick of the bus does to the devices, and that it cannot fail.
use pksx.Base.{
  ltb, ◌&&◌, ◌==◌, ℕ, ◌+◌, ◌*◌, ◌%◌, if◌then◌else◌, ◌^◌, ◌≤◌, ◌<◌, ◌≡◌, refl, sym, ap, ◌∙◌, ◌≢◌,
  inl, inr, arith, lt→ltb, Bool-cases, Result, ok, shl32, update,
}
use mathlib.Core.Path.{subst}
use pksx.Base.Bits.{bit}
use pksx.Irq
use pksx.Irq.{IrqController, number}
use pksx.Timer
use pksx.Timer.{Timer}
use pksx.Timer.Bounds
use pksx.Timer.Expiry
use pksx.Timer.Expiry.{IsTicked, tick-IsTicked, top-lt, clocks-lt}
use pksx.Rtc.{master_divider}
use pksx.Rtc.Calendar
use pksx.Rtc.Calendar.{second_of_day}
use pksx.Rtc.Clock.{tick-IsTimed, counted, rising, level}
use pksx.Dac.Rate.{clocks, tick-clocks}
use pksx.Bus.{Interconnect, tick_timer, tick}

-- A timer that is in range, on a line that is low between ticks.
pub record IsTimerValid (t : Timer) (irq : IrqController) : Type 0 where
  pub fields : Bounds.IsValid t
  pub low : bit irq.raw (number t.interrupt) ≡ 0

-- Where `n` ticks take a timer: the counter of an enabled one goes round.
abbrev pub advanced : ℕ → Timer → Timer
advanced n t =
    if t.enabled then record t { counter = Expiry.clocks (Expiry.top t) n t.counter } else t

-- The latch of a timer's interrupt after them: it is set where the counter runs out under an open
-- mask.
abbrev pub latch_after : ℕ → Timer → IrqController → ℕ
latch_after n t irq =
    if t.enabled && ltb t.counter n && bit irq.mask (number t.interrupt) == 1
    then 1
    else bit irq.latch (number t.interrupt)

-- A tick of a timer returns, whether it is enabled or not, and keeps the lines of the timers low.
pub record IsTimerTick (n : ℕ) (t : Timer) (irq : IrqController)
    (result : Result (Timer × IrqController)) : Type 0 where
  pub t' : Timer
  pub irq' : IrqController
  pub returns : result ≡ ok (t', irq')
  pub moved : t' ≡ advanced n t
  pub fields : Bounds.IsValid t'
  pub same_line : t'.interrupt ≡ t.interrupt
  pub low : bit irq'.raw (number t.interrupt) ≡ 0
  pub others : (i : ℕ) → i < 16 → i ≢ number t.interrupt → bit irq'.raw i ≡ bit irq.raw i
  pub mask_kept : irq'.mask ≡ irq.mask
  pub latched : bit irq'.latch (number t.interrupt) ≡ latch_after n t irq
  pub latch_others : (i : ℕ) → i < 16 → i ≢ number t.interrupt → bit irq'.latch i ≡ bit irq.latch i

tick-IsTimerTick :
    (n : ℕ) (t : Timer) (irq : IrqController)
    → 0 < n
    → IsTimerValid t irq
    → IsTimerTick n t irq (Timer.tick n t irq)
tick-IsTimerTick n t irq h v = elim (Bool-cases t.enabled) [
  | inr off ↦ record {
    t' = t;
    irq' = irq;
    returns = unfold Timer.tick in rw off;
    moved = rw off;
    fields = v.fields;
    same_line = refl;
    low = v.low;
    others = λ i p q. refl;
    mask_kept = refl;
    latched = rw off refl;
    latch_others = λ i p q. refl;
  }
  | inl on ↦
      let run = tick-IsTicked n t irq v.fields on v.low in
      record {
        t' = record t { counter = Expiry.clocks (Expiry.top t) n t.counter };
        irq' = run.irq';
        returns = run.returns;
        moved = rw on;
        fields = record {
          known = v.fields.known;
          reload_fits = v.fields.reload_fits;
          counter_fits =
              clocks-lt (Expiry.top t) n t.counter (top-lt t v.fields) v.fields.counter_fits;
        };
        same_line = refl;
        low = run.level h;
        others = λ i p q. (run.others i p q).0;
        mask_kept = run.mask_kept;
        latched = rw on run.latched;
        latch_others = λ i p q. (run.others i p q).1;
      }
]

-- The latch of line `k` after the tick of its timer, by a state that the line has not changed since.
line_latched :
    (n k : ℕ) (t : Timer) (irq before : IrqController) (latch : ℕ)
    → number t.interrupt ≡ k
    → bit latch (number t.interrupt) ≡ latch_after n t irq
    → irq.mask ≡ before.mask
    → bit irq.latch k ≡ bit before.latch k
    → bit latch k ≡ latch_after n t before
line_latched n k t irq before latch e latched mask same =
    let masks = ap (λ m. bit m (number t.interrupt)) mask in
    let bits = subst (λ j. bit irq.latch j ≡ bit before.latch j) (sym e) same in
    subst (λ j. bit latch j ≡ latch_after n t before) e (latched ∙ rw (masks, bits) refl)

-- The state of the bus between ticks: every device in range, the lines of the timers low, and each
-- timer on its own line.
pub record IsValid (s : Interconnect) : Type 0 where
  pub clock : Calendar.IsValid s.rtc
  pub clock_divider : s.rtc.divider ≤ master_divider
  pub line0 : (s.timers 0).interrupt ≡ Irq.timer0
  pub line1 : (s.timers 1).interrupt ≡ Irq.timer1
  pub line2 : (s.timers 2).interrupt ≡ Irq.timer2
  pub timer0 : IsTimerValid (s.timers 0) s.irq_controller
  pub timer1 : IsTimerValid (s.timers 1) s.irq_controller
  pub timer2 : IsTimerValid (s.timers 2) s.irq_controller
  pub divider : s.cpu_clk_div ≤ 7

-- The devices that a tick leaves alone.
abbrev pub SameMemory : Interconnect → Interconnect → Type 0
SameMemory s s' =
    (s'.bios ≡ s.bios)
    × (s'.flash ≡ s.flash)
    × (s'.ram ≡ s.ram)
    × (s'.lcd ≡ s.lcd)
    × (s'.cpu_clk_div ≡ s.cpu_clk_div)

-- The lines of the three timers are low.
abbrev LinesLow : IrqController → Type 0
LinesLow irq = (bit irq.raw 7 ≡ 0) × (bit irq.raw 8 ≡ 0) × (bit irq.raw 13 ≡ 0)

-- A tick of one timer leaves them low.
tick-LinesLow :
    (t : Timer) (irq irq' : IrqController)
    → bit irq'.raw (number t.interrupt) ≡ 0
    → ((i : ℕ) → i < 16 → i ≢ number t.interrupt → bit irq'.raw i ≡ bit irq.raw i)
    → LinesLow irq
    → LinesLow irq'
tick-LinesLow t irq irq' low others (a, b, c) =
    let k7 = others 7 (omega arith) in
    let k8 = others 8 (omega arith) in
    let k13 = others 13 (omega arith) in (ground arith, ground arith, ground arith)

low_at :
    (t : Timer) (irq : IrqController) (k : ℕ)
    → number t.interrupt ≡ k
    → bit irq.raw (number t.interrupt) ≡ 0
    → bit irq.raw k ≡ 0
low_at t irq k e low = subst (λ j. bit irq.raw j ≡ 0) e low

timer-IsTimerValid :
    (t : Timer) (irq : IrqController) (k : ℕ)
    → Bounds.IsValid t
    → number t.interrupt ≡ k
    → bit irq.raw k ≡ 0
    → IsTimerValid t irq
timer-IsTimerValid t irq k fields e low = record { fields = fields; low = rw e low }

-- What a tick of the bus comes to.
pub record IsBusTick (n : ℕ) (s : Interconnect) (result : Result Interconnect) : Type 0 where
  pub after : Interconnect
  pub returns : result ≡ ok after
  pub keeps : IsValid after
  pub timers_moved :
      (after.timers 0 ≡ advanced n (s.timers 0))
      × (after.timers 1 ≡ advanced n (s.timers 1))
      × (after.timers 2 ≡ advanced n (s.timers 2))
  pub toggles : ℕ
  pub clock_moved :
      shl32 n s.cpu_clk_div + after.rtc.divider ≡ s.rtc.divider + master_divider * toggles
  pub seconds_moved :
      second_of_day after.rtc
      ≡ (second_of_day s.rtc + counted s.rtc (rising toggles (level s.irq_controller))) % 86400
  pub frame : after.frame_ticks ≡ s.frame_ticks + shl32 n s.cpu_clk_div
  pub sound : after.dac ≡ clocks (shl32 n s.cpu_clk_div) s.dac
  pub memory : SameMemory s after
  pub mask_kept : after.irq_controller.mask ≡ s.irq_controller.mask
  pub latched :
      (bit after.irq_controller.latch 7 ≡ latch_after n (s.timers 0) s.irq_controller)
      × (bit after.irq_controller.latch 8 ≡ latch_after n (s.timers 1) s.irq_controller)
      × (bit after.irq_controller.latch 13 ≡ latch_after n (s.timers 2) s.irq_controller)

-- From a valid state of the bus, a tick of at least one CPU cycle returns unless the frame's count
-- of ticks overflows. The state stays valid; every enabled timer's counter goes round by the CPU
-- cycles; the clock's divider, its seconds, the sound and the frame's count move on by the master
-- clock periods that the cycles are worth; the interrupt of a timer is latched exactly where it
-- was or where the counter of the enabled timer is less than the cycles under an open mask; the
-- masks, the memories and the screen are unchanged.
pub tick-IsBusTick :
    (n : ℕ) (s : Interconnect)
    → 0 < n
    → s.frame_ticks + shl32 n s.cpu_clk_div < 2 ^ 32
    → IsValid s
    → IsBusTick n s (tick n s)
tick-IsBusTick n s h room v =
    let n0 : number (s.timers 0).interrupt ≡ 7 = ap number v.line0 in
    let n1 : number (s.timers 1).interrupt ≡ 8 = ap number v.line1 in
    let n2 : number (s.timers 2).interrupt ≡ 13 = ap number v.line2 in
    let m : ℕ = shl32 n s.cpu_clk_div in
    let c = tick-IsTimed m s.rtc s.irq_controller v.clock v.clock_divider in
    let low : LinesLow c.irq' = (
      c.others 7 (omega arith) (omega arith)
          ∙ low_at (s.timers 0) s.irq_controller 7 n0 v.timer0.low,
      c.others 8 (omega arith) (omega arith)
          ∙ low_at (s.timers 1) s.irq_controller 8 n1 v.timer1.low,
      c.others 13 (omega arith) (omega arith)
          ∙ low_at (s.timers 2) s.irq_controller 13 n2 v.timer2.low,
    ) in
    let t0 =
      tick-IsTimerTick n (s.timers 0) c.irq' h
        (timer-IsTimerValid (s.timers 0) c.irq' 7 v.timer0.fields n0 low.0) in
    let low0 = tick-LinesLow (s.timers 0) c.irq' t0.irq' t0.low t0.others low in
    let t1 =
      tick-IsTimerTick n (s.timers 1) t0.irq' h
        (timer-IsTimerValid (s.timers 1) t0.irq' 8 v.timer1.fields n1 low0.1) in
    let low1 = tick-LinesLow (s.timers 1) t0.irq' t1.irq' t1.low t1.others low0 in
    let t2 =
      tick-IsTimerTick n (s.timers 2) t1.irq' h
        (timer-IsTimerValid (s.timers 2) t1.irq' 13 v.timer2.fields n2 low1.2) in
    let low2 = tick-LinesLow (s.timers 2) t1.irq' t2.irq' t2.low t2.others low1 in
    record {
      after = record s {
        rtc = c.after;
        dac = clocks m s.dac;
        irq_controller = t2.irq';
        timers = update (update (update s.timers 0 t0.t') 1 t1.t') 2 t2.t';
        frame_ticks = s.frame_ticks + m;
      };
      returns =
          unfold tick tick_timer in
          rw (
            c.returns,
            tick-clocks,
            t0.returns,
            t1.returns,
            t2.returns,
            lt→ltb (s.frame_ticks + m) (2 ^ 32) room,
          );
      keeps = record {
        clock = c.keeps;
        clock_divider = c.fits;
        line0 = t0.same_line ∙ v.line0;
        line1 = t1.same_line ∙ v.line1;
        line2 = t2.same_line ∙ v.line2;
        timer0 = timer-IsTimerValid t0.t' t2.irq' 7 t0.fields (ap number t0.same_line ∙ n0) low2.0;
        timer1 = timer-IsTimerValid t1.t' t2.irq' 8 t1.fields (ap number t1.same_line ∙ n1) low2.1;
        timer2 = timer-IsTimerValid t2.t' t2.irq' 13 t2.fields (ap number t2.same_line ∙ n2) low2.2;
        divider = v.divider;
      };
      timers_moved = (t0.moved, t1.moved, t2.moved);
      toggles = c.toggles;
      clock_moved = c.spent;
      seconds_moved = c.moves;
      frame = refl;
      sound = refl;
      memory = (refl, refl, refl, refl, refl);
      mask_kept = t2.mask_kept ∙ (t1.mask_kept ∙ (t0.mask_kept ∙ c.mask_kept));
      latched = (
        t2.latch_others 7 (omega arith) (omega arith)
            ∙ (t1.latch_others 7 (omega arith) (omega arith)
                ∙ line_latched n 7 (s.timers 0) c.irq' s.irq_controller t0.irq'.latch n0 t0.latched
                    c.mask_kept (c.latch_others 7 (omega arith) (omega arith))),
        t2.latch_others 8 (omega arith) (omega arith)
            ∙ line_latched n 8 (s.timers 1) t0.irq' s.irq_controller t1.irq'.latch n1 t1.latched
                (t0.mask_kept ∙ c.mask_kept)
                (t0.latch_others 8 (omega arith) (omega arith)
                  ∙ c.latch_others 8 (omega arith) (omega arith)),
        line_latched n 13 (s.timers 2) t1.irq' s.irq_controller t2.irq'.latch n2 t2.latched
            (t1.mask_kept ∙ (t0.mask_kept ∙ c.mask_kept))
            (t1.latch_others 13 (omega arith) (omega arith)
              ∙ (t0.latch_others 13 (omega arith) (omega arith)
                  ∙ c.latch_others 13 (omega arith) (omega arith))),
      );
    }
