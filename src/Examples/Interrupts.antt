-- ===== src/Examples/Interrupts.antt =====
-- Timers 0 and 2 at the end of a round, with their masks open, in a processor in user mode.
use pksx.Base.{◌≡◌, refl, true, false, arith, ok}
use pksx.Irq
use pksx.Timer.{Timer}
use pksx.Bus
use pksx.Bus.{Interconnect, new_timers}
use pksx.Bus.Ticks
use pksx.Cpu.{Cpu, check_interrupts}
use pksx.Cpu.Modes.{irq, fiq}
use pksx.Cpu.Interrupts.{IsService}
use pksx.Cpu.Delivery.{check_interrupts-IsService_timer0, check_interrupts-IsService_timer2}
use pksx.Examples.Memories.{console}
use pksx.Examples.Processor.{program}

abbrev running : Timer → Timer
running t = record t { enabled = true; counter = 0 }

abbrev timed : Interconnect
timed = record console {
  timers = λ i. running (new_timers i);
  irq_controller = record Irq.new { mask = 0x2080 };
}

abbrev waiting : Cpu
waiting = record program { inter = timed; fiq_en = false }

abbrev waiting_fiq : Cpu
waiting_fiq = record program { inter = timed }

timed-IsValid : Ticks.IsValid timed
timed-IsValid = ground arith

check_interrupts-IsService_timer0_example :
    (inter : Interconnect) × (Bus.tick 1 timed ≡ ok inter)
    × IsService irq 4 0x18 (record waiting { inter = inter }) (check_interrupts waiting)
check_interrupts-IsService_timer0_example =
    check_interrupts-IsService_timer0 waiting timed-IsValid (omega arith) refl refl refl refl refl
      refl (omega arith)

check_interrupts-IsService_timer2_example :
    (inter : Interconnect) × (Bus.tick 1 timed ≡ ok inter)
    × IsService fiq 4 0x1c (record waiting_fiq { inter = inter }) (check_interrupts waiting_fiq)
check_interrupts-IsService_timer2_example =
    check_interrupts-IsService_timer2 waiting_fiq timed-IsValid (omega arith) refl refl refl refl
      refl (omega arith)
