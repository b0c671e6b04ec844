-- ===== src/Examples/Devices.antt =====
-- The interrupt controller, the sound, the timers, the screen and the bus.
use pksx.Base.{◌+◌, ◌-◌, ◌*◌, ◌≤◌, ◌≡◌, refl, true, [], ◌∷◌, arith, ok}
use pksx.Access.{half_word, word}
use Prim.Native.Nat.{min, max}
use pksx.Base.Bits.{bit}
use pksx.Irq
use pksx.Irq.{IrqController, set_raw_interrupt}
use pksx.Irq.Edges.{latch-set_raw_interrupt}
use pksx.Irq.Pending.{store_bits}
use pksx.Dac
use pksx.Dac.{Dac}
use pksx.Dac.Rate.{tick-clocks, tick_rate, clocks}
use pksx.Timer
use pksx.Timer.{Timer, mode}
use pksx.Timer.Bounds
use pksx.Timer.Bounds.{mode-set_mode, set_mode_same_shift, store-IsValid}
use pksx.Timer.Expiry.{IsTicked, tick-IsTicked, tick_period}
use pksx.Lcd
use pksx.Lcd.{Lcd}
use pksx.Lcd.Frame.{load-store_frame}

-- Timer 0 is enabled in the mask, and its line is low.
abbrev open_mask : IrqController
open_mask = record { raw = 0x0400; latch = 0x0001; mask = 0x0081 }

latch_rises : (set_raw_interrupt Irq.timer0 true open_mask).latch ≡ 0x0081
unfolding set_raw_interrupt
latch_rises = refl

latch-set_raw_interrupt_example : bit (set_raw_interrupt Irq.timer0 true open_mask).latch 7 ≡ 1
latch-set_raw_interrupt_example = latch-set_raw_interrupt Irq.timer0 true open_mask 7

store_bits_example : (1 ≡ max 1 1) × (0 ≡ min 1 (1 - 1)) × (0 ≡ min 1 (1 - 1))
unfolding Irq.store
store_bits_example =
    store_bits half_word 0x0081 open_mask 0 refl (omega arith)
      (record { raw = 0x0400; latch = 0x0001; mask = 0x0081 })
      (record { raw = 0x0400; latch = 0x0001; mask = 0x0000 })
      (record { raw = 0x0400; latch = 0x0000; mask = 0x0081 }) refl refl refl

abbrev playing : Dac
playing = record { sample = 0x7fff; enabled = true; backend = []; divider = 40 }

two_samples :
    Dac.tick 200 playing
    ≡ ok (record { sample = 0x7fff; enabled = true; backend = 0x7fff ∷ 0x7fff ∷ []; divider = 20 })
unfolding Dac.tick
two_samples = refl

tick-clocks_example : Dac.tick 200 playing ≡ ok (clocks 200 playing)
tick-clocks_example = tick-clocks 200 playing

tick_rate_example : (200 + 20 + 90 * 0 ≡ 40 + 90 * 2) × (20 ≤ 90)
tick_rate_example = tick_rate 200 playing _ (omega arith) two_samples

-- A timer with a reload value of 10 and a pre-divider of 2.
abbrev running : Timer
running = record { enabled = true; counter = 5; reload = 10; divider = 0; interrupt = Irq.timer0 }

tick-IsTicked_example : IsTicked 30 running open_mask (Timer.tick 30 running open_mask)
tick-IsTicked_example = tick-IsTicked 30 running open_mask (omega arith) refl refl

tick_period_example :
    (irq' : IrqController) × (Timer.tick 21 running open_mask ≡ ok (running, irq'))
tick_period_example = tick_period running open_mask (omega arith) refl refl (omega arith)

set_mode_same_shift_example :
    Timer.set_mode 4 running ≡ ok (record running { divider = 0; enabled = true; counter = 7 })
set_mode_same_shift_example = set_mode_same_shift 4 running (omega arith) (omega arith) refl

store-IsValid_example : Bounds.IsValid (record running { reload = 0x1234 })
unfolding Timer.store
store-IsValid_example = store-IsValid half_word 0 0x51234 running (omega arith) refl

load-store_frame_example :
    (l' : Lcd) × (Lcd.store word (0x100 + 3 * 4) 0xff Lcd.new ≡ ok l')
    × (Lcd.load word (0x100 + 3 * 4) l' ≡ ok 0xff)
    × (Lcd.rotated l' ≡ Lcd.rotated Lcd.new)
load-store_frame_example = load-store_frame Lcd.new 3 3 0xff (omega arith) (omega arith)
