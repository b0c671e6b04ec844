-- ===== src/Bus.antt =====
-- src/memory/mod.rs, `Interconnect`: the address map of the console, and the tick of its devices.
-- What the code prints on stores to registers that it does not emulate is left out.
pub mod Windows
pub mod Ticks
use pksx.Base.{
  ℕ, zero, suc, ◌-◌, bit_and, bit_or, Bool, ◌||◌, leb, ◌==◌, if◌then◌else◌, between, Panic, Result,
  ok, panic, ◌>>=◌, ◌>>◌, checked_add, u8, shr, shl32, nonzero, update, read,
}
use pksx.Access.{Addressable, size}
use pksx.Irq
use pksx.Irq.{IrqController}
use pksx.Timer
use pksx.Timer.{Timer}
use pksx.Rtc
use pksx.Rtc.{Rtc}
use pksx.Rtc.Registers
use pksx.Lcd
use pksx.Lcd.{Lcd}
use pksx.Dac
use pksx.Dac.{Dac}
use pksx.Irda
use pksx.Irda.{Irda}
use pksx.Memory.Ram
use pksx.Memory.Ram.{Ram}
use pksx.Memory.Bios
use pksx.Memory.Bios.{Bios}
use pksx.Memory.Flash
use pksx.Memory.Flash.{Flash}

pub record Interconnect : Type 0 where
  pub bios : Bios
  pub flash : Flash
  pub ram : Ram
  pub irq_controller : IrqController
  pub timers : ℕ → Timer
  pub rtc : Rtc
  pub lcd : Lcd
  pub dac : Dac
  pub irda : Irda
  pub cpu_clk_div : ℕ
  pub frame_ticks : ℕ
  pub iop_ctrl : ℕ

-- The number of timers.
abbrev pub timer_count : ℕ
timer_count = 3

abbrev pub new_timers : ℕ → Timer
new_timers zero = Timer.new Irq.timer0
new_timers (suc zero) = Timer.new Irq.timer1
new_timers (suc (suc i)) = Timer.new Irq.timer2

abbrev pub new : Bios → Flash → Dac → Interconnect
new bios flash dac = record {
  bios = bios;
  flash = flash;
  ram = Ram.new;
  irq_controller = Irq.new;
  timers = new_timers;
  rtc = Rtc.new;
  lcd = Lcd.new;
  dac = dac;
  irda = Irda.new;
  cpu_clk_div = 7;
  frame_ticks = 0;
  iop_ctrl = 0;
}

unfoldable pub reset : Interconnect → Interconnect
reset s = record s { flash = Flash.reset s.flash }

abbrev pub set_bios : Bios → Interconnect → Interconnect
set_bios bios s = record s { bios = bios }

-- The tick of one timer, in place.
unfoldable pub tick_timer : ℕ → ℕ → Interconnect → Result Interconnect
tick_timer i cpu_ticks s = do
  ticked ← Timer.tick cpu_ticks (s.timers i) s.irq_controller
  ok (record s { timers = update s.timers i ticked.0; irq_controller = ticked.1 })

unfoldable pub tick : ℕ → Interconnect → Result Interconnect
tick cpu_ticks s = do
  let master_ticks = shl32 cpu_ticks s.cpu_clk_div
  clock ← Rtc.tick master_ticks s.rtc s.irq_controller
  let s₁ = record s { rtc = clock.0; irq_controller = clock.1 }
  dac ← Dac.tick master_ticks s₁.dac
  let s₂ = record s₁ { dac = dac }
  s₃ ← tick_timer 0 cpu_ticks s₂
  s₄ ← tick_timer 1 cpu_ticks s₃
  s₅ ← tick_timer 2 cpu_ticks s₄
  frame_ticks ← checked_add 32 s₅.frame_ticks master_ticks
  ok (record s₅ { frame_ticks = frame_ticks })

-- `addr >> 24` and `addr & 0xffffff`.
abbrev pub region : ℕ → ℕ
region addr = shr addr 24

abbrev pub offset_of : ℕ → ℕ
offset_of addr = bit_and addr 0xffffff

-- `(addr & (A::size() as u32 - 1)) != 0`.
abbrev pub is_misaligned : Addressable → ℕ → Bool
is_misaligned a addr = nonzero (bit_and addr (size a - 1))

-- The regions 0x0a, 0x0b, 0x0c and 0x0d of `load`.
unfoldable pub load_irq_timers : Addressable → ℕ → Interconnect → Result ℕ
load_irq_timers a offset s =
    if between 0x00 0x10 offset
    then Irq.load a offset s.irq_controller
    else if between 0x800000 0x800028 offset
    then (read timer_count s.timers (bit_and (shr offset 8) 3) >>= λ t.
        Timer.load a (bit_and offset 0xf) t)
    else panic Panic.unhandled_address

unfoldable pub load_clocks : ℕ → Interconnect → Result ℕ
load_clocks offset s =
    if offset == 0
    then ok (bit_or 0x10 (7 - s.cpu_clk_div))
    else if between 0x800000 0x80000c offset
    then Registers.load (bit_and offset 0xf) s.rtc
    else panic Panic.unhandled_address

unfoldable pub load_ports : Addressable → ℕ → Interconnect → Result ℕ
load_ports a offset s =
    if offset == 0x800000
    then Irda.load a 0 s.irda
    else if offset == 0x800004
    then Irda.load a 4 s.irda
    else panic Panic.unhandled_address

unfoldable pub load_screen_sound : Addressable → ℕ → Interconnect → Result ℕ
load_screen_sound a offset s =
    if leb offset 0x1ff
    then Lcd.load a offset s.lcd
    else if offset == 0x800000
    then ok s.iop_ctrl
    else if offset == 0x800004
    then ok 0
    else if offset == 0x80000c
    then ok 0
    else if offset == 0x800010
    then Dac.load a 0 s.dac
    else if offset == 0x800014
    then Dac.load a 4 s.dac
    else if offset == 0x800020
    then ok 0
    else panic Panic.unhandled_address

unfoldable pub load : Addressable → ℕ → Interconnect → Result ℕ
load a addr s =
    let offset = offset_of addr in
    if is_misaligned a addr
    then panic Panic.misaligned
    else if region addr == 0x00
    then (if s.flash.bios_at_0 then Bios.load a offset s.bios else Ram.load a offset s.ram)
    else if region addr == 0x02
    then Flash.load_virtual a offset s.flash
    else if region addr == 0x04
    then Bios.load a offset s.bios
    else if region addr == 0x06
    then Flash.load_config offset s.flash
    else if region addr == 0x08
    then Flash.load_raw a offset s.flash
    else if region addr == 0x0a
    then load_irq_timers a offset s
    else if region addr == 0x0b
    then load_clocks offset s
    else if region addr == 0x0c
    then load_ports a offset s
    else if region addr == 0x0d
    then load_screen_sound a offset s
    else panic Panic.unhandled_address

-- The same regions of `store`.
unfoldable pub store_irq_timers : Addressable → ℕ → ℕ → Interconnect → Result Interconnect
store_irq_timers a offset val s =
    if between 0x00 0x10 offset
    then (do irq ← Irq.store a offset val s.irq_controller; ok (record s { irq_controller = irq }))
    else if between 0x800000 0x800028 offset
    then (do
      let i = bit_and (shr offset 4) 3
      t ← read timer_count s.timers i
      t' ← Timer.store a (bit_and offset 0xf) val t
      ok (record s { timers = update s.timers i t' }))
    else panic Panic.unhandled_address

unfoldable pub store_clocks : ℕ → ℕ → Interconnect → Result Interconnect
store_clocks offset val s =
    if offset == 0
    then ok (record s { cpu_clk_div = 7 - bit_and val 0x7 })
    else if between 0x800000 0x80000c offset
    then (do rtc ← Registers.store (bit_and offset 0xf) val s.rtc; ok (record s { rtc = rtc }))
    else panic Panic.unhandled_address

unfoldable pub store_ports : Addressable → ℕ → ℕ → Interconnect → Result Interconnect
store_ports a offset val s =
    if offset == 0x00 || offset == 0x08 || offset == 0x10 || offset == 0x18
    then ok s
    else if offset == 0x800000
    then (do d ← Irda.store a 0 val s.irda; ok (record s { irda = d }))
    else if offset == 0x800004
    then (do d ← Irda.store a 4 val s.irda; ok (record s { irda = d }))
    else panic Panic.unhandled_address

unfoldable pub store_screen_sound : Addressable → ℕ → ℕ → Interconnect → Result Interconnect
store_screen_sound a offset val s =
    if leb offset 0x1ff
    then (do l ← Lcd.store a offset val s.lcd; ok (record s { lcd = l }))
    else if offset == 0x800000
    then ok (record s { iop_ctrl = u8 val })
    else if offset == 0x800004 || offset == 0x800008 || offset == 0x800020
    then ok s
    else if offset == 0x800010
    then (do d ← Dac.store a 0 val s.dac; ok (record s { dac = d }))
    else if offset == 0x800014
    then (do d ← Dac.store a 4 val s.dac; ok (record s { dac = d }))
    else panic Panic.unhandled_address

unfoldable pub store : Addressable → ℕ → ℕ → Interconnect → Result Interconnect
store a addr val s =
    let offset = offset_of addr in
    if is_misaligned a addr
    then panic Panic.misaligned
    else if region addr == 0x00
    then (if s.flash.bios_at_0
        then ok s
        else (do m ← Ram.store a offset val s.ram; ok (record s { ram = m })))
    else if region addr == 0x06
    then (do f ← Flash.store_config offset val s.flash; ok (record s { flash = f }))
    else if region addr == 0x08
    then (if offset == 0x2a54 || offset == 0x55aa
        then ok s
        else (do f ← Flash.store_raw a offset val s.flash; ok (record s { flash = f })))
    else if region addr == 0x0a
    then store_irq_timers a offset val s
    else if region addr == 0x0b
    then store_clocks offset val s
    else if region addr == 0x0c
    then store_ports a offset val s
    else if region addr == 0x0d
    then store_screen_sound a offset val s
    else panic Panic.unhandled_address
