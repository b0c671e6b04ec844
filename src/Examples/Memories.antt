-- ===== src/Examples/Memories.antt =====
-- The memories and the bus.
use pksx.Base.{
  ℕ, ◌+◌, ◌*◌, ◌%◌, ◌<◌, ◌≡◌, refl, ◌↔◌, ◌⊎◌, true, not, ◌||◌, none, some, [], arith, ◌==◌,
  if◌then◌else◌, holds_below, holds_below-test, ok,
}
use pksx.Access.{half_word, word}
use pksx.Timer
use pksx.Dac
use pksx.Memory.Bytes.Words.{IsBytes}
use pksx.Memory.Ram
use pksx.Memory.Ram.{Ram}
use pksx.Memory.Ram.Access.{load-store}
use pksx.Memory.Flash.{Flash, enabled, load_raw, load_virtual, store_config, rebuild_virt_mapping}
use pksx.Memory.Flash.Banks.{NoClash}
use pksx.Memory.Flash.Rebuild.{IsConsistent, rebuild_virt_mapping_iff, store_config-IsConsistent}
use pksx.Memory.Flash.Reads.{load_virtual_enabled}
use pksx.Bus
use pksx.Bus.{Interconnect}
use pksx.Bus.Windows.{timer_offset, load_timer}
use pksx.Bus.Ticks
use pksx.Bus.Ticks.{IsBusTick, tick-IsBusTick}

load-store_example :
    (m : Ram) × (Ram.store word 0x10 0x12345678 Ram.new ≡ ok m)
    × IsBytes m.bytes
    × (Ram.load word 0x10 m ≡ ok 0x12345678)
    × (Ram.load half_word 0x14 m ≡ Ram.load half_word 0x14 Ram.new)
load-store_example =
    load-store word half_word 0x10 0x14 0x12345678 Ram.new (λ i. omega arith) (omega arith)
      (omega arith) (omega arith)

-- Flash with two enabled banks, 0 and 2, at the virtual banks 0 and 1.
abbrev pub card : Flash
card = record {
  bytes = λ i. i % 256;
  bios_at_0 = true;
  phys_bank_en = 0b101;
  phys_to_virt_bank = λ p. if p == 2 then 1 else 0;
  virt_to_phys_bank = λ v. if v == 0 then some 0 else if v == 1 then some 2 else none;
  f_wait1 = 0;
  f_wait2 = 0;
  f_ctrl = 0;
}

enabled_table : holds_below (λ p. not (enabled card p) || (p == 0 || p == 2)) 16 ≡ true
unfolding holds_below enabled
enabled_table = refl

card_enabled : (p : ℕ) → p < 16 → enabled card p ≡ true → (p ≡ 0) ⊎ (p ≡ 2)
card_enabled p h on =
    ground
      (arith, holds_below-test (λ q. not (enabled card q) || (q == 0 || q == 2)) 16 enabled_table p)

card-NoClash : NoClash card
card-NoClash p q hp hq onp onq same = ground (arith, card_enabled p hp onp, card_enabled q hq onq)

rebuild_virt_mapping_iff_example : ((f : Flash) × (rebuild_virt_mapping card ≡ ok f)) ↔ NoClash card
rebuild_virt_mapping_iff_example = rebuild_virt_mapping_iff card (λ p. ground arith)

low_enabled : (enabled card 0 ≡ true) × (enabled card 2 ≡ true)
unfolding enabled
low_enabled = (refl, refl)

card-IsConsistent : IsConsistent card
card-IsConsistent = record {
  range = λ p. ground arith;
  inverts = record {
    sound = λ v q e. ground (arith, low_enabled);
    complete = λ q h on. ground (arith, card_enabled q h on);
  };
}

store_config-IsConsistent_example : IsConsistent (record card { f_wait1 = 7 })
unfolding store_config
store_config-IsConsistent_example = store_config-IsConsistent 0x0c 7 card card-IsConsistent refl

load_virtual_enabled_example :
    (load_virtual half_word (8192 + 0x11 * 2) card ≡ load_raw half_word (2 * 8192 + 0x11 * 2) card)
    × (load_raw half_word (2 * 8192 + 0x11 * 2) card ≡ ok 0x2322)
load_virtual_enabled_example =
    load_virtual_enabled half_word 2 0x22 card card-IsConsistent (λ i. omega arith) refl
      (omega arith) low_enabled.1 (omega arith)

abbrev pub console : Interconnect
console = Bus.new (record { bytes = λ _. 0 }) card (Dac.new [])

console-IsValid : Ticks.IsValid console
console-IsValid = ground arith

tick-IsBusTick_example : IsBusTick 1 console (Bus.tick 1 console)
tick-IsBusTick_example = tick-IsBusTick 1 console (omega arith) (omega arith) console-IsValid

load_timer_example :
    Bus.load_irq_timers word (timer_offset 2 8) console ≡ Timer.load word 8 (console.timers 0)
load_timer_example = load_timer word 2 8 console (omega arith) (omega arith) (omega arith)
