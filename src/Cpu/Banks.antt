-- ===== src/Cpu/Banks.antt =====
-- What a change of mode does to the registers that a program sees.
use pksx.Base.{
  ℕ, ◌≡◌, refl, inl, inr, Bool, true, false, ◌&&◌, ◌||◌, arith, ◌==◌, between, Bool-cases,
}
use pksx.Cpu.Modes.{
  Mode, user, fiq, irq, supervisor, abort, undefined, system, same_mode, has_spsr, same_mode→eq,
}
use pksx.Cpu.{Cpu, save_bank, load_bank, change_mode}

-- The registers of a mode that has been left are all there when it is entered again.
registers-back :
    (a m : Mode) (c : Cpu) (i : ℕ)
    → same_mode a m ≡ false
    → (load_bank a (save_bank m (record (load_bank m (save_bank a c)) { mode = m }))).registers i
      ≡ c.registers i
unfolding save_bank load_bank
registers-back user user c i h = ground arith
registers-back user _ c i h = ground arith
registers-back system user c i h = ground arith
registers-back system _ c i h = ground arith
registers-back supervisor user c i h = ground arith
registers-back supervisor _ c i h = ground arith
registers-back abort user c i h = ground arith
registers-back abort _ c i h = ground arith
registers-back undefined user c i h = ground arith
registers-back undefined _ c i h = ground arith
registers-back irq user c i h = ground arith
registers-back irq _ c i h = ground arith
registers-back fiq user c i h = ground arith
registers-back fiq _ c i h = ground arith

spsr-back :
    (a m : Mode) (c : Cpu)
    → same_mode a m ≡ false
    → has_spsr a ≡ true
    → (load_bank a (save_bank m (record (load_bank m (save_bank a c)) { mode = m }))).spsr ≡ c.spsr
unfolding save_bank load_bank
spsr-back user user c h k = ground arith
spsr-back user _ c h k = ground arith
spsr-back system user c h k = ground arith
spsr-back system _ c h k = ground arith
spsr-back supervisor user c h k = ground arith
spsr-back supervisor _ c h k = ground arith
spsr-back abort user c h k = ground arith
spsr-back abort _ c h k = ground arith
spsr-back undefined user c h k = ground arith
spsr-back undefined _ c h k = ground arith
spsr-back irq user c h k = ground arith
spsr-back irq _ c h k = ground arith
spsr-back fiq user c h k = ground arith
spsr-back fiq _ c h k = ground arith

-- What a change of mode leaves alone.
pub record SameState (c c' : Cpu) : Type 0 where
  pub flags : (c'.n ≡ c.n) × (c'.z ≡ c.z) × (c'.c ≡ c.c) × (c'.v ≡ c.v)
  pub enables : (c'.irq_en ≡ c.irq_en) × (c'.fiq_en ≡ c.fiq_en) × (c'.thumb ≡ c.thumb)
  pub pc : c'.next_pc ≡ c.next_pc
  pub bus : c'.inter ≡ c.inter

pub banks-SameState : (a m : Mode) (c : Cpu) → SameState c (load_bank m (save_bank a c))
unfolding save_bank load_bank
banks-SameState user user c = ground arith
banks-SameState user _ c = ground arith
banks-SameState system user c = ground arith
banks-SameState system _ c = ground arith
banks-SameState supervisor user c = ground arith
banks-SameState supervisor _ c = ground arith
banks-SameState abort user c = ground arith
banks-SameState abort _ c = ground arith
banks-SameState undefined user c = ground arith
banks-SameState undefined _ c = ground arith
banks-SameState irq user c = ground arith
banks-SameState irq _ c = ground arith
banks-SameState fiq user c = ground arith
banks-SameState fiq _ c = ground arith

-- Is a register one that a change between these modes may replace?
abbrev pub is_banked : Mode → Mode → ℕ → Bool
is_banked a m i = i == 13 || i == 14 || (between 8 12 i && (same_mode a fiq || same_mode m fiq))

banks_unbanked :
    (a m : Mode) (c : Cpu) (i : ℕ)
    → is_banked a m i ≡ false
    → (load_bank m (save_bank a c)).registers i ≡ c.registers i
unfolding save_bank load_bank
banks_unbanked user user c i h = ground arith
banks_unbanked user _ c i h = ground arith
banks_unbanked system user c i h = ground arith
banks_unbanked system _ c i h = ground arith
banks_unbanked supervisor user c i h = ground arith
banks_unbanked supervisor _ c i h = ground arith
banks_unbanked abort user c i h = ground arith
banks_unbanked abort _ c i h = ground arith
banks_unbanked undefined user c i h = ground arith
banks_unbanked undefined _ c i h = ground arith
banks_unbanked irq user c i h = ground arith
banks_unbanked irq _ c i h = ground arith
banks_unbanked fiq user c i h = ground arith
banks_unbanked fiq _ c i h = ground arith

pub change_mode_same : (m : Mode) (c : Cpu) → same_mode c.mode m ≡ true → change_mode m c ≡ c
unfolding change_mode
change_mode_same m c h = rw h

pub change_mode_other :
    (m : Mode) (c : Cpu)
    → same_mode c.mode m ≡ false
    → change_mode m c ≡ record (load_bank m (save_bank c.mode c)) { mode = m }
unfolding change_mode
change_mode_other m c h = rw h

pub mode-change_mode : (m : Mode) (c : Cpu) → (change_mode m c).mode ≡ m
mode-change_mode m c = elim (Bool-cases (same_mode c.mode m)) [
  | inl same ↦ rw (change_mode_same m c same) (same_mode→eq c.mode m same)
  | inr other ↦ rw (change_mode_other m c other)
]

-- A change of mode enters the mode, keeps the flags, the Thumb bit, the enables, the next program
-- counter and the bus, and replaces no register but those that the two modes bank.
pub change_mode_lem :
    (m : Mode) (c : Cpu) (i : ℕ)
    → is_banked c.mode m i ≡ false
    → ((change_mode m c).mode ≡ m)
      × SameState c (change_mode m c)
      × ((change_mode m c).registers i ≡ c.registers i)
change_mode_lem m c i h = elim (Bool-cases (same_mode c.mode m)) [
  | inl same ↦ rw (change_mode_same m c same) (same_mode→eq c.mode m same, ground arith, refl)
  | inr other ↦
      let kept = banks-SameState c.mode m c in
      rw (change_mode_other m c other) (
        refl,
        record { flags = kept.flags; enables = kept.enables; pc = kept.pc; bus = kept.bus },
        banks_unbanked c.mode m c i h,
      )
]

same_mode_refl : (a : Mode) → same_mode a a ≡ true
same_mode_refl user = refl
same_mode_refl _ = refl

pub same_mode_sym : (a b : Mode) → same_mode a b ≡ false → same_mode b a ≡ false
same_mode_sym a b h = ground arith

change_mode_there_and_back :
    (m : Mode) (c : Cpu)
    → same_mode c.mode m ≡ false
    → change_mode c.mode (change_mode m c)
      ≡ record (load_bank c.mode
          (save_bank m (record (load_bank m (save_bank c.mode c)) { mode = m }))) { mode = c.mode }
change_mode_there_and_back m c other = rw (change_mode_other m c other) (
    change_mode_other c.mode (record (load_bank m (save_bank c.mode c)) { mode = m })
      (same_mode_sym c.mode m other))

-- Changing the mode and changing back restores every register and the mode.
pub change_mode_back :
    (m : Mode) (c : Cpu) (i : ℕ)
    → ((change_mode c.mode (change_mode m c)).registers i ≡ c.registers i)
      × ((change_mode c.mode (change_mode m c)).mode ≡ c.mode)
change_mode_back m c i = elim (Bool-cases (same_mode c.mode m)) [
  | inl same ↦
      rw (change_mode_same m c same)
        (rw (change_mode_same c.mode c (same_mode_refl c.mode)) (refl, refl))
  | inr other ↦ rw (change_mode_there_and_back m c other) (registers-back c.mode m c i other, refl)
]

-- Changing the mode and changing back restores the saved status, where the first mode has one.
pub change_mode_back_spsr :
    (m : Mode) (c : Cpu)
    → has_spsr c.mode ≡ true
    → (change_mode c.mode (change_mode m c)).spsr ≡ c.spsr
change_mode_back_spsr m c h = elim (Bool-cases (same_mode c.mode m)) [
  | inl same ↦
      rw (change_mode_same m c same) (rw (change_mode_same c.mode c (same_mode_refl c.mode)) refl)
  | inr other ↦ rw (change_mode_there_and_back m c other) (spsr-back c.mode m c other h)
]
