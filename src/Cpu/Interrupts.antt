-- ===== src/Cpu/Interrupts.antt =====
-- The entry into an interrupt or a supervisor call, and the return from it.
use pksx.Base.{
  ℕ, ◌+◌, ◌-◌, ◌^◌, ◌<◌, ◌≡◌, refl, ap, ◌∙◌, Bool, true, false, arith, lt→ltb, Result, ok,
  wrapping_add, update,
}
use mathlib.Core.Path.{subst}
use pksx.Cpu.Modes.{Mode, user, fiq, irq, supervisor, abort, undefined, system, same_mode, has_spsr}
use pksx.Cpu.{
  Cpu, save_bank, load_bank, change_mode, set_pc, set_reg, cpsr, enter, swi, fiq_entry, irq_entry,
  set_pc_cpsr, reg,
}
use pksx.Cpu.Banks.{change_mode_other, same_mode_sym, banks-SameState}
use pksx.Cpu.Status.{restored, set_pc_cpsr-cpsr, SameStatus, restored-SameStatus}

-- The state in which an entry into the mode `m` leaves the processor, over the state `x` that the
-- change of mode gives.
abbrev entered : Mode → ℕ → ℕ → ℕ → ℕ → Cpu → Cpu
entered m ra status vector r15 x = record x {
  mode = m;
  spsr = status;
  next_pc = vector;
  registers = update (update x.registers 14 ra) 15 r15;
}

-- The registers of the mode that an entry left, below the program counter.
registers_return :
    (a m : Mode) (ra status vector r15 : ℕ) (c : Cpu) (i : ℕ)
    → same_mode a m ≡ false
    → has_spsr m ≡ true
    → i < 15
    → (load_bank a
          (save_bank m (entered m ra status vector r15 (load_bank m (save_bank a c))))).registers
        i
      ≡ c.registers i
unfolding save_bank load_bank
registers_return user user ra status vector r15 c i h e k = ground arith
registers_return user _ ra status vector r15 c i h e k = ground arith
registers_return system user ra status vector r15 c i h e k = ground arith
registers_return system _ ra status vector r15 c i h e k = ground arith
registers_return supervisor user ra status vector r15 c i h e k = ground arith
registers_return supervisor _ ra status vector r15 c i h e k = ground arith
registers_return abort user ra status vector r15 c i h e k = ground arith
registers_return abort _ ra status vector r15 c i h e k = ground arith
registers_return undefined user ra status vector r15 c i h e k = ground arith
registers_return undefined _ ra status vector r15 c i h e k = ground arith
registers_return irq user ra status vector r15 c i h e k = ground arith
registers_return irq _ ra status vector r15 c i h e k = ground arith
registers_return fiq user ra status vector r15 c i h e k = ground arith
registers_return fiq _ ra status vector r15 c i h e k = ground arith

enter_lem :
    (m : Mode) (ra status vector : ℕ) (c : Cpu)
    → same_mode c.mode m ≡ false
    → c.thumb ≡ false
    → enter m ra status vector c
      ≡ entered m ra status vector (wrapping_add vector 4) (load_bank m (save_bank c.mode c))
enter_lem m ra status vector c other arm =
    let still : (load_bank m (save_bank c.mode c)).thumb ≡ false =
      (banks-SameState c.mode m c).enables.2 ∙ arm in
    unfold set_pc set_reg in rw (change_mode_other m c other, still)

-- The return from an entry: the status that was saved is restored at the address given.
pub record IsReturned (c : Cpu) (pc : ℕ) (r : Cpu) : Type 0 where
  pub status : SameStatus c r
  pub at_pc : r.next_pc ≡ pc
  pub registers : (i : ℕ) → i < 15 → r.registers i ≡ c.registers i

-- The state with the interrupts masked, in which an entry is made.
abbrev masked : Bool → Bool → Cpu → Cpu
masked irq_en fiq_en c = record c { thumb = false; irq_en = irq_en; fiq_en = fiq_en }

module _ (m : Mode) (ra vector pc : ℕ) (irq_en fiq_en : Bool) (c : Cpu)
    (other : same_mode c.mode m ≡ false) (saves : has_spsr m ≡ true) where
  abbrev after : Cpu
  after =
      entered m ra (cpsr c) vector (wrapping_add vector 4)
        (load_bank m (save_bank c.mode (masked irq_en fiq_en c)))

  enter-after : enter m ra (cpsr c) vector (masked irq_en fiq_en c) ≡ after
  enter-after = enter_lem m ra (cpsr c) vector (masked irq_en fiq_en c) other refl

  back_to :
      change_mode c.mode after ≡ record (load_bank c.mode (save_bank m after)) { mode = c.mode }
  back_to = change_mode_other c.mode after (same_mode_sym c.mode m other)

  registers_restored : (i : ℕ) → i < 15 → (restored c pc after).registers i ≡ c.registers i
  unfolding restored set_pc
  registers_restored i h =
      let kept : (change_mode c.mode after).registers i ≡ c.registers i = rw back_to (
        registers_return c.mode m ra (cpsr c) vector (wrapping_add vector 4)
          (masked irq_en fiq_en c) i other saves h) in
      ground (arith, kept)

  after-IsReturned : IsReturned c pc (restored c pc after)
  after-IsReturned = record {
    status = restored-SameStatus c after pc;
    at_pc = unfold restored set_pc in refl;
    registers = registers_restored;
  }

-- An entry into the mode `m`, and the return from it by the link register less `lag`.
pub record IsService (m : Mode) (lag vector : ℕ) (c : Cpu) (result : Result Cpu) : Type 0 where
  pub inside : Cpu
  pub enters : result ≡ ok inside
  pub in_mode : inside.mode ≡ m
  pub at_vector : inside.next_pc ≡ vector
  pub in_arm : inside.thumb ≡ false
  pub no_irq : inside.irq_en ≡ false
  pub link : reg 14 inside ≡ c.next_pc + lag
  pub status : inside.spsr ≡ cpsr c
  pub outside : Cpu
  pub leaves : set_pc_cpsr (reg 14 inside - lag) inside.spsr inside ≡ ok outside
  pub returned : IsReturned c c.next_pc outside

service_lem :
    (m : Mode) (lag vector : ℕ) (fiq_en : Bool) (c : Cpu)
    → same_mode c.mode m ≡ false
    → has_spsr m ≡ true
    → IsService m lag vector c
        (ok (enter m (c.next_pc + lag) (cpsr c) vector (masked false fiq_en c)))
service_lem m lag vector fiq_en c other saves =
    let inside : Cpu = after m (c.next_pc + lag) vector c.next_pc false fiq_en c other saves in
    let kept = banks-SameState c.mode m (masked false fiq_en c) in
    let back : c.next_pc + lag - lag ≡ c.next_pc = omega arith in
    record {
      inside = inside;
      enters = ap ok (enter-after m (c.next_pc + lag) vector c.next_pc false fiq_en c other saves);
      in_mode = refl;
      at_vector = refl;
      in_arm = kept.enables.2;
      no_irq = kept.enables.0;
      link = unfold reg in refl;
      status = refl;
      outside = restored c c.next_pc inside;
      leaves = unfold reg in rw back (set_pc_cpsr-cpsr c.next_pc c inside);
      returned = after-IsReturned m (c.next_pc + lag) vector c.next_pc false fiq_en c other saves;
    }

-- Where an IRQ comes in another mode than the IRQ mode, and the return address does not overflow,
-- `irq_entry` returns: it enters the IRQ mode at 0x18 with IRQs masked and in ARM state, and
-- writing the status that it saved back, at its link less 4, returns to the interrupted mode,
-- flags, enables, Thumb bit, program counter and R0 to R14.
pub irq_entry-IsService :
    (c : Cpu)
    → same_mode c.mode irq ≡ false
    → c.next_pc + 4 < 2 ^ 32
    → IsService irq 4 0x18 c (irq_entry c)
unfolding irq_entry
irq_entry-IsService c other room =
    rw (lt→ltb (c.next_pc + 4) (2 ^ 32) room) (service_lem irq 4 0x18 c.fiq_en c other refl)

-- Where an FIQ comes in another mode than the FIQ mode, and the return address does not overflow,
-- `fiq_entry` returns: it enters the FIQ mode at 0x1c in ARM state, and writing the status that it
-- saved back, at its link less 4, returns to the interrupted mode, flags, enables, Thumb bit,
-- program counter and R0 to R14.
pub fiq_entry-IsService :
    (c : Cpu)
    → same_mode c.mode fiq ≡ false
    → c.next_pc + 4 < 2 ^ 32
    → IsService fiq 4 0x1c c (fiq_entry c)
unfolding fiq_entry
fiq_entry-IsService c other room =
    rw (lt→ltb (c.next_pc + 4) (2 ^ 32) room) (service_lem fiq 4 0x1c false c other refl)

-- A supervisor call from another mode enters the supervisor mode at 0x8 in ARM state, and writing
-- the status that it saved back, at its link, returns to the calling mode, flags, enables, Thumb
-- bit, program counter and R0 to R14.
pub swi-IsService :
    (c : Cpu) → same_mode c.mode supervisor ≡ false → IsService supervisor 0 0x8 c (ok (swi c))
unfolding swi
swi-IsService c other =
    let same : c.next_pc + 0 ≡ c.next_pc = omega arith in
    subst
      (λ ra.
        IsService supervisor 0 0x8 c
          (ok (enter supervisor ra (cpsr c) 0x8 (masked false c.fiq_en c))))
      same (service_lem supervisor 0 0x8 c.fiq_en c other refl)
