-- ===== src/Cpu/Status.antt =====
-- The status register as a word: its fields, and the restoring of a status that was saved.
use pksx.Base.{
  ℕ, bit_and, ◌≡◌, refl, ap, Bool, true, false, not, ◌&&◌, arith, ◌==◌, if◌then◌else◌, ok, shr,
  nonzero,
}
use pksx.Cpu.Modes.{
  Mode, user, fiq, irq, supervisor, abort, undefined, system, code, from_field-code,
}
use pksx.Cpu.{Cpu, status_word, cpsr, set_pc_cpsr, change_mode, set_pc}
use pksx.Cpu.Banks.{mode-change_mode}

both : (Bool → Bool) → Bool
both p = p true && p false

both_sound : (p : Bool → Bool) (b : Bool) → both p ≡ true → p b ≡ true
unfolding both
both_sound p true h = ground arith
both_sound p false h = ground arith

all_modes : (Mode → Bool) → Bool
all_modes p = p user && p fiq && p irq && p supervisor && p abort && p undefined && p system

all_modes_sound : (p : Mode → Bool) (m : Mode) → all_modes p ≡ true → p m ≡ true
unfolding all_modes
all_modes_sound p user h = ground arith
all_modes_sound p _ h = ground arith

same_flag : Bool → Bool → Bool
same_flag a b = if a then b else not b

-- Does each field of a status word read back?
reads_back : Mode → Bool → Bool → Bool → Bool → Bool → Bool → Bool → ℕ → Bool
unfolding same_flag
reads_back m t f i v c z n s =
    bit_and s 0x1f == code m
    && same_flag (nonzero (bit_and s 0x20)) t
    && same_flag (bit_and s 0x40 == 0) f
    && same_flag (bit_and s 0x80 == 0) i
    && same_flag (nonzero (bit_and (shr s 28) 1)) v
    && same_flag (nonzero (bit_and (shr s 28) 2)) c
    && same_flag (nonzero (bit_and (shr s 28) 4)) z
    && same_flag (nonzero (bit_and (shr s 28) 8)) n

reads_back_table :
    all_modes (λ m. both λ t. both λ f. both λ i.
      both
        λ v. both λ c. both λ z. both λ n. reads_back m t f i v c z n (status_word m t f i v c z n))
    ≡ true
unfolding all_modes both reads_back
reads_back_table = refl

reads_back_lem :
    (m : Mode) (t f i v c z n : Bool)
    → reads_back m t f i v c z n (status_word m t f i v c z n) ≡ true
reads_back_lem m t f i v c z n = both_sound _ n (
    both_sound _ z (
      both_sound _ c (
        both_sound _ v (
          both_sound _ i
            (both_sound _ f (both_sound _ t (all_modes_sound _ m reads_back_table)))))))

record Fields (m : Mode) (t f i v c z n : Bool) (s : ℕ) : Type 0 where
  mode : bit_and s 0x1f ≡ code m
  thumb : nonzero (bit_and s 0x20) ≡ t
  fiq_en : (bit_and s 0x40 == 0) ≡ f
  irq_en : (bit_and s 0x80 == 0) ≡ i
  v_flag : nonzero (bit_and (shr s 28) 1) ≡ v
  c_flag : nonzero (bit_and (shr s 28) 2) ≡ c
  z_flag : nonzero (bit_and (shr s 28) 4) ≡ z
  n_flag : nonzero (bit_and (shr s 28) 8) ≡ n

same_flag→eq : (a b : Bool) → same_flag a b ≡ true → a ≡ b
unfolding same_flag
same_flag→eq a b h = ground arith

status_word-Fields :
    (m : Mode) (t f i v c z n : Bool) (s : ℕ)
    → reads_back m t f i v c z n s ≡ true
    → Fields m t f i v c z n s
unfolding reads_back
status_word-Fields m t f i v c z n s h = record {
  mode = ground arith;
  thumb = ground arith;
  fiq_en = ground arith;
  irq_en = ground arith;
  v_flag = ground arith;
  c_flag = ground arith;
  z_flag = ground arith;
  n_flag = ground arith;
}

fields_lem :
    (m : Mode) (t f i v c z n : Bool) → Fields m t f i v c z n (status_word m t f i v c z n)
fields_lem m t f i v c z n =
    status_word-Fields m t f i v c z n (status_word m t f i v c z n)
      (reads_back_lem m t f i v c z n)

-- A processor whose mode, enables and flags are those of another.
pub record SameStatus (c d : Cpu) : Type 0 where
  pub mode : d.mode ≡ c.mode
  pub thumb : d.thumb ≡ c.thumb
  pub enables : (d.irq_en ≡ c.irq_en) × (d.fiq_en ≡ c.fiq_en)
  pub flags : (d.n ≡ c.n) × (d.z ≡ c.z) × (d.c ≡ c.c) × (d.v ≡ c.v)

-- The processor after the saved status of `c` is restored in `d`, at `pc`.
unfoldable pub restored : Cpu → ℕ → Cpu → Cpu
restored c pc d = set_pc pc (record (change_mode c.mode d) {
  thumb = c.thumb;
  fiq_en = c.fiq_en;
  irq_en = c.irq_en;
  v = c.v;
  c = c.c;
  z = c.z;
  n = c.n;
})

set_pc_cpsr-Fields :
    (pc s : ℕ) (c d : Cpu)
    → Fields c.mode c.thumb c.fiq_en c.irq_en c.v c.c c.z c.n s
    → set_pc_cpsr pc s d ≡ ok (restored c pc d)
unfolding set_pc_cpsr restored
set_pc_cpsr-Fields pc s c d h =
    rw
      (h.mode, from_field-code, h.thumb, h.fiq_en, h.irq_en, h.v_flag, h.c_flag, h.z_flag, h.n_flag)

-- A status word that was saved from one state is restored in any other without a panic.
pub set_pc_cpsr-cpsr : (pc : ℕ) (c d : Cpu) → set_pc_cpsr pc (cpsr c) d ≡ ok (restored c pc d)
unfolding cpsr
set_pc_cpsr-cpsr pc c d =
    set_pc_cpsr-Fields pc (cpsr c) c d (fields_lem c.mode c.thumb c.fiq_en c.irq_en c.v c.c c.z c.n)

-- What is restored: the mode, the enables and the flags, and with them the status word.
pub restored-SameStatus : (c d : Cpu) (pc : ℕ) → SameStatus c (restored c pc d)
unfolding restored set_pc
restored-SameStatus c d pc = record {
  mode = mode-change_mode c.mode d;
  thumb = refl;
  enables = (refl, refl);
  flags = (refl, refl, refl, refl);
}

cpsr-restored : (c d : Cpu) (pc : ℕ) → cpsr (restored c pc d) ≡ cpsr c
unfolding cpsr restored set_pc
cpsr-restored c d pc =
    ap (λ m. status_word m c.thumb c.fiq_en c.irq_en c.v c.c c.z c.n) (mode-change_mode c.mode d)

-- Writing the status word of any processor state into any processor returns, gives that status
-- word when it is read, and sets the next program counter to the address given.
pub cpsr-set_pc_cpsr :
    (pc : ℕ) (c d : Cpu)
    → (d' : Cpu) × (set_pc_cpsr pc (cpsr c) d ≡ ok d') × (cpsr d' ≡ cpsr c) × (d'.next_pc ≡ pc)
cpsr-set_pc_cpsr pc c d =
    (restored c pc d, set_pc_cpsr-cpsr pc c d, cpsr-restored c d pc, unfold restored set_pc in refl)
