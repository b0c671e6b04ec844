-- ===== src/Memory/Flash/Banks.antt =====
-- `rebuild_virt_mapping`: the virtual table is the inverse of the physical one on the banks that
-- are enabled.
use pksx.Base.{
  ℕ, ◌+◌, ◌<◌, ◌≡◌, ap, true, false, Option, none, some, arith, Panic, ok, panic, update,
}
use native.Mathlib.Decide.{dec_lt}
use pksx.Memory.Flash.{Flash, banks, enabled, map_bank}

-- `virt` inverts the physical table on the enabled banks below `p`.
pub record Inverts (f : Flash) (p : ℕ) (virt : ℕ → Option ℕ) : Type 0 where
  pub sound :
      (v q : ℕ) → virt v ≡ some q → (q < p) × (enabled f q ≡ true) × (f.phys_to_virt_bank q ≡ v)
  pub complete : (q : ℕ) → q < p → enabled f q ≡ true → virt (f.phys_to_virt_bank q) ≡ some q

-- Every physical bank is assigned to one of the virtual banks.
abbrev pub InRange : Flash → Type 0
InRange f = (p : ℕ) → f.phys_to_virt_bank p < banks

-- No two enabled banks are assigned to one virtual bank.
abbrev pub NoClash : Flash → Type 0
NoClash f =
    (p q : ℕ)
    → p < banks
    → q < banks
    → enabled f p ≡ true
    → enabled f q ≡ true
    → f.phys_to_virt_bank p ≡ f.phys_to_virt_bank q
    → p ≡ q

pub map_bank_off :
    (f : Flash) (p : ℕ) (virt : ℕ → Option ℕ) → enabled f p ≡ false → map_bank f p virt ≡ ok virt
unfolding map_bank
map_bank_off f p virt off = rw off

pub map_bank_on :
    (f : Flash) (p : ℕ) (virt : ℕ → Option ℕ)
    → InRange f
    → enabled f p ≡ true
    → map_bank f p virt ≡ elim (virt (f.phys_to_virt_bank p)) [
      | none ↦ ok (update virt (f.phys_to_virt_bank p) (some p))
      | some other ↦ panic Panic.bank_mapped_twice
    ]
unfolding map_bank
map_bank_on f p virt range on = ground (arith, range p)

pub off-Inverts :
    (f : Flash) (p : ℕ) (virt : ℕ → Option ℕ)
    → enabled f p ≡ false
    → Inverts f p virt
    → Inverts f (p + 1) virt
off-Inverts f p virt off inv = record {
  sound = λ v q e. ground (arith, inv.sound v q);
  complete = λ q h on. elim (dec_lt q p) [
    | yes below ↦ inv.complete q below on
    | no above ↦ let e : q ≡ p = omega arith in absurd (cc (ap (enabled f) e))
  ];
}

pub on-Inverts :
    (f : Flash) (p : ℕ) (virt : ℕ → Option ℕ)
    → enabled f p ≡ true
    → virt (f.phys_to_virt_bank p) ≡ none
    → Inverts f p virt
    → Inverts f (p + 1) (update virt (f.phys_to_virt_bank p) (some p))
on-Inverts f p virt on free inv = record {
  sound = λ v q e. ground (arith, inv.sound v q);
  complete = λ q h on'. elim (dec_lt q p) [
    | yes below ↦ ground (arith, inv.complete q below on', ap virt)
    | no above ↦ let e : q ≡ p = omega arith in rw e (ground arith)
  ];
}
