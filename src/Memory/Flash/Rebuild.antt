-- ===== src/Memory/Flash/Rebuild.antt =====
-- The loop of `rebuild_virt_mapping`, and what a write to the configuration keeps.
use pksx.Base.{
  ℕ, zero, suc, ◌+◌, ◌%◌, ◌^◌, ◌<◌, bit_and, ◌≡◌, refl, sym, ap, ◌∙◌, ◌↔◌, ◌⊎◌, inl, inr, true,
  Option, none, some, arith, Bool-cases, Panic, Result, ok, panic, u16, shr, nonzero, update,
}
use mathlib.Core.Path.{subst}
use pksx.Base.Bits.Laws.{bit_and_mask}
use pksx.Memory.Flash.{
  Flash, banks, enabled, map_bank, rebuild_loop, rebuild_virt_mapping, store_config, set_f_ctrl,
}
use pksx.Memory.Flash.Banks.{
  Inverts, InRange, NoClash, map_bank_off, map_bank_on, off-Inverts, on-Inverts,
}

Option-cases : (o : Option ℕ) → (o ≡ none) ⊎ ((a : ℕ) × (o ≡ some a))
Option-cases none = inl refl
Option-cases (some a) = inr (a, refl)

-- What a round comes to: a table that inverts one more bank, or a clash.
data Round (f : Flash) (p : ℕ) (virt : ℕ → Option ℕ) : Type 0 where
  maps :
      (virt' : ℕ → Option ℕ)
      → map_bank f p virt ≡ ok virt'
      → Inverts f (p + 1) virt'
      → Round f p virt
  clashes :
      (q : ℕ)
      → map_bank f p virt ≡ panic Panic.bank_mapped_twice
      → q < p
      → enabled f p ≡ true
      → enabled f q ≡ true
      → f.phys_to_virt_bank q ≡ f.phys_to_virt_bank p
      → Round f p virt

round : (f : Flash) (p : ℕ) (virt : ℕ → Option ℕ) → InRange f → Inverts f p virt → Round f p virt
round f p virt range inv = elim (Bool-cases (enabled f p)) [
  | inr off ↦ maps virt (map_bank_off f p virt off) (off-Inverts f p virt off inv)
  | inl on ↦ elim (Option-cases (virt (f.phys_to_virt_bank p))) [
    | inl free ↦
        maps (update virt (f.phys_to_virt_bank p) (some p))
          (map_bank_on f p virt range on ∙ rw free) (on-Inverts f p virt on free inv)
    | inr (q, taken) ↦
        let (below, on', same) = inv.sound (f.phys_to_virt_bank p) q taken in
        clashes q (map_bank_on f p virt range on ∙ rw taken) below on on' same
  ]
]

-- What the loop comes to.
data Loop (f : Flash) (end : ℕ) (result : Result (ℕ → Option ℕ)) : Type 0 where
  maps : (virt' : ℕ → Option ℕ) → result ≡ ok virt' → Inverts f end virt' → Loop f end result
  clashes :
      (p q : ℕ)
      → result ≡ panic Panic.bank_mapped_twice
      → q < p
      → p < end
      → enabled f p ≡ true
      → enabled f q ≡ true
      → f.phys_to_virt_bank q ≡ f.phys_to_virt_bank p
      → Loop f end result

Round-Loop :
    (f : Flash) (left p end : ℕ) (virt : ℕ → Option ℕ)
    → p < end
    → Round f p virt
    → ((virt' : ℕ → Option ℕ)
        → Inverts f (p + 1) virt'
        → Loop f end (rebuild_loop f left (p + 1) virt'))
    → Loop f end (rebuild_loop f (suc left) p virt)
unfolding rebuild_loop
Round-Loop f left p end virt h (Round.maps virt' e inv) rest = rw e (rest virt' inv)
Round-Loop f left p end virt h (Round.clashes q e below on on' same) rest =
    Loop.clashes p q (rw e) below h on on' same

loop :
    (f : Flash) (left p end : ℕ) (virt : ℕ → Option ℕ)
    → p + left ≡ end
    → InRange f
    → Inverts f p virt
    → Loop f end (rebuild_loop f left p virt)
loop f zero p end virt e range inv =
    let e' : p ≡ end = omega arith in Loop.maps virt (unfold rebuild_loop in refl) (rw (← e') inv)
loop f (suc left) p end virt e range inv =
    Round-Loop f left p end virt (omega arith) (round f p virt range inv)
      λ virt' inv'. loop f left (p + 1) end virt' (omega arith) range inv'

Inverts-none : (f : Flash) → Inverts f 0 (λ _. none)
Inverts-none f = record { sound = λ v q e. cc; complete = λ q h on. absurd (omega arith) }

rebuilt : (f : Flash) → InRange f → Loop f banks (rebuild_loop f banks 0 (λ _. none))
rebuilt f range = loop f banks 0 banks (λ _. none) refl range (Inverts-none f)

-- The bank tables agree: the virtual one inverts the physical one on the enabled banks.
pub record IsConsistent (f : Flash) : Type 0 where
  pub range : InRange f
  pub inverts : Inverts f banks f.virt_to_phys_bank

Inverts-virt :
    (f : Flash) (p : ℕ) (virt t : ℕ → Option ℕ)
    → Inverts f p virt
    → Inverts (record f { virt_to_phys_bank = t }) p virt
unfolding enabled
Inverts-virt f p virt t inv = record {
  sound = λ v q e. inv.sound v q e;
  complete = λ q h on. inv.complete q h on;
}

Loop-rebuild :
    (f : Flash)
    → InRange f
    → Loop f banks (rebuild_loop f banks 0 (λ _. none))
    → ((NoClash f → ⊥) × (rebuild_virt_mapping f ≡ panic Panic.bank_mapped_twice))
      ⊎ ((virt : ℕ → Option ℕ) × (rebuild_virt_mapping f
            ≡ ok (record f { virt_to_phys_bank = virt }))
          × Inverts f banks virt)
unfolding rebuild_virt_mapping
Loop-rebuild f range (Loop.maps virt e inv) = inr (virt, rw e, inv)
Loop-rebuild f range (Loop.clashes p q e below h on on' same) =
    inl ((λ apart. absurd (omega (arith, apart q p (omega arith) h on' on same))), rw e)

NoClash-Inverts : (f : Flash) (virt : ℕ → Option ℕ) → Inverts f banks virt → NoClash f
NoClash-Inverts f virt inv p q hp hq onp onq same =
    cc (ap virt same, inv.complete p hp onp, inv.complete q hq onq)

-- With every physical bank assigned to one of the 16 virtual ones, the mapping is rebuilt without
-- a panic exactly where no two enabled banks are assigned to one virtual bank.
pub rebuild_virt_mapping_iff :
    (f : Flash) → InRange f → ((f' : Flash) × (rebuild_virt_mapping f ≡ ok f')) ↔ NoClash f
rebuild_virt_mapping_iff f range = (
  λ done. elim (Loop-rebuild f range (rebuilt f range)) [
    | inl (_, e) ↦ absurd (cc (e, done.1))
    | inr (virt, _, inv) ↦ NoClash-Inverts f virt inv
  ],
  λ apart. elim (Loop-rebuild f range (rebuilt f range)) [
    | inl (clash, _) ↦ absurd (clash apart)
    | inr (virt, e, _) ↦ (record f { virt_to_phys_bank = virt }, e)
  ],
)

rebuild_virt_mapping-IsConsistent :
    (f : Flash) {f' : Flash} → InRange f → rebuild_virt_mapping f ≡ ok f' → IsConsistent f'
rebuild_virt_mapping-IsConsistent f {f'} range done =
    elim (Loop-rebuild f range (rebuilt f range)) [
      | inl (_, e) ↦ absurd (cc (e, done))
      | inr (virt, e, inv) ↦
          let same : record f { virt_to_phys_bank = virt } ≡ f' = cc (e, done) in
          subst IsConsistent same
            (record { range = range; inverts = Inverts-virt f banks virt virt inv })
    ]

-- The fields that the mapping reads.
abbrev SameBanks : Flash → Flash → Type 0
SameBanks f g =
    (g.phys_bank_en ≡ f.phys_bank_en)
    × (g.phys_to_virt_bank ≡ f.phys_to_virt_bank)
    × (g.virt_to_phys_bank ≡ f.virt_to_phys_bank)

IsConsistent-same : (f g : Flash) → SameBanks f g → IsConsistent f → IsConsistent g
unfolding enabled
IsConsistent-same f g same c = record {
  range = rw same.1 c.range;
  inverts = record {
    sound = λ v q e. rw (same.0, same.1) (c.inverts.sound v q (ap (λ t. t v) (sym same.2) ∙ e));
    complete = λ q h on.
        rw (same.1, same.2)
          (c.inverts.complete q h (ap (λ t. nonzero (bit_and t (2 ^ q))) (sym same.0) ∙ on));
  };
}

set_f_ctrl_banks : (val : ℕ) (f : Flash) → SameBanks f (set_f_ctrl val f)
unfolding set_f_ctrl
set_f_ctrl_banks val f = ground arith

abbrev remapped : ℕ → ℕ → Flash → Flash
remapped offset val f = record f {
  phys_to_virt_bank = update f.phys_to_virt_bank (shr (bit_and offset 0x3f) 2) (val % 16);
}

store_config_cases :
    (offset val : ℕ) (f : Flash) {f' : Flash}
    → store_config offset val f ≡ ok f'
    → (SameBanks f f')
      ⊎ (rebuild_virt_mapping (record f { phys_bank_en = u16 val }) ≡ ok f')
      ⊎ (rebuild_virt_mapping (remapped offset val f) ≡ ok f')
unfolding store_config
store_config_cases offset val f done = ground (arith, bit_and_mask 4 val, set_f_ctrl_banks val f)

-- A write to the flash configuration that returns keeps the two bank tables in agreement: the
-- virtual table inverts the physical one on the enabled banks.
pub store_config-IsConsistent :
    (offset val : ℕ) (f : Flash) {f' : Flash}
    → IsConsistent f
    → store_config offset val f ≡ ok f'
    → IsConsistent f'
store_config-IsConsistent offset val f {f'} c done = elim (store_config_cases offset val f done) [
  | inl same ↦ IsConsistent-same f f' same c
  | inr (inl e) ↦ rebuild_virt_mapping-IsConsistent (record f { phys_bank_en = u16 val }) c.range e
  | inr (inr e) ↦
      rebuild_virt_mapping-IsConsistent (remapped offset val f) (λ p. ground (arith, c.range p)) e
]
