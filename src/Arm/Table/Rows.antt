-- ===== src/Arm/Table/Rows.antt =====
-- src/cpu/armv4_is.rs, `OPCODE_LUT`: rows of equal entries.
use pksx.Base.{ℕ, zero, suc, List, [], ◌∷◌}

-- A value a number of times, before the rest of a row.
abbrev pub next {ℓ} : {A : Type ℓ} → ℕ → A → List A → List A
next zero x rest = rest
next (suc n) x rest = x ∷ next n x rest

abbrev pub sixteen {ℓ} : {A : Type ℓ} → A → List A
sixteen x = next 16 x []
