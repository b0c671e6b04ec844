-- ===== src/Base/Arrays.antt =====
-- Arrays of a fixed length as functions of the index, with the bounds check of each access.
use Prim.Native.Nat.{ℕ, zero, suc}
use mathlib.Core.List.{List, [], ◌∷◌}
use pksx.Base.Tests.{ltb, ◌==◌, if◌then◌else◌}
use pksx.Base.Results.{Result, ok, panic, Panic}

module _ {ℓ} {A : Type ℓ} where
  -- The array `f` with `v` at `i`.
  abbrev pub update : (ℕ → A) → ℕ → A → ℕ → A
  update f i v j = if i == j then v else f j

  -- `f[i]` and `f[i] = v` for an array of length `n`.
  abbrev pub read : ℕ → (ℕ → A) → ℕ → Result A
  read n f i = if ltb i n then ok (f i) else panic Panic.out_of_bounds

  abbrev pub write : ℕ → (ℕ → A) → ℕ → A → Result (ℕ → A)
  write n f i v = if ltb i n then ok (update f i v) else panic Panic.out_of_bounds

module _ {ℓ} {A : Type ℓ} where
  abbrev pub length : List A → ℕ
  length [] = 0
  length (x ∷ xs) = suc (length xs)

  -- The element at an index, or a value where there is none.
  abbrev pub get_or : List A → ℕ → A → A
  get_or [] i d = d
  get_or (x ∷ xs) zero d = x
  get_or (x ∷ xs) (suc i) d = get_or xs i d
