-- ===== src/Base/Bits/Steps.antt =====
-- The lowest digit of `bit_and` and of `bit_or`, and what is left above it. The native operations
-- stand for a recursion on digits, whose fuel is here taken to be any that is enough.
use Prim.Native.Nat.{ℕ, zero, suc, ◌+◌, ◌-◌, ◌*◌, ◌/◌, ◌%◌, ◌≤◌, min, max, bit_and, bit_or}
use Prim.Native.Nat.{digits, bitwise, bit_and-bitwise, bit_or-bitwise}
use mathlib.Core.Path.{◌≡◌, refl, ap, ◌∙◌}
use native.Mathlib.Omega.{arith}

module _ (rest : ℕ → ℕ) (op : ℕ → ℕ → ℕ) where
  -- One more round makes no difference.
  digits_more : (n x y : ℕ) → x ≤ n → digits rest op (suc n) x y ≡ digits rest op n x y
  digits_more zero zero y h = refl
  digits_more (suc n) zero y h = refl
  digits_more zero (suc x) y h = absurd (omega arith)
  digits_more (suc n) (suc x) y h = rw (digits_more n (suc x / 2) (y / 2) (omega arith))

  digits_surplus : (k n m x y : ℕ) → m ≡ k + n → x ≤ n → digits rest op m x y ≡ digits rest op n x y
  digits_surplus zero n m x y e h = ap (λ j. digits rest op j x y) (omega arith)
  digits_surplus (suc k) n zero x y e h = absurd (omega arith)
  digits_surplus (suc k) n (suc m) x y e h =
      digits_more m x y (omega arith) ∙ digits_surplus k n m x y (omega arith) h

  lowest_digit :
      (x y : ℕ)
      → bitwise rest op (suc x) y ≡ op (suc x % 2) (y % 2) + 2 * bitwise rest op (suc x / 2) (y / 2)
  lowest_digit x y =
      let half = suc x / 2 in
      omega (arith, digits_surplus (x - half) half x half (y / 2) (omega arith) (omega arith))

pub bit_and_step : (x y : ℕ) → bit_and x y ≡ min (x % 2) (y % 2) + 2 * bit_and (x / 2) (y / 2)
bit_and_step zero y = simp bit_and-bitwise (omega arith)
bit_and_step (suc x) y = simp bit_and-bitwise (lowest_digit (λ _. zero) min x y)

pub bit_or_step : (x y : ℕ) → bit_or x y ≡ max (x % 2) (y % 2) + 2 * bit_or (x / 2) (y / 2)
bit_or_step zero y = simp bit_or-bitwise (omega arith)
bit_or_step (suc x) y = simp bit_or-bitwise (lowest_digit (λ low. low) max x y)
