-- ===== src/Base/Bits.antt =====
-- The bit operations at variables: the equation for the lowest digit, the single bits of a word,
-- masks and fields as arithmetic.
mod Steps
pub mod Laws
use Prim.Native.Nat.{ℕ, zero, suc, ◌/◌, ◌%◌}

-- The bit `i` of `x`, as 0 or 1.
abbrev pub bit : ℕ → ℕ → ℕ
bit x zero = x % 2
bit x (suc i) = bit (x / 2) i
