-- ===== src/Base/Words.antt =====
-- Words of a fixed width as natural numbers: casts, shifts and the operations that wrap.
use Prim.Native.Nat.{ℕ, zero, suc, ◌+◌, ◌-◌, ◌*◌, ◌/◌, ◌%◌, ◌^◌, bit_or}
use mathlib.Core.Bool.{Bool, not}
use pksx.Base.Tests.{leb, ◌==◌, if◌then◌else◌}

-- `x as u8`, `x as u16`, `x as u32`.
abbrev pub u8 : ℕ → ℕ
u8 n = n % 2 ^ 8

abbrev pub u16 : ℕ → ℕ
u16 n = n % 2 ^ 16

abbrev pub u32 : ℕ → ℕ
u32 n = n % 2 ^ 32

-- `x >> k`, and `x << k` at 32 bits.
abbrev pub shr : ℕ → ℕ → ℕ
shr x k = x / 2 ^ k

abbrev pub shl32 : ℕ → ℕ → ℕ
shl32 x k = u32 (x * 2 ^ k)

-- `!x` at 8, 16 and 32 bits.
abbrev pub not16 : ℕ → ℕ
not16 x = 2 ^ 16 - 1 - x

abbrev pub not32 : ℕ → ℕ
not32 x = 2 ^ 32 - 1 - x

abbrev pub wrapping_add : ℕ → ℕ → ℕ
wrapping_add a b = u32 (a + b)

abbrev pub wrapping_sub : ℕ → ℕ → ℕ
wrapping_sub a b = u32 (a + 2 ^ 32 - b)

abbrev pub wrapping_mul : ℕ → ℕ → ℕ
wrapping_mul a b = u32 (a * b)

-- `x != 0`.
abbrev pub nonzero : ℕ → Bool
nonzero x = not (x == 0)

-- `(x as i32) < 0`.
abbrev pub is_neg : ℕ → Bool
is_neg x = leb (2 ^ 31) x

-- `x as i8 as u32` and `x as i16 as u32`: the sign of the low `w` bits, repeated.
abbrev pub sign_extend : ℕ → ℕ → ℕ
sign_extend w x = let low = x % 2 ^ w in if leb (2 ^ (w - 1)) low then low + 2 ^ 32 - 2 ^ w else low

-- `x.count_ones()`, of the `w` low bits.
abbrev pub count_ones : ℕ → ℕ → ℕ
count_ones zero x = 0
count_ones (suc w) x = x % 2 + count_ones w (x / 2)

-- `x.rotate_right(k)` at 32 bits, for `k` below 32.
unfoldable pub rotate_right : ℕ → ℕ → ℕ
rotate_right x k = bit_or (shr x k) (shl32 x (32 - k))

-- `(x as i32) >> k`, back as a word.
unfoldable pub asr : ℕ → ℕ → ℕ
asr x k = if is_neg x then not32 (shr (not32 x) k) else shr x k
