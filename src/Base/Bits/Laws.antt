-- ===== src/Base/Bits/Laws.antt =====
-- The laws of single bits and of masks, at every width.
use Prim.Native.Nat.{
  ℕ, zero, suc, ◌+◌, ◌-◌, ◌*◌, ◌/◌, ◌%◌, ◌^◌, ◌≤◌, ◌<◌, min, max, bit_and, bit_or, bit_and-bitwise,
  bit_or-bitwise,
}
use mathlib.Core.Path.{◌≡◌, refl, ap}
use native.Mathlib.Nat.{pow-suc, one-le-pow}
use native.Mathlib.Omega.{arith}
use pksx.Base.Tests.{◌==◌, if◌then◌else◌}
use pksx.Base.Words.{nonzero}
use pksx.Base.Bits.{bit}
use pksx.Base.Bits.Steps.{bit_and_step, bit_or_step}

pub bit-lt_two : (x i : ℕ) → bit x i < 2
bit-lt_two x zero = omega arith
bit-lt_two x (suc i) = bit-lt_two (x / 2) i

half-bit_and : (a b : ℕ) → bit_and a b / 2 ≡ bit_and (a / 2) (b / 2)
half-bit_and a b = omega (arith, bit_and_step a b)

half-bit_or : (a b : ℕ) → bit_or a b / 2 ≡ bit_or (a / 2) (b / 2)
half-bit_or a b = omega (arith, bit_or_step a b)

pub bit-bit_and : (a b i : ℕ) → bit (bit_and a b) i ≡ min (bit a i) (bit b i)
bit-bit_and a b zero = omega (arith, bit_and_step a b)
bit-bit_and a b (suc i) = rw half-bit_and (bit-bit_and (a / 2) (b / 2) i)

pub bit-bit_or : (a b i : ℕ) → bit (bit_or a b) i ≡ max (bit a i) (bit b i)
bit-bit_or a b zero = omega (arith, bit_or_step a b)
bit-bit_or a b (suc i) = rw half-bit_or (bit-bit_or (a / 2) (b / 2) i)

half_not : (w x : ℕ) → x < 2 ^ suc w → (2 ^ suc w - 1 - x) / 2 ≡ 2 ^ w - 1 - x / 2
half_not w x h = omega (arith, pow-suc 2 w)

-- The complement at `w` bits flips each bit below `w`.
pub bit-not : (w x i : ℕ) → x < 2 ^ w → i < w → bit (2 ^ w - 1 - x) i ≡ 1 - bit x i
bit-not zero x i h p = absurd (omega arith)
bit-not (suc w) x zero h p = omega (arith, pow-suc 2 w)
bit-not (suc w) x (suc i) h p =
    rw (half_not w x h) (bit-not w (x / 2) i (omega (arith, pow-suc 2 w)) (omega arith))

bit-zero : (i : ℕ) → bit 0 i ≡ 0
bit-zero zero = refl
bit-zero (suc i) = bit-zero i

pub bit-pow : (j i : ℕ) → bit (2 ^ j) i ≡ (if i == j then 1 else 0)
bit-pow zero zero = refl
bit-pow zero (suc i) = ground (arith, bit-zero i)
bit-pow (suc j) zero = ground (arith, pow-suc 2 j)
bit-pow (suc j) (suc i) =
    let e : 2 ^ suc j / 2 ≡ 2 ^ j = omega (arith, pow-suc 2 j) in rw e (ground (arith, bit-pow j i))

-- Words of one width with the same bits are equal.
pub bits_ext : (w a b : ℕ) → a < 2 ^ w → b < 2 ^ w → ((i : ℕ) → i < w → bit a i ≡ bit b i) → a ≡ b
bits_ext zero a b p q h = omega arith
bits_ext (suc w) a b p q h = omega (
  arith,
  h 0 (omega arith),
  bits_ext w (a / 2) (b / 2) (omega (arith, pow-suc 2 w)) (omega (arith, pow-suc 2 w))
      (λ i k. h (suc i) (omega arith)),
)

zero-bit_and : (b : ℕ) → bit_and 0 b ≡ 0
zero-bit_and b = bit_and-bitwise 0 b

pub zero-bit_or : (b : ℕ) → bit_or 0 b ≡ b
zero-bit_or b = bit_or-bitwise 0 b

pub bit_and-lt : (w a b : ℕ) → a < 2 ^ w → bit_and a b < 2 ^ w
bit_and-lt zero zero b h = omega (arith, zero-bit_and b)
bit_and-lt zero (suc a) b h = absurd (omega arith)
bit_and-lt (suc w) a b h = omega (
  arith,
  pow-suc 2 w,
  bit_and_step a b,
  bit_and-lt w (a / 2) (b / 2) (omega (arith, pow-suc 2 w)),
)

pub bit_or-lt : (w a b : ℕ) → a < 2 ^ w → b < 2 ^ w → bit_or a b < 2 ^ w
bit_or-lt zero zero zero h k = omega arith
bit_or-lt zero zero (suc b) h k = absurd (omega arith)
bit_or-lt zero (suc a) b h k = absurd (omega arith)
bit_or-lt (suc w) a b h k = omega (
  arith,
  pow-suc 2 w,
  bit_or_step a b,
  bit_or-lt w (a / 2) (b / 2) (omega (arith, pow-suc 2 w)) (omega (arith, pow-suc 2 w)),
)

-- A mask and its complement split a word.
pub bit_and-add_not :
    (w p m : ℕ) → p < 2 ^ w → m < 2 ^ w → bit_and p m + bit_and p (2 ^ w - 1 - m) ≡ p
bit_and-add_not zero zero m h k = omega (arith, zero-bit_and m, zero-bit_and (2 ^ 0 - 1 - m))
bit_and-add_not zero (suc p) m h k = absurd (omega arith)
bit_and-add_not (suc w) p m h k =
    let half : bit_and (p / 2) (m / 2) + bit_and (p / 2) ((2 ^ suc w - 1 - m) / 2) ≡ p / 2 =
      rw (half_not w m k) (
        bit_and-add_not w (p / 2) (m / 2) (omega (arith, pow-suc 2 w))
          (omega (arith, pow-suc 2 w))) in
    omega (arith, half, pow-suc 2 w, bit_and_step p m, bit_and_step p (2 ^ suc w - 1 - m))

-- Nothing is left by an empty mask.
pub bit_and-zero : (limit x : ℕ) → x ≤ limit → bit_and x 0 ≡ 0
bit_and-zero limit zero small = zero-bit_and 0
bit_and-zero zero (suc x) small = absurd (omega arith)
bit_and-zero (suc limit) (suc x) small =
    let above = bit_and-zero limit (suc x / 2) (omega arith) in
    omega (arith, above, bit_and_step (suc x) 0)

-- A field moves up by one place.
shifted_up : (field places : ℕ) → field * 2 ^ suc places ≡ field * 2 ^ places + field * 2 ^ places
shifted_up field places =
    let doubled = ap (λ weight. field * weight) (pow-suc 2 places) in omega (arith, doubled)

bit_and_low : (k q r : ℕ) → r < 2 ^ k → bit_and (q * 2 ^ k + r) (2 ^ k - 1) ≡ r
bit_and_low zero q r h = omega (arith, bit_and-zero (q * 1 + r) (q * 1 + r) (omega arith))
bit_and_low (suc k) q r h = ground (
  arith,
  bit_and_step (q * 2 ^ suc k + r) (2 ^ suc k - 1),
  shifted_up q k,
  pow-suc 2 k,
  bit_and_low k q (r / 2) (omega (arith, pow-suc 2 k)),
)

-- The low bits are a remainder.
pub bit_and_mask : (k a : ℕ) → bit_and a (2 ^ k - 1) ≡ a % 2 ^ k
bit_and_mask k a = ground (arith, one-le-pow k 2, bit_and_low k (a / 2 ^ k) (a % 2 ^ k))

-- `r | (q << k)` is a sum where `r` fits `k` bits.
pub bit_or_fields : (k r q : ℕ) → r < 2 ^ k → bit_or r (q * 2 ^ k) ≡ r + q * 2 ^ k
bit_or_fields zero zero q h = omega (arith, zero-bit_or (q * 1))
bit_or_fields zero (suc r) q h = absurd (omega arith)
bit_or_fields (suc k) r q h =
    let e : q * 2 ^ suc k ≡ q * 2 ^ k * 2 = omega (arith, ap (λ (t : ℕ). q * t) (pow-suc 2 k)) in
    let half : q * 2 ^ suc k / 2 ≡ q * 2 ^ k = omega arith in
    let ih : bit_or (r / 2) (q * 2 ^ suc k / 2) ≡ r / 2 + q * 2 ^ k =
      rw half (bit_or_fields k (r / 2) q (omega (arith, pow-suc 2 k))) in
    omega (arith, e, ih, bit_or_step r (q * 2 ^ suc k))

bit_times : (b p : ℕ) → b < 2 → 1 ≤ p → nonzero (b * p) ≡ (b == 1)
bit_times zero p h k = ground arith
bit_times (suc zero) p h k = ground arith
bit_times (suc (suc b)) p h k = absurd (omega arith)

-- A single bit, masked out.
pub bit_and-pow : (x j : ℕ) → bit_and x (2 ^ j) ≡ bit x j * 2 ^ j
bit_and-pow x zero = omega (arith, bit_and_mask 1 x)
bit_and-pow x (suc j) =
    let half : 2 ^ suc j / 2 ≡ 2 ^ j = omega (arith, pow-suc 2 j) in
    let ih : bit_and (x / 2) (2 ^ suc j / 2) ≡ bit (x / 2) j * 2 ^ j =
      rw half (bit_and-pow (x / 2) j) in
    omega (
      arith,
      ih,
      bit_and_step x (2 ^ suc j),
      pow-suc 2 j,
      ap (λ (t : ℕ). bit (x / 2) j * t) (pow-suc 2 j),
    )

pub nonzero-bit_and_pow : (x j : ℕ) → nonzero (bit_and x (2 ^ j)) ≡ (bit x j == 1)
nonzero-bit_and_pow x j =
    rw bit_and-pow (bit_times (bit x j) (2 ^ j) (bit-lt_two x j) (one-le-pow j 2 (omega arith)))

bit_or-zero_below : (limit x : ℕ) → x ≤ limit → bit_or x 0 ≡ x
bit_or-zero_below limit zero small = zero-bit_or 0
bit_or-zero_below zero (suc x) small = absurd (omega arith)
bit_or-zero_below (suc limit) (suc x) small =
    let above = bit_or-zero_below limit (suc x / 2) (omega arith) in
    omega (arith, above, bit_or_step (suc x) 0)

pub bit_or-zero : (x : ℕ) → bit_or x 0 ≡ x
bit_or-zero x = bit_or-zero_below x x (omega arith)

-- The same with the field written first.
pub bit_or_fields_high : (k q r : ℕ) → r < 2 ^ k → bit_or (q * 2 ^ k) r ≡ q * 2 ^ k + r
bit_or_fields_high zero q zero h = omega (arith, bit_or-zero (q * 1))
bit_or_fields_high zero q (suc r) h = absurd (omega arith)
bit_or_fields_high (suc k) q r h = ground (
  arith,
  bit_or_step (q * 2 ^ suc k) r,
  shifted_up q k,
  bit_or_fields_high k q (r / 2) (omega (arith, pow-suc 2 k)),
)
