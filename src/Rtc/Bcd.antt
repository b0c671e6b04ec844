-- ===== src/Rtc/Bcd.antt =====
-- src/rtc.rs, `Bcd`: two decimal digits in one byte.
use pksx.Base.{
  ℕ, ◌+◌, ◌*◌, ◌/◌, ◌%◌, ◌^◌, ◌≤◌, ◌<◌, bit_and, bit_or, ◌≡◌, ◌↔◌, ◌⊎◌, inl, inr, ◌&&◌, Option,
  none, some, arith, ltb, leb, if◌then◌else◌, u8,
}
use native.Mathlib.Decide.{dec_lt}
use pksx.Base.Bits.Laws.{bit_and_mask, bit_and-add_not, bit_or_fields_high}

-- `Bcd::from_bcd`. The wrapped byte is the value itself.
unfoldable pub from_bcd : ℕ → Option ℕ
from_bcd b = if leb b 0x99 && leb (bit_and b 0xf) 0x9 then some b else none

unfoldable pub from_binary : ℕ → Option ℕ
from_binary b = if ltb 99 b then none else some (bit_or (u8 (b / 10 * 2 ^ 4)) (b % 10))

-- `Bcd::next`. Neither sum can pass 255.
unfoldable pub next : ℕ → Option ℕ
next b =
    if ltb (bit_and b 0xf) 9
    then some (b + 1)
    else if ltb b 0x99
    then some (bit_and b 0xf0 + 0x10)
    else none

-- Two decimal digits.
abbrev pub IsBcd : ℕ → Type 0
IsBcd b = (b ≤ 0x99) × (b % 16 ≤ 9)

-- The number that the digits stand for.
abbrev pub value : ℕ → ℕ
value b = b / 16 * 10 + b % 16

-- The digits of the next number.
abbrev pub succ : ℕ → ℕ
succ b = if ltb (b % 16) 9 then b + 1 else b / 16 * 16 + 16

low_digit : (b : ℕ) → bit_and b 0xf ≡ b % 16
low_digit b = bit_and_mask 4 b

high_digit : (b : ℕ) → b < 256 → bit_and b 0xf0 ≡ b / 16 * 16
high_digit b h = omega (arith, bit_and-add_not 8 b 15 h (omega arith), low_digit b)

-- `from_bcd` accepts exactly the bytes of two decimal digits, and returns them unchanged.
pub from_bcd_iff : (b c : ℕ) → (from_bcd b ≡ some c) ↔ (IsBcd b × (c ≡ b))
unfolding from_bcd
from_bcd_iff b c = ground (arith, low_digit b)

pub next-below : (b : ℕ) → IsBcd b → b < 0x99 → next b ≡ some (succ b)
unfolding next
next-below b h k = ground (arith, low_digit b, high_digit b (omega arith))

pub succ-IsBcd : (b : ℕ) → IsBcd b → b < 0x99 → IsBcd (succ b) × (value (succ b) ≡ value b + 1)
succ-IsBcd b h k = ground arith

-- Of a byte of two decimal digits, `next` returns none for 99, and below it the digits of the
-- number plus one.
pub next-value :
    (b : ℕ)
    → IsBcd b
    → ((value b ≡ 99) × (next b ≡ none))
      ⊎ ((b' : ℕ) × (next b ≡ some b') × IsBcd b' × (value b' ≡ value b + 1))
next-value b h = elim (dec_lt b 0x99) [
  | yes k ↦ inr (succ b, next-below b h k, (succ-IsBcd b h k).0, (succ-IsBcd b h k).1)
  | no k ↦ inl (omega arith, unfold next in ground (arith, low_digit b))
]

-- `from_binary` gives the two decimal digits of a number up to 99, and none for any greater
-- number.
pub from_binary-value :
    (v : ℕ)
    → ((99 < v) × (from_binary v ≡ none))
      ⊎ ((b : ℕ) × (from_binary v ≡ some b) × IsBcd b × (value b ≡ v))
from_binary-value v = elim (dec_lt 99 v) [
  | yes k ↦ inl (k, unfold from_binary in ground arith)
  | no k ↦ inr (
    v / 10 * 16 + v % 10,
    unfold from_binary in ground (arith, bit_or_fields_high 4 (v / 10) (v % 10)),
    omega arith,
    omega arith,
  )
]
