-- ===== src/Arm/Table/Fields.antt =====
-- src/cpu/armv4_is.rs: the bits of an instruction that its opcode is made of.
use pksx.Base.{ℕ, ◌+◌, ◌*◌, ◌/◌, ◌%◌, ◌^◌, bit_and, bit_or, ◌≡◌, ap, ◌∙◌, arith, shr, shl32}
use pksx.Base.Bits.Laws.{bit_and_mask, bit_or_fields_high}
use pksx.Arm.{opcode}

-- The instruction with nothing but its opcode.
abbrev pub bare : ℕ → ℕ
bare op = op / 16 * 2 ^ 20 + op % 16 * 2 ^ 4

pub opcode_lem : (i : ℕ) → opcode i ≡ i / 2 ^ 20 % 256 * 16 + i / 16 % 16
opcode_lem i =
    let high = bit_and_mask 8 (i / 2 ^ 20) in
    let low = bit_and_mask 4 (i / 2 ^ 4) in
    let whole = bit_or_fields_high 4 (i / 2 ^ 20 % 256) (i / 2 ^ 4 % 16) (omega arith) in
    let shifted : shl32 (bit_and (shr i 20) 0xff) 4 ≡ i / 2 ^ 20 % 256 * 2 ^ 4 =
      omega (arith, high) in
    ap (λ x. bit_or x (bit_and (shr i 4) 0xf)) shifted
    ∙ (ap (bit_or (i / 2 ^ 20 % 256 * 2 ^ 4)) low ∙ whole)

-- Two instructions have the same bits from `k` on, below a mask.
abbrev SameField : ℕ → ℕ → ℕ → ℕ → Type 0
SameField i j k mask = bit_and (shr i k) mask ≡ bit_and (shr j k) mask

-- Two instructions have the same opcode, field by field.
pub record SameOpcode (i j : ℕ) : Type 0 where
  pub opcodes : opcode i ≡ opcode j
  pub f20_1 : SameField i j 20 1
  pub f21_1 : SameField i j 21 1
  pub f21_2 : SameField i j 21 3
  pub f21_4 : SameField i j 21 15
  pub f22_1 : SameField i j 22 1
  pub f23_1 : SameField i j 23 1
  pub f24_1 : SameField i j 24 1
  pub f24_4 : SameField i j 24 15
  pub f25_3 : SameField i j 25 7
  pub f4_1 : SameField i j 4 1
  pub f5_1 : SameField i j 5 1
  pub f6_1 : SameField i j 6 1
  pub f7_1 : SameField i j 7 1
  pub f4_3 : SameField i j 4 7
  pub f4_4 : SameField i j 4 15

pub bare-SameOpcode : (i : ℕ) → SameOpcode i (bare (opcode i))
bare-SameOpcode i = record {
  opcodes = omega (arith, opcode_lem i, opcode_lem (bare (opcode i)));
  f20_1 =
      omega (
        arith,
        opcode_lem i,
        bit_and_mask 1 (i / 2 ^ 20),
        bit_and_mask 1 (bare (opcode i) / 2 ^ 20),
      );
  f21_1 =
      omega (
        arith,
        opcode_lem i,
        bit_and_mask 1 (i / 2 ^ 21),
        bit_and_mask 1 (bare (opcode i) / 2 ^ 21),
      );
  f21_2 =
      omega (
        arith,
        opcode_lem i,
        bit_and_mask 2 (i / 2 ^ 21),
        bit_and_mask 2 (bare (opcode i) / 2 ^ 21),
      );
  f21_4 =
      omega (
        arith,
        opcode_lem i,
        bit_and_mask 4 (i / 2 ^ 21),
        bit_and_mask 4 (bare (opcode i) / 2 ^ 21),
      );
  f22_1 =
      omega (
        arith,
        opcode_lem i,
        bit_and_mask 1 (i / 2 ^ 22),
        bit_and_mask 1 (bare (opcode i) / 2 ^ 22),
      );
  f23_1 =
      omega (
        arith,
        opcode_lem i,
        bit_and_mask 1 (i / 2 ^ 23),
        bit_and_mask 1 (bare (opcode i) / 2 ^ 23),
      );
  f24_1 =
      omega (
        arith,
        opcode_lem i,
        bit_and_mask 1 (i / 2 ^ 24),
        bit_and_mask 1 (bare (opcode i) / 2 ^ 24),
      );
  f24_4 =
      omega (
        arith,
        opcode_lem i,
        bit_and_mask 4 (i / 2 ^ 24),
        bit_and_mask 4 (bare (opcode i) / 2 ^ 24),
      );
  f25_3 =
      omega (
        arith,
        opcode_lem i,
        bit_and_mask 3 (i / 2 ^ 25),
        bit_and_mask 3 (bare (opcode i) / 2 ^ 25),
      );
  f4_1 =
      omega
        (arith, opcode_lem i, bit_and_mask 1 (i / 2 ^ 4), bit_and_mask 1 (bare (opcode i) / 2 ^ 4));
  f5_1 =
      omega
        (arith, opcode_lem i, bit_and_mask 1 (i / 2 ^ 5), bit_and_mask 1 (bare (opcode i) / 2 ^ 5));
  f6_1 =
      omega
        (arith, opcode_lem i, bit_and_mask 1 (i / 2 ^ 6), bit_and_mask 1 (bare (opcode i) / 2 ^ 6));
  f7_1 =
      omega
        (arith, opcode_lem i, bit_and_mask 1 (i / 2 ^ 7), bit_and_mask 1 (bare (opcode i) / 2 ^ 7));
  f4_3 =
      omega
        (arith, opcode_lem i, bit_and_mask 3 (i / 2 ^ 4), bit_and_mask 3 (bare (opcode i) / 2 ^ 4));
  f4_4 =
      omega
        (arith, opcode_lem i, bit_and_mask 4 (i / 2 ^ 4), bit_and_mask 4 (bare (opcode i) / 2 ^ 4));
}
