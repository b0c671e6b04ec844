-- ===== src/Memory/Bytes/Words.antt =====
-- An access of one, two or four bytes, as arithmetic on the bytes.
use pksx.Base.{ℕ, ◌+◌, ◌*◌, ◌/◌, ◌%◌, ◌^◌, ◌≤◌, ◌<◌, ◌≡◌, ◌⊎◌, arith, ok, u8, shr, update}
use pksx.Base.Bits.Laws.{bit_or_fields, zero-bit_or}
use pksx.Access.{Addressable, byte, half_word, word, size}
use pksx.Memory.Bytes.{load_bytes, store_bytes}

abbrev pub IsBytes : (ℕ → ℕ) → Type 0
IsBytes bytes = (i : ℕ) → bytes i < 256

-- The bytes at an offset, the lowest first.
abbrev pub little_endian : Addressable → (ℕ → ℕ) → ℕ → ℕ
little_endian byte bytes o = bytes o
little_endian half_word bytes o = bytes o + bytes (o + 1) * 2 ^ 8
little_endian word bytes o =
    bytes o + bytes (o + 1) * 2 ^ 8 + bytes (o + 2) * 2 ^ 16 + bytes (o + 3) * 2 ^ 24

pub load_bytes_lem :
    (len : ℕ) (a : Addressable) (bytes : ℕ → ℕ) (o : ℕ)
    → IsBytes bytes
    → o + size a ≤ len
    → load_bytes len bytes o (size a) ≡ ok (little_endian a bytes o)
unfolding load_bytes
load_bytes_lem len byte bytes o h fits =
    let e : o + 0 ≡ o = omega arith in
    rw e (ground (arith, zero-bit_or (bytes o * 1 % 2 ^ 32), h o))
load_bytes_lem len half_word bytes o h fits =
    let e : o + 0 ≡ o = omega arith in
    rw e (
      ground (
        arith,
        zero-bit_or (bytes o * 1 % 2 ^ 32),
        h o,
        h (o + 1),
        bit_or_fields 8 (bytes o) (bytes (o + 1)),
      ))
load_bytes_lem len word bytes o h fits =
    let e : o + 0 ≡ o = omega arith in
    rw e (
      ground (
        arith,
        zero-bit_or (bytes o * 1 % 2 ^ 32),
        h o,
        h (o + 1),
        h (o + 2),
        h (o + 3),
        bit_or_fields 8 (bytes o) (bytes (o + 1)),
        bit_or_fields 16 (bytes o + bytes (o + 1) * 2 ^ 8) (bytes (o + 2)),
        bit_or_fields 24 (bytes o + bytes (o + 1) * 2 ^ 8 + bytes (o + 2) * 2 ^ 16) (bytes (o + 3)),
      ))

-- The array after a store.
abbrev pub stored : Addressable → (ℕ → ℕ) → ℕ → ℕ → ℕ → ℕ
stored byte bytes o val = update bytes o (u8 val)
stored half_word bytes o val = update (update bytes o (u8 val)) (o + 1) (u8 (shr val 8))
stored word bytes o val =
    update
      (update (update (update bytes o (u8 val)) (o + 1) (u8 (shr val 8))) (o + 2) (u8 (shr val 16)))
      (o + 3) (u8 (shr val 24))

pub store_bytes_lem :
    (len : ℕ) (a : Addressable) (bytes : ℕ → ℕ) (o val : ℕ)
    → o + size a ≤ len
    → store_bytes len bytes o val (size a) ≡ ok (stored a bytes o val)
unfolding store_bytes
store_bytes_lem len byte bytes o val fits =
    let e : o + 0 ≡ o = omega arith in
    let f : val / 1 ≡ val = omega arith in rw (e, f) (ground arith)
store_bytes_lem len half_word bytes o val fits =
    let e : o + 0 ≡ o = omega arith in
    let f : val / 1 ≡ val = omega arith in rw (e, f) (ground arith)
store_bytes_lem len word bytes o val fits =
    let e : o + 0 ≡ o = omega arith in
    let f : val / 1 ≡ val = omega arith in rw (e, f) (ground arith)

pub stored-IsBytes :
    (a : Addressable) (bytes : ℕ → ℕ) (o val : ℕ) → IsBytes bytes → IsBytes (stored a bytes o val)
stored-IsBytes byte bytes o val h i = ground (arith, h i)
stored-IsBytes half_word bytes o val h i = ground (arith, h i)
stored-IsBytes word bytes o val h i = ground (arith, h i)

pub little_endian-stored :
    (a : Addressable) (bytes : ℕ → ℕ) (o val : ℕ)
    → little_endian a (stored a bytes o val) o ≡ val % 2 ^ (8 * size a)
little_endian-stored byte bytes o val = ground arith
little_endian-stored half_word bytes o val = ground arith
little_endian-stored word bytes o val = ground arith

pub stored_elsewhere :
    (a : Addressable) (bytes : ℕ → ℕ) (o val i : ℕ)
    → (i < o) ⊎ (o + size a ≤ i)
    → stored a bytes o val i ≡ bytes i
stored_elsewhere byte bytes o val i h = ground arith
stored_elsewhere half_word bytes o val i h = ground arith
stored_elsewhere word bytes o val i h = ground arith
