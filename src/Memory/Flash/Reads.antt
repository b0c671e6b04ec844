-- ===== src/Memory/Flash/Reads.antt =====
-- Reads through the virtual banks.
use pksx.Base.{
  ℕ, ◌+◌, ◌*◌, ◌/◌, ◌%◌, ◌^◌, ◌≤◌, ◌<◌, bit_and, bit_or, ◌≡◌, true, false, some, arith, lt→ltb, ok,
}
use pksx.Base.Bits.Laws.{bit_and_mask, bit_or_fields_high}
use pksx.Access.{Addressable, byte, half_word, word, size, is_byte}
use pksx.Memory.Bytes.Words.{IsBytes, little_endian, load_bytes_lem}
use pksx.Memory.Flash.{Flash, enabled, load_raw, load_virtual}
use pksx.Memory.Flash.Rebuild.{IsConsistent}

-- The address of a byte of a bank of 8 KB.
abbrev pub bank_address : ℕ → ℕ → ℕ
bank_address bank o = bank * 8192 + o

-- An aligned access inside a bank.
abbrev pub InBank : Addressable → ℕ → Type 0
InBank a o = (o < 8192) × (o % size a ≡ 0)

fits_bank :
    (a : Addressable) (bank o : ℕ) → bank < 16 → InBank a o → bank_address bank o + size a ≤ 131072
fits_bank byte bank o h k = omega arith
fits_bank half_word bank o h k = omega arith
fits_bank word bank o h k = omega arith

load_raw_lem :
    (a : Addressable) (bank o : ℕ) (f : Flash)
    → IsBytes f.bytes
    → is_byte a ≡ false
    → bank < 16
    → InBank a o
    → load_raw a (bank_address bank o) f ≡ ok (little_endian a f.bytes (bank_address bank o))
unfolding load_raw
load_raw_lem a bank o f h wide small inside =
    rw wide
      (load_bytes_lem 131072 a f.bytes (bank_address bank o) h (fits_bank a bank o small inside))

load_virtual_at :
    (a : Addressable) (v p o : ℕ) (f : Flash)
    → v < 16
    → p < 16
    → o < 8192
    → f.virt_to_phys_bank v ≡ some p
    → load_virtual a (bank_address v o) f ≡ load_raw a (bank_address p o) f
unfolding load_virtual
load_virtual_at a v p o f hv hp ho e =
    let bank : bank_address v o / 8192 ≡ v = omega arith in
    let mask : bit_and (bank_address v o) 0x1fff ≡ o =
      omega (arith, bit_and_mask 13 (bank_address v o)) in
    let joined : bit_or (p * 8192 % 2 ^ 32) o ≡ bank_address p o =
      ground (arith, bit_or_fields_high 13 p o) in
    rw (bank, lt→ltb v 16 hv, e, mask, joined)

-- With bank tables that agree, a read of two or four bytes inside the virtual bank that an enabled
-- physical bank is assigned to returns, and gives the bytes of that physical bank, the lowest
-- first.
pub load_virtual_enabled :
    (a : Addressable) (q o : ℕ) (f : Flash)
    → IsConsistent f
    → IsBytes f.bytes
    → is_byte a ≡ false
    → q < 16
    → enabled f q ≡ true
    → InBank a o
    → (load_virtual a (bank_address (f.phys_to_virt_bank q) o) f ≡ load_raw a (bank_address q o) f)
      × (load_raw a (bank_address q o) f ≡ ok (little_endian a f.bytes (bank_address q o)))
load_virtual_enabled a q o f c h wide small on inside = (
  load_virtual_at a (f.phys_to_virt_bank q) q o f (c.range q) small inside.0
      (c.inverts.complete q small on),
  load_raw_lem a q o f h wide small inside,
)
