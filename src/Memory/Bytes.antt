-- ===== src/Memory/Bytes.antt =====
-- The loops over the bytes of an access, which src/memory/ram.rs, bios.rs and flash.rs each write
-- out: an array of bytes of length `len` is a function of the index.
pub mod Words
use pksx.Base.{ℕ, zero, suc, ◌+◌, ◌*◌, bit_or, Result, ok, ◌>>=◌, ◌>>◌, u8, shr, shl32, read, write}

module _ (len : ℕ) where
  -- `for i in 0..A::size() { r |= (data[offset + i] as u32) << (8 * i) }`, with the rounds left.
  pub load_loop : (ℕ → ℕ) → ℕ → ℕ → ℕ → ℕ → Result ℕ
  load_loop bytes offset zero i r = ok r
  load_loop bytes offset (suc left) i r = do
    b ← read len bytes (offset + i)
    load_loop bytes offset left (i + 1) (bit_or r (shl32 b (8 * i)))

  -- `for i in 0..A::size() { data[offset + i] = (val >> (i * 8)) as u8 }`.
  pub store_loop : (ℕ → ℕ) → ℕ → ℕ → ℕ → ℕ → Result (ℕ → ℕ)
  store_loop bytes offset val zero i = ok bytes
  store_loop bytes offset val (suc left) i = do
    bytes' ← write len bytes (offset + i) (u8 (shr val (i * 8)))
    store_loop bytes' offset val left (i + 1)

unfoldable pub load_bytes : ℕ → (ℕ → ℕ) → ℕ → ℕ → Result ℕ
unfolding load_loop
load_bytes len bytes offset size = load_loop len bytes offset size 0 0

unfoldable pub store_bytes : ℕ → (ℕ → ℕ) → ℕ → ℕ → ℕ → Result (ℕ → ℕ)
unfolding store_loop
store_bytes len bytes offset val size = store_loop len bytes offset val size 0
