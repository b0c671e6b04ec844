-- ===== src/Memory/Ram/Access.antt =====
-- A store to the RAM and the loads after it.
use pksx.Base.{ℕ, ◌+◌, ◌*◌, ◌%◌, ◌^◌, ◌≤◌, ◌≡◌, sym, ap, ◌∙◌, ◌⊎◌, arith, ok}
use pksx.Access.{Addressable, byte, half_word, word, size}
use pksx.Memory.Bytes.Words.{
  IsBytes, little_endian, load_bytes_lem, stored, store_bytes_lem, stored-IsBytes,
  little_endian-stored, stored_elsewhere,
}
use pksx.Memory.Ram.{Ram, ram_size, load, store}

pub little_endian_elsewhere :
    (a b : Addressable) (bytes : ℕ → ℕ) (o p val : ℕ)
    → (p + size b ≤ o) ⊎ (o + size a ≤ p)
    → little_endian b (stored a bytes o val) p ≡ little_endian b bytes p
little_endian_elsewhere a byte bytes o p val h = ground (arith, stored_elsewhere a bytes o val p)
little_endian_elsewhere a half_word bytes o p val h =
    ground (arith, stored_elsewhere a bytes o val p, stored_elsewhere a bytes o val (p + 1))
little_endian_elsewhere a word bytes o p val h = ground (
  arith,
  stored_elsewhere a bytes o val p,
  stored_elsewhere a bytes o val (p + 1),
  stored_elsewhere a bytes o val (p + 2),
  stored_elsewhere a bytes o val (p + 3),
)

pub store_lem :
    (a : Addressable) (o val : ℕ) (m : Ram)
    → o + size a ≤ ram_size
    → store a o val m ≡ ok (record { bytes = stored a m.bytes o val })
unfolding store
store_lem a o val m fits = rw (store_bytes_lem ram_size a m.bytes o val fits)

-- A store inside the RAM returns. A load of the same width from there gives the value back, cut to
-- that width, a load of any width that does not overlap it gives what it gave before, and the
-- cells still hold bytes.
pub load-store :
    (a b : Addressable) (o p val : ℕ) (m : Ram)
    → IsBytes m.bytes
    → o + size a ≤ ram_size
    → p + size b ≤ ram_size
    → (p + size b ≤ o) ⊎ (o + size a ≤ p)
    → (m' : Ram) × (store a o val m ≡ ok m')
      × IsBytes m'.bytes
      × (load a o m' ≡ ok (val % 2 ^ (8 * size a)))
      × (load b p m' ≡ load b p m)
load-store a b o p val m h fits fits' apart =
    let kept : IsBytes (stored a m.bytes o val) = stored-IsBytes a m.bytes o val h in
    (
      record { bytes = stored a m.bytes o val },
      store_lem a o val m fits,
      kept,
      unfold load in
          load_bytes_lem ram_size a (stored a m.bytes o val) o kept fits
          ∙ ap ok (little_endian-stored a m.bytes o val),
      unfold load in
          load_bytes_lem ram_size b (stored a m.bytes o val) p kept fits'
          ∙ ap ok (little_endian_elsewhere a b m.bytes o p val apart)
          ∙ sym (load_bytes_lem ram_size b m.bytes p h fits'),
    )
