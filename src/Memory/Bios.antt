-- ===== src/Memory/Bios.antt =====
-- src/memory/bios.rs: the BIOS image, accepted by its SHA-256. The hash is that of the `shaman`
-- package, so it is a parameter: a function from the bytes of a message to its 32 bytes.
use pksx.Base.{
  ℕ, ◌*◌, Bool, true, false, not, ◌&&◌, Option, none, some, List, [], ◌∷◌, ◌==◌, if◌then◌else◌,
  Panic, Result, panic, length, get_or,
}
use pksx.Access.{Addressable, size, is_byte}
use pksx.Memory.Bytes.{load_bytes}

abbrev pub bios_size : ℕ
bios_size = 16 * 1024

abbrev pub sha256_j110 : List ℕ
sha256_j110 =
    0x6f ∷ 0x5a ∷ 0xff ∷ 0x4e ∷ 0xc3 ∷ 0xf3 ∷ 0xde ∷ 0x8f ∷ 0x08 ∷ 0xbb ∷ 0x3d ∷ 0x52 ∷ 0x6b ∷ 0x53
    ∷ 0x24 ∷ 0x0e ∷ 0xaf ∷ 0x46 ∷ 0x6d ∷ 0xea ∷ 0x4d ∷ 0xc5 ∷ 0x2a ∷ 0x1b ∷ 0xe7 ∷ 0x96 ∷ 0xab
    ∷ 0xa4 ∷ 0x16 ∷ 0x4a ∷ 0xae ∷ 0x28 ∷ []

pub record Bios : Type 0 where
  pub bytes : ℕ → ℕ

-- `==` of two arrays of bytes.
pub same_bytes : List ℕ → List ℕ → Bool
same_bytes [] [] = true
same_bytes [] (y ∷ ys) = false
same_bytes (x ∷ xs) [] = false
same_bytes (x ∷ xs) (y ∷ ys) = x == y && same_bytes xs ys

module _ (sha256 : List ℕ → List ℕ) where
  unfoldable pub new : List ℕ → Option Bios
  unfolding same_bytes
  new bios =
      if not (length bios == bios_size)
      then none
      else if not (same_bytes (sha256 bios) sha256_j110)
      then none
      else some (record { bytes = λ i. get_or bios i 0 })

unfoldable pub load : Addressable → ℕ → Bios → Result ℕ
load a offset m =
    if is_byte a then panic Panic.unhandled_size else load_bytes bios_size m.bytes offset (size a)
