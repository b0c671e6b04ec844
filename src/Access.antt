-- ===== src/Access.antt =====
-- src/memory/mod.rs, the trait `Addressable` and its markers: the width of a memory access.
use pksx.Base.{ℕ, Bool, ◌==◌}

pub data Addressable : Type 0 where
  byte half_word word : Addressable

-- `A::size()`, in bytes.
abbrev pub size : Addressable → ℕ
size byte = 1
size half_word = 2
size word = 4

-- `A::size() == 1`, the test by which several devices refuse a byte access.
abbrev pub is_byte : Addressable → Bool
is_byte a = size a == 1
