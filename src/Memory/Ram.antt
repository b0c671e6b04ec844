-- ===== src/Memory/Ram.antt =====
-- src/memory/ram.rs: 2 KB of memory.
pub mod Access
use pksx.Base.{ℕ, ◌*◌, Result, ok, ◌>>=◌, ◌>>◌}
use pksx.Access.{Addressable, size}
use pksx.Memory.Bytes.{load_bytes, store_bytes}

abbrev pub ram_size : ℕ
ram_size = 2 * 1024

pub record Ram : Type 0 where
  pub bytes : ℕ → ℕ

abbrev pub new : Ram
new = record { bytes = λ _. 0xca }

unfoldable pub load : Addressable → ℕ → Ram → Result ℕ
load a offset m = load_bytes ram_size m.bytes offset (size a)

unfoldable pub store : Addressable → ℕ → ℕ → Ram → Result Ram
store a offset val m = do
  bytes ← store_bytes ram_size m.bytes offset val (size a)
  ok (record { bytes = bytes })
