-- ===== src/Memory/Flash.antt =====
-- src/memory/flash.rs: 128 KB of flash in sixteen physical banks, and their mapping to virtual
-- banks. The contents and the bank tables are functions of the index.
pub mod Banks
pub mod Rebuild
pub mod Reads
use pksx.Base.{
  ℕ, zero, suc, ◌+◌, ◌*◌, ◌^◌, bit_and, bit_or, Bool, true, false, not, Option, none, some, List,
  ◌==◌, if◌then◌else◌, between, Panic, Result, ok, panic, ◌>>=◌, ◌>>◌, u8, u16, shr, shl32, nonzero,
  update, read, write, length, get_or,
}
use pksx.Access.{Addressable, size, is_byte}
use pksx.Memory.Bytes.{load_bytes, store_bytes}

abbrev pub flash_size : ℕ
flash_size = 128 * 1024

-- The length of both bank tables.
abbrev pub banks : ℕ
banks = 16

pub record Flash : Type 0 where
  pub bytes : ℕ → ℕ
  pub bios_at_0 : Bool
  pub phys_bank_en : ℕ
  pub phys_to_virt_bank : ℕ → ℕ
  pub virt_to_phys_bank : ℕ → Option ℕ
  pub f_wait1 : ℕ
  pub f_wait2 : ℕ
  pub f_ctrl : ℕ

unfoldable pub new : List ℕ → Option Flash
new flash =
    if not (length flash == flash_size)
    then none
    else some (record {
      bytes = λ i. get_or flash i 0;
      bios_at_0 = true;
      phys_bank_en = 0;
      phys_to_virt_bank = λ _. 0;
      virt_to_phys_bank = λ _. none;
      f_wait1 = 0;
      f_wait2 = 0;
      f_ctrl = 0;
    })

unfoldable pub reset : Flash → Flash
reset f = record f { bios_at_0 = true }

unfoldable pub load_config : ℕ → Flash → Result ℕ
load_config offset f =
    if offset == 0x00
    then ok (bit_or f.f_ctrl 1)
    else if offset == 0x04
    then ok 0
    else if offset == 0x0c
    then ok f.f_wait1
    else if offset == 0x10
    then ok (bit_or f.f_wait2 4)
    else if offset == 0x08
    then ok f.phys_bank_en
    else if between 0x100 0x13c offset
    then read banks f.phys_to_virt_bank (shr (bit_and offset 0x3f) 2)
    else if offset == 0x300
    then ok 0
    else if offset == 0x302
    then ok 0
    else if offset == 0x308
    then ok 0xca1
    else panic Panic.unhandled_register

-- The test of the loop below: is the physical bank enabled?
unfoldable pub enabled : Flash → ℕ → Bool
enabled f p = nonzero (bit_and f.phys_bank_en (2 ^ p))

-- One round of the loop of `rebuild_virt_mapping`, at the physical bank `p`.
pub map_bank : Flash → ℕ → (ℕ → Option ℕ) → Result (ℕ → Option ℕ)
unfolding enabled
map_bank f p virt =
    if enabled f p
    then (read banks virt (f.phys_to_virt_bank p) >>= λ vbank. elim vbank [
      | none ↦ ok (update virt (f.phys_to_virt_bank p) (some p))
      | some other ↦ panic Panic.bank_mapped_twice
    ])
    else ok virt

-- The loop, with the rounds left.
pub rebuild_loop : Flash → ℕ → ℕ → (ℕ → Option ℕ) → Result (ℕ → Option ℕ)
unfolding map_bank
rebuild_loop f zero p virt = ok virt
rebuild_loop f (suc left) p virt = do virt' ← map_bank f p virt; rebuild_loop f left (p + 1) virt'

unfoldable pub rebuild_virt_mapping : Flash → Result Flash
unfolding rebuild_loop
rebuild_virt_mapping f = do
  virt ← rebuild_loop f banks 0 (λ _. none)
  ok (record f { virt_to_phys_bank = virt })

unfoldable pub set_f_ctrl : ℕ → Flash → Flash
set_f_ctrl val f =
    let f' = record f { f_ctrl = u8 val } in
    if val == 0x03 then record f' { bios_at_0 = false } else f'

unfoldable pub store_config : ℕ → ℕ → Flash → Result Flash
store_config offset val f =
    if offset == 0x00
    then ok (set_f_ctrl val f)
    else if offset == 0x08
    then rebuild_virt_mapping (record f { phys_bank_en = u16 val })
    else if offset == 0x0c
    then ok (record f { f_wait1 = u8 val })
    else if offset == 0x10
    then ok (record f { f_wait2 = u8 val })
    else if between 0x100 0x13c offset
    then (do
      table ← write banks f.phys_to_virt_bank (shr (bit_and offset 0x3f) 2) (u8 (bit_and val 0xf))
      rebuild_virt_mapping (record f { phys_to_virt_bank = table }))
    else panic Panic.unhandled_register

unfoldable pub load_raw : Addressable → ℕ → Flash → Result ℕ
load_raw a offset f =
    if is_byte a then panic Panic.unhandled_size else load_bytes flash_size f.bytes offset (size a)

unfoldable pub store_raw : Addressable → ℕ → ℕ → Flash → Result Flash
store_raw a offset val f = do
  bytes ← store_bytes flash_size f.bytes offset val (size a)
  ok (record f { bytes = bytes })

unfoldable pub load_virtual : Addressable → ℕ → Flash → Result ℕ
load_virtual a offset f = do
  let bank_off = bit_and offset 0x1fff
  mapped ← read banks f.virt_to_phys_bank (shr offset 13)
  elim mapped [
    | none ↦ panic Panic.unmapped_bank
    | some p ↦ load_raw a (bit_or (shl32 p 13) bank_off) f
  ]

unfoldable pub set_data : (ℕ → ℕ) → Flash → Flash
set_data bytes f = record f { bytes = bytes }
