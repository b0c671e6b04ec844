-- ===== src/Cpu/Blocks.antt =====
-- The loops of the multiple loads and stores, where they stay in the RAM: as loops on its bytes.
pub mod Loops
use pksx.Base.{
  ℕ, zero, suc, ◌+◌, ◌*◌, ◌%◌, ◌^◌, ◌≤◌, ◌<◌, bit_and, ◌≡◌, refl, ap, ◌∙◌, inl, inr, Bool, true,
  false, arith, flag, Bool-cases, ok, ◌>>=◌, shr, wrapping_add, nonzero, update,
}
use mathlib.Core.Path.{subst}
use pksx.Base.Bits.Laws.{bit_and_mask}
use pksx.Access.{word}
use pksx.Memory.Bytes.Words.{
  IsBytes, little_endian, load_bytes_lem, stored, stored-IsBytes, little_endian-stored,
}
use pksx.Memory.Ram
use pksx.Memory.Ram.{ram_size}
use pksx.Memory.Ram.Access.{store_lem, little_endian_elsewhere}
use pksx.Bus
use pksx.Bus.{Interconnect}
use pksx.Cpu.{Cpu, reg}
use pksx.Cpu.Machine.{Machine, no_debugger, with_cpu, load, store, load_registers, store_registers}

-- The register `i` is in the list.
abbrev pub in_list : ℕ → ℕ → Bool
in_list list i = nonzero (bit_and (shr list i) 1)

-- The registers in the list among the `left` from `i` on.
unfoldable pub count_from : ℕ → ℕ → ℕ → ℕ
count_from list zero i = 0
count_from list (suc left) i = flag (in_list list i) + count_from list left (i + 1)

-- A block of `n` words in the RAM, which is not hidden by the BIOS.
pub record IsBlock (addr n : ℕ) (s : Interconnect) : Type 0 where
  pub visible : s.flash.bios_at_0 ≡ false
  pub bytes : IsBytes s.ram.bytes
  pub aligned : addr % 4 ≡ 0
  pub fits : addr + 4 * n ≤ 2048

abbrev pub with_bytes : (ℕ → ℕ) → Machine (Unit {0}) → Machine (Unit {0})
with_bytes bytes s = record s {
  cpu = record s.cpu { inter = record s.cpu.inter { ram = record { bytes = bytes } } };
}

abbrev pub with_registers : (ℕ → ℕ) → Machine (Unit {0}) → Machine (Unit {0})
with_registers registers s = record s { cpu = record s.cpu { registers = registers } }

bus_load :
    (addr : ℕ) (s : Interconnect)
    → addr % 4 ≡ 0
    → addr < 2048
    → s.flash.bios_at_0 ≡ false
    → Bus.load word addr s ≡ Ram.load word addr s.ram
unfolding Bus.load
bus_load addr s aligned small visible = ground (arith, bit_and_mask 2 addr, bit_and_mask 24 addr)

bus_store :
    (addr val : ℕ) (s : Interconnect)
    → addr % 4 ≡ 0
    → addr < 2048
    → s.flash.bios_at_0 ≡ false
    → Bus.store word addr val s ≡ (Ram.store word addr val s.ram >>= λ m. ok (record s { ram = m }))
unfolding Bus.store
bus_store addr val s aligned small visible =
    ground (arith, bit_and_mask 2 addr, bit_and_mask 24 addr)

word_aligned : (addr : ℕ) → addr % 4 ≡ 0 → nonzero (bit_and addr 3) ≡ false
word_aligned addr aligned = ground (arith, bit_and_mask 2 addr)

-- One access of a word in the block.
load_word :
    (addr n : ℕ) (s : Machine (Unit {0}))
    → IsBlock addr (suc n) s.cpu.inter
    → load no_debugger word addr s ≡ ok (little_endian word s.cpu.inter.ram.bytes addr, s)
unfolding load Ram.load
load_word addr n s b =
    let at : addr + 4 ≤ ram_size = omega (arith, b.fits) in
    let reads = load_bytes_lem ram_size word s.cpu.inter.ram.bytes addr b.bytes at in
    let loads = bus_load addr s.cpu.inter b.aligned (omega (arith, b.fits)) b.visible in
    rw (word_aligned addr b.aligned, loads, reads) refl

store_word :
    (addr n val : ℕ) (s : Machine (Unit {0}))
    → IsBlock addr (suc n) s.cpu.inter
    → store no_debugger word addr val s
      ≡ ok (with_bytes (stored word s.cpu.inter.ram.bytes addr val) s)
unfolding store
store_word addr n val s b =
    let at : addr + 4 ≤ ram_size = omega (arith, b.fits) in
    let writes = store_lem word addr val s.cpu.inter.ram at in
    let stores = bus_store addr val s.cpu.inter b.aligned (omega (arith, b.fits)) b.visible in
    rw (word_aligned addr b.aligned, stores, writes) refl

-- The bytes of the RAM after the stores.
pub store_words : ℕ → ℕ → ℕ → ℕ → (ℕ → ℕ) → (ℕ → ℕ) → ℕ → ℕ
store_words list zero i addr registers bytes = bytes
store_words list (suc left) i addr registers bytes = elim (in_list list i) [
  | false ↦ store_words list left (i + 1) addr registers bytes
  | true ↦ store_words list left (i + 1) (addr + 4) registers (stored word bytes addr (registers i))
]

-- The registers after the loads of what the stores of `saved` left.
unfoldable pub restored : ℕ → ℕ → ℕ → (ℕ → ℕ) → (ℕ → ℕ) → ℕ → ℕ
restored list zero i saved old = old
restored list (suc left) i saved old = elim (in_list list i) [
  | false ↦ restored list left (i + 1) saved old
  | true ↦ restored list left (i + 1) saved (update old i (saved i))
]

-- A round of each loop, for a register that is not in the list and for one that is.
module _ (list left i : ℕ) where
  count-out : in_list list i ≡ false → count_from list (suc left) i ≡ count_from list left (i + 1)
  unfolding count_from
  count-out out = rw (out, count_from) (omega arith)

  count-into :
      in_list list i ≡ true → count_from list (suc left) i ≡ suc (count_from list left (i + 1))
  unfolding count_from
  count-into into = rw (into, count_from) (omega arith)

  module _ (addr : ℕ) (registers bytes : ℕ → ℕ) where
    store_words-out :
        in_list list i ≡ false
        → store_words list (suc left) i addr registers bytes
          ≡ store_words list left (i + 1) addr registers bytes
    unfolding store_words
    store_words-out out = rw (out, store_words) refl

    store_words-into :
        in_list list i ≡ true
        → store_words list (suc left) i addr registers bytes
          ≡ store_words list left
              (i + 1)
              (addr + 4)
              registers
              (stored word bytes addr (registers i))
    unfolding store_words
    store_words-into into = rw (into, store_words) refl

  pub restored-out :
      (saved old : ℕ → ℕ)
      → in_list list i ≡ false
      → restored list (suc left) i saved old ≡ restored list left (i + 1) saved old
  unfolding restored
  restored-out saved old out = rw (out, restored) refl

  pub restored-into :
      (saved old : ℕ → ℕ)
      → in_list list i ≡ true
      → restored list (suc left) i saved old
        ≡ restored list left (i + 1) saved (update old i (saved i))
  unfolding restored
  restored-into saved old into = rw (into, restored) refl

-- The block that is left after its first word.
rest-IsBlock :
    (addr n : ℕ) (s s' : Interconnect)
    → IsBlock addr (suc n) s
    → s'.flash ≡ s.flash
    → IsBytes s'.ram.bytes
    → IsBlock (addr + 4) n s'
rest-IsBlock addr n s s' b same bytes = record {
  visible = rw same b.visible;
  bytes = bytes;
  aligned = omega (arith, b.aligned);
  fits = omega (arith, b.fits);
}
