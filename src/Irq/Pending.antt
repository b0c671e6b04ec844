-- ===== src/Irq/Pending.antt =====
-- Which interrupts are pending, and what the registers of the controller do.
use Prim.Native.Nat.{min, max}
use pksx.Base.{
  zero, suc, refl, nonzero, ℕ, ◌-◌, ◌^◌, ◌<◌, ◌≡◌, Bool, true, false, ◌||◌, arith, bit_and, u16,
  not16, ok,
}
use pksx.Base.Bits.{bit}
use pksx.Base.Bits.Laws.{bit-bit_and, bit-bit_or, bit-not, bit_and-lt, bit_or-lt, bit_and-add_not}
use pksx.Access.{Addressable, is_byte}
use pksx.Irq.{
  Interrupt, IrqController, IsValid, line, fiq_mask, irq_mask, pending, irq_pending, fiq_pending,
  store, set_raw_interrupt,
}
use pksx.Irq.Edges.{line-lt}

fiq_mask-lt : fiq_mask < 2 ^ 16
unfolding fiq_mask
fiq_mask-lt = omega arith

-- In a controller whose latch has bits of lines only, an interrupt is pending exactly where an FIQ
-- or an IRQ is.
pub pending-eq-or : (c : IrqController) → IsValid c → pending c ≡ (fiq_pending c || irq_pending c)
unfolding pending irq_pending fiq_pending
pending-eq-or c v = ground (
  arith,
  bit_and-add_not 16 (bit_and c.latch c.mask) fiq_mask (bit_and-lt 16 c.latch c.mask v.latch_fits)
      fiq_mask-lt,
)

-- The controller's registers stay words of 16 bits.
pub set_raw_interrupt-IsValid :
    (irq : Interrupt) (level : Bool) (c : IrqController)
    → IsValid c
    → IsValid (set_raw_interrupt irq level c)
unfolding set_raw_interrupt
set_raw_interrupt-IsValid irq true c v = ground (
  arith,
  line-lt irq,
  bit_and-lt 16 (line irq) c.mask (line-lt irq),
  bit_or-lt 16 c.latch (bit_and (line irq) c.mask),
  bit_or-lt 16 c.raw (line irq),
)
set_raw_interrupt-IsValid irq false c v = ground (arith, bit_and-lt 16 c.raw (not16 (line irq)))

pub store-IsValid :
    (a : Addressable) (offset val : ℕ) (c : IrqController) {c' : IrqController}
    → IsValid c
    → store a offset val c ≡ ok c'
    → IsValid c'
unfolding store
store-IsValid a offset val c v e = ground (
  arith,
  bit_or-lt 16 c.mask (u16 val),
  bit_and-lt 16 c.mask (not16 (u16 val)),
  bit_and-lt 16 c.latch (not16 (u16 val)),
)

-- Of an access that is not a byte, a store to 0x08 sets the mask bits that are set in the value,
-- one to 0x0c clears them, and one to 0x10 clears those bits of the latch.
pub store_bits :
    (a : Addressable) (val : ℕ) (c : IrqController) (i : ℕ)
    → is_byte a ≡ false
    → i < 16
    → (c₁ c₂ c₃ : IrqController) → store a 0x08 val c ≡ ok c₁
    → store a 0x0c val c ≡ ok c₂
    → store a 0x10 val c ≡ ok c₃
    → (bit c₁.mask i ≡ max (bit c.mask i) (bit (u16 val) i))
      × (bit c₂.mask i ≡ min (bit c.mask i) (1 - bit (u16 val) i))
      × (bit c₃.latch i ≡ min (bit c.latch i) (1 - bit (u16 val) i))
unfolding store
store_bits a val c i h p c₁ c₂ c₃ e₁ e₂ e₃ = ground (
  arith,
  bit-bit_or c.mask (u16 val) i,
  bit-bit_and c.mask (not16 (u16 val)) i,
  bit-bit_and c.latch (not16 (u16 val)) i,
  bit-not 16 (u16 val) i,
)

-- A word with a bit set is not 0.
bit-nonzero : (x k : ℕ) → bit x k ≡ 1 → nonzero x ≡ true
bit-nonzero zero k h = absurd (omega (arith, bit_of_zero k, h))
  where
    bit_of_zero : (k : ℕ) → bit 0 k ≡ 0
    bit_of_zero zero = refl
    bit_of_zero (suc k) = bit_of_zero k
bit-nonzero (suc x) k h = ground arith

both-bit : (a b k : ℕ) → bit a k ≡ 1 → bit b k ≡ 1 → bit (bit_and a b) k ≡ 1
both-bit a b k p q = ground (arith, bit-bit_and a b k, p, q)

-- Timer 0 is a source of IRQs, timer 2 one of FIQs.
pub timer0-irq_pending :
    (c : IrqController)
    → bit c.latch 7 ≡ 1
    → bit c.mask 7 ≡ 1
    → (pending c ≡ true) × (irq_pending c ≡ true)
unfolding pending irq_pending irq_mask fiq_mask
timer0-irq_pending c p q =
    let both = both-bit c.latch c.mask 7 p q in
    (
      bit-nonzero (bit_and c.latch c.mask) 7 both,
      bit-nonzero (bit_and (bit_and c.latch c.mask) irq_mask) 7
          (both-bit (bit_and c.latch c.mask) irq_mask 7 both refl),
    )

pub timer2-fiq_pending :
    (c : IrqController)
    → bit c.latch 13 ≡ 1
    → bit c.mask 13 ≡ 1
    → (pending c ≡ true) × (fiq_pending c ≡ true)
unfolding pending fiq_pending fiq_mask
timer2-fiq_pending c p q =
    let both = both-bit c.latch c.mask 13 p q in
    (
      bit-nonzero (bit_and c.latch c.mask) 13 both,
      bit-nonzero (bit_and (bit_and c.latch c.mask) fiq_mask) 13
          (both-bit (bit_and c.latch c.mask) fiq_mask 13 both refl),
    )
