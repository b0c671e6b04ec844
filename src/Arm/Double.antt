-- ===== src/Arm/Double.antt =====
-- src/cpu/armv4_is.rs: an addition that sets the carry, and one that takes it.
use pksx.Base.{ℕ, ◌+◌, ◌*◌, ◌%◌, ◌^◌, ◌<◌, ◌≡◌, false, arith, leb, ◌==◌, flag, ok, wrapping_add}
use pksx.Cpu.{Cpu, reg, set_reg}
use pksx.Arm.{rn, rd, is_pc}
use pksx.Arm.Operands.{Mode1Addressing}
use pksx.Arm.Sums.{adds, adc}

sum_lem :
    (a b a' b' : ℕ)
    → a < 2 ^ 32
    → b < 2 ^ 32
    → wrapping_add a b + 2 ^ 32 * wrapping_add (wrapping_add a' b') (flag (leb (2 ^ 32) (a + b)))
      ≡ (a + 2 ^ 32 * a' + (b + 2 ^ 32 * b')) % 2 ^ 64
sum_lem a b a' b' ha hb = ground arith

-- What an addition with the carry leaves of a register that it does not write.
adds_lem :
    (m : Mode1Addressing) (i : ℕ) (c c' : Cpu)
    → adds m i c ≡ ok c'
    → (reg (rd i) c' ≡ wrapping_add (reg (rn i) c) (m.value i c))
      × (c'.c ≡ leb (2 ^ 32) (reg (rn i) c + m.value i c))
unfolding adds set_reg reg
adds_lem m i c c' h = ground arith

adc_lem :
    (m : Mode1Addressing) (i : ℕ) (c c' : Cpu) (r : ℕ)
    → adc m i c ≡ ok c'
    → is_pc (rd i) ≡ false
    → (reg (rd i) c' ≡ wrapping_add (wrapping_add (reg (rn i) c) (m.value i c)) (flag c.c))
      × ((r == rd i) ≡ false → reg r c' ≡ reg r c)
unfolding adc set_reg reg
adc_lem m i c c' r h hp = ground arith

-- Where an ADDS of two words and then an ADC do not panic, and the ADC writes a register other
-- than R15 and than that of the ADDS, the two destinations hold the low and the high word of the
-- sum of the two 64-bit numbers whose low words the ADDS reads and whose high words the ADC reads.
pub adds-adc :
    (m n : Mode1Addressing) (i j : ℕ) (c c₁ c₂ : Cpu)
    → adds m i c ≡ ok c₁
    → adc n j c₁ ≡ ok c₂
    → is_pc (rd j) ≡ false
    → (rd i == rd j) ≡ false
    → reg (rn i) c < 2 ^ 32
    → m.value i c < 2 ^ 32
    → reg (rd i) c₂ + 2 ^ 32 * reg (rd j) c₂
      ≡ (reg (rn i) c + 2 ^ 32 * reg (rn j) c₁ + (m.value i c + 2 ^ 32 * n.value j c₁)) % 2 ^ 64
adds-adc m n i j c c₁ c₂ h k hp hd ha hb =
    let (p, q) = adds_lem m i c c₁ h in
    let (u, v) = adc_lem n j c₁ c₂ (rd i) k hp in
    let kept = v hd in
    let sum = sum_lem (reg (rn i) c) (m.value i c) (reg (rn j) c₁) (n.value j c₁) ha hb in cc
