-- ===== src/Arm/Logic.antt =====
-- src/cpu/armv4_is.rs: the data-processing instructions that combine bits or move a word, each for
-- the addressing mode of its second operand.
use pksx.Base.{
  ℕ, bit_and, bit_or, bit_xor, Bool, true, false, not, ◌==◌, Panic, Result, ok, ◌>>=◌, ◌>>◌, guard,
  assert, not32, is_neg,
}
use pksx.Cpu.{Cpu, reg, set_reg}
use pksx.Arm.{rn, rd, is_pc}
use pksx.Arm.Operands.{Mode1Addressing}

-- The flags N and Z of a result, and C of the shifter.
abbrev logic_flags : ℕ → Bool → Cpu → Cpu
logic_flags val carry c = record c { n = is_neg val; z = val == 0; c = carry }

unfoldable pub and : Mode1Addressing → ℕ → Cpu → Result Cpu
and m i c = do
  let b = m.value i c
  assert (m.is_valid i 0 false)
  let a = reg (rn i) c
  ok (set_reg (rd i) (bit_and a b) c)

unfoldable pub ands : Mode1Addressing → ℕ → Cpu → Result Cpu
ands m i c = do
  (b, carry) ← m.value_carry i c
  assert (m.is_valid i 0 true)
  guard (not (is_pc (rd i))) Panic.unpredictable
  let val = bit_and (reg (rn i) c) b
  ok (logic_flags val carry (set_reg (rd i) val c))

unfoldable pub eor : Mode1Addressing → ℕ → Cpu → Result Cpu
eor m i c = do
  let b = m.value i c
  assert (m.is_valid i 1 false)
  let a = reg (rn i) c
  ok (set_reg (rd i) (bit_xor a b) c)

unfoldable pub eors : Mode1Addressing → ℕ → Cpu → Result Cpu
eors m i c = do
  (b, carry) ← m.value_carry i c
  assert (m.is_valid i 1 true)
  guard (not (is_pc (rd i))) Panic.unpredictable
  let val = bit_xor (reg (rn i) c) b
  ok (logic_flags val carry (set_reg (rd i) val c))

unfoldable pub tst : Mode1Addressing → ℕ → Cpu → Result Cpu
tst m i c = do
  (b, carry) ← m.value_carry i c
  assert (m.is_valid i 8 true)
  guard (rd i == 0) Panic.unpredictable
  let val = bit_and (reg (rn i) c) b
  ok (logic_flags val carry c)

unfoldable pub teq : Mode1Addressing → ℕ → Cpu → Result Cpu
teq m i c = do
  (b, carry) ← m.value_carry i c
  assert (m.is_valid i 9 true)
  guard (rd i == 0) Panic.unpredictable
  let val = bit_xor (reg (rn i) c) b
  ok (logic_flags val carry c)

unfoldable pub orr : Mode1Addressing → ℕ → Cpu → Result Cpu
orr m i c = do
  let b = m.value i c
  assert (m.is_valid i 12 false)
  let a = reg (rn i) c
  ok (set_reg (rd i) (bit_or a b) c)

unfoldable pub orrs : Mode1Addressing → ℕ → Cpu → Result Cpu
orrs m i c = do
  (b, carry) ← m.value_carry i c
  assert (m.is_valid i 12 true)
  guard (not (is_pc (rd i))) Panic.unpredictable
  let val = bit_or (reg (rn i) c) b
  ok (logic_flags val carry (set_reg (rd i) val c))

unfoldable pub mov : Mode1Addressing → ℕ → Cpu → Result Cpu
mov m i c = do
  let val = m.value i c
  assert (m.is_valid i 13 false)
  guard (rn i == 0) Panic.unpredictable
  ok (set_reg (rd i) val c)

unfoldable pub movs : Mode1Addressing → ℕ → Cpu → Result Cpu
movs m i c = do
  (val, carry) ← m.value_carry i c
  assert (m.is_valid i 13 true)
  guard (not (is_pc (rd i))) Panic.unpredictable
  ok (logic_flags val carry (set_reg (rd i) val c))

unfoldable pub bic : Mode1Addressing → ℕ → Cpu → Result Cpu
bic m i c = do
  let b = m.value i c
  assert (m.is_valid i 14 false)
  let a = reg (rn i) c
  ok (set_reg (rd i) (bit_and a (not32 b)) c)

unfoldable pub bics : Mode1Addressing → ℕ → Cpu → Result Cpu
bics m i c = do
  (b, carry) ← m.value_carry i c
  assert (m.is_valid i 14 true)
  guard (not (is_pc (rd i))) Panic.unpredictable
  let val = bit_and (reg (rn i) c) (not32 b)
  ok (logic_flags val carry (set_reg (rd i) val c))

unfoldable pub mvn : Mode1Addressing → ℕ → Cpu → Result Cpu
mvn m i c = do
  let val = m.value i c
  assert (m.is_valid i 15 false)
  guard (rn i == 0) Panic.unpredictable
  ok (set_reg (rd i) (not32 val) c)
