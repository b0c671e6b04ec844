-- ===== src/Arm/Sums.antt =====
-- src/cpu/armv4_is.rs: the data-processing instructions that add, subtract and compare.
use pksx.Base.{
  ℕ, ◌+◌, ◌^◌, Bool, true, false, not, xor, ◌&&◌, leb, ◌==◌, flag, Panic, Result, ok, ◌>>◌, guard,
  assert, wrapping_add, wrapping_sub, is_neg,
}
use pksx.Cpu.{Cpu, reg, set_reg}
use pksx.Arm.{rn, rd, is_pc}
use pksx.Arm.Operands.{Mode1Addressing}

-- The flags of `a - b` and of `a + b`, with the result `val` and the carry given.
abbrev pub sub_flags : ℕ → ℕ → ℕ → Cpu → Cpu
sub_flags a b val c =
    let a_neg = is_neg a in
    let b_neg = is_neg b in
    let v_neg = is_neg val in
    record c { n = v_neg; z = val == 0; c = leb b a; v = xor a_neg b_neg && xor a_neg v_neg }

abbrev pub add_flags : ℕ → ℕ → ℕ → Bool → Cpu → Cpu
add_flags a b val carry c =
    let a_neg = is_neg a in
    let b_neg = is_neg b in
    let v_neg = is_neg val in
    record c { n = v_neg; z = val == 0; c = carry; v = not (xor a_neg b_neg) && xor a_neg v_neg }

unfoldable pub sub : Mode1Addressing → ℕ → Cpu → Result Cpu
sub m i c = do
  let b = m.value i c
  assert (m.is_valid i 2 false)
  let a = reg (rn i) c
  ok (set_reg (rd i) (wrapping_sub a b) c)

unfoldable pub subs : Mode1Addressing → ℕ → Cpu → Result Cpu
subs m i c = do
  let b = m.value i c
  let a = reg (rn i) c
  assert (m.is_valid i 2 true)
  guard (not (is_pc (rd i))) Panic.unpredictable
  let val = wrapping_sub a b
  ok (sub_flags a b val (set_reg (rd i) val c))

unfoldable pub rsb : Mode1Addressing → ℕ → Cpu → Result Cpu
rsb m i c = do
  let a = m.value i c
  assert (m.is_valid i 3 false)
  let b = reg (rn i) c
  ok (set_reg (rd i) (wrapping_sub a b) c)

unfoldable pub rsbs : Mode1Addressing → ℕ → Cpu → Result Cpu
rsbs m i c = do
  let a = m.value i c
  let b = reg (rn i) c
  assert (m.is_valid i 3 true)
  guard (not (is_pc (rd i))) Panic.unpredictable
  let val = wrapping_sub a b
  ok (sub_flags a b val (set_reg (rd i) val c))

unfoldable pub add : Mode1Addressing → ℕ → Cpu → Result Cpu
add m i c = do
  let b = m.value i c
  assert (m.is_valid i 4 false)
  let a = reg (rn i) c
  ok (set_reg (rd i) (wrapping_add a b) c)

unfoldable pub adds : Mode1Addressing → ℕ → Cpu → Result Cpu
adds m i c = do
  let b = m.value i c
  let a = reg (rn i) c
  assert (m.is_valid i 4 true)
  guard (not (is_pc (rd i))) Panic.unpredictable
  let val = wrapping_add a b
  ok (add_flags a b val (leb (2 ^ 32) (a + b)) (set_reg (rd i) val c))

unfoldable pub adc : Mode1Addressing → ℕ → Cpu → Result Cpu
adc m i c = do
  let b = m.value i c
  assert (m.is_valid i 5 false)
  let a = reg (rn i) c
  ok (set_reg (rd i) (wrapping_add (wrapping_add a b) (flag c.c)) c)

unfoldable pub cmp : Mode1Addressing → ℕ → Cpu → Result Cpu
cmp m i c = do
  let b = m.value i c
  assert (m.is_valid i 10 true)
  guard (rd i == 0) Panic.unpredictable
  let a = reg (rn i) c
  ok (sub_flags a b (wrapping_sub a b) c)

-- The flags of the sum, but C and V as they are of the difference.
unfoldable pub cmn : Mode1Addressing → ℕ → Cpu → Result Cpu
cmn m i c = do
  let b = m.value i c
  assert (m.is_valid i 11 true)
  guard (rd i == 0) Panic.unpredictable
  let a = reg (rn i) c
  ok (sub_flags a b (wrapping_add a b) c)
