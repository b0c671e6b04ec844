-- ===== src/Arm/Compare.antt =====
-- src/cpu/armv4_is.rs: a comparison and the condition codes that an instruction after it tests.
use pksx.Base.{
  ℕ, ◌+◌, ◌^◌, ◌<◌, ◌≡◌, refl, ap, ◌∙◌, Bool, true, false, not, xor, ◌&&◌, ◌||◌, arith, ltb, leb,
  ◌==◌, if◌then◌else◌, Panic, ok, guard, assert, >>=-eq-ok, u32, wrapping_sub, is_neg,
}
use mathlib.Core.Path.{subst}
use pksx.Cpu.{Cpu, reg}
use pksx.Arm.{rn, rd, cond_true}
use pksx.Arm.Operands.{Mode1Addressing}
use pksx.Arm.Sums.{cmp, sub_flags}

-- The signed order of two words is the order of these numbers.
abbrev signed : ℕ → ℕ
signed x = u32 (x + 2 ^ 31)

-- The flags compare `a` with `b`: each condition code is the test that its name says, EQ, NE, CS,
-- CC, HI and LS of the unsigned order, GE, LT, GT and LE of the signed one.
pub record IsComparison (a b : ℕ) (c : Cpu) : Type 0 where
  eq : cond_true 0 c ≡ ok (a == b)
  ne : cond_true 1 c ≡ ok (not (a == b))
  cs : cond_true 2 c ≡ ok (leb b a)
  cc' : cond_true 3 c ≡ ok (ltb a b)
  hi : cond_true 8 c ≡ ok (ltb b a)
  ls : cond_true 9 c ≡ ok (leb a b)
  ge : cond_true 10 c ≡ ok (leb (signed b) (signed a))
  lt : cond_true 11 c ≡ ok (ltb (signed a) (signed b))
  gt : cond_true 12 c ≡ ok (ltb (signed b) (signed a))
  le : cond_true 13 c ≡ ok (leb (signed a) (signed b))

-- N equals V after a subtraction, by the signs of the operands and of the difference.
same_sign :
    (p q r : Bool)
    → not (xor r (xor p q && xor p r))
      ≡ (if p then (if q then not r else false) else if q then true else not r)
unfolding mathlib.Core.Bool.xor
same_sign true true true = refl
same_sign true true false = refl
same_sign true false true = refl
same_sign true false false = refl
same_sign false true true = refl
same_sign false true false = refl
same_sign false false true = refl
same_sign false false false = refl

ok_both : (f : Bool → Bool → Bool) {x x' y y' : Bool} → x ≡ x' → y ≡ y' → ok (f x y) ≡ ok (f x' y')
ok_both f p q = λ i. ok (f (p i) (q i))

signed_ge :
    (a b : ℕ)
    → a < 2 ^ 32
    → b < 2 ^ 32
    → (if is_neg a
        then (if is_neg b then not (is_neg (wrapping_sub a b)) else false)
        else if is_neg b
        then true
        else not (is_neg (wrapping_sub a b)))
      ≡ leb (signed b) (signed a)
signed_ge a b ha hb = ground arith

zero_eq : (a b : ℕ) → a < 2 ^ 32 → b < 2 ^ 32 → (wrapping_sub a b == 0) ≡ (a == b)
zero_eq a b ha hb = ground arith

pub sub_flags-IsComparison :
    (a b : ℕ) (c : Cpu)
    → a < 2 ^ 32
    → b < 2 ^ 32
    → IsComparison a b (sub_flags a b (wrapping_sub a b) c)
unfolding cond_true
sub_flags-IsComparison a b c ha hb =
    let z = zero_eq a b ha hb in
    let g = same_sign (is_neg a) (is_neg b) (is_neg (wrapping_sub a b)) ∙ signed_ge a b ha hb in
    record {
      eq = ap ok z;
      ne = ap (λ x. ok (not x)) z;
      cs = refl;
      cc' = ground arith;
      hi = ap (λ x. ok (leb b a && not x)) z ∙ ground arith;
      ls = ap (λ x. ok (not (leb b a) || x)) z ∙ ground arith;
      ge = ap ok g;
      lt = ap (λ x. ok (not x)) g ∙ ground arith;
      gt = ok_both (λ x y. not x && y) z g ∙ ground arith;
      le = ok_both (λ x y. x || not y) z g ∙ ground arith;
    }

-- After a CMP that does not panic, of two operands that are words, the condition codes EQ, NE, CS,
-- CC, HI and LS are the unsigned tests of the operands and GE, LT, GT and LE the signed ones.
pub cmp-IsComparison :
    (m : Mode1Addressing) (i : ℕ) (c c' : Cpu)
    → cmp m i c ≡ ok c'
    → reg (rn i) c < 2 ^ 32
    → m.value i c < 2 ^ 32
    → IsComparison (reg (rn i) c) (m.value i c) c'
unfolding cmp
cmp-IsComparison m i c c' h ha hb =
    let (_, _, h₁) = >>=-eq-ok (assert (m.is_valid i 10 true)) _ h in
    let (_, _, h₂) = >>=-eq-ok (guard (rd i == 0) Panic.unpredictable) _ h₁ in
    let same : sub_flags (reg (rn i) c) (m.value i c) (wrapping_sub (reg (rn i) c) (m.value i c)) c
        ≡ c' =
      cc in
    subst (IsComparison (reg (rn i) c) (m.value i c)) same
      (sub_flags-IsComparison (reg (rn i) c) (m.value i c) c ha hb)
