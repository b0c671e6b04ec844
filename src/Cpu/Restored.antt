-- ===== src/Cpu/Restored.antt =====
-- The registers after the loop of a multiple load, each by itself.
use pksx.Base.{
  ℕ, zero, suc, ◌+◌, ◌-◌, ◌*◌, ◌/◌, ◌%◌, ◌^◌, ◌≤◌, ◌<◌, bit_and, ◌≡◌, refl, sym, ap, ◌∙◌, fun_ext,
  inl, inr, Bool, true, false, ◌&&◌, arith, ltb, leb, ◌==◌, if◌then◌else◌, flag, ltb→lt, ==_iff,
  Bool-cases, wrapping_sub, nonzero, update, count_ones,
}
use mathlib.Core.Path.{subst}
use native.Mathlib.Nat.{pow-le-pow_right, div-eq_of_lt, div-div-eq-div-mul, pow-suc, pow-succ'}
use pksx.Base.Bits.Laws.{bit_and_mask, nonzero-bit_and_pow}
use pksx.Base.Bits.{bit}
use pksx.Cpu.{Cpu, set_reg}
use pksx.Cpu.Blocks.{in_list, restored, restored-out, restored-into, count_from}

-- The register `r` is in the list, and among the `left` from `i` on.
abbrev is_loaded : ℕ → ℕ → ℕ → ℕ → Bool
is_loaded list left i r = leb i r && ltb r (left + i) && in_list list r

-- A round of the loop, by any test in place of the list.
module _ (x : ℕ → Bool) (left i r : ℕ) where
  round-out :
      x i ≡ false
      → (leb (i + 1) r && ltb r (left + (i + 1)) && x r) ≡ (leb i r && ltb r (suc left + i) && x r)
  round-out h = elim (Bool-cases (i == r)) [
    | inr other ↦ ground arith
    | inl same ↦ let e : i ≡ r = (==_iff i r).0 same in ground (arith, subst (λ k. x k ≡ false) e h)
  ]

  round-into :
      (saved old : ℕ → ℕ)
      → x i ≡ true
      → (if leb (i + 1) r && ltb r (left + (i + 1)) && x r
          then saved r
          else update old i (saved i) r)
        ≡ (if leb i r && ltb r (suc left + i) && x r then saved r else old r)
  round-into saved old h = elim (Bool-cases (i == r)) [
    | inr other ↦ ground arith
    | inl same ↦
        let e : i ≡ r = (==_iff i r).0 same in
        ground (arith, subst (λ k. x k ≡ true) e h, ap saved e)
  ]

restored_at :
    (list left i : ℕ) (saved old : ℕ → ℕ) (r : ℕ)
    → restored list left i saved old r ≡ (if is_loaded list left i r then saved r else old r)
restored_at list zero i saved old r =
    let none : is_loaded list zero i r ≡ false = ground arith in unfold restored in rw none refl
restored_at list (suc left) i saved old r = elim (Bool-cases (in_list list i)) [
  | inr out ↦
      ap (λ f. f r) (restored-out list left i saved old out)
      ∙ (restored_at list left (i + 1) saved old r
          ∙ ap (λ b. if b then saved r else old r) (round-out (in_list list) left i r out))
  | inl into ↦
      ap (λ f. f r) (restored-into list left i saved old into)
      ∙ (restored_at list left (i + 1) saved (update old i (saved i)) r
          ∙ round-into (in_list list) left i r saved old into)
]

-- A list that fits `w` bits has registers below `w` only.
pub in_list-lt : (w list r : ℕ) → list < 2 ^ w → in_list list r ≡ true → r < w
in_list-lt w list r fits into = elim (Bool-cases (ltb r w)) [
  | inl below ↦ ltb→lt r w below
  | inr above ↦
      let wide : 2 ^ w ≤ 2 ^ r =
        pow-le-pow_right {n = 2} (omega arith) {i = w} {j = r} (ground arith) in
      let shifted : list / 2 ^ r ≡ 0 = div-eq_of_lt (omega (arith, wide, fits)) in
      absurd (ground (arith, ap (λ x. nonzero (bit_and x 1)) shifted, bit_and_mask 1 0, into))
]

bounded :
    (b : Bool) (w r x y : ℕ)
    → (b ≡ true → r < w)
    → (if leb 0 r && ltb r (w + 0) && b then x else y) ≡ (if b then x else y)
bounded true w r x y h = let below = h refl in ground arith
bounded false w r x y h = ground arith

pub restored_lem :
    (w list : ℕ) (saved old : ℕ → ℕ)
    → list < 2 ^ w
    → restored list w 0 saved old ≡ (λ r. if in_list list r then saved r else old r)
restored_lem w list saved old fits = fun_ext (λ r.
    restored_at list w 0 saved old r
    ∙ bounded (in_list list r) w r (saved r) (old r) (in_list-lt w list r fits))

-- The registers after a pop: those of the list and the stack pointer as they were at the push, the
-- others as they are before the pop.
abbrev pub popped : ℕ → ℕ → (ℕ → ℕ) → (ℕ → ℕ) → ℕ → ℕ
popped sp list saved others r =
    if sp == r then saved sp else if in_list list r then saved r else others r

-- A write of a register other than R15.
pub set_reg-plain :
    (r v : ℕ) (c : Cpu) → r < 15 → set_reg r v c ≡ record c { registers = update c.registers r v }
unfolding set_reg
set_reg-plain r v c h = ground arith

pub sub_word : (a b : ℕ) → b ≤ a → a < 2 ^ 32 → wrapping_sub a b ≡ a - b
sub_word a b h small = omega arith

-- The number of the registers in a list, by its bits.
count_from-bits : (list left i : ℕ) → count_from list left i ≡ count_ones left (list / 2 ^ i)
unfolding count_from
count_from-bits list zero i = refl
count_from-bits list (suc left) i =
    let succ : suc i ≡ i + 1 = omega arith in
    let next : 2 ^ i * 2 ≡ 2 ^ (i + 1) = sym (pow-suc 2 i) ∙ ap (λ k. 2 ^ k) succ in
    let halved : list / 2 ^ i / 2 ≡ list / 2 ^ (i + 1) =
      div-div-eq-div-mul list (2 ^ i) 2 ∙ ap (λ p. list / p) next in
    let rest = count_from-bits list left (i + 1) in
    let low = bit_and_mask 1 (list / 2 ^ i) in
    let digit : flag (in_list list i) ≡ list / 2 ^ i % 2 = ground arith in
    rw (digit, rest, halved) refl

count_ones-zero : (w : ℕ) → count_ones w 0 ≡ 0
count_ones-zero zero = refl
count_ones-zero (suc w) = omega (arith, count_ones-zero w)

count_ones-wider : (w more x : ℕ) → x < 2 ^ w → count_ones (w + more) x ≡ count_ones w x
count_ones-wider zero more x h =
    let none : x ≡ 0 = omega arith in rw none (count_ones-zero (0 + more))
count_ones-wider (suc w) more x h =
    let half = count_ones-wider w more (x / 2) (omega (arith, pow-suc 2 w)) in
    let sum : suc w + more ≡ suc (w + more) = omega arith in
    ap (λ k. count_ones k x) sum ∙ ap (λ n. x % 2 + n) half

pub count_from-count_ones :
    (w more list : ℕ) → list < 2 ^ w → count_from list w 0 ≡ count_ones (w + more) list
count_from-count_ones w more list h =
    count_from-bits list w 0
    ∙ (ap (λ x. count_ones w x) (omega arith) ∙ sym (count_ones-wider w more list h))

-- A bit of a word.
bit-div : (x i : ℕ) → bit x i ≡ x / 2 ^ i % 2
bit-div x zero = omega arith
bit-div x (suc i) =
    bit-div (x / 2) i
    ∙ ap (λ n. n % 2) (div-div-eq-div-mul x 2 (2 ^ i) ∙ ap (λ p. x / p) (sym (pow-succ' 2 i)))

pub in_list-bit : (list r : ℕ) → nonzero (bit_and list (2 ^ r)) ≡ in_list list r
in_list-bit list r =
    let low = bit_and_mask 1 (list / 2 ^ r) in
    let digit = bit-div list r in nonzero-bit_and_pow list r ∙ ground arith
