-- ===== src/Base/Results.antt =====
-- A run of the emulator's code either returns or panics. The arithmetic that is written with plain
-- `+`, `-` and `+=` is that of a debug build: it panics on overflow, and `debug_assert!` is checked.
use Prim.Native.Nat.{ℕ, ◌+◌, ◌-◌, ◌^◌}
use mathlib.Core.Path.{◌≡◌, refl, ap}
use mathlib.Core.Bool.{Bool}
use mathlib.Core.Option.{Option, none, some}
use pksx.Base.Tests.{ltb, leb, if◌then◌else◌}

pub data Panic : Type 0 where
  unhandled_size unhandled_register unhandled_address misaligned : Panic
  overflow out_of_bounds assertion unreachable_code unwrap_none : Panic
  bank_mapped_twice unmapped_bank : Panic
  invalid_mode reserved_bits no_spsr thumb_msr misaligned_pc : Panic
  unpredictable unimplemented : Panic
  -- Not a panic of the code: the model's fuel for a loop ran out.
  out_of_fuel : Panic

pub data Result {ℓ} (A : Type ℓ) : Type ℓ where
  ok : A → Result A
  panic : Panic → Result A

-- The chain of a `do` block: a panic ends it.
infixl 5 ◌>>=◌ ◌>>◌
abbrev pub ◌>>=◌ {ℓ κ} : {A : Type ℓ} {B : Type κ} (m : Result A) (next : A → Result B) → Result B
ok value >>= next = next value
panic cause >>= next = panic cause

abbrev pub ◌>>◌ {ℓ} : {A : Type ℓ} (check : Result (Unit {0})) (next : Result A) → Result A
check >> next = check >>= λ _. next

-- A check with the panic of its failure.
abbrev pub guard : Bool → Panic → Result (Unit {0})
guard b cause = if b then ok tt else panic cause

-- `assert!` and `debug_assert!`.
abbrev pub assert : Bool → Result (Unit {0})
assert b = guard b Panic.assertion

abbrev pub unwrap {ℓ} : {A : Type ℓ} → Option A → Result A
unwrap none = panic Panic.unwrap_none
unwrap (some a) = ok a

-- `a + b` at a width of `w` bits, with the overflow check.
abbrev pub checked_add : ℕ → ℕ → ℕ → Result ℕ
checked_add w a b = if ltb (a + b) (2 ^ w) then ok (a + b) else panic Panic.overflow

-- `a - b`, with the check that it does not go below 0.
abbrev pub checked_sub : ℕ → ℕ → Result ℕ
checked_sub a b = if leb b a then ok (a - b) else panic Panic.overflow

pub >>=-eq-ok {ℓ κ} :
    {A : Type ℓ} {B : Type κ} (m : Result A) (next : A → Result B) {result : B}
    → (m >>= next) ≡ ok result
    → (value : A) × (m ≡ ok value) × (next value ≡ ok result)
>>=-eq-ok (ok value) next returns = (value, refl, returns)
>>=-eq-ok (panic cause) next returns = cc

pub ok-injective {ℓ} : {A : Type ℓ} {a b : A} → ok a ≡ ok b → a ≡ b
ok-injective {a} h = ap (λ r. elim r [ ok x ↦ x | panic e ↦ a ]) h
