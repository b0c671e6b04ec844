-- ===== src/Timer/Bounds.antt =====
-- The fields of a timer keep their ranges, and the mode register.
use pksx.Base.{
  ℕ, ◌+◌, ◌-◌, ◌*◌, ◌%◌, ◌^◌, ◌<◌, bit_and, ◌≡◌, arith, ◌==◌, if◌then◌else◌, ok, ◌>>=◌, u8, nonzero,
}
use pksx.Base.Bits.Laws.{bit_and_mask, bit_or_fields, bit_and-pow, bit-lt_two}
use pksx.Access.{Addressable}
use pksx.Timer.{Timer, divider_shift, reloaded, set_mode, mode, store, rescale}

-- The pre-divider is one of the four that are known, and the registers fit their widths.
pub record IsValid (t : Timer) : Type 0 where
  pub known : t.divider < 4
  pub reload_fits : t.reload < 2 ^ 16
  pub counter_fits : t.counter < 2 ^ 32

-- The pre-divider of a divider field.
abbrev pub shift_of : ℕ → ℕ
shift_of divider = if divider == 1 then 5 else if divider == 2 then 9 else 1

pub divider_shift_lem : (t : Timer) → t.divider < 4 → divider_shift t ≡ ok (shift_of t.divider)
unfolding divider_shift
divider_shift_lem t h = ground arith

-- The counter is reloaded with `((reload + 1) << shift) - 1`, which cannot overflow.
pub reloaded_lem :
    (t : Timer) → IsValid t → reloaded t ≡ ok ((t.reload + 1) * 2 ^ shift_of t.divider - 1)
unfolding reloaded
reloaded_lem t v = ground arith

pub set_mode_shift :
    (val : ℕ) (t : Timer)
    → t.divider < 4
    → set_mode val t ≡ (
        rescale (shift_of t.divider) (shift_of (val % 4)) t.counter >>= λ counter.
        ok (record t { divider = val % 4; enabled = nonzero (bit_and val 4); counter = counter }))
unfolding set_mode
set_mode_shift val t h = ground (arith, bit_and_mask 2 val)

-- From a divider of two bits, a write to the mode register that returns is read back as its lowest
-- three bits.
pub mode-set_mode :
    (val : ℕ) (t : Timer) {t' : Timer} → t.divider < 4 → set_mode val t ≡ ok t' → mode t' ≡ val % 8
mode-set_mode val t h e = ground (
  arith,
  set_mode_shift val t h,
  bit_and-pow val 2,
  bit-lt_two val 2,
  bit_or_fields 2 (val % 4) 0,
  bit_or_fields 2 (val % 4) 1,
)

rescale_same : (s c : ℕ) → c + 2 < 2 ^ 32 → rescale s s c ≡ ok (c + 2)
rescale_same s c h = let e : s - s ≡ 0 = omega arith in rw e (ground arith)

-- On a valid timer, a write to the mode register that keeps the shift of the divider and does not
-- overflow adds 2 to the counter.
pub set_mode_same_shift :
    (val : ℕ) (t : Timer)
    → IsValid t
    → t.counter + 2 < 2 ^ 32
    → shift_of (val % 4) ≡ shift_of t.divider
    → set_mode val t
      ≡ ok (record t {
        divider = val % 4;
        enabled = nonzero (bit_and val 4);
        counter = t.counter + 2;
      })
set_mode_same_shift val t v fits same =
    rw (set_mode_shift val t v.known)
      (rw same (rw (rescale_same (shift_of t.divider) t.counter fits)))

pub store-IsValid :
    (a : Addressable) (offset val : ℕ) (t : Timer) {t' : Timer}
    → IsValid t
    → store a offset val t ≡ ok t'
    → IsValid t'
unfolding store
store-IsValid a offset val t v e = ground (arith, set_mode_shift (u8 val) t v.known)
