-- ===== src/Thumb/Carries.antt =====
-- src/cpu/thumbv1_is.rs: the carry of an addition with carry.
use pksx.Base.{ℕ, ◌+◌, ◌-◌, ◌^◌, ◌<◌, ◌≡◌, not, ◌&&◌, arith, leb, ◌==◌, flag}
use pksx.Cpu.{Cpu, reg}
use pksx.Thumb.{reg_0, reg_3}
use pksx.Thumb.Arithmetic.{op105_adc_rr}

-- After a Thumb ADC of two words, the carry is that of the sum with the carry in, except where the
-- carry is set and the second operand is 0xffffffff: there it is clear, though the sum carries.
pub op105_adc_rr_carry :
    (i : ℕ) (c : Cpu)
    → reg (reg_0 i) c < 2 ^ 32
    → reg (reg_3 i) c < 2 ^ 32
    → (op105_adc_rr i c).c ≡ (
        leb (2 ^ 32) (reg (reg_0 i) c + reg (reg_3 i) c + flag c.c)
        && not (c.c && (reg (reg_3 i) c == 2 ^ 32 - 1)))
unfolding op105_adc_rr
op105_adc_rr_carry i c ha hb = ground arith
