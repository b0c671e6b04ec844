-- ===== src/Thumb/Shifts.antt =====
-- src/cpu/thumbv1_is.rs: the shifts, by an immediate and by a register.
use pksx.Base.{
  ℕ, ◌-◌, ◌*◌, ◌^◌, bit_and, Bool, false, ◌==◌, if◌then◌else◌, between, u32, shr, nonzero, is_neg,
  rotate_right, asr,
}
use pksx.Cpu.{Cpu, reg, set_reg}
use pksx.Thumb.{reg_0, reg_3, imm5, nz_flags}

abbrev with_carry : Bool → Cpu → Cpu
with_carry carry c = record c { c = carry }

-- A shift of 1 to 31 places to the left: the value and the carry, of 64 bits.
abbrev shifted_left : ℕ → ℕ → ℕ × Bool
shifted_left val shift =
    let shifted = val * 2 ^ shift in (u32 shifted, nonzero (bit_and shifted (2 ^ 32)))

unfoldable pub op00x_lsl_ri5 : ℕ → Cpu → Cpu
op00x_lsl_ri5 i c =
    let val = reg (reg_3 i) c in
    let shift = imm5 i in
    let r = shifted_left val shift in
    if shift == 0
    then nz_flags val (set_reg (reg_0 i) val c)
    else nz_flags r.0 (set_reg (reg_0 i) r.0 (with_carry r.1 c))

-- A shift of 0 stands for one of 32.
unfoldable pub op02x_lsr_ri5 : ℕ → Cpu → Cpu
op02x_lsr_ri5 i c =
    let val = reg (reg_3 i) c in
    let shift = imm5 i in
    let val' = if shift == 0 then 0 else shr val shift in
    let carry =
      if shift == 0
      then nonzero (bit_and val (2 ^ 31))
      else nonzero (bit_and val (2 ^ (shift - 1))) in
    record (set_reg (reg_0 i) val' c) { n = false; z = val' == 0; c = carry }

unfoldable pub op04x_asr_ri5 : ℕ → Cpu → Cpu
op04x_asr_ri5 i c =
    let val = reg (reg_3 i) c in
    let shift = imm5 i in
    let val' = if shift == 0 then asr val 31 else asr val shift in
    let carry = if shift == 0 then is_neg val else nonzero (bit_and val (2 ^ (shift - 1))) in
    with_carry carry (nz_flags val' (set_reg (reg_0 i) val' c))

unfoldable pub op102_lsl_r : ℕ → Cpu → Cpu
op102_lsl_r i c =
    let shift = bit_and (reg (reg_3 i) c) 0xff in
    let val = reg (reg_0 i) c in
    let r = shifted_left val shift in
    let finish = λ (v : ℕ) (k : Cpu). nz_flags v (set_reg (reg_0 i) v k) in
    if shift == 0
    then finish val c
    else if between 1 31 shift
    then finish r.0 (with_carry r.1 c)
    else if shift == 32
    then finish 0 (with_carry (nonzero (bit_and val 1)) c)
    else finish 0 (with_carry false c)

unfoldable pub op103_lsr_r : ℕ → Cpu → Cpu
op103_lsr_r i c =
    let shift = bit_and (reg (reg_3 i) c) 0xff in
    let val = reg (reg_0 i) c in
    let finish = λ (v : ℕ) (k : Cpu). nz_flags v (set_reg (reg_0 i) v k) in
    if shift == 0
    then finish val c
    else if between 1 31 shift
    then finish (shr val shift) (with_carry (nonzero (bit_and val (2 ^ (shift - 1)))) c)
    else if shift == 32
    then finish 0 (with_carry (is_neg val) c)
    else finish 0 (with_carry false c)

unfoldable pub op104_asr_r : ℕ → Cpu → Cpu
op104_asr_r i c =
    let shift = bit_and (reg (reg_3 i) c) 0xff in
    let val = reg (reg_0 i) c in
    let finish = λ (v : ℕ) (k : Cpu). nz_flags v (set_reg (reg_0 i) v k) in
    if shift == 0
    then finish val c
    else if between 1 31 shift
    then finish (asr val shift) (with_carry (nonzero (bit_and (shr val (shift - 1)) 1)) c)
    else finish (asr val 31) (with_carry (nonzero (bit_and (shr val 31) 1)) c)

-- The rotated value sets the flags, and no register.
unfoldable pub op107_ror : ℕ → Cpu → Cpu
op107_ror i c =
    let rot = reg (reg_3 i) c in
    let val = reg (reg_0 i) c in
    let rot' = bit_and rot 0x1f in
    if bit_and rot 0xff == 0
    then nz_flags val c
    else if rot' == 0
    then nz_flags val (with_carry (nonzero (bit_and (shr val 31) 1)) c)
    else nz_flags (rotate_right val rot') (with_carry (nonzero (bit_and (shr val (rot' - 1)) 1)) c)
