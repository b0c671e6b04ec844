-- ===== src/Arm.antt =====
-- src/cpu/armv4_is.rs: the fields of a 32-bit ARM instruction and its condition code. An
-- instruction is the number its word is, and a register index is the four bits it is cut from.
pub mod Operands
pub mod Logic
pub mod Sums
pub mod Multiply
pub mod Branches
pub mod Transfers
pub mod Opcodes
pub mod Table
pub mod Shifts
pub mod Compare
pub mod Double
use pksx.Base.{
  ℕ, bit_and, bit_or, Bool, true, not, xor, ◌&&◌, ◌||◌, List, [], ◌∷◌, ◌==◌, if◌then◌else◌, Panic,
  Result, ok, panic, ◌>>=◌, ◌>>◌, shr, shl32, get_or,
}
use pksx.Cpu.{Cpu}

-- Whether a register index is R15.
abbrev pub is_pc : ℕ → Bool
is_pc r = r == 15

abbrev pub opcode : ℕ → ℕ
opcode i =
    let opcode_hi = bit_and (shr i 20) 0xff in
    let opcode_lo = bit_and (shr i 4) 0xf in bit_or (shl32 opcode_hi 4) opcode_lo

unfoldable pub condition_code : ℕ → ℕ
condition_code i = shr i 28

unfoldable pub rn : ℕ → ℕ
rn i = bit_and (shr i 16) 0xf

unfoldable pub rd : ℕ → ℕ
rd i = bit_and (shr i 12) 0xf

unfoldable pub rs : ℕ → ℕ
rs i = bit_and (shr i 8) 0xf

unfoldable pub rm : ℕ → ℕ
rm i = bit_and i 0xf

-- `a == b` and `a != b` of Booleans.
abbrev same : Bool → Bool → Bool
same a b = not (xor a b)

-- What each condition code says of the flags, from 0b0000 to 0b1111.
abbrev conditions : Cpu → List (Result Bool)
conditions c =
    ok c.z
    ∷ ok (not c.z)
    ∷ ok c.c
    ∷ ok (not c.c)
    ∷ ok c.n
    ∷ ok (not c.n)
    ∷ ok c.v
    ∷ ok (not c.v)
    ∷ ok (c.c && not c.z)
    ∷ ok (not c.c || c.z)
    ∷ ok (same c.n c.v)
    ∷ ok (not (same c.n c.v))
    ∷ ok (not c.z && same c.n c.v)
    ∷ ok (c.z || not (same c.n c.v))
    ∷ ok true
    ∷ panic Panic.unpredictable
    ∷ []

-- `cond_true` of `execute`: whether a condition code holds of the flags.
unfoldable pub cond_true : ℕ → Cpu → Result Bool
cond_true code c = get_or (conditions c) code (panic Panic.unreachable_code)
