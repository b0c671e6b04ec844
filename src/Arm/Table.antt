-- ===== src/Arm/Table.antt =====
-- src/cpu/armv4_is.rs: the table of opcodes and the execution of an instruction.
pub mod Rows
pub mod Low
pub mod High
pub mod Immediate
pub mod Transfers
pub mod Branches
pub mod Fields
pub mod Encoding
use pksx.Base.{
  ℕ, bit_and, ◌/◌, ◌%◌, List, [], ◌∷◌, get_or, Panic, Result, ok, panic, ◌>>=◌, if◌then◌else◌,
}
use pksx.Cpu.Machine.{Machine, Debugger, Handler}
use pksx.Arm.{opcode, condition_code, cond_true}
use pksx.Arm.Opcodes.{Entry, unimplemented, handler}
use Low.{table_0}
use High.{table_1}
use Immediate.{table_2, table_3}
use Transfers.{table_4, table_5, table_6, table_7, table_8, table_9}
use Branches.{table_a, table_b, table_c, table_d, table_e, table_f}

-- `OPCODE_LUT`, by the three digits of the opcode.
abbrev tables : List (List (List Entry))
tables =
    table_0 ∷ table_1 ∷ table_2 ∷ table_3 ∷ table_4 ∷ table_5 ∷ table_6 ∷ table_7 ∷ table_8
    ∷ table_9 ∷ table_a ∷ table_b ∷ table_c ∷ table_d ∷ table_e ∷ table_f ∷ []

unfoldable pub opcode_lut : ℕ → Entry
opcode_lut op =
    get_or (get_or (get_or tables (op / 256) []) (op / 16 % 16) []) (op % 16) unimplemented

-- `Instruction::execute`.
unfoldable pub execute : {D : Type 0} → Debugger D → Handler D
execute dbg i s = do
  holds ← cond_true (condition_code i) s.cpu
  if holds then handler dbg (opcode_lut (opcode i)) i s else ok s
