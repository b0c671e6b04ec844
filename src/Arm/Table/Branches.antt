-- ===== src/Arm/Table/Branches.antt =====
-- src/cpu/armv4_is.rs, `OPCODE_LUT`: the branches and the supervisor call.
use pksx.Base.{List, []}
use pksx.Arm.Opcodes.{Entry, unimplemented, b, bl, swi}
use pksx.Arm.Table.Rows.{next, sixteen}

-- Opcodes 0xa00 to 0xaff.
unfoldable pub table_a : List (List Entry)
table_a = next 16 (sixteen b) []

-- Opcodes 0xb00 to 0xbff.
unfoldable pub table_b : List (List Entry)
table_b = next 16 (sixteen bl) []

-- Opcodes 0xc00 to 0xcff.
unfoldable pub table_c : List (List Entry)
table_c = next 16 (sixteen unimplemented) []

-- Opcodes 0xd00 to 0xdff.
unfoldable pub table_d : List (List Entry)
table_d = next 16 (sixteen unimplemented) []

-- Opcodes 0xe00 to 0xeff.
unfoldable pub table_e : List (List Entry)
table_e = next 16 (sixteen unimplemented) []

-- Opcodes 0xf00 to 0xfff.
unfoldable pub table_f : List (List Entry)
table_f = next 16 (sixteen swi) []
