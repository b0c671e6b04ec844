-- ===== src/Arm/Opcodes.antt =====
-- src/cpu/armv4_is.rs: the handlers that stand in the table of opcodes, as data: each with the type
-- parameters that it is instantiated at.
use pksx.Base.{ℕ, Bool, Panic, Result, panic}
use pksx.Cpu.{Cpu}
use pksx.Cpu.Machine.{Debugger, Handler, on_cpu}
use pksx.Arm.Operands.{Shifter, Mode1Addressing, mode1}
use pksx.Arm.Logic
use pksx.Arm.Sums
use pksx.Arm.Multiply
use pksx.Arm.Branches
use pksx.Arm.Transfers
use pksx.Arm.Transfers.{Mode2Addressing}
use pksx.Arm.Transfers.Extra
use pksx.Arm.Transfers.Extra.{Mode3Addressing}
use pksx.Arm.Transfers.Multiple

-- The instructions of addressing mode 1.
pub data AluOp : Type 0 where
  and ands eor eors sub subs rsb rsbs add adds adc : AluOp
  tst teq cmp cmn orr orrs mov movs bic bics mvn : AluOp

abbrev pub alu_handler : AluOp → Mode1Addressing → ℕ → Cpu → Result Cpu
alu_handler and = Logic.and
alu_handler ands = Logic.ands
alu_handler eor = Logic.eor
alu_handler eors = Logic.eors
alu_handler sub = Sums.sub
alu_handler subs = Sums.subs
alu_handler rsb = Sums.rsb
alu_handler rsbs = Sums.rsbs
alu_handler add = Sums.add
alu_handler adds = Sums.adds
alu_handler adc = Sums.adc
alu_handler tst = Logic.tst
alu_handler teq = Logic.teq
alu_handler cmp = Sums.cmp
alu_handler cmn = Sums.cmn
alu_handler orr = Logic.orr
alu_handler orrs = Logic.orrs
alu_handler mov = Logic.mov
alu_handler movs = Logic.movs
alu_handler bic = Logic.bic
alu_handler bics = Logic.bics
alu_handler mvn = Logic.mvn

-- The types that are addressing modes 2 and 3.
pub data Mode2 : Type 0 where
  imm imm_pre imm_post lsl_reg lsl_reg_pre : Mode2

abbrev pub mode2 : Mode2 → Mode2Addressing
mode2 imm = Transfers.mode2_imm
mode2 imm_pre = Transfers.mode2_imm_pre
mode2 imm_post = Transfers.mode2_imm_post
mode2 lsl_reg = Transfers.mode2_lsl_reg
mode2 lsl_reg_pre = Transfers.mode2_lsl_reg_pre

pub data Mode3 : Type 0 where
  half_imm half_imm_pre half_imm_post half_reg : Mode3

abbrev pub mode3 : Mode3 → Mode3Addressing
mode3 half_imm = Extra.mode3_imm
mode3 half_imm_pre = Extra.mode3_imm_pre
mode3 half_imm_post = Extra.mode3_imm_post
mode3 half_reg = Extra.mode3_reg

-- An entry of the table: the name of a handler and its parameters.
pub data Entry : Type 0 where
  unimplemented mrs_cpsr msr_cpsr mrs_spsr bx b bl swi : Entry
  alu : AluOp → Shifter → Entry
  mul mla : Bool → Entry
  ldr str ldrb strb : Mode2 → Bool → Entry
  ldrh ldrsh strh ldrsb : Mode3 → Bool → Entry
  ldm ldms stm : Bool → Bool → Bool → Entry

-- The handler that an entry names.
unfoldable pub handler : {D : Type 0} → Debugger D → Entry → Handler D
handler dbg unimplemented = λ i s. panic Panic.unimplemented
handler dbg mrs_cpsr = on_cpu Branches.mrs_cpsr
handler dbg msr_cpsr = on_cpu Branches.msr_cpsr
handler dbg mrs_spsr = on_cpu Branches.mrs_spsr
handler dbg bx = on_cpu Branches.bx
handler dbg b = on_cpu Branches.b
handler dbg bl = on_cpu Branches.bl
handler dbg swi = on_cpu Branches.swi
handler dbg (alu op k) = on_cpu (alu_handler op (mode1 k))
handler dbg (mul s) = on_cpu (Multiply.mul s)
handler dbg (mla s) = on_cpu (Multiply.mla s)
handler dbg (ldr m u) = Transfers.ldr dbg (mode2 m) u
handler dbg (str m u) = Transfers.str dbg (mode2 m) u
handler dbg (ldrb m u) = Transfers.ldrb dbg (mode2 m) u
handler dbg (strb m u) = Transfers.strb dbg (mode2 m) u
handler dbg (ldrh m u) = Extra.ldrh dbg (mode3 m) u
handler dbg (ldrsh m u) = Extra.ldrsh dbg (mode3 m) u
handler dbg (strh m u) = Extra.strh dbg (mode3 m) u
handler dbg (ldrsb m u) = Extra.ldrsb dbg (mode3 m) u
handler dbg (ldm u p w) = Multiple.ldm dbg u p w
handler dbg (ldms u p w) = Multiple.ldms dbg u p w
handler dbg (stm u p w) = Multiple.stm dbg u p w
