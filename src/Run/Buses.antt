-- ===== src/Run/Buses.antt =====
-- The instructions that leave the bus alone.
use pksx.Base.{
  ℕ, bit_and, bit_or, ◌≡◌, ◌⊎◌, inl, inr, Bool, false, not, ◌&&◌, arith, ◌==◌, Bool-cases, Panic,
  ok, guard, >>=-eq-ok, nonzero,
}
use pksx.Cpu.Modes.{Mode, supervisor, is_privileged, same_mode, from_field}
use pksx.Cpu.{
  Cpu, reg, set_reg, set_pc, set_pc_thumb, set_reg_pc_mask, change_mode, set_pc_cpsr, spsr,
}
use pksx.Cpu as Processor
use pksx.Cpu.Banks.{change_mode_same, change_mode_other, banks-SameState}
use pksx.Arm.{rd, rm, is_pc}
use pksx.Arm.Operands.{Mode1Addressing}
use pksx.Arm.Logic.{and, ands, eor, eors, tst, teq, orr, orrs, mov, movs, bic, bics, mvn}
use pksx.Arm.Sums.{sub, subs, rsb, rsbs, add, adds, adc, cmp, cmn}
use pksx.Arm.Multiply.{mul, mla}
use pksx.Arm.Branches.{mrs_cpsr, msr_cpsr, mrs_spsr, bx, b, bl, msr_field_mask}
use pksx.Arm.Opcodes.{AluOp, alu_handler}

pub set_reg-inter : (r v : ℕ) (c : Cpu) → (set_reg r v c).inter ≡ c.inter
unfolding set_reg set_pc
set_reg-inter r v c = ground arith

pub set_reg_pc_mask-inter : (r v : ℕ) (c : Cpu) → (set_reg_pc_mask r v c).inter ≡ c.inter
unfolding set_reg_pc_mask set_pc
set_reg_pc_mask-inter r v c = ground arith

pub change_mode-inter : (m : Mode) (c : Cpu) → (change_mode m c).inter ≡ c.inter
change_mode-inter m c = elim (Bool-cases (same_mode c.mode m)) [
  | inl same ↦ rw (change_mode_same m c same)
  | inr other ↦ rw (change_mode_other m c other) (banks-SameState c.mode m c).bus
]

pub set_pc_cpsr-inter :
    (pc status : ℕ) (c c' : Cpu) → set_pc_cpsr pc status c ≡ ok c' → c'.inter ≡ c.inter
unfolding set_pc_cpsr set_pc
set_pc_cpsr-inter pc status c c' h =
    let (m, _, h') = >>=-eq-ok (from_field (bit_and status 0x1f)) _ h in
    ground (arith, change_mode-inter m c)

pub swi-inter : (c : Cpu) → (Processor.swi c).inter ≡ c.inter
unfolding Processor.swi set_reg set_pc
swi-inter c = change_mode-inter supervisor (record c { thumb = false; irq_en = false })

-- The data-processing instructions write registers and flags only.
pub alu_handler-inter :
    (op : AluOp) (m : Mode1Addressing) (i : ℕ) (c c' : Cpu)
    → alu_handler op m i c ≡ ok c'
    → c'.inter ≡ c.inter
unfolding and ands eor eors sub subs rsb rsbs add adds adc tst teq cmp cmn orr orrs mov movs bic
    bics mvn set_reg set_pc
alu_handler-inter AluOp.and m i c c' h = ground arith
alu_handler-inter AluOp.ands m i c c' h = ground arith
alu_handler-inter AluOp.eor m i c c' h = ground arith
alu_handler-inter AluOp.eors m i c c' h = ground arith
alu_handler-inter AluOp.sub m i c c' h = ground arith
alu_handler-inter AluOp.subs m i c c' h = ground arith
alu_handler-inter AluOp.rsb m i c c' h = ground arith
alu_handler-inter AluOp.rsbs m i c c' h = ground arith
alu_handler-inter AluOp.add m i c c' h = ground arith
alu_handler-inter AluOp.adds m i c c' h = ground arith
alu_handler-inter AluOp.adc m i c c' h = ground arith
alu_handler-inter AluOp.tst m i c c' h = ground arith
alu_handler-inter AluOp.teq m i c c' h = ground arith
alu_handler-inter AluOp.cmp m i c c' h = ground arith
alu_handler-inter AluOp.cmn m i c c' h = ground arith
alu_handler-inter AluOp.orr m i c c' h = ground arith
alu_handler-inter AluOp.orrs m i c c' h = ground arith
alu_handler-inter AluOp.mov m i c c' h = ground arith
alu_handler-inter AluOp.movs m i c c' h = ground arith
alu_handler-inter AluOp.bic m i c c' h = ground arith
alu_handler-inter AluOp.bics m i c c' h = ground arith
alu_handler-inter AluOp.mvn m i c c' h = ground arith

pub multiply-inter :
    (s : Bool) (i : ℕ) (c c' : Cpu) → (mul s i c ≡ ok c') ⊎ (mla s i c ≡ ok c') → c'.inter ≡ c.inter
unfolding mul mla set_reg set_pc
multiply-inter s i c c' (inl h) = ground arith
multiply-inter s i c c' (inr h) = ground arith

msr-inter : (val mask : ℕ) (c c' : Cpu) → Processor.msr_cpsr val mask c ≡ ok c' → c'.inter ≡ c.inter
unfolding Processor.msr_cpsr
msr-inter val mask c c' h = elim (Bool-cases (nonzero (bit_and val 0x0fffff00))) [
  | inl reserved ↦ absurd (cc (rw reserved at h))
  | inr fine ↦ elim (Bool-cases (nonzero (bit_and mask 1) && is_privileged c.mode)) [
    | inr other ↦ ground (arith, fine, other)
    | inl control ↦
        let h' = rw (fine, control) at h in
        let (m, _, rest) = >>=-eq-ok (from_field (bit_or (bit_and val 0xf) 0x10)) _ h' in
        ground (arith, change_mode-inter m c)
  ]
]

pub mrs_spsr-inter : (i : ℕ) (c c' : Cpu) → mrs_spsr i c ≡ ok c' → c'.inter ≡ c.inter
unfolding mrs_spsr set_reg set_pc
mrs_spsr-inter i c c' h =
    let (_, _, h₁) =
      >>=-eq-ok (guard (not (is_pc (rd i)) && bit_and i 0xf0fff == 0xf0000) Panic.unpredictable) _
        h in
    let (val, _, h₂) = >>=-eq-ok (spsr c) _ h₁ in ground arith

-- So do the branches and the moves from and to the status.
pub mrs_cpsr-inter : (i : ℕ) (c c' : Cpu) → mrs_cpsr i c ≡ ok c' → c'.inter ≡ c.inter
unfolding mrs_cpsr set_reg set_pc
mrs_cpsr-inter i c c' h = ground arith

pub msr_cpsr-inter : (i : ℕ) (c c' : Cpu) → msr_cpsr i c ≡ ok c' → c'.inter ≡ c.inter
unfolding msr_cpsr
msr_cpsr-inter i c c' h =
    let (_, _, h') = >>=-eq-ok (guard (bit_and i 0xff00 == 0xf000) Panic.unpredictable) _ h in
    msr-inter (reg (rm i) c) (msr_field_mask i) c c' h'

pub bx-inter : (i : ℕ) (c c' : Cpu) → bx i c ≡ ok c' → c'.inter ≡ c.inter
unfolding bx set_pc_thumb set_pc
bx-inter i c c' h = ground arith

pub b-inter : (i : ℕ) (c c' : Cpu) → b i c ≡ ok c' → c'.inter ≡ c.inter
unfolding b set_pc
b-inter i c c' h = ground arith

pub bl-inter : (i : ℕ) (c c' : Cpu) → bl i c ≡ ok c' → c'.inter ≡ c.inter
unfolding bl set_reg set_pc
bl-inter i c c' h = ground arith
