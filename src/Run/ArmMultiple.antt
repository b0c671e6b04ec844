-- ===== src/Run/ArmMultiple.antt =====
-- The ARM transfers of several registers keep the frame's count and the range of the clock divider.
use pksx.Base.{
  ℕ, zero, suc, ◌+◌, ◌^◌, bit_and, ◌≡◌, refl, sym, ap, ◌∙◌, inl, inr, Bool, true, false, not, ◌&&◌,
  ◌||◌, ◌==◌, if◌then◌else◌, Bool-cases, Panic, ok, ◌>>=◌, guard, assert, >>=-eq-ok, shr,
  wrapping_add, nonzero,
}
use pksx.Access.{word}
use pksx.Cpu.{reg, set_reg, set_reg_pc_mask, spsr, set_pc_cpsr}
use pksx.Cpu.Machine.{Machine, no_debugger, with_cpu, load, load_registers, store_registers}
use pksx.Arm.{rn}
use pksx.Arm.Transfers.Multiple.{
  ldm, ldms, ldms_loop, stm, register_list, mode4_start_wb, mode4_is_valid, unpredictable_list,
}
use pksx.Run.Buses.{set_reg-inter, set_reg_pc_mask-inter, set_pc_cpsr-inter}
use pksx.Run.Stores.{
  Keeps, Keeps-eq, Keeps-trans, load_registers-inter, store_registers-Keeps, load-same, second,
}

-- The write-back of a transfer of several registers.
write_back-inter :
    (w : Bool) (r v : ℕ) (s s' : Machine (Unit {0}))
    → ok (if w then with_cpu (set_reg r v) s else s) ≡ ok s'
    → s'.cpu.inter ≡ s.cpu.inter
write_back-inter true r v s s' h =
    let end : with_cpu (set_reg r v) s ≡ s' = cc in
    ap (λ t. t.cpu.inter) (sym end) ∙ set_reg-inter r v s.cpu
write_back-inter false r v s s' h = let end : s ≡ s' = cc in ap (λ t. t.cpu.inter) (sym end)

pub ldm-Keeps :
    (u p w : Bool) (i : ℕ) (s s' : Machine (Unit {0}))
    → ldm no_debugger u p w i s ≡ ok s'
    → Keeps s.cpu.inter s'.cpu.inter
unfolding ldm
ldm-Keeps u p w i s s' h =
    let (_, _, h₁) = >>=-eq-ok (assert (mode4_is_valid i p u false w true)) _ h in
    let (_, _, h₂) = >>=-eq-ok (guard (not (unpredictable_list w i)) Panic.unpredictable) _ h₁ in
    let ((addr, wb), _, h₃) =
      >>=-eq-ok (mode4_start_wb u p (reg (rn i) s.cpu) (register_list i)) _ h₂ in
    let ((last, s₁), loads, h₄) =
      >>=-eq-ok (load_registers no_debugger set_reg_pc_mask (register_list i) 16 0 addr s) _ h₃ in
    Keeps-eq s.cpu.inter s'.cpu.inter (
      write_back-inter w (rn i) wb s₁ s' h₄
      ∙ load_registers-inter set_reg_pc_mask set_reg_pc_mask-inter (register_list i) 16 0 addr s
          last s₁ loads)

pub stm-Keeps :
    (u p w : Bool) (i : ℕ) (s s' : Machine (Unit {0}))
    → stm no_debugger u p w i s ≡ ok s'
    → Keeps s.cpu.inter s'.cpu.inter
unfolding stm
stm-Keeps u p w i s s' h =
    let (_, _, h₁) = >>=-eq-ok (assert (mode4_is_valid i p u false w false)) _ h in
    let (_, _, h₂) = >>=-eq-ok (guard (not (unpredictable_list w i)) Panic.unpredictable) _ h₁ in
    let (_, _, h₃) =
      >>=-eq-ok (guard (not (nonzero (bit_and (register_list i) (2 ^ 15)))) Panic.unpredictable) _
        h₂ in
    let ((addr, wb), _, h₄) =
      >>=-eq-ok (mode4_start_wb u p (reg (rn i) s.cpu) (register_list i)) _ h₃ in
    let ((last, s₁), stores, h₅) =
      >>=-eq-ok
        (store_registers no_debugger (λ r. w && r == rn i) (register_list i) 16 0 addr true s) _
        h₄ in
    Keeps-trans s.cpu.inter s₁.cpu.inter s'.cpu.inter
      (store_registers-Keeps (λ r. w && r == rn i) (register_list i) 16 0 addr true s last s₁
        stores)
      (Keeps-eq s₁.cpu.inter s'.cpu.inter (write_back-inter w (rn i) wb s₁ s' h₅))

-- One register of `ldms`, from the second load on.
ldms_register-inter :
    (i val addr pc : ℕ) (s : Machine (Unit {0})) (r : ℕ × Machine (Unit {0}))
    → (if i == 15 then load no_debugger word addr s else ok (pc, with_cpu (set_reg i val) s)) ≡ ok r
    → r.1.cpu.inter ≡ s.cpu.inter
ldms_register-inter i val addr pc s r h = elim (Bool-cases (i == 15)) [
  | inl last ↦ ap (λ t. t.cpu.inter) (load-same word addr s r.0 r.1 (rw last at h))
  | inr other ↦
      let end : with_cpu (set_reg i val) s ≡ r.1 =
        second (pc, with_cpu (set_reg i val) s) r (rw other at h) in
      ap (λ t. t.cpu.inter) (sym end) ∙ set_reg-inter i val s.cpu
]

ldms_loop-inter :
    (load_spsr : Bool) (list left i addr pc : ℕ) (s : Machine (Unit {0})) (last : ℕ)
    (s' : Machine (Unit {0}))
    → ldms_loop no_debugger load_spsr list left i addr pc s ≡ ok (last, s')
    → s'.cpu.inter ≡ s.cpu.inter
unfolding ldms_loop
ldms_loop-inter load_spsr list zero i addr pc s last s' h =
    ap (λ t. t.cpu.inter) (sym (second (pc, s) (last, s') h))
ldms_loop-inter load_spsr list (suc left) i addr pc s last s' h =
    elim (Bool-cases (nonzero (bit_and (shr list i) 1))) [
      | inr out ↦
          ldms_loop-inter load_spsr list left (i + 1) addr pc s last s' (rw (out, ldms_loop) at h)
      | inl into ↦
          let ((val, s₁), loads, h₁) =
            >>=-eq-ok (load no_debugger word addr s) _ (rw (into, ldms_loop) at h) in
          let (_, _, h₂) = >>=-eq-ok (guard load_spsr Panic.unimplemented) _ h₁ in
          let ((pc', s₂), register, h₃) =
            >>=-eq-ok
              (if i == 15
                then load no_debugger word addr s₁
                else ok (pc, with_cpu (set_reg i val) s₁))
              _ h₂ in
          ldms_loop-inter load_spsr list left (i + 1) (wrapping_add addr 4) pc' s₂ last s' h₃
          ∙ (ldms_register-inter i val addr pc s₁ (pc', s₂) register
              ∙ ap (λ t. t.cpu.inter) (load-same word addr s val s₁ loads))
    ]

-- The end of `ldms`: the status, if R15 was loaded.
restore-inter :
    (load_spsr : Bool) (pc : ℕ) (s s' : Machine (Unit {0}))
    → (if not load_spsr
        then ok s
        else do status ← spsr s.cpu; c ← set_pc_cpsr pc status s.cpu; ok (record s { cpu = c }))
      ≡ ok s'
    → s'.cpu.inter ≡ s.cpu.inter
restore-inter false pc s s' h = let end : s ≡ s' = cc in ap (λ t. t.cpu.inter) (sym end)
restore-inter true pc s s' h =
    let (status, _, h₁) = >>=-eq-ok (spsr s.cpu) _ h in
    let (c, sets, h₂) = >>=-eq-ok (set_pc_cpsr pc status s.cpu) _ h₁ in
    let end : record s { cpu = c } ≡ s' = cc in
    ap (λ t. t.cpu.inter) (sym end) ∙ set_pc_cpsr-inter pc status s.cpu c sets

pub ldms-Keeps :
    (u p w : Bool) (i : ℕ) (s s' : Machine (Unit {0}))
    → ldms no_debugger u p w i s ≡ ok s'
    → Keeps s.cpu.inter s'.cpu.inter
unfolding ldms
ldms-Keeps u p w i s s' h =
    let load_spsr = nonzero (bit_and (register_list i) (2 ^ 15)) in
    let (_, _, h₁) = >>=-eq-ok (assert (mode4_is_valid i p u true w true)) _ h in
    let (_, _, h₂) = >>=-eq-ok (guard (not (unpredictable_list w i)) Panic.unpredictable) _ h₁ in
    let (_, _, h₃) = >>=-eq-ok (assert (load_spsr || not w)) _ h₂ in
    let ((addr, wb), _, h₄) =
      >>=-eq-ok (mode4_start_wb u p (reg (rn i) s.cpu) (register_list i)) _ h₃ in
    let ((pc, s₁), loads, h₅) =
      >>=-eq-ok (ldms_loop no_debugger load_spsr (register_list i) 16 0 addr 0 s) _ h₄ in
    let s₂ = if w then with_cpu (set_reg (rn i) wb) s₁ else s₁ in
    Keeps-eq s.cpu.inter s'.cpu.inter (
      restore-inter load_spsr pc s₂ s' h₅
      ∙ (write_back-inter w (rn i) wb s₁ s₂ refl
          ∙ ldms_loop-inter load_spsr (register_list i) 16 0 addr 0 s pc s₁ loads))
