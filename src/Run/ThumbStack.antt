-- ===== src/Run/ThumbStack.antt =====
-- The Thumb transfers of several registers keep the frame's count and the range of the clock divider.
use pksx.Base.{
  ℕ, ◌+◌, ◌*◌, bit_and, ◌≡◌, refl, sym, ap, ◌∙◌, Bool, true, false, not, ◌==◌, Panic, ok, guard,
  checked_add, >>=-eq-ok, not32, wrapping_add, wrapping_sub, count_ones,
}
use pksx.Access.{word}
use pksx.Cpu.{Cpu, reg, set_reg, set_pc}
use pksx.Cpu.Machine.{Machine, no_debugger, with_cpu, store, load_registers, store_registers}
use pksx.Thumb.{reg_8, register_list}
use pksx.Thumb.Stack.{op2d0_push, op2d4_push_lr, op2f0_pop, op2f4_pop_pc, op30x_stmia, op32x_ldmia}
use pksx.Run.Buses.{set_reg-inter}
use pksx.Run.Stores.{
  Keeps, Keeps-eq, Keeps-trans, load_registers-inter, store-Keeps, store_registers-Keeps,
  load_then-inter,
}

-- The write of a register at the end.
write-inter :
    (r v : ℕ) (s s' : Machine (Unit {0}))
    → ok (with_cpu (set_reg r v) s) ≡ ok s'
    → s'.cpu.inter ≡ s.cpu.inter
write-inter r v s s' h =
    let end : with_cpu (set_reg r v) s ≡ s' = cc in
    ap (λ t. t.cpu.inter) (sym end) ∙ set_reg-inter r v s.cpu

-- The stores of a list, and then the write.
stores-Keeps :
    (clash : ℕ → Bool) (list addr : ℕ) (s s₁ s' : Machine (Unit {0})) (last r v : ℕ)
    → store_registers no_debugger clash list 8 0 addr true s ≡ ok (last, s₁)
    → ok (with_cpu (set_reg r v) s₁) ≡ ok s'
    → Keeps s.cpu.inter s'.cpu.inter
stores-Keeps clash list addr s s₁ s' last r v stores h =
    Keeps-trans s.cpu.inter s₁.cpu.inter s'.cpu.inter
      (store_registers-Keeps clash list 8 0 addr true s last s₁ stores)
      (Keeps-eq s₁.cpu.inter s'.cpu.inter (write-inter r v s₁ s' h))

-- The writes of R15 and R13 at the end of a return.
return-inter :
    (pc v : ℕ) (c : Cpu) → (set_reg 13 v (set_pc (bit_and pc (not32 1)) c)).inter ≡ c.inter
unfolding set_reg set_pc
return-inter pc v c = refl

module _ (i : ℕ) (s s' : Machine (Unit {0})) where
  pub op2d0_push-Keeps : op2d0_push no_debugger i s ≡ ok s' → Keeps s.cpu.inter s'.cpu.inter
  unfolding op2d0_push
  op2d0_push-Keeps h =
      let list = register_list i in
      let start_addr = wrapping_sub (reg 13 s.cpu) (4 * count_ones 32 list) in
      let (_, _, h₁) = >>=-eq-ok (guard (not (count_ones 32 list == 0)) Panic.unpredictable) _ h in
      let ((last, s₁), stores, h₂) =
        >>=-eq-ok (store_registers no_debugger (λ _. false) list 8 0 start_addr true s) _ h₁ in
      stores-Keeps (λ _. false) list start_addr s s₁ s' last 13 start_addr stores h₂

  pub op2d4_push_lr-Keeps : op2d4_push_lr no_debugger i s ≡ ok s' → Keeps s.cpu.inter s'.cpu.inter
  unfolding op2d4_push_lr
  op2d4_push_lr-Keeps h =
      let list = register_list i in
      let start_addr = wrapping_sub (reg 13 s.cpu) (4 * (count_ones 32 list + 1)) in
      let ((last, s₁), stores, h₁) =
        >>=-eq-ok (store_registers no_debugger (λ _. false) list 8 0 start_addr true s) _ h in
      let (s₂, link, h₂) = >>=-eq-ok (store no_debugger word last (reg 14 s₁.cpu) s₁) _ h₁ in
      Keeps-trans s.cpu.inter s₁.cpu.inter s'.cpu.inter
        (store_registers-Keeps (λ _. false) list 8 0 start_addr true s last s₁ stores)
        (Keeps-trans s₁.cpu.inter s₂.cpu.inter s'.cpu.inter
          (store-Keeps word last s₁ (reg 14 s₁.cpu) s₂ link)
          (Keeps-eq s₂.cpu.inter s'.cpu.inter (write-inter 13 start_addr s₂ s' h₂)))

  pub op2f0_pop-Keeps : op2f0_pop no_debugger i s ≡ ok s' → Keeps s.cpu.inter s'.cpu.inter
  unfolding op2f0_pop
  op2f0_pop-Keeps h =
      let list = register_list i in
      let (_, _, h₁) = >>=-eq-ok (guard (not (count_ones 32 list == 0)) Panic.unpredictable) _ h in
      let ((last, s₁), loads, h₂) =
        >>=-eq-ok (load_registers no_debugger set_reg list 8 0 (reg 13 s.cpu) s) _ h₁ in
      Keeps-eq s.cpu.inter s'.cpu.inter (
        write-inter 13 last s₁ s' h₂
        ∙ load_registers-inter set_reg set_reg-inter list 8 0 (reg 13 s.cpu) s last s₁ loads)

  pub op2f4_pop_pc-Keeps : op2f4_pop_pc no_debugger i s ≡ ok s' → Keeps s.cpu.inter s'.cpu.inter
  unfolding op2f4_pop_pc
  op2f4_pop_pc-Keeps h =
      let list = register_list i in
      let ((last, s₁), loads, h₁) =
        >>=-eq-ok (load_registers no_debugger set_reg list 8 0 (reg 13 s.cpu) s) _ h in
      Keeps-eq s.cpu.inter s'.cpu.inter (
        load_then-inter (λ pc c. set_reg 13 (wrapping_add last 4) (set_pc (bit_and pc (not32 1)) c))
          (λ pc c. return-inter pc (wrapping_add last 4) c) word last s₁ s' h₁
        ∙ load_registers-inter set_reg set_reg-inter list 8 0 (reg 13 s.cpu) s last s₁ loads)

  pub op30x_stmia-Keeps : op30x_stmia no_debugger i s ≡ ok s' → Keeps s.cpu.inter s'.cpu.inter
  unfolding op30x_stmia
  op30x_stmia-Keeps h =
      let rn = reg_8 i in
      let ((last, s₁), stores, h₁) =
        >>=-eq-ok
          (store_registers no_debugger (λ r. r == rn) (register_list i) 8 0 (reg rn s.cpu) true s) _
          h in
      stores-Keeps (λ r. r == rn) (register_list i) (reg rn s.cpu) s s₁ s' last rn last stores h₁

  pub op32x_ldmia-Keeps : op32x_ldmia no_debugger i s ≡ ok s' → Keeps s.cpu.inter s'.cpu.inter
  unfolding op32x_ldmia
  op32x_ldmia-Keeps h =
      let list = register_list i in
      let rn = reg_8 i in
      let addr = reg rn s.cpu in
      let (end_address, _, h₁) = >>=-eq-ok (checked_add 32 addr (4 * count_ones 32 list)) _ h in
      let s₀ = with_cpu (set_reg rn end_address) s in
      let ((last, s₁), loads, h₂) =
        >>=-eq-ok (load_registers no_debugger set_reg list 8 0 addr s₀) _ h₁ in
      let end : s₁ ≡ s' = cc in
      Keeps-eq s.cpu.inter s'.cpu.inter (
        ap (λ t. t.cpu.inter) (sym end)
        ∙ (load_registers-inter set_reg set_reg-inter list 8 0 addr s₀ last s₁ loads
            ∙ set_reg-inter rn end_address s.cpu))
