-- ===== src/Run/Stores.antt =====
-- What a store, and an access of the processor, leaves of the bus: the count of the frame's ticks, and
-- the range of the clock divider.
use pksx.Base.{
  ℕ, zero, suc, ◌+◌, ◌-◌, ◌≤◌, bit_and, ◌≡◌, refl, sym, ap, ◌∙◌, inl, inr, Bool, false, not, ◌&&◌,
  arith, Bool-cases, Panic, Result, ok, panic, ◌>>=◌, guard, >>=-eq-ok, ok-injective, shr,
  wrapping_add, nonzero,
}
use mathlib.Core.Path.{subst}
use pksx.Access
use pksx.Access.{Addressable, size}
use pksx.Bus
use pksx.Bus.{
  Interconnect, offset_of, store_irq_timers, store_clocks, store_ports, store_screen_sound,
}
use pksx.Cpu.{Cpu, reg}
use pksx.Cpu.Machine.{
  Machine, no_debugger, on_cpu, with_cpu, load, store, load_registers, store_registers,
}

-- The frame's count is the same, and the clock divider stays in its range.
abbrev pub Keeps : Interconnect → Interconnect → Type 0
Keeps s s' = (s'.frame_ticks ≡ s.frame_ticks) × (s.cpu_clk_div ≤ 7 → s'.cpu_clk_div ≤ 7)

pub Keeps-refl : (s : Interconnect) → Keeps s s
Keeps-refl s = (refl, λ d. d)

pub Keeps-trans : (s s' s'' : Interconnect) → Keeps s s' → Keeps s' s'' → Keeps s s''
Keeps-trans s s' s'' (p, d) (q, e) = (q ∙ p, λ x. e (d x))

pub Keeps-eq : (s s' : Interconnect) → s' ≡ s → Keeps s s'
Keeps-eq s s' e = rw e (Keeps-refl s)

module _ (a : Addressable) (offset val : ℕ) (s s' : Interconnect) where
  store_irq_timers-Keeps : store_irq_timers a offset val s ≡ ok s' → Keeps s s'
  unfolding store_irq_timers
  store_irq_timers-Keeps h = ground arith

  store_clocks-Keeps : store_clocks offset val s ≡ ok s' → Keeps s s'
  unfolding store_clocks
  store_clocks-Keeps h = ground arith

  store_ports-Keeps : store_ports a offset val s ≡ ok s' → Keeps s s'
  unfolding store_ports
  store_ports-Keeps h = ground arith

  store_screen_sound-Keeps : store_screen_sound a offset val s ≡ ok s' → Keeps s s'
  unfolding store_screen_sound
  store_screen_sound-Keeps h = ground arith

pub bus_store-Keeps :
    (a : Addressable) (addr val : ℕ) (s s' : Interconnect)
    → Bus.store a addr val s ≡ ok s'
    → Keeps s s'
unfolding Bus.store
bus_store-Keeps a addr val s s' h =
    let offset = offset_of addr in
    ground (
      arith,
      store_irq_timers-Keeps a offset val s s',
      store_clocks-Keeps a offset val s s',
      store_ports-Keeps a offset val s s',
      store_screen_sound-Keeps a offset val s s',
    )

pub second {ℓ} : {A : Type ℓ} (p q : ℕ × A) → ok p ≡ ok q → p.1 ≡ q.1
second {A} p q h = ap (λ (r : Result (ℕ × A)). elim r [ ok x ↦ x.1 | panic e ↦ p.1 ]) h

module _ (a : Addressable) (addr : ℕ) (s : Machine (Unit {0})) where
  -- A load leaves the machine as it is.
  pub load-same :
      (val : ℕ) (s' : Machine (Unit {0})) → load no_debugger a addr s ≡ ok (val, s') → s' ≡ s
  unfolding load
  load-same val s' h =
      let (_, _, h₁) =
        >>=-eq-ok (guard (not (nonzero (bit_and addr (size a - 1)))) Panic.misaligned) _ h in
      let (v, _, h₂) = >>=-eq-ok (Bus.load a addr s.cpu.inter) _ h₁ in cc

  pub store-Keeps :
      (val : ℕ) (s' : Machine (Unit {0}))
      → store no_debugger a addr val s ≡ ok s'
      → Keeps s.cpu.inter s'.cpu.inter
  unfolding store
  store-Keeps val s' h =
      let (_, _, h₁) =
        >>=-eq-ok (guard (not (nonzero (bit_and addr (size a - 1)))) Panic.misaligned) _ h in
      let (inter, stored, h₂) = >>=-eq-ok (Bus.store a addr val s.cpu.inter) _ h₁ in
      let stores = bus_store-Keeps a addr val s.cpu.inter inter stored in
      let same : with_cpu (λ c. record c { inter = inter }) s ≡ s' = cc in
      subst (λ t. Keeps s.cpu.inter t.cpu.inter) same stores

-- The bus after the registers of a list are loaded, by a write that leaves the bus alone.
pub load_registers-inter :
    (set : ℕ → ℕ → Cpu → Cpu)
    → ((r v : ℕ) (c : Cpu) → (set r v c).inter ≡ c.inter)
    → (list left i addr : ℕ) (s : Machine (Unit {0})) (last : ℕ) (s' : Machine (Unit {0}))
    → load_registers no_debugger set list left i addr s ≡ ok (last, s')
    → s'.cpu.inter ≡ s.cpu.inter
unfolding load_registers
load_registers-inter set keeps list zero i addr s last s' h =
    ap (λ t. t.cpu.inter) (sym (second (addr, s) (last, s') h))
load_registers-inter set keeps list (suc left) i addr s last s' h =
    elim (Bool-cases (nonzero (bit_and (shr list i) 1))) [
      | inr out ↦
          load_registers-inter set keeps list left (i + 1) addr s last s'
            (rw (out, load_registers) at h)
      | inl into ↦
          let ((val, s₁), loads, rest) =
            >>=-eq-ok (load no_debugger Access.word addr s) _ (rw (into, load_registers) at h) in
          let same = load-same Access.word addr s val s₁ loads in
          let tail =
            load_registers-inter set keeps list left (i + 1) (wrapping_add addr 4)
              (with_cpu (set i val) s₁) last s' rest in
          tail ∙ (keeps i val s₁.cpu ∙ ap (λ t. t.cpu.inter) same)
    ]

pub store_registers-Keeps :
    (clash : ℕ → Bool) (list left i addr : ℕ) (first : Bool) (s : Machine (Unit {0})) (last : ℕ)
    (s' : Machine (Unit {0}))
    → store_registers no_debugger clash list left i addr first s ≡ ok (last, s')
    → Keeps s.cpu.inter s'.cpu.inter
unfolding store_registers
store_registers-Keeps clash list zero i addr first s last s' h =
    Keeps-eq s.cpu.inter s'.cpu.inter (ap (λ t. t.cpu.inter) (sym (second (addr, s) (last, s') h)))
store_registers-Keeps clash list (suc left) i addr first s last s' h =
    elim (Bool-cases (nonzero (bit_and (shr list i) 1))) [
      | inr out ↦
          store_registers-Keeps clash list left (i + 1) addr first s last s'
            (rw (out, store_registers) at h)
      | inl into ↦
          let (_, _, h₁) =
            >>=-eq-ok (guard (not (clash i && not first)) Panic.unpredictable) _
              (rw (into, store_registers) at h) in
          let (s₁, stores, rest) =
            >>=-eq-ok (store no_debugger Access.word addr (reg i s.cpu) s) _ h₁ in
          Keeps-trans s.cpu.inter s₁.cpu.inter s'.cpu.inter
            (store-Keeps Access.word addr s (reg i s.cpu) s₁ stores)
            (store_registers-Keeps clash list left (i + 1) (wrapping_add addr 4) false s₁ last s'
              rest)
    ]

-- A load whose value is put in the processor.
pub load_then-inter :
    (f : ℕ → Cpu → Cpu)
    → ((v : ℕ) (c : Cpu) → (f v c).inter ≡ c.inter)
    → (a : Addressable) (addr : ℕ) (s s' : Machine (Unit {0}))
    → (load no_debugger a addr s >>= λ p. ok (with_cpu (f p.0) p.1)) ≡ ok s'
    → s'.cpu.inter ≡ s.cpu.inter
load_then-inter f keeps a addr s s' h =
    let ((val, s₁), loads, h') = >>=-eq-ok (load no_debugger a addr s) _ h in
    let same : s₁ ≡ s = load-same a addr s val s₁ loads in
    let end : with_cpu (f val) s₁ ≡ s' = cc in
    ap (λ t. t.cpu.inter) (sym end) ∙ (keeps val s₁.cpu ∙ ap (λ t. t.cpu.inter) same)

-- A handler that does not call the debugger, by what it does to the processor.
pub on_cpu-Keeps :
    (f : ℕ → Cpu → Result Cpu) (i : ℕ) (s s' : Machine (Unit {0}))
    → ((c' : Cpu) → f i s.cpu ≡ ok c' → c'.inter ≡ s.cpu.inter)
    → on_cpu f i s ≡ ok s'
    → Keeps s.cpu.inter s'.cpu.inter
on_cpu-Keeps f i s s' keeps h =
    let (c, runs, h₁) = >>=-eq-ok (f i s.cpu) _ h in
    Keeps-eq s.cpu.inter s'.cpu.inter (ap (λ t. t.cpu.inter) (sym (ok-injective h₁)) ∙ keeps c runs)

pub always-Keeps :
    (f : ℕ → Cpu → Cpu) (i : ℕ) (s s' : Machine (Unit {0}))
    → (f i s.cpu).inter ≡ s.cpu.inter
    → on_cpu (λ j c. ok (f j c)) i s ≡ ok s'
    → Keeps s.cpu.inter s'.cpu.inter
always-Keeps f i s s' keeps h =
    Keeps-eq s.cpu.inter s'.cpu.inter (ap (λ t. t.cpu.inter) (sym (ok-injective h)) ∙ keeps)
