-- ===== src/Timer/Expiry.antt =====
-- How long a timer runs, and when its interrupt is latched.
use pksx.Base.{
  ℕ, zero, suc, ◌+◌, ◌-◌, ◌*◌, ◌^◌, ◌≤◌, ◌<◌, ◌≡◌, refl, sym, ap, ◌≢◌, ◌⊎◌, inl, true, false, ◌&&◌,
  arith, ltb, ◌==◌, if◌then◌else◌, Result, ok,
}
use mathlib.Core.Path.{◌≡⟨◌⟩◌, ◌∎}
use native.Mathlib.Decide.{dec_lt}
use pksx.Base.Bits.{bit}
use pksx.Base.Bits.Laws.{bit-lt_two}
use pksx.Irq.{IrqController, set_raw_interrupt, number}
use pksx.Irq.Edges.{number-lt, raw-set_raw_interrupt, latch-set_raw_interrupt}
use pksx.Timer.{Timer, tick_loop, tick}
use pksx.Timer.Bounds.{IsValid, shift_of, reloaded_lem}

-- The value that a counter is reloaded with.
abbrev pub top : Timer → ℕ
top t = (t.reload + 1) * 2 ^ shift_of t.divider - 1

top-pos : (t : Timer) → 0 < top t
top-pos t = ground arith

-- One round of the loop where the counter runs down.
loop_expire :
    (fuel n : ℕ) (t : Timer) (irq : IrqController)
    → IsValid t
    → t.counter < n
    → tick_loop (suc fuel) n t irq
      ≡ tick_loop fuel
          (n - t.counter)
          (record t { counter = top t })
          (set_raw_interrupt t.interrupt true irq)
unfolding tick_loop
loop_expire fuel n t irq v h = ground (arith, reloaded_lem t v)

-- One CPU tick of a counter that restarts at `most`, and a number of them.
abbrev pub clock : ℕ → ℕ → ℕ
clock most c = if c == 0 then most - 1 else c - 1

pub clocks : ℕ → ℕ → ℕ → ℕ
clocks most zero c = c
clocks most (suc n) c = clocks most n (clock most c)

pub top-lt : (t : Timer) → IsValid t → top t < 2 ^ 32
top-lt t v = ground arith

pub clocks-lt : (most n c : ℕ) → most < 2 ^ 32 → c < 2 ^ 32 → clocks most n c < 2 ^ 32
unfolding clocks
clocks-lt most zero c h k = k
clocks-lt most (suc n) c h k = clocks-lt most n (clock most c) h (ground arith)

clocks-add : (most m n c : ℕ) → clocks most (m + n) c ≡ clocks most n (clocks most m c)
unfolding clocks
clocks-add most zero n c = let e : 0 + n ≡ n = omega arith in rw e
clocks-add most (suc m) n c =
    let e : suc m + n ≡ suc (m + n) = omega arith in rw e (clocks-add most m n (clock most c))

clocks_wait : (most n c : ℕ) → n ≤ c → clocks most n c ≡ c - n
unfolding clocks
clocks_wait most zero c h = omega arith
clocks_wait most (suc n) c h = ground (arith, clocks_wait most n (c - 1))

clocks_run_down : (most n : ℕ) → 0 < most → clocks most (suc n) 0 ≡ clocks most (suc n) most
unfolding clocks
clocks_run_down most n h = ground arith

clocks_expire : (most n c : ℕ) → 0 < most → c < n → clocks most n c ≡ clocks most (n - c) most
clocks_expire most n c h k =
    let m : ℕ = n - c - 1 in
    let split : n ≡ c + suc m = omega arith in
    let left : n - c ≡ suc m = omega arith in
    let spent : clocks most c c ≡ 0 = omega (arith, clocks_wait most c c) in
    clocks most n c
    ≡⟨ ap (λ j. clocks most j c) split ⟩ clocks most (c + suc m) c
    ≡⟨ clocks-add most c (suc m) c ⟩ clocks most (suc m) (clocks most c c)
    ≡⟨ ap (clocks most (suc m)) spent ⟩ clocks most (suc m) 0
    ≡⟨ clocks_run_down most m h ⟩ clocks most (suc m) most
    ≡⟨ ap (λ j. clocks most j most) (sym left) ⟩ clocks most (n - c) most ∎

-- The line is low, or a rising edge has nothing left to latch.
abbrev pub IsSettled : Timer → IrqController → Type 0
IsSettled t irq =
    (bit irq.raw (number t.interrupt) ≡ 0)
    ⊎ (bit irq.mask (number t.interrupt) ≡ 0)
    ⊎ (bit irq.latch (number t.interrupt) ≡ 1)

-- What the ticks of an enabled timer come to: the counter has gone round, the line is low again,
-- and the interrupt is latched if the counter ran down and the mask lets it through.
pub record IsTicked (n : ℕ) (t : Timer) (irq : IrqController)
    (result : Result (Timer × IrqController)) : Type 0 where
  pub irq' : IrqController
  pub returns : result ≡ ok (record t { counter = clocks (top t) n t.counter }, irq')
  pub mask_kept : irq'.mask ≡ irq.mask
  pub level : 0 < n → bit irq'.raw (number t.interrupt) ≡ 0
  pub latched : bit irq'.latch (number t.interrupt) ≡ (
      if ltb t.counter n && bit irq.mask (number t.interrupt) == 1
      then 1
      else bit irq.latch (number t.interrupt))
  pub others :
      (i : ℕ)
      → i < 16
      → i ≢ number t.interrupt
      → (bit irq'.raw i ≡ bit irq.raw i) × (bit irq'.latch i ≡ bit irq.latch i)

-- The last round, where the counter holds out.
wait-IsTicked :
    (fuel n : ℕ) (t : Timer) (irq : IrqController)
    → n ≤ t.counter
    → IsTicked n t irq (tick_loop (suc fuel) n t irq)
wait-IsTicked fuel zero t irq h = record {
  irq' = irq;
  returns = unfold tick_loop clocks in ground arith;
  mask_kept = refl;
  level = λ p. absurd (omega arith);
  latched = ground arith;
  others = λ i p q. (refl, refl);
}
wait-IsTicked fuel (suc n) t irq h = record {
  irq' = set_raw_interrupt t.interrupt false irq;
  returns = unfold tick_loop in ground (arith, clocks_wait (top t) (suc n) t.counter);
  mask_kept = unfold set_raw_interrupt in refl;
  level = λ p. ground (
    arith,
    number-lt t.interrupt,
    raw-set_raw_interrupt t.interrupt false irq (number t.interrupt),
  );
  latched = ground (arith, latch-set_raw_interrupt t.interrupt false irq (number t.interrupt));
  others = λ i p q. ground (
    arith,
    raw-set_raw_interrupt t.interrupt false irq i,
    latch-set_raw_interrupt t.interrupt false irq i,
  );
}

-- A round where the counter runs down, from what the later rounds come to.
expire-IsTicked :
    (n : ℕ) (t : Timer) (irq : IrqController) {result : Result (Timer × IrqController)}
    → t.counter < n
    → IsSettled t irq
    → IsTicked
        (n - t.counter)
        (record t { counter = top t })
        (set_raw_interrupt t.interrupt true irq)
        result
    → IsTicked n t irq result
expire-IsTicked n t irq h settled rest = record {
  irq' = rest.irq';
  returns = ground (arith, rest.returns, clocks_expire (top t) n t.counter (top-pos t) h);
  mask_kept = unfold set_raw_interrupt in rest.mask_kept;
  level = λ p. rest.level (omega arith);
  latched =
      unfold set_raw_interrupt in
      ground (
        arith,
        rest.latched,
        latch-set_raw_interrupt t.interrupt true irq (number t.interrupt),
        bit-lt_two irq.mask (number t.interrupt),
        bit-lt_two irq.raw (number t.interrupt),
        bit-lt_two irq.latch (number t.interrupt),
      );
  others = λ i p q. ground (
    arith,
    rest.others i p q,
    raw-set_raw_interrupt t.interrupt true irq i,
    latch-set_raw_interrupt t.interrupt true irq i,
  );
}

after-IsSettled :
    (t : Timer) (irq : IrqController)
    → IsSettled t irq
    → IsSettled (record t { counter = top t }) (set_raw_interrupt t.interrupt true irq)
after-IsSettled t irq settled =
    unfold set_raw_interrupt in
    ground (
      arith,
      latch-set_raw_interrupt t.interrupt true irq (number t.interrupt),
      bit-lt_two irq.mask (number t.interrupt),
      bit-lt_two irq.raw (number t.interrupt),
    )

tick_loop-IsTicked :
    (fuel n : ℕ) (t : Timer) (irq : IrqController)
    → (if t.counter == 0 then n + 1 else n) < fuel
    → IsValid t
    → IsSettled t irq
    → IsTicked n t irq (tick_loop fuel n t irq)
tick_loop-IsTicked zero n t irq h v settled = absurd (omega arith)
tick_loop-IsTicked (suc fuel) n t irq h v settled = elim (dec_lt t.counter n) [
  | no holds ↦ wait-IsTicked fuel n t irq (omega arith)
  | yes down ↦ rw (loop_expire fuel n t irq v down) (
      expire-IsTicked n t irq down settled (
        tick_loop-IsTicked fuel (n - t.counter) (record t { counter = top t })
          (set_raw_interrupt t.interrupt true irq) (ground (arith, top-pos t)) (ground arith)
          (after-IsSettled t irq settled)))
]

-- For an enabled, valid timer whose line is low, `tick` returns: the counter goes round as it
-- would tick by tick, the line is low after at least one tick, and the interrupt is latched
-- exactly where it was or where the counter ran out under an open mask. No other line and no mask
-- changes.
pub tick-IsTicked :
    (n : ℕ) (t : Timer) (irq : IrqController)
    → IsValid t
    → t.enabled ≡ true
    → bit irq.raw (number t.interrupt) ≡ 0
    → IsTicked n t irq (tick n t irq)
tick-IsTicked n t irq v on low =
    let runs : tick n t irq ≡ tick_loop (n + 2) n t irq = unfold tick in rw on in
    rw runs (tick_loop-IsTicked (n + 2) n t irq (ground arith) v (inl low))

clocks_period : (most c : ℕ) → c < most → clocks most most c ≡ c
clocks_period most c h =
    omega (arith, clocks_expire most most c (omega arith) h, clocks_wait most (most - c) most)

-- An enabled, valid timer whose line is low and whose counter is below the reload value returns to
-- its state in `((reload + 1) << shift) - 1` CPU ticks.
pub tick_period :
    (t : Timer) (irq : IrqController)
    → IsValid t
    → t.enabled ≡ true
    → bit irq.raw (number t.interrupt) ≡ 0
    → t.counter < top t
    → (irq' : IrqController) × (tick (top t) t irq ≡ ok (t, irq'))
tick_period t irq v on low h =
    let run = tick-IsTicked (top t) t irq v on low in
    (run.irq', ground (arith, run.returns, clocks_period (top t) t.counter h))
