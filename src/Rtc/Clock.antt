-- ===== src/Rtc/Clock.antt =====
-- The clock keeps time: how far the loop of `tick` moves it in any number of master clock periods.
use pksx.Base.{
  ℕ, zero, suc, ◌+◌, ◌-◌, ◌*◌, ◌/◌, ◌%◌, ◌≤◌, ◌<◌, ◌≡◌, ◌≢◌, refl, ◌∙◌, inl, inr, not, ◌&&◌, arith,
  ◌==◌, if◌then◌else◌, Bool-cases, Result, ok, ◌>>=◌,
}
use pksx.Base.Bits.{bit}
use pksx.Base.Bits.Laws.{bit-lt_two, nonzero-bit_and_pow}
use pksx.Irq.{IrqController, rtc, raw_interrupt, set_raw_interrupt}
use pksx.Irq.Edges.{raw-set_raw_interrupt, latch-set_raw_interrupt, mask-set_raw_interrupt}
use pksx.Rtc.{Rtc, master_divider, toggle, tick_loop, tick}
use native.Mathlib.Decide.{dec_lt}
use pksx.Rtc.Calendar.{IsValid, second_of_day}
use pksx.Rtc.Seconds.{second_elapsed-IsSecond}

-- The level of the clock's line, which is line 9.
abbrev pub level : IrqController → ℕ
level irq = bit irq.raw 9

-- The rising edges among a number of toggles.
abbrev pub rising : ℕ → ℕ → ℕ
rising toggles start = (toggles + 1 - start) / 2

-- The seconds that these are worth.
abbrev pub counted : Rtc → ℕ → ℕ
counted r seconds = if r.paused then 0 else seconds

second_of_day-lt : (r : Rtc) → IsValid r → second_of_day r < 86400
second_of_day-lt r v = ground arith

record IsToggled (r : Rtc) (irq : IrqController) (result : Result (Rtc × IrqController))
    : Type 0 where
  after : Rtc
  irq' : IrqController
  returns : result ≡ ok (after, irq')
  keeps : IsValid after
  reloads : after.divider ≡ master_divider
  same_pause : after.paused ≡ r.paused
  flips : level irq' ≡ 1 - level irq
  others : (i : ℕ) → i < 16 → i ≢ 9 → bit irq'.raw i ≡ bit irq.raw i
  mask_kept : irq'.mask ≡ irq.mask
  latch_others : (i : ℕ) → i < 16 → i ≢ 9 → bit irq'.latch i ≡ bit irq.latch i
  moves : second_of_day after ≡ (second_of_day r + counted r (1 - level irq)) % 86400

raw_interrupt-level : (irq : IrqController) → raw_interrupt rtc irq ≡ (level irq == 1)
raw_interrupt-level irq = unfold raw_interrupt in nonzero-bit_and_pow irq.raw 9

toggle-IsToggled : (r : Rtc) (irq : IrqController) → IsValid r → IsToggled r irq (toggle r irq)
toggle-IsToggled r irq v = elim (Bool-cases (not (raw_interrupt rtc irq) && not r.paused)) [
  | inl edge ↦
      let r₁ : Rtc = record r { divider = master_divider } in
      let v₁ : IsValid r₁ = ground arith in
      let second = second_elapsed-IsSecond r₁ v₁ in
      record {
        after = second.after;
        irq' = set_raw_interrupt rtc (not (raw_interrupt rtc irq)) irq;
        returns = unfold toggle in rw edge (ground (arith, second.returns));
        keeps = second.keeps;
        reloads = second.same_divider;
        same_pause = second.same_pause;
        flips = ground (
          arith,
          raw-set_raw_interrupt rtc (not (raw_interrupt rtc irq)) irq 9,
          raw_interrupt-level irq,
          bit-lt_two irq.raw 9,
        );
        others =
            λ i p q. ground (arith, raw-set_raw_interrupt rtc (not (raw_interrupt rtc irq)) irq i);
        mask_kept = mask-set_raw_interrupt rtc (not (raw_interrupt rtc irq)) irq;
        latch_others = λ i p q.
            ground (arith, latch-set_raw_interrupt rtc (not (raw_interrupt rtc irq)) irq i);
        moves = ground (arith, second.moves, raw_interrupt-level irq, bit-lt_two irq.raw 9);
      }
  | inr quiet ↦ record {
    after = record r { divider = master_divider };
    irq' = set_raw_interrupt rtc (not (raw_interrupt rtc irq)) irq;
    returns = unfold toggle in rw quiet;
    keeps = ground arith;
    reloads = refl;
    same_pause = refl;
    flips = ground (
      arith,
      raw-set_raw_interrupt rtc (not (raw_interrupt rtc irq)) irq 9,
      raw_interrupt-level irq,
      bit-lt_two irq.raw 9,
    );
    others = λ i p q. ground (arith, raw-set_raw_interrupt rtc (not (raw_interrupt rtc irq)) irq i);
    mask_kept = mask-set_raw_interrupt rtc (not (raw_interrupt rtc irq)) irq;
    latch_others =
        λ i p q. ground (arith, latch-set_raw_interrupt rtc (not (raw_interrupt rtc irq)) irq i);
    moves = ground (arith, raw_interrupt-level irq, bit-lt_two irq.raw 9, second_of_day-lt r v);
  }
]

-- What `n` master clock periods come to: no panic, a valid clock, one toggle of the line in every
-- `master_divider` periods, and a second for each rising edge unless the clock is paused.
pub record IsTimed (n : ℕ) (r : Rtc) (irq : IrqController) (result : Result (Rtc × IrqController))
    : Type 0 where
  pub after : Rtc
  pub irq' : IrqController
  pub returns : result ≡ ok (after, irq')
  pub keeps : IsValid after
  pub toggles : ℕ
  pub spent : n + after.divider ≡ r.divider + master_divider * toggles
  pub fits : after.divider ≤ master_divider
  pub same_pause : after.paused ≡ r.paused
  pub others : (i : ℕ) → i < 16 → i ≢ 9 → bit irq'.raw i ≡ bit irq.raw i
  pub mask_kept : irq'.mask ≡ irq.mask
  pub latch_others : (i : ℕ) → i < 16 → i ≢ 9 → bit irq'.latch i ≡ bit irq.latch i
  pub parity : level irq' ≡ (level irq + toggles) % 2
  pub moves :
      second_of_day after ≡ (second_of_day r + counted r (rising toggles (level irq))) % 86400

wait-IsTimed :
    (fuel n : ℕ) (r : Rtc) (irq : IrqController)
    → IsValid r
    → r.divider ≤ master_divider
    → n ≤ r.divider
    → IsTimed n r irq (tick_loop (suc fuel) n r irq)
wait-IsTimed fuel n r irq v fits h = record {
  after = record r { divider = r.divider - n };
  irq' = irq;
  returns = unfold tick_loop in ground arith;
  keeps = ground arith;
  toggles = 0;
  spent = omega arith;
  fits = omega arith;
  same_pause = refl;
  others = λ i p q. refl;
  mask_kept = refl;
  latch_others = λ i p q. refl;
  parity = ground (arith, bit-lt_two irq.raw 9);
  moves = ground (arith, second_of_day-lt r v, bit-lt_two irq.raw 9);
}

tick_loop-toggle :
    (fuel n : ℕ) (r : Rtc) (irq : IrqController)
    → r.divider < n
    → tick_loop (suc fuel) n r irq ≡ (toggle r irq >>= λ s. tick_loop fuel (n - r.divider) s.0 s.1)
unfolding tick_loop
tick_loop-toggle fuel n r irq h = ground arith

toggle-IsTimed :
    (n : ℕ) (r : Rtc) (irq : IrqController) {first result : Result (Rtc × IrqController)}
    → r.divider < n
    → (t : IsToggled r irq first) → IsTimed (n - r.divider) t.after t.irq' result
    → IsTimed n r irq result
toggle-IsTimed n r irq h t rest = record {
  after = rest.after;
  irq' = rest.irq';
  returns = rest.returns;
  keeps = rest.keeps;
  toggles = rest.toggles + 1;
  spent = omega (arith, rest.spent, t.reloads);
  fits = rest.fits;
  same_pause = rest.same_pause ∙ t.same_pause;
  others = λ i p q. rest.others i p q ∙ t.others i p q;
  mask_kept = rest.mask_kept ∙ t.mask_kept;
  latch_others = λ i p q. rest.latch_others i p q ∙ t.latch_others i p q;
  parity = ground (arith, rest.parity, t.flips, bit-lt_two irq.raw 9);
  moves = ground (arith, rest.moves, t.moves, t.same_pause, t.flips, bit-lt_two irq.raw 9);
}

tick_loop-IsTimed :
    (fuel n : ℕ) (r : Rtc) (irq : IrqController)
    → (if r.divider == 0 then n + 1 else n) < fuel
    → IsValid r
    → r.divider ≤ master_divider
    → IsTimed n r irq (tick_loop fuel n r irq)
tick_loop-IsTimed zero n r irq h v fits = absurd (omega arith)
tick_loop-IsTimed (suc fuel) n r irq h v fits = elim (dec_lt r.divider n) [
  | no holds ↦ wait-IsTimed fuel n r irq v fits (omega arith)
  | yes down ↦
      let t = toggle-IsToggled r irq v in
      let rest =
        tick_loop-IsTimed fuel (n - r.divider) t.after t.irq' (ground (arith, t.reloads)) t.keeps
          (omega (arith, t.reloads)) in
      rw (tick_loop-toggle fuel n r irq down) (rw t.returns (toggle-IsTimed n r irq down t rest))
]

-- On a valid clock, `tick` returns for any number of master clock periods: the interrupt line
-- toggles once in every `master_divider` periods, the time of day moves on by one second for each
-- rising edge unless the clock is paused, the clock stays valid, and no other line, no other
-- interrupt's latch and no mask changes.
pub tick-IsTimed :
    (n : ℕ) (r : Rtc) (irq : IrqController)
    → IsValid r
    → r.divider ≤ master_divider
    → IsTimed n r irq (tick n r irq)
unfolding tick
tick-IsTimed n r irq v fits = tick_loop-IsTimed (n + 2) n r irq (ground arith) v fits
