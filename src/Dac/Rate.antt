-- ===== src/Dac/Rate.antt =====
-- The loop of `tick` against a clock that is stepped one master period at a time.
use pksx.Base.{
  ℕ, zero, suc, ◌+◌, ◌-◌, ◌*◌, ◌≤◌, ◌<◌, ◌≡◌, refl, sym, ap, List, [], ◌∷◌, arith, ◌==◌,
  if◌then◌else◌, ok, ◌>>=◌,
}
use mathlib.Core.Path.{◌≡⟨◌⟩◌, ◌∎}
use pksx.Dac.{Dac, push_sample, tick_loop, tick, master_clock_div}

-- One master clock period: a divider that has run down gives a sample and starts again.
pub clock : Dac → Dac
unfolding push_sample
clock d =
    if d.divider == 0
    then record (push_sample d) { divider = master_clock_div - 1 }
    else record d { divider = d.divider - 1 }

pub clocks : ℕ → Dac → Dac
clocks zero d = d
clocks (suc n) d = clocks n (clock d)

pub clocks-add : (m n : ℕ) (d : Dac) → clocks (m + n) d ≡ clocks n (clocks m d)
unfolding clocks
clocks-add zero n d = let e : 0 + n ≡ n = omega arith in rw e
clocks-add (suc m) n d =
    let e : suc m + n ≡ suc (m + n) = omega arith in rw e (clocks-add m n (clock d))

clocks_wait : (n : ℕ) (d : Dac) → n ≤ d.divider → clocks n d ≡ record d { divider = d.divider - n }
unfolding clocks clock
clocks_wait zero d h = ground arith
clocks_wait (suc n) d h = ground (arith, clocks_wait n (record d { divider = d.divider - 1 }))

clocks_run_down :
    (n : ℕ) (d : Dac) → clocks (suc n) (record d { divider = 0 }) ≡ clocks (suc n) (push_sample d)
unfolding clocks clock
clocks_run_down n d = refl

clocks_expire :
    (n : ℕ) (d : Dac) → d.divider < n → clocks n d ≡ clocks (n - d.divider) (push_sample d)
clocks_expire n d h =
    let m : ℕ = n - d.divider - 1 in
    let split : n ≡ d.divider + suc m = omega arith in
    let left : n - d.divider ≡ suc m = omega arith in
    let spent : clocks d.divider d ≡ record d { divider = 0 } =
      ground (arith, clocks_wait d.divider d) in
    clocks n d
    ≡⟨ ap (λ k. clocks k d) split ⟩ clocks (d.divider + suc m) d
    ≡⟨ clocks-add d.divider (suc m) d ⟩ clocks (suc m) (clocks d.divider d)
    ≡⟨ ap (clocks (suc m)) spent ⟩ clocks (suc m) (record d { divider = 0 })
    ≡⟨ clocks_run_down m d ⟩ clocks (suc m) (push_sample d)
    ≡⟨ ap (λ k. clocks k (push_sample d)) (sym left) ⟩ clocks (n - d.divider) (push_sample d) ∎

tick_loop-clocks :
    (fuel n : ℕ) (d : Dac)
    → (if d.divider == 0 then n + 1 else n) < fuel
    → tick_loop fuel n d ≡ ok (clocks n d)
unfolding tick_loop
tick_loop-clocks zero n d h = absurd (omega arith)
tick_loop-clocks (suc fuel) zero d h = unfold clocks in refl
tick_loop-clocks (suc fuel) (suc n) d h = ground (
  arith,
  clocks_wait (suc n) d,
  clocks_expire (suc n) d,
  tick_loop-clocks fuel (suc n - d.divider) (push_sample d),
)

-- `tick` returns for every number of master clock periods, and does what that many single periods
-- do.
pub tick-clocks : (n : ℕ) (d : Dac) → tick n d ≡ ok (clocks n d)
unfolding tick
tick-clocks n d = tick_loop-clocks (n + 2) n d (ground arith)

-- Ticking for some periods and then for more is ticking once for their sum.
pub tick-add : (m n : ℕ) (d : Dac) → (tick m d >>= tick n) ≡ tick (m + n) d
tick-add m n d =
    rw (tick-clocks m d, tick-clocks n (clocks m d), tick-clocks (m + n) d)
      (ap ok (sym (clocks-add m n d)))

abbrev pub count : List ℕ → ℕ
count [] = 0
count (x ∷ xs) = suc (count xs)

clocks_rate :
    (n : ℕ) (d : Dac)
    → n + (clocks n d).divider + 90 * count d.backend ≡ d.divider + 90 * count (clocks n d).backend
unfolding clocks clock
clocks_rate zero d = omega arith
clocks_rate (suc n) d = ground (arith, clocks_rate n (clock d))

clocks_divider : (n : ℕ) (d : Dac) → d.divider ≤ 90 → (clocks n d).divider ≤ 90
unfolding clocks clock
clocks_divider zero d h = h
clocks_divider (suc n) d h = ground (arith, clocks_divider n (clock d))

-- From a divider of at most 90, the samples that `tick` pushes account for 90 master clock periods
-- each, up to the change of the divider, which stays at most 90.
pub tick_rate :
    (n : ℕ) (d d' : Dac)
    → d.divider ≤ 90
    → tick n d ≡ ok d'
    → (n + d'.divider + 90 * count d.backend ≡ d.divider + 90 * count d'.backend)
      × (d'.divider ≤ 90)
tick_rate n d d' h e = ground (arith, tick-clocks n d, clocks_rate n d, clocks_divider n d)
