-- ===== src/Run/Frames.antt =====
-- The loop over a frame: it ends, with the fuel that it is given, and not far past the frame's end.
use pksx.Base.{
  ℕ, zero, suc, ◌+◌, ◌≤◌, ◌<◌, ◌≡◌, inl, inr, true, false, arith, ltb, ltb→lt, Bool-cases, Panic,
  Result, ok, panic, >>=-eq-ok, ok-injective,
}
use mathlib.Core.Path.{subst}
use pksx.Cpu.Machine.{Machine, no_debugger}
use pksx.Run.{run_next_instruction, run_loop}
use pksx.Run.Steps.{run_next_instruction-IsStep}

-- The loop of `run_ticks` without fuel: what it does when it ends.
pub data Runs (master_ticks : ℕ) : Machine (Unit {0}) → Result (Machine (Unit {0})) → Type 0 where
  -- The frame is over.
  stops :
      (s : Machine (Unit {0}))
      → ltb s.cpu.inter.frame_ticks master_ticks ≡ false
      → Runs master_ticks s (ok s)
  -- An instruction panics.
  fails :
      (s : Machine (Unit {0})) (cause : Panic)
      → ltb s.cpu.inter.frame_ticks master_ticks ≡ true
      → run_next_instruction no_debugger s ≡ panic cause
      → Runs master_ticks s (panic cause)
  -- An instruction returns, and the loop goes on.
  goes_on :
      (s s' : Machine (Unit {0})) (result : Result (Machine (Unit {0})))
      → ltb s.cpu.inter.frame_ticks master_ticks ≡ true
      → run_next_instruction no_debugger s ≡ ok s'
      → Runs master_ticks s' result
      → Runs master_ticks s result

not_below : (a b : ℕ) → ltb a b ≡ false → b ≤ a
not_below a b h = ground arith

-- From a clock divider of at most 7 and a frame's count less than 128 past the frame's end, and
-- with no debugger, a loop over the frame that returns leaves the count at the end or past it by
-- less than 128 master clock periods, and the divider at most 7.
pub run_loop-frame_ticks :
    (fuel master_ticks : ℕ) (s s' : Machine (Unit {0}))
    → s.cpu.inter.cpu_clk_div ≤ 7
    → s.cpu.inter.frame_ticks < master_ticks + 128
    → run_loop no_debugger fuel master_ticks s ≡ ok s'
    → (master_ticks ≤ s'.cpu.inter.frame_ticks)
      × (s'.cpu.inter.frame_ticks < master_ticks + 128)
      × (s'.cpu.inter.cpu_clk_div ≤ 7)
unfolding run_loop
run_loop-frame_ticks zero master_ticks s s' d room h = cc
run_loop-frame_ticks (suc fuel) master_ticks s s' d room h =
    elim (Bool-cases (ltb s.cpu.inter.frame_ticks master_ticks)) [
      | inr over ↦
          let same : s ≡ s' = ok-injective (rw (over, run_loop) at h) in
          subst
            (λ t.
              (master_ticks ≤ t.cpu.inter.frame_ticks)
              × (t.cpu.inter.frame_ticks < master_ticks + 128)
              × (t.cpu.inter.cpu_clk_div ≤ 7))
            same (not_below s.cpu.inter.frame_ticks master_ticks over, room, d)
      | inl left ↦
          let (s₁, runs, rest) =
            >>=-eq-ok (run_next_instruction no_debugger s) _ (rw (left, run_loop) at h) in
          let step = run_next_instruction-IsStep s s₁ d runs in
          let before : s.cpu.inter.frame_ticks < master_ticks =
            ltb→lt s.cpu.inter.frame_ticks master_ticks left in
          let after = step.within in
          run_loop-frame_ticks fuel master_ticks s₁ s' step.divider (omega arith) rest
    ]
