-- ===== src/Top/Returns.antt =====
-- Termination of `CoralNPUTop::Step` of sim/coralnpu_top.cc.
use native.Mathlib.Decide.{dec_lt}
use coralnpu_mpact.Prelude.{ℕ, zero, suc, ◌+◌, ◌==◌, ◌<◌, ◌≡◌, ◌∙◌, refl, arith, Bool-cases}
use coralnpu_mpact.Prelude.{inl, inr, Bool, true, false, some, pos}
use coralnpu_mpact.Top.{value, k_halted, State, Core, Top}
use coralnpu_mpact.Top.Simulator.{Pass, pass, after_execution, is_action_point, past_action_point}
use coralnpu_mpact.Top.Stalls.{FreesWithin, execute_at_total, step_past_breakpoint_total}
use coralnpu_mpact.Top.Step.{
  Loop, passed, steps, step_over, step_halted, step, finish_step, is_halted,
}
use coralnpu_mpact.Top.Counts.{StepCounted, step-counted}
use coralnpu_mpact.Top.Passes.{steps-halted, steps_done, steps-pass, loop_start, step_halted-over}

module _ {S : Type 0} (core : Core S) where
  after_execution_total :
      (fuel : ℕ) (resets : Bool) (s : State S)
      → FreesWithin core fuel
      → (p : Pass S) × (after_execution core fuel resets s ≡ some p)
  unfolding after_execution
  after_execution_total fuel resets s frees =
      let (past, e) = step_past_breakpoint_total core fuel frees s in
      elim (Bool-cases s.halted) [
        | inl h ↦ elim (Bool-cases (is_action_point s.halt_reason)) [
          | inl a ↦ (past_action_point resets s.pc past, rw (e, a, h) refl)
          | inr a ↦ (record { continues = false; next_pc = s.pc; after = s }, rw (a, h) refl)
        ]
        | inr h ↦ (record { continues = true; next_pc = s.pc; after = s }, rw h refl)
      ]

  pub pass_total :
      (fuel : ℕ) (resets : Bool) (pc : ℕ) (s : State S)
      → FreesWithin core fuel
      → (p : Pass S) × (pass core fuel resets pc s ≡ some p)
  unfolding pass
  pass_total fuel resets pc s frees =
      let (t, e) = execute_at_total core fuel frees pc s in
      let (p, q) = after_execution_total fuel resets t frees in (p, rw (pass, e) q)

  -- Rounds for the steps left, and one more, are enough.
  steps_total :
      (fuel rounds num : ℕ) (l : Loop S)
      → FreesWithin core fuel
      → 0 < rounds
      → num < l.count + rounds
      → (m : Loop S) × (steps core fuel rounds num l ≡ some m)
  steps_total fuel zero num l frees some_round enough = absurd (omega (arith, some_round))
  steps_total fuel (suc rounds) num l frees some_round enough =
      let (p, q) = pass_total fuel true l.next_pc l.state frees in
      elim (Bool-cases l.state.halted) [
        | inl h ↦ (l, steps-halted core fuel rounds num l h)
        | inr h ↦ elim (dec_lt l.count num) [
          | no k ↦ (l, steps_done core fuel rounds num l (omega arith))
          | yes k ↦
              let rest = steps-pass core fuel rounds num l p h k q in
              elim (Bool-cases p.continues) [
                | inl c ↦
                    let (m, e) =
                      steps_total fuel rounds num (passed l p) frees (omega arith) (omega arith) in
                    (m, rest ∙ rw (c, e) refl)
                | inr c ↦ (passed l p, rest ∙ rw c refl)
              ]
        ]
      ]

  step_over_total :
      (fuel : ℕ) (s : State S)
      → FreesWithin core fuel
      → (over : ℕ × State S) × (step_over core fuel s ≡ some over)
  unfolding step_over
  step_over_total fuel s frees =
      let (past, e) =
        step_past_breakpoint_total core fuel frees (record s { need_to_step_over = false }) in
      elim (Bool-cases s.need_to_step_over) [
        | inl n ↦ ((1, past), rw (e, n) refl)
        | inr n ↦ ((0, s), rw n refl)
      ]

  pub step_returns :
      (fuel i num : ℕ) (t : Top S) (done : ℕ × Top S)
      → (num == 0) ≡ false
      → is_halted t.run_status ≡ true
      → step_halted core fuel i num t.state ≡ some done
      → step core fuel i (pos num) t ≡ some (value done.0, done.1)
  unfolding step
  step_returns fuel i num t done z r e = rw (z, r) (rw e refl)

  -- Where whatever an instruction holds for is free within `fuel` cycles, `Step(num)` on a halted core
  -- ends for every `num` of at least 1: its loop needs one round more than `num` at most, and it
  -- returns a count that is at least 1 and at most `num`, with the core halted, and less than `num`
  -- only after a halt request.
  pub step_total :
      (fuel i num : ℕ) (t : Top S)
      → FreesWithin core fuel
      → 0 < num
      → t.run_status ≡ k_halted
      → (done : ℕ × Top S) × (step core fuel i (pos num) t ≡ some (value done.0, done.1))
        × StepCounted core num done.0 done.1
  step_total fuel i num t frees z e =
      let s = t.state in
      let (over, o) = step_over_total fuel (record s { halted = false }) frees in
      let (l, q) =
        steps_total fuel (suc num) num (loop_start core i over) frees (omega arith) (omega arith) in
      let done = step_halted-over core fuel i num s over l o q in
      let returned = step_returns fuel i num t _ (ground arith) (rw e refl) done in
      (
        (l.count, finish_step core l),
        returned,
        step-counted core fuel i num l.count t (finish_step core l) returned,
      )
