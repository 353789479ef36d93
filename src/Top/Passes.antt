-- ===== src/Top/Passes.antt =====
-- The loop of `CoralNPUTop::Step` in sim/coralnpu_top.cc, case by case.
use coralnpu_mpact.Prelude.{ℕ, suc, ◌<◌, ◌≤◌, ltb, ◌≡◌, ◌∙◌, refl, sym, arith}
use coralnpu_mpact.Prelude.{
  inl, inr, if◌then◌else◌, Bool, true, false, some, none, Option-cases, Bool-cases,
}
use coralnpu_mpact.Top.{State, Core}
use coralnpu_mpact.Top.Simulator.{Pass, pass, after_execution, execute_at}
use coralnpu_mpact.Top.Step.{Loop, passed, steps, step_over, step_halted, finish_step}

module _ {S : Type 0} (core : Core S) where
  -- A pass that breaks leaves the core halted.
  after_execution_breaks :
      (fuel : ℕ) (resets : Bool) (s : State S) (p : Pass S)
      → after_execution core fuel resets s ≡ some p
      → p.continues ≡ false
      → p.after.halted ≡ true
  unfolding after_execution
  after_execution_breaks fuel resets s p h b = ground arith

  pub pass_breaks :
      (fuel : ℕ) (resets : Bool) (pc : ℕ) (s : State S) (p : Pass S)
      → pass core fuel resets pc s ≡ some p
      → p.continues ≡ false
      → p.after.halted ≡ true
  unfolding pass
  pass_breaks fuel resets pc s p h b = elim (Option-cases (execute_at core fuel pc s)) [
    | inl e ↦ absurd (nothing (rw (e, pass) at h))
    | inr (t, e) ↦ after_execution_breaks fuel resets t p (rw (e, pass) at h) b
  ]
    where
      nothing : none ≡ some p → ⊥
      nothing c = cc

  pub steps-halted :
      (fuel rounds num : ℕ) (l : Loop S)
      → l.state.halted ≡ true
      → steps core fuel (suc rounds) num l ≡ some l
  unfolding steps
  steps-halted fuel rounds num l h = rw h refl

  pub steps_done :
      (fuel rounds num : ℕ) (l : Loop S)
      → num ≤ l.count
      → steps core fuel (suc rounds) num l ≡ some l
  unfolding steps
  steps_done fuel rounds num l h =
      let over : ltb l.count num ≡ false = ground (arith, h) in
      elim (Bool-cases l.state.halted) [ inl e ↦ rw e refl | inr e ↦ rw (e, over) refl ]

  pub steps-pass :
      (fuel rounds num : ℕ) (l : Loop S) (p : Pass S)
      → l.state.halted ≡ false
      → l.count < num
      → pass core fuel true l.next_pc l.state ≡ some p
      → steps core fuel (suc rounds) num l
        ≡ (if p.continues then steps core fuel rounds num (passed l p) else some (passed l p))
  unfolding steps
  steps-pass fuel rounds num l p h k e =
      let below : ltb l.count num ≡ true = ground (arith, k) in rw (e, h, below) refl

  steps-stuck :
      (fuel rounds num : ℕ) (l : Loop S)
      → l.state.halted ≡ false
      → l.count < num
      → pass core fuel true l.next_pc l.state ≡ none
      → steps core fuel (suc rounds) num l ≡ none
  unfolding steps
  steps-stuck fuel rounds num l h k e =
      let below : ltb l.count num ≡ true = ground (arith, k) in rw (e, h, below) refl

  pub pass_of_steps :
      (fuel rounds num : ℕ) (l m : Loop S)
      → l.state.halted ≡ false
      → l.count < num
      → steps core fuel (suc rounds) num l ≡ some m
      → (p : Pass S) × (pass core fuel true l.next_pc l.state ≡ some p)
  pass_of_steps fuel rounds num l m h k e =
      elim (Option-cases (pass core fuel true l.next_pc l.state)) [
        | inl c ↦ absurd (nothing (sym (steps-stuck fuel rounds num l h k c) ∙ e))
        | inr found ↦ found
      ]
    where
      nothing : none ≡ some m → ⊥
      nothing c = cc

  -- The loop's first variables.
  abbrev pub loop_start : ℕ → ℕ × State S → Loop S
  loop_start i over = record { count = over.0; pc = i; next_pc = over.1.pc; state = over.1 }

  pub step_halted-over :
      (fuel i num : ℕ) (s : State S) (over : ℕ × State S) (l : Loop S)
      → step_over core fuel (record s { halted = false }) ≡ some over
      → steps core fuel (suc num) num (loop_start i over) ≡ some l
      → step_halted core fuel i num s ≡ some (l.count, finish_step core l)
  unfolding step_halted
  step_halted-over fuel i num s over l e h = rw (e, step_halted) (rw (h) refl)

  pub step_over-none :
      (fuel i num : ℕ) (s : State S)
      → step_over core fuel (record s { halted = false }) ≡ none
      → step_halted core fuel i num s ≡ none
  unfolding step_halted
  step_over-none fuel i num s e = rw (e, step_halted) refl

  pub steps-none :
      (fuel i num : ℕ) (s : State S) (over : ℕ × State S)
      → step_over core fuel (record s { halted = false }) ≡ some over
      → steps core fuel (suc num) num (loop_start i over) ≡ none
      → step_halted core fuel i num s ≡ none
  unfolding step_halted
  steps-none fuel i num s over e h = rw (e, step_halted) (rw h refl)
