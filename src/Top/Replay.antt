-- ===== src/Top/Replay.antt =====
-- Where `CoralNPUTop::Step` of sim/coralnpu_top.cc leaves the pc after a software breakpoint.
use coralnpu_mpact.Prelude.{ℕ, ◌≡◌, ◌∙◌, refl, arith}
use coralnpu_mpact.Prelude.{true, false, some, pos}
use coralnpu_mpact.Top.{k_software_breakpoint, value, k_halted, k_none, State, Core, Top}
use coralnpu_mpact.Top.Simulator.{
  pass, after_execution, execute_at, step_past_breakpoint, update_pc, set_pc,
}
use coralnpu_mpact.Top.Step.{Loop, steps, step_over, step, finish_step}
use coralnpu_mpact.Top.Passes.{loop_start, steps_done, step_halted-over}
use coralnpu_mpact.Top.Returns.{step_returns}

module _ {S : Type 0} (core : Core S) where
  -- A core that `Step` leaves halted with its pc at an address.
  abbrev pub left_at : ℕ → State S → Top S
  left_at pc s = record {
    state = record (set_pc core pc s) { halt_reason = k_none };
    run_status = k_halted;
  }

  finish_step-breakpoint :
      (l : Loop S)
      → l.state.halted ≡ false
      → l.state.halt_reason ≡ k_software_breakpoint
      → finish_step core l ≡ left_at l.pc l.state
  unfolding finish_step update_pc set_pc
  finish_step-breakpoint l h r = rw r (rw h refl)

  step_over-past :
      (fuel : ℕ) (s past : State S)
      → s.need_to_step_over ≡ true
      → step_past_breakpoint core fuel (record s { need_to_step_over = false }) ≡ some past
      → step_over core fuel s ≡ some (1, past)
  unfolding step_over
  step_over-past fuel s past n e = rw (e, n) refl

  steps_one :
      (fuel : ℕ) (l : Loop S) (executed : State S)
      → l.count ≡ 1
      → l.state.halted ≡ false
      → execute_at core fuel l.next_pc l.state ≡ some executed
      → executed.halted ≡ false
      → steps core fuel 3 2 l
        ≡ some (record { count = 2; pc = l.next_pc; next_pc = executed.pc; state = executed })
  unfolding steps pass after_execution
  steps_one fuel l executed n h e f = rw (e, f, h, n) refl

  -- Where the core halted at a software breakpoint and neither the instruction under the breakpoint nor
  -- the next one requests a halt or changes the halt reason, `Step(2)` returns 2 and leaves the pc at
  -- the second instruction, which it has executed already, and `Step(1)` returns 1 and leaves the pc
  -- at the value that the variable `pc` had without being set.
  pub step_replays :
      (fuel i : ℕ) (t : Top S) (past executed : State S)
      → t.run_status ≡ k_halted
      → t.state.need_to_step_over ≡ true
      → step_past_breakpoint core fuel
          (record t.state { halted = false; need_to_step_over = false })
        ≡ some past
      → past.halted ≡ false
      → past.halt_reason ≡ k_software_breakpoint
      → execute_at core fuel past.pc past ≡ some executed
      → executed.halted ≡ false
      → executed.halt_reason ≡ k_software_breakpoint
      → (step core fuel i (pos 1) t ≡ some (value 1, left_at i past))
        × (step core fuel i (pos 2) t ≡ some (value 2, left_at past.pc executed))
  unfolding steps
  step_replays fuel i t past executed r n p h b x f c =
      let s = record t.state { halted = false } in
      let over = step_over-past fuel s past n p in
      let first = loop_start core i (1, past) in
      let second : Loop S = record {
        count = 2;
        pc = past.pc;
        next_pc = executed.pc;
        state = executed;
      } in
      (
        step_returns core fuel i 1 t (1, left_at i past) refl (rw r refl)
            (step_halted-over core fuel i 1 t.state (1, past) first over
                (steps_done core fuel 1 1 first (omega arith))
              ∙ rw (finish_step-breakpoint first h b) refl),
        step_returns core fuel i 2 t (2, left_at past.pc executed) refl (rw r refl)
            (step_halted-over core fuel i 2 t.state (1, past) second over
                (steps_one fuel first executed refl h x f)
              ∙ rw (finish_step-breakpoint second f c) refl),
      )
