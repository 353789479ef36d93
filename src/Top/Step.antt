-- ===== src/Top/Step.antt =====
-- `CoralNPUTop::Step` of sim/coralnpu_top.cc.
use coralnpu_mpact.Prelude.{
  ℕ, zero, suc, ◌+◌, ◌==◌, ltb, ◌&&◌, not, Bool, true, false, Option, none, some,
}
use coralnpu_mpact.Prelude.{if◌then◌else◌, ℤ, pos, negsuc}
use coralnpu_mpact.Top.{
  invalid_argument, failed_precondition, StatusOr, value, status, RunStatus, k_halted, k_none,
  State, Core, Top,
}
use coralnpu_mpact.Top.Simulator.{Pass, pass, step_past_breakpoint, update_pc}

abbrev pub is_halted : RunStatus → Bool
is_halted k_halted = true
is_halted _ = false

-- The variables of the loop.
pub record Loop (S : Type 0) : Type 0 where
  pub count : ℕ
  pub pc : ℕ
  pub next_pc : ℕ
  pub state : State S

module _ {S : Type 0} where
  -- The variables after a pass.
  abbrev pub passed : Loop S → Pass S → Loop S
  passed l p = record { count = l.count + 1; pc = l.next_pc; next_pc = p.next_pc; state = p.after }

module _ {S : Type 0} (core : Core S) where
  -- `while (!halted_ && (count < num)) { ... }`, with a bound on its rounds, beyond which it has no
  -- result; a pass ends with `continue` or `break`.
  unfoldable pub steps : ℕ → ℕ → ℕ → Loop S → Option (Loop S)
  steps fuel zero num l = none
  steps fuel (suc rounds) num l =
      if not l.state.halted && ltb l.count num
      then elim (pass core fuel true l.next_pc l.state) [
        | none ↦ none
        | some p ↦
            let rest = steps fuel rounds num (passed l p) in
            if p.continues then rest else some (passed l p)
      ]
      else some l

  -- The step over the breakpoint that the core halted at.
  unfoldable pub step_over : ℕ → State S → Option (ℕ × State S)
  step_over fuel s =
      if s.need_to_step_over
      then elim (step_past_breakpoint core fuel (record s { need_to_step_over = false })) [
        | none ↦ none
        | some past ↦ some (1, past)
      ]
      else some (0, s)

  -- After the loop.
  unfoldable pub finish_step : Loop S → Top S
  finish_step l =
      let s = update_pc core l.pc l.next_pc l.state in
      record {
        state = if s.halted then s else record s { halt_reason = k_none };
        run_status = k_halted;
      }

  -- The steps of a core that is halted, with one round of the loop more than `num`, whose status is `kSingleStep` for as long as they last; `pc` has the value `indeterminate` until the loop sets it.
  unfoldable pub step_halted : ℕ → ℕ → ℕ → State S → Option (ℕ × Top S)
  step_halted fuel indeterminate num s = elim (step_over fuel (record s { halted = false })) [
    | none ↦ none
    | some (count, over) ↦
        elim (steps fuel (suc num) num
          (record { count = count; pc = indeterminate; next_pc = over.pc; state = over })) [
            | none ↦ none
            | some l ↦ some (l.count, finish_step l)
          ]
  ]

  unfoldable pub step : ℕ → ℕ → ℤ → Top S → Option (StatusOr ℕ × Top S)
  step fuel indeterminate (negsuc n) t = some (status invalid_argument, t)
  step fuel indeterminate (pos num) t =
      if num == 0
      then some (status invalid_argument, t)
      else if is_halted t.run_status
      then elim (step_halted fuel indeterminate num t.state) [
        | none ↦ none
        | some (count, after) ↦ some (value count, after)
      ]
      else some (status failed_precondition, t)
