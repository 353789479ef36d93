-- ===== src/Top/Stalls.antt =====
-- Termination of `do { executed = ExecuteInstruction(inst); ... } while (!executed)` of
-- sim/coralnpu_top.cc: an instruction waits for the resources that it holds for.
use coralnpu_mpact.Prelude.{ℕ, zero, suc, ◌+◌, ◌<◌, ◌≡◌, ◌∙◌, refl, arith, Bool-cases, inl, inr}
use coralnpu_mpact.Prelude.{Bool, true, false, some}
use coralnpu_mpact.Top.{State, Instruction, Core}
use coralnpu_mpact.Top.Simulator.{
  increment_cycle_count, all_free, execute_instruction, execute_until, execute_at,
  step_past_breakpoint, set_pc, decode, write_original, write_breakpoint, increment_opcode,
  increment_instruction_count,
}

module _ {S : Type 0} (core : Core S) where
  -- A round of the loop that executes nothing: a cycle passes.
  abbrev pub waited : State S → State S
  waited s = core.advance_delay_lines (increment_cycle_count 1 s)

  -- The state after `n` such rounds.
  unfoldable pub stalled : ℕ → State S → State S
  stalled zero s = s
  stalled (suc n) s = stalled n (waited s)

  abbrev pub is_ready : Instruction S → State S → Bool
  is_ready inst s = all_free core s.points.machine inst.resource_hold

  round_ready :
      (fuel : ℕ) (inst : Instruction S) (s : State S)
      → is_ready inst s ≡ true
      → execute_until core (suc fuel) inst s ≡ some (waited (execute_instruction core inst s).1)
  unfolding execute_until execute_instruction
  round_ready fuel inst s e = rw e refl

  round_waits :
      (fuel : ℕ) (inst : Instruction S) (s : State S)
      → is_ready inst s ≡ false
      → execute_until core (suc fuel) inst s ≡ execute_until core fuel inst (waited s)
  unfolding execute_until execute_instruction
  round_waits fuel inst s e = rw e refl

  -- An instruction whose resources are free after `n` cycles and not before executes then, and takes
  -- one cycle more: with more fuel than `n` the loop ends.
  execute_until-stalled :
      (n fuel : ℕ) (inst : Instruction S) (s : State S)
      → n < fuel
      → ((m : ℕ) → m < n → is_ready inst (stalled m s) ≡ false)
      → is_ready inst (stalled n s) ≡ true
      → execute_until core fuel inst s
        ≡ some (waited (execute_instruction core inst (stalled n s)).1)
  unfolding stalled
  execute_until-stalled n zero inst s l waits ready = absurd (omega arith)
  execute_until-stalled zero (suc fuel) inst s l waits ready = round_ready fuel inst s ready
  execute_until-stalled (suc n) (suc fuel) inst s l waits ready =
      round_waits fuel inst s (waits 0 (omega arith))
      ∙ execute_until-stalled n fuel inst (waited s) (omega arith)
          (λ m q. waits (suc m) (omega arith)) ready

  -- Whatever an instruction holds for is free within `fuel` cycles.
  unfoldable pub FreesWithin : ℕ → Type 0
  FreesWithin fuel =
      (inst : Instruction S) (s : State S)
      → (n : ℕ) × (n < fuel) × (is_ready inst (stalled n s) ≡ true)

  execute_until_total :
      (n fuel : ℕ) (inst : Instruction S) (s : State S)
      → n < fuel
      → is_ready inst (stalled n s) ≡ true
      → (t : State S) × (execute_until core fuel inst s ≡ some t)
  unfolding stalled
  execute_until_total n zero inst s l ready = absurd (omega arith)
  execute_until_total zero (suc fuel) inst s l ready = (_, round_ready fuel inst s ready)
  execute_until_total (suc n) (suc fuel) inst s l ready = elim (Bool-cases (is_ready inst s)) [
    | inl e ↦ (_, round_ready fuel inst s e)
    | inr e ↦
        let rest = execute_until_total n fuel inst (waited s) (omega arith) ready in
        (rest.0, round_waits fuel inst s e ∙ rest.1)
  ]

  pub execute_at_total :
      (fuel : ℕ)
      → FreesWithin fuel
      → (pc : ℕ) (s : State S) → (t : State S) × (execute_at core fuel pc s ≡ some t)
  unfolding FreesWithin execute_at
  execute_at_total fuel frees pc s =
      let decoded = decode core pc s in
      let from = set_pc core (pc + decoded.0.size) decoded.1 in
      let (n, l, ready) = frees decoded.0 from in
      let done = execute_until_total n fuel decoded.0 from l ready in
      (
        increment_instruction_count 1 (increment_opcode decoded.0.opcode done.0),
        rw (execute_at, done.1) refl,
      )

  pub step_past_breakpoint_total :
      (fuel : ℕ)
      → FreesWithin fuel
      → (s : State S) → (t : State S) × (step_past_breakpoint core fuel s ≡ some t)
  unfolding step_past_breakpoint
  step_past_breakpoint_total fuel frees s =
      let done = execute_at_total fuel frees s.pc (write_original core s.pc s) in
      (write_breakpoint core s.pc done.0, rw (step_past_breakpoint, done.1) refl)
