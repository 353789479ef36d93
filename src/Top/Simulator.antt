-- ===== src/Top/Simulator.antt =====
-- How sim/coralnpu_top.cc executes instructions: one at a time, past a breakpoint, and in the passes
-- that the loops of `Step` and `Run` share.
use coralnpu_mpact.Prelude.{
  ℕ, zero, suc, ◌+◌, ◌%◌, ◌^◌, ◌==◌, Bool, true, false, Option, none, some,
}
use coralnpu_mpact.Prelude.{List, [], ◌∷◌, if◌then◌else◌, ◌&&◌}
use coralnpu_mpact.Top.{
  HaltReason, k_none, k_software_breakpoint, k_action_point, State, Instruction, Core,
}
use coralnpu_mpact.Top.ActionPoints.{write_original_instruction, write_breakpoint_instruction}

abbrev pub is_software_breakpoint : HaltReason → Bool
is_software_breakpoint k_software_breakpoint = true
is_software_breakpoint _ = false

abbrev pub is_action_point : HaltReason → Bool
is_action_point k_action_point = true
is_action_point _ = false

abbrev pub is_either : HaltReason → Bool
is_either k_software_breakpoint = true
is_either k_action_point = true
is_either _ = false

-- What a pass of a loop ends with: `continue` or `break`, and the address of the next instruction.
pub record Pass (S : Type 0) : Type 0 where
  pub continues : Bool
  pub next_pc : ℕ
  pub after : State S

module _ {S : Type 0} where
  unfoldable pub request_halt : HaltReason → State S → State S
  request_halt reason s = record s {
    halt_reason = reason;
    halted = true;
    need_to_step_over = if is_either reason then true else s.need_to_step_over;
  }

  abbrev pub increment_cycle_count : ℕ → State S → State S
  increment_cycle_count n s = record s { num_cycles = s.num_cycles + n }

  abbrev pub increment_instruction_count : ℕ → State S → State S
  increment_instruction_count n s = record s { num_instructions = s.num_instructions + n }

  -- `counter_opcode_[opcode].Increment(1)`
  abbrev pub increment_opcode : ℕ → State S → State S
  increment_opcode opcode s = record s {
    counter_opcode = λ i. if i == opcode then s.counter_opcode i + 1 else s.counter_opcode i;
  }

  abbrev pub set_machine : S → State S → State S
  set_machine machine s = record s { points = record s.points { machine = machine } }

  -- `continue`, after the step over an action point. `Step` resets `need_to_step_over_` there, and
  -- `Run` keeps it.
  abbrev pub past_action_point : Bool → ℕ → State S → Pass S
  past_action_point resets next_pc s = record {
    continues = true;
    next_pc = next_pc;
    after = record s {
      halted = false;
      halt_reason = k_none;
      need_to_step_over = if resets then false else s.need_to_step_over;
    };
  }

module _ {S : Type 0} (core : Core S) where
  unfoldable pub set_pc : ℕ → State S → State S
  set_pc value s = record s { pc = if core.pc_size == 4 then value % 2 ^ 32 else value % 2 ^ 64 }

  unfoldable pub all_free : S → List ℕ → Bool
  all_free machine [] = true
  all_free machine (resource ∷ rest) =
      let later = all_free machine rest in core.is_free machine resource && later

  unfoldable pub acquire_all : S → List ℕ → S
  acquire_all machine [] = machine
  acquire_all machine (resource ∷ rest) = acquire_all (core.acquire machine resource) rest

  -- `ExecuteInstruction`: whether it executed, and the state it leaves.
  unfoldable pub execute_instruction : Instruction S → State S → Bool × State S
  execute_instruction inst s =
      if all_free s.points.machine inst.resource_hold
      then (true, inst.execute (set_machine (acquire_all s.points.machine inst.resource_acquire) s))
      else (false, s)

  -- `do { ... } while (!executed)`, at most `fuel` times.
  unfoldable pub execute_until : ℕ → Instruction S → State S → Option (State S)
  execute_until zero inst s = none
  execute_until (suc fuel) inst s =
      let tried = execute_instruction inst s in
      let next = core.advance_delay_lines (increment_cycle_count 1 tried.1) in
      let rest = execute_until fuel inst next in if tried.0 then some next else rest

  -- `GetDecodedInstruction`: the instruction, with the decode cache it leaves.
  abbrev pub decode : ℕ → State S → Instruction S × State S
  decode address s =
      let decoded = core.get_decoded_instruction s.points.machine address in
      (decoded.0, set_machine decoded.1 s)

  -- Execute the instruction at an address, and count it.
  unfoldable pub execute_at : ℕ → ℕ → State S → Option (State S)
  execute_at fuel pc s =
      let decoded = decode pc s in
      let inst = decoded.0 in
      elim (execute_until fuel inst (set_pc (pc + inst.size) decoded.1)) [
        | none ↦ none
        | some executed ↦
            some (increment_instruction_count 1 (increment_opcode inst.opcode executed))
      ]

  unfoldable pub write_original : ℕ → State S → State S
  write_original address s = record s {
    points = (write_original_instruction core.memory s.points address).1;
  }

  unfoldable pub write_breakpoint : ℕ → State S → State S
  write_breakpoint address s = record s {
    points = (write_breakpoint_instruction core.memory s.points address).1;
  }

  -- `StepPastBreakpoint`; it drops the statuses of the two writes, and returns `OkStatus` always.
  unfoldable pub step_past_breakpoint : ℕ → State S → Option (State S)
  step_past_breakpoint fuel s = elim (execute_at fuel s.pc (write_original s.pc s)) [
    | none ↦ none
    | some executed ↦ some (write_breakpoint s.pc executed)
  ]

  -- The end of the loop's body, once an instruction has executed.
  unfoldable pub after_execution : ℕ → Bool → State S → Option (Pass S)
  after_execution fuel resets s =
      if s.halted
      then if is_action_point s.halt_reason
        then elim (step_past_breakpoint fuel s) [
          | none ↦ none
          | some past ↦ some (past_action_point resets s.pc past)
        ]
        else some record { continues = false; next_pc = s.pc; after = s }
      else some record { continues = true; next_pc = s.pc; after = s }

  -- The body of the loop, for the instruction at `pc`.
  unfoldable pub pass : ℕ → Bool → ℕ → State S → Option (Pass S)
  pass fuel resets pc s = elim (execute_at fuel pc s) [
    | none ↦ none
    | some executed ↦ after_execution fuel resets executed
  ]

  -- The pc register after the loop; `pc` is that of the last instruction executed.
  unfoldable pub update_pc : ℕ → ℕ → State S → State S
  update_pc pc next_pc s =
      if is_software_breakpoint s.halt_reason then set_pc pc s else set_pc next_pc s
