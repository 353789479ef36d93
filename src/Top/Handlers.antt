-- ===== src/Top/Handlers.antt =====
-- The callbacks that `CoralNPUTop::Initialize` of sim/coralnpu_top.cc registers, through which an
-- executing instruction halts the core, and the requests of a user to halt.
use coralnpu_mpact.Prelude.{ℕ, Bool, true, false, Option, none, some, if◌then◌else◌, ◌&&◌}
use coralnpu_mpact.Top.{
  Status, ok, failed, failed_precondition, HaltReason, k_software_breakpoint, k_user_request,
  k_semihost_halt_request, k_action_point, k_halt_abort, k_halted, k_running, k_single_step, State,
  Instruction, Top,
}
use coralnpu_mpact.Top.Simulator.{request_halt}

-- `ExceptionCode`, as far as the trap callback tells its values apart.
pub data ExceptionCode : Type 0 where
  k_illegal_instruction k_load_access_fault k_store_access_fault : ExceptionCode
  k_another_code : ℕ → ExceptionCode

module _ {S : Type 0} where
  -- The callback of `BreakpointManager`.
  unfoldable pub breakpoint_hit : State S → State S
  breakpoint_hit s = request_halt k_software_breakpoint s

  -- `AddMpauseHandler`
  unfoldable pub on_mpause : Option (Instruction S) → State S → Bool × State S
  on_mpause none s = (false, s)
  on_mpause (some inst) s = (true, request_halt k_user_request s)

  -- `set_on_trap`
  unfoldable pub on_trap : ExceptionCode → State S → Bool × State S
  on_trap k_illegal_instruction s = (true, request_halt k_user_request s)
  on_trap k_load_access_fault s = (true, request_halt k_user_request s)
  on_trap k_store_access_fault s = (true, request_halt k_user_request s)
  on_trap (k_another_code code) s = (false, s)

  -- `set_exit_callback`
  unfoldable pub on_semihost_exit : State S → State S
  on_semihost_exit s = request_halt k_semihost_halt_request s

  -- `Halt()`
  unfoldable pub halt : Top S → Status × Top S
  halt t = elim t.run_status [
    | k_halted ↦ (ok, t)
    | k_single_step ↦ (failed failed_precondition, t)
    | k_running ↦
        (ok, record t { state = record t.state { halt_reason = k_user_request; halted = true } })
  ]

  -- `Halt(HaltReason)` and `Halt(HaltReasonValueType)`
  unfoldable pub halt_for : HaltReason → Top S → Status × Top S
  halt_for reason t = (ok, record t { state = request_halt reason t.state })

  -- The semihosting and the action point manager; `use_semihost` is the flag.
  module _ (use_semihost : Bool) (is_semihosting_call : Instruction S → Bool)
      (semihost_on_ebreak : Instruction S → State S → State S)
      (is_action_point_active : ℕ → State S → Bool) (perform_actions : ℕ → State S → State S) where
    -- `AddEbreakHandler`
    unfoldable pub on_ebreak : Option (Instruction S) → State S → Bool × State S
    on_ebreak none s = (false, s)
    on_ebreak (some inst) s = (
      true,
      if use_semihost && is_semihosting_call inst
          then semihost_on_ebreak inst s
          else if is_action_point_active inst.address s
          then perform_actions inst.address (request_halt k_action_point s)
          else request_halt k_halt_abort s,
    )
