-- ===== src/Top/Debugger.antt =====
-- The debug interface of sim/coralnpu_top.cc: registers, breakpoints.
use coralnpu_mpact.Prelude.{ℕ, ◌*◌, ◌%◌, ◌^◌, ◌==◌, Bool}
use coralnpu_mpact.Prelude.{Option, none, some, if◌then◌else◌, ◌&&◌, ◌||◌}
use coralnpu_mpact.Top.{
  Status, ok, failed, StatusOr, value, status, not_found, failed_precondition, internal, k_none,
  State, Top,
}
use coralnpu_mpact.Top.Simulator.{is_software_breakpoint, set_machine}
use coralnpu_mpact.Top.Step.{is_halted}

-- The register and CSR files, by names `N`: the size in bytes and the contents of a register, and the
-- contents of a CSR.
pub record RegisterFile (S N : Type 0) : Type 0 where
  pub register : S → N → Option (ℕ × ℕ)
  pub set_register : S → N → ℕ → S
  pub csr : S → N → Option ℕ
  pub set_csr : S → N → ℕ → S
  pub is_pc : N → Bool

-- The cases of `switch (db->size<uint8_t>())`.
abbrev pub is_register_size : ℕ → Bool
is_register_size size = size == 1 || size == 2 || size == 4 || size == 8

module _ {S N : Type 0} (file : RegisterFile S N) where
  abbrev pub machine : Top S → S
  machine t = t.state.points.machine

  unfoldable pub read_register : N → Top S → StatusOr ℕ
  read_register name t =
      if is_halted t.run_status
      then elim (file.register (machine t) name) [
        | none ↦ elim (file.csr (machine t) name) [
          | none ↦ status not_found
          | some contents ↦ value (contents % 2 ^ 32)
        ]
        | some (size, contents) ↦
            if is_register_size size then value (contents % 2 ^ (8 * size)) else status internal
      ]
      else status failed_precondition

  abbrev with_machine : S → Top S → Top S
  with_machine m t = record t { state = set_machine m t.state }

  -- The halt reason, when the pc is changed at a software breakpoint.
  abbrev pub moved_pc : N → Top S → Top S
  moved_pc name t =
      if file.is_pc name && is_software_breakpoint t.state.halt_reason
      then record t { state = record t.state { halt_reason = k_none } }
      else t

  unfoldable pub write_register : N → ℕ → Top S → Status × Top S
  write_register name contents t =
      if is_halted t.run_status
      then elim (file.register (machine t) name) [
        | none ↦ elim (file.csr (machine t) name) [
          | none ↦ (failed not_found, t)
          | some old ↦ (ok, with_machine (file.set_csr (machine t) name (contents % 2 ^ 32)) t)
        ]
        | some (size, old) ↦
            if is_register_size size
            then (
              ok,
              with_machine (file.set_register (machine t) name (contents % 2 ^ (8 * size)))
                  (moved_pc name t),
            )
            else (failed internal, moved_pc name t)
      ]
      else (failed failed_precondition, t)

  unfoldable pub get_register_data_buffer : N → Top S → StatusOr (ℕ × ℕ)
  get_register_data_buffer name t =
      if is_halted t.run_status
      then elim (file.register (machine t) name) [
        | none ↦ status not_found
        | some buffer ↦ value buffer
      ]
      else status failed_precondition

-- `BreakpointManager`; the simulator has one once it is initialised.
pub record BreakpointManager (S : Type 0) : Type 0 where
  pub has_breakpoint : ℕ → State S → Bool
  pub set_breakpoint : ℕ → State S → Status × State S
  pub clear_breakpoint : ℕ → State S → Status × State S
  pub clear_all_breakpoints : State S → State S

module _ {S : Type 0} (manager : Option (BreakpointManager S)) where
  -- A call of the manager on a core that must be halted.
  abbrev managed : (BreakpointManager S → State S → Status × State S) → Top S → Status × Top S
  managed call t =
      if is_halted t.run_status
      then elim manager [
        | none ↦ (failed internal, t)
        | some m ↦ let called = call m t.state in (called.0, record t { state = called.1 })
      ]
      else (failed failed_precondition, t)

  unfoldable pub set_sw_breakpoint : ℕ → Top S → Status × Top S
  set_sw_breakpoint address t = managed (λ m s. m.set_breakpoint address s) t

  unfoldable pub clear_sw_breakpoint : ℕ → Top S → Status × Top S
  clear_sw_breakpoint address t = managed (λ m s. m.clear_breakpoint address s) t

  unfoldable pub clear_all_sw_breakpoints : Top S → Status × Top S
  clear_all_sw_breakpoints t = managed (λ m s. (ok, m.clear_all_breakpoints s)) t
