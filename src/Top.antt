-- ===== src/Top.antt =====
-- The simulator of one core, sim/coralnpu_top.h and sim/coralnpu_top.cc: its state, and what it uses
-- of the libraries around it.
pub mod ActionPoints
pub mod Patched
pub mod Simulator
pub mod Stalls
pub mod Step
pub mod Passes
pub mod Counts
pub mod Returns
pub mod Replay
pub mod Handlers
pub mod Debugger
pub mod Images
pub mod Loaded
pub mod Registers
pub mod Disassembly
pub mod Session
pub mod Threads
pub mod Halting
use coralnpu_mpact.Prelude.{ℕ, Bool, List}

-- `absl::Status` and `absl::StatusOr`, without the messages.
pub data Error : Type 0 where
  not_found invalid_argument failed_precondition internal : Error

pub data Status : Type 0 where
  ok : Status
  failed : Error → Status

pub data StatusOr (A : Type 0) : Type 0 where
  value : A → StatusOr A
  status : Error → StatusOr A

-- `CoreDebugInterface::RunStatus`
pub data RunStatus : Type 0 where
  k_halted k_running k_single_step : RunStatus

-- `CoreDebugInterface::HaltReason`, with `kHaltAbort`; a caller of `Halt` may pass any other value.
pub data HaltReason : Type 0 where
  k_none k_software_breakpoint k_user_request k_semihost_halt_request : HaltReason
  k_simulator_error k_action_point k_halt_abort : HaltReason
  other : ℕ → HaltReason

-- `CoralNPUActionPointMemoryInterface::InstructionInfo`
pub record InstructionInfo : Type 0 where
  pub size : ℕ
  pub og_instruction_word : ℕ

-- `MemoryInterface` and the invalidation of the decode cache, on a machine `S`: the words of 32 bits.
pub record MemoryInterface (S : Type 0) : Type 0 where
  pub load : S → ℕ → ℕ
  pub store : S → ℕ → ℕ → S
  pub invalidate : S → ℕ → S

-- The machine with the map of a `CoralNPUActionPointMemoryInterface`.
pub record Points (S : Type 0) : Type 0 where
  pub machine : S
  pub instruction_map : List (ℕ × InstructionInfo)

-- What an executing instruction reads and writes of a `CoralNPUTop`.
pub record State (S : Type 0) : Type 0 where
  pub points : Points S
  pub pc : ℕ
  pub halted : Bool
  pub halt_reason : HaltReason
  pub need_to_step_over : Bool
  pub num_cycles : ℕ
  pub num_instructions : ℕ
  pub counter_opcode : ℕ → ℕ

-- A decoded `Instruction`: the resources it holds for and acquires, and its semantic function.
pub record Instruction (S : Type 0) : Type 0 where
  pub address : ℕ
  pub size : ℕ
  pub opcode : ℕ
  pub resource_hold : List ℕ
  pub resource_acquire : List ℕ
  pub execute : State S → State S

-- What the simulator calls of the framework: the decode cache, which keeps what it decodes, the
-- resources, and the delay lines. `pc_size` is the size in bytes of the data buffer of the pc.
pub record Core (S : Type 0) : Type 0 where
  pub memory : MemoryInterface S
  pub get_decoded_instruction : S → ℕ → Instruction S × S
  pub is_free : S → ℕ → Bool
  pub acquire : S → ℕ → S
  pub advance_delay_lines : State S → State S
  pub pc_size : ℕ

-- `CoralNPUTop`
pub record Top (S : Type 0) : Type 0 where
  pub state : State S
  pub run_status : RunStatus
