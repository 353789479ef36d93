-- ===== src/Examples/Top.antt =====
-- The theorems on the simulator of a core, on memories of words and bytes and a core of
-- instructions that do nothing.
use native.Mathlib.Decide.{ℕ_discrete}
use coralnpu_mpact.Prelude.{ℕ, zero, suc, ◌+◌, ◌-◌, ◌%◌, ◌^◌, ◌<◌, ◌==◌, ◌≡◌, refl, arith}
use coralnpu_mpact.Prelude.{true, false, some, List, [], ◌∷◌, if◌then◌else◌, pos}
use coralnpu_mpact.Top.{
  value, k_halted, k_software_breakpoint, MemoryInterface, Points, State, Instruction, Core, Top,
}
use coralnpu_mpact.Top.ActionPoints.{
  write_original_instruction, write_breakpoint_instruction, store_instruction, find,
}
use coralnpu_mpact.Top.Patched.{
  Call, original, breakpoint, LawfulMemory, performed, IsPatched, word, performed-IsPatched,
}
use coralnpu_mpact.Top.Simulator.{
  all_free, execute_instruction, execute_until, step_past_breakpoint, execute_at, write_original,
  write_breakpoint, acquire_all, set_pc,
}
use coralnpu_mpact.Top.Stalls.{FreesWithin, stalled, is_ready}
use coralnpu_mpact.Top.Step.{step}
use coralnpu_mpact.Top.Counts.{StepCounted, step-counted}
use coralnpu_mpact.Top.Returns.{step_total}
use coralnpu_mpact.Top.Replay.{left_at, step_replays}

-- A memory of words.
abbrev pub words : MemoryInterface (ℕ → ℕ)
words = record {
  load = λ m a. m a % 2 ^ 32;
  store = λ m a w b. if b == a then w else m b;
  invalidate = λ m a. m;
}

pub words_lawful : LawfulMemory words
words_lawful = record {
  load_bound = λ s a. omega arith;
  load-store = λ s a w l. ground arith;
  load_apart = λ s a b w h. ground arith;
  load-invalidate = λ s a b. refl;
}

-- A program of instructions that do nothing.
abbrev program : ℕ → ℕ
program a = 0x13

abbrev fresh : Points (ℕ → ℕ)
fresh = record { machine = program; instruction_map = [] }

abbrev calls : List Call
calls = breakpoint 16 ∷ breakpoint 28 ∷ original 16 ∷ breakpoint 16 ∷ []

performed-IsPatched_example : IsPatched words (word words fresh) (performed words fresh calls)
performed-IsPatched_example = performed-IsPatched words words_lawful fresh calls refl refl

-- A core of instructions that do nothing, and hold for a resource that is free once the machine has
-- counted down to 0.
abbrev nop : ℕ → Instruction ℕ
nop a = record {
  address = a;
  size = 4;
  opcode = 0;
  resource_hold = 1 ∷ [];
  resource_acquire = [];
  execute = λ s. s;
}

abbrev pub nops : Core ℕ
nops = record {
  memory = record { load = λ m a. 0x13; store = λ m a w. m; invalidate = λ m a. m };
  get_decoded_instruction = λ m a. (nop a, m);
  is_free = λ m r. m == 0;
  acquire = λ m r. m;
  advance_delay_lines =
      λ s. record s { points = record s.points { machine = s.points.machine - 1 } };
  pc_size = 4;
}

-- Halted at a breakpoint at 16.
abbrev pub at_breakpoint : State ℕ
at_breakpoint = record {
  points = record {
    machine = 0;
    instruction_map = (16, record { size = 4; og_instruction_word = 0x13 }) ∷ [];
  };
  pc = 16;
  halted = true;
  halt_reason = k_software_breakpoint;
  need_to_step_over = true;
  num_cycles = 0;
  num_instructions = 0;
  counter_opcode = λ i. 0;
}

abbrev pub halted_top : Top ℕ
halted_top = record { state = at_breakpoint; run_status = k_halted }

-- Two cycles before the resource is free.
abbrev held : State ℕ
held = record at_breakpoint { points = record at_breakpoint.points { machine = 2 } }

held_waits : (m : ℕ) → m < 2 → is_ready nops (nop 16) (stalled nops m held) ≡ false
unfolding stalled all_free
held_waits zero l = refl
held_waits (suc zero) l = refl
held_waits (suc (suc m)) l = absurd (omega arith)

-- A core whose resources are free.
abbrev pub idle : Core ℕ
idle = record nops { is_free = λ m r. true }

idle_free : (m : ℕ) (rs : List ℕ) → all_free idle m rs ≡ true
unfolding all_free
idle_free m [] = refl
idle_free m (r ∷ rs) = idle_free m rs

-- A core whose resources are free in every second cycle, so that every instruction waits.
abbrev turns : Core ℕ
turns = record nops { is_free = λ m r. m % 2 == 0 }

turn_free : (m : ℕ) (rs : List ℕ) → m % 2 ≡ 0 → all_free turns m rs ≡ true
unfolding all_free
turn_free m [] e = refl
turn_free m (r ∷ rs) e = rw e (turn_free m rs e)

turns-FreesWithin : FreesWithin turns 2
unfolding FreesWithin stalled
turns-FreesWithin = λ inst s. elim (ℕ_discrete (s.points.machine % 2) 0) [
  | yes e ↦ (0, omega arith, turn_free s.points.machine inst.resource_hold e)
  | no n ↦ (1, omega arith, turn_free (s.points.machine - 1) inst.resource_hold (omega (arith, n)))
]

-- Halted at the breakpoint, with seven cycles counted down.
abbrev waiting_top : Top ℕ
waiting_top = record {
  state = record at_breakpoint { points = record at_breakpoint.points { machine = 7 } };
  run_status = k_halted;
}

step_total_example :
    (done : ℕ × Top ℕ) × (step turns 2 77 (pos 5) waiting_top ≡ some (value done.0, done.1))
    × StepCounted turns 5 done.0 done.1
step_total_example = step_total turns 2 77 5 waiting_top turns-FreesWithin (omega arith) refl

-- After the step over the breakpoint, and after the next step.
abbrev past : State ℕ
past = record at_breakpoint {
  pc = 20;
  halted = false;
  need_to_step_over = false;
  num_cycles = 1;
  num_instructions = 1;
  counter_opcode = λ i. if i == 0 then 0 + 1 else 0;
}

abbrev executed : State ℕ
executed = record past {
  pc = 24;
  num_cycles = 2;
  num_instructions = 2;
  counter_opcode = λ i. if i == 0 then past.counter_opcode i + 1 else past.counter_opcode i;
}

past_eq :
    step_past_breakpoint nops 1 (record at_breakpoint { halted = false; need_to_step_over = false })
    ≡ some past
unfolding step_past_breakpoint execute_at execute_until execute_instruction all_free acquire_all
    set_pc write_original write_breakpoint write_original_instruction write_breakpoint_instruction
    find store_instruction
past_eq = refl

executed_eq : execute_at nops 1 past.pc past ≡ some executed
unfolding execute_at execute_until execute_instruction all_free acquire_all set_pc
executed_eq = refl

step_replays_example :
    (step nops 1 77 (pos 1) halted_top ≡ some (value 1, left_at nops 77 past))
    × (step nops 1 77 (pos 2) halted_top ≡ some (value 2, left_at nops 20 executed))
step_replays_example =
    step_replays nops 1 77 halted_top past executed refl refl past_eq refl refl executed_eq refl
      refl

step-counted_example : StepCounted nops 2 2 (left_at nops 20 executed)
step-counted_example =
    step-counted nops 1 77 2 2 halted_top (left_at nops 20 executed) step_replays_example.1
