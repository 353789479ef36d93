-- ===== src/Examples/Session.antt =====
-- The theorems on runs, on a core of instructions that do nothing.
use coralnpu_mpact.Prelude.{ℕ, ◌≡◌, refl, false, none, some, [], ◌∷◌, inr}
use coralnpu_mpact.Top.{ok, k_halted, k_running}
use coralnpu_mpact.Top.Step.{step_over}
use coralnpu_mpact.Top.Handlers.{halt}
use coralnpu_mpact.Top.Session.{
  Thread, Session, Move, here, next, runs, halts, leaves, run, start_thread, finish_run, with_top,
}
use coralnpu_mpact.Top.Threads.{IsSound, Reach-IsSound}
use coralnpu_mpact.Examples.Top.{idle, at_breakpoint}

abbrev resting : Session ℕ
resting = record {
  top = record {
    state = record at_breakpoint { need_to_step_over = false };
    run_status = k_halted;
  };
  looping = [];
  ending = 0;
  run_halted = none;
}

abbrev thread : Thread
thread = record { pc = 16; next_pc = 20; leaving = false }

abbrev running : Session ℕ
running = record {
  top = record { state = record at_breakpoint { halted = false }; run_status = k_running };
  looping = thread ∷ [];
  ending = 0;
  run_halted = some 0;
}

abbrev halting_idle : Session ℕ
halting_idle = with_top (halt running.top).1 running

-- The thread has left its loop, and is to notify.
abbrev left_idle : Session ℕ
left_idle = finish_run idle thread [] halting_idle

-- A run that is halted before it executes an instruction, and ends.
abbrev started : Session ℕ
started = start_thread idle 77 resting.top.state resting

run-resting : run idle 1 77 resting ≡ some (ok, started)
unfolding run step_over
run-resting = refl

abbrev ending : Session ℕ
ending = with_top (halt started.top).1 started

abbrev first : Thread
first = record { pc = 77; next_pc = 16; leaving = false }

first_leaves : Move idle ending (finish_run idle first [] ending)
unfolding start_thread halt
first_leaves = leaves ending [] [] first refl (inr refl)

Reach-IsSound_example : IsSound (finish_run idle first [] ending)
Reach-IsSound_example = Reach-IsSound idle {s = resting} refl refl (
    next (next (next here (runs resting started 1 77 ok run-resting)) (halts started)) first_leaves)
