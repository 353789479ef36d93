-- ===== src/Top/Halting.antt =====
-- How a run of sim/coralnpu_top.cc ends: what `Halt()` leads to.
use coralnpu_mpact.Prelude.{◌≡◌, Bool, true, false}
use coralnpu_mpact.Prelude.{none, some, [], ◌∷◌, ◌⊎◌}
use coralnpu_mpact.Top.{k_halted, k_running, k_user_request, State, Core}
use coralnpu_mpact.Top.Simulator.{set_pc}
use coralnpu_mpact.Top.Session.{
  Thread, Session, Move, halts, halts_for, runs, single_steps, passes, leaves, notifies, waits,
}

module _ {S : Type 0} where
  -- One thread runs, no other one is left to notify, and its `Notification` was not notified.
  abbrev pub run_by : Thread → State S → Session S
  run_by thread state = record {
    top = record { state = state; run_status = k_running };
    looping = thread ∷ [];
    ending = 0;
    run_halted = some 0;
  }

  -- The state after `Halt()`.
  abbrev pub halting : State S → State S
  halting state = record state { halt_reason = k_user_request; halted = true }

  -- That simulator after `Halt()`.
  abbrev pub asked : Thread → State S → Session S
  asked thread state = run_by thread (halting state)

module _ {S : Type 0} (core : Core S) where
  -- The moves of the threads, `Halt()` and `Wait()`: neither a run, nor a step, nor another request.
  abbrev pub is_quiet : {s t : Session S} → Move core s t → Bool
  is_quiet (halts s) = true
  is_quiet (halts_for s reason) = false
  is_quiet (runs s t fuel i result h) = false
  is_quiet (single_steps s fuel i num result t h) = false
  is_quiet (passes s before others thread fuel p l n h q) = true
  is_quiet (leaves s before others thread l c) = true
  is_quiet (notifies s left n e w) = true
  is_quiet (waits s n e) = true

  pub data Quiet (s : Session S) : Session S → Type 0 where
    still : Quiet s s
    onward : {t u : Session S} → Quiet s t → (m : Move core t u) → is_quiet m ≡ true → Quiet s u

  module _ (thread : Thread) (state : State S) where
    -- The state of a core halted at the instruction that the thread was to execute next.
    abbrev pub final : State S
    final = set_pc core thread.next_pc (halting state)

    -- The thread has left its loop; it has notified; and the user has waited for that.
    abbrev ended : Session S
    ended = record {
      top = record { state = final; run_status = k_halted };
      looping = [];
      ending = 1;
      run_halted = some 0;
    }

    abbrev told : Session S
    told = record ended { ending = 0; run_halted = some 1 }

    abbrev pub stopped : Session S
    stopped = record told { run_halted = none }

    Phase : Session S → Type 0
    Phase t = (t ≡ asked thread state) ⊎ (t ≡ ended) ⊎ (t ≡ told) ⊎ (t ≡ stopped)
