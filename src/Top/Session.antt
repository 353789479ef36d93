-- ===== src/Top/Session.antt =====
-- `Run` and `Wait` of sim/coralnpu_top.cc, with the threads that `Run` detaches: a user's calls and the
-- threads' passes in any order, each of them whole.
use coralnpu_mpact.Prelude.{
  ℕ, suc, ◌+◌, ◌≡◌, Bool, true, false, not, Option, none, some, List, ◌∷◌, ◌++◌, ℤ, ◌⊎◌,
  if◌then◌else◌,
}
use coralnpu_mpact.Top.{
  Status, ok, failed, failed_precondition, StatusOr, HaltReason, RunStatus, k_halted, k_running,
  State, Core, Top,
}
use coralnpu_mpact.Top.Simulator.{Pass, pass, update_pc}
use coralnpu_mpact.Top.Step.{step_over, step}
use coralnpu_mpact.Top.Handlers.{halt, halt_for}

-- The variables of a simulation thread, and whether it has left its loop by `break`.
pub record Thread : Type 0 where
  pub pc : ℕ
  pub next_pc : ℕ
  pub leaving : Bool

-- The simulator with its threads: those that have not yet set `run_status_` to `kHalted`, how many
-- have and are still to notify, and `run_halted_`, by how often it was notified.
pub record Session (S : Type 0) : Type 0 where
  pub top : Top S
  pub looping : List Thread
  pub ending : ℕ
  pub run_halted : Option ℕ

abbrev pub is_running : RunStatus → Bool
is_running k_running = true
is_running _ = false

module _ {S : Type 0} where
  abbrev pub with_state : State S → Session S → Session S
  with_state state s = record s { top = record s.top { state = state } }

  abbrev pub with_top : Top S → Session S → Session S
  with_top top s = record s { top = top }

module _ {S : Type 0} (core : Core S) where
  -- The new thread of `Run`, on the state it starts from.
  unfoldable pub start_thread : ℕ → State S → Session S → Session S
  start_thread indeterminate state s = record s {
    top = record { state = record state { halted = false }; run_status = k_running };
    looping = record { pc = indeterminate; next_pc = state.pc; leaving = false } ∷ s.looping;
    run_halted = some 0;
  }

  unfoldable pub run : ℕ → ℕ → Session S → Option (Status × Session S)
  run fuel indeterminate s =
      if is_running s.top.run_status
      then some (failed failed_precondition, s)
      else elim (step_over core fuel s.top.state) [
        | none ↦ none
        | some over ↦ some (ok, start_thread indeterminate over.1 s)
      ]

  -- A thread after a pass of its loop.
  abbrev pub after_pass : Thread → Pass S → Thread
  after_pass thread p = record {
    pc = thread.next_pc;
    next_pc = p.next_pc;
    leaving = not p.continues;
  }

  -- A thread updates the pc register and the status after its loop.
  unfoldable pub finish_run : Thread → List Thread → Session S → Session S
  finish_run thread others s = record s {
    top = record {
      state = update_pc core thread.pc thread.next_pc s.top.state;
      run_status = k_halted;
    };
    looping = others;
    ending = s.ending + 1;
  }

  -- `run_halted_->Notify()`, where `run_halted_` is allocated and was notified `n` times.
  abbrev pub notified : ℕ → ℕ → Session S → Session S
  notified left n s = record s { ending = left; run_halted = some (suc n) }

  -- One step of the simulator: a user's call, or a step of a thread. A thread that would notify a null
  -- `run_halted_`, which is undefined, has no step.
  pub data Move : Session S → Session S → Type 0 where
    halts : (s : Session S) → Move s (with_top (halt s.top).1 s)
    halts_for :
        (s : Session S) (reason : HaltReason) → Move s (with_top (halt_for reason s.top).1 s)
    runs :
        (s t : Session S) (fuel i : ℕ) (result : Status)
        → run fuel i s ≡ some (result, t)
        → Move s t
    single_steps :
        (s : Session S) (fuel i : ℕ) (num : ℤ) (result : StatusOr ℕ) (t : Top S)
        → step core fuel i num s.top ≡ some (result, t)
        → Move s (with_top t s)
    passes :
        (s : Session S) (before others : List Thread) (thread : Thread) (fuel : ℕ) (p : Pass S)
        → s.looping ≡ before ++ thread ∷ others
        → thread.leaving ≡ false
        → s.top.state.halted ≡ false
        → pass core fuel false thread.next_pc s.top.state ≡ some p
        → Move s
            (record (with_state p.after s) { looping = before ++ after_pass thread p ∷ others })
    leaves :
        (s : Session S) (before others : List Thread) (thread : Thread)
        → s.looping ≡ before ++ thread ∷ others
        → (thread.leaving ≡ true) ⊎ (s.top.state.halted ≡ true)
        → Move s (finish_run thread (before ++ others) s)
    notifies :
        (s : Session S) (left n : ℕ)
        → s.ending ≡ suc left
        → s.run_halted ≡ some n
        → Move s (notified left n s)
    waits :
        (s : Session S) (n : ℕ)
        → s.run_halted ≡ some (suc n)
        → Move s (record s { run_halted = none })

  pub data Reach (s : Session S) : Session S → Type 0 where
    here : Reach s s
    next : {t u : Session S} → Reach s t → Move t u → Reach s u
