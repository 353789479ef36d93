-- ===== src/Top/Threads.antt =====
-- The threads of sim/coralnpu_top.cc: one simulates at a time, exactly while the status says so.
use mathlib.Core.Option.{some-injective}
use coralnpu_mpact.Prelude.{ℕ, ◌≡◌, ◌∙◌, refl, sym, ap, arith, true, false, Bool-cases}
use coralnpu_mpact.Prelude.{Option, none, some, Option-cases, List, [], ◌∷◌, ◌++◌, ◌⊎◌, inl, inr}
use coralnpu_mpact.Prelude.{ℤ, pos, negsuc}
use coralnpu_mpact.Top.{
  Status, ok, StatusOr, RunStatus, k_halted, k_running, k_single_step, State, Core, Top,
}
use coralnpu_mpact.Top.Step.{is_halted, step, step_halted, step_over, finish_step}
use coralnpu_mpact.Top.Handlers.{halt, halt_for}
use coralnpu_mpact.Top.Session.{
  Thread, Session, after_pass, start_thread, run, finish_run, Move, halts, halts_for, runs,
  single_steps, passes, leaves, notifies, waits, Reach, here, next,
}

module _ {ℓ} {A : Type ℓ} where
  pub not_empty : (xs : List A) (x : A) (ys : List A) → xs ++ x ∷ ys ≡ [] → ⊥
  not_empty [] x ys e = cc
  not_empty (z ∷ xs) x ys e = cc

  pub alone : (xs : List A) (x y : A) (ys : List A) → xs ++ x ∷ ys ≡ y ∷ [] → (xs ≡ []) × (ys ≡ [])
  alone [] x y ys e = (refl, cc)
  alone (z ∷ xs) x y ys e = absurd (not_empty xs x ys cc)

is_halted-eq : (r : RunStatus) → is_halted r ≡ true → r ≡ k_halted
is_halted-eq k_halted h = refl
is_halted-eq k_running h = cc
is_halted-eq k_single_step h = cc

module _ {S : Type 0} where
  -- A thread loops, and the status says that the core runs; or no thread does, and the status says
  -- that it is halted.
  pub IsSound : Session S → Type 0
  IsSound s =
      ((s.top.run_status ≡ k_running) × ((thread : Thread) × (s.looping ≡ thread ∷ [])))
      ⊎ ((s.top.run_status ≡ k_halted) × (s.looping ≡ []))

  halt-run_status : (t : Top S) → (halt t).1.run_status ≡ t.run_status
  unfolding halt
  halt-run_status t = ground arith

module _ {S : Type 0} (core : Core S) where
  step_halted-run_status :
      (fuel i num count : ℕ) (s : State S) (t : Top S)
      → step_halted core fuel i num s ≡ some (count, t)
      → t.run_status ≡ k_halted
  unfolding step_halted finish_step
  step_halted-run_status fuel i num count s t h = ground arith

  -- `Step` leaves a core halted that was halted, and any other as it is.
  step-run_status :
      (fuel i : ℕ) (num : ℤ) (result : StatusOr ℕ) (t u : Top S)
      → step core fuel i num t ≡ some (result, u)
      → (u ≡ t) ⊎ ((t.run_status ≡ k_halted) × (u.run_status ≡ k_halted))
  unfolding step
  step-run_status fuel i (negsuc n) result t u h = inl cc
  step-run_status fuel i (pos num) result t u h = elim (Bool-cases (is_halted t.run_status)) [
    | inr r ↦ inl (ground (arith, r))
    | inl r ↦ elim (Option-cases (step_halted core fuel i num t.state)) [
      | inl e ↦ ground (arith, e, r)
      | inr (done, e) ↦
          let halted = step_halted-run_status fuel i num done.0 t.state done.1 e in
          ground (arith, e, r, halted, is_halted-eq t.run_status r)
    ]
  ]

  run-IsSound :
      (fuel i : ℕ) (result : Status) (s t : Session S)
      → run core fuel i s ≡ some (result, t)
      → IsSound s
      → IsSound t
  unfolding run IsSound start_thread
  run-IsSound fuel i result s t h sound = elim sound [
    | inl running ↦ ground (arith, running.0, running.1.1)
    | inr halted ↦ elim (Option-cases (step_over core fuel s.top.state)) [
      | inl e ↦ absurd (nothing (rw (e, halted.0, run) at h))
      | inr (over, e) ↦
          let started : ◌≡◌ {A = Option (Status × Session S)}
              (some (ok, start_thread core i over.1 s)) (some (result, t)) =
            rw (e, halted.0, run) at h in
          let same : start_thread core i over.1 s ≡ t =
            ap (λ r. r.1) (some-injective {A = Status × Session S} _ _ started) in
          let first : Thread = record { pc = i; next_pc = over.1.pc; leaving = false } in
          rw (sym same) (inl (refl, (first, ap (λ l. first ∷ l) halted.1)))
    ]
  ]
    where
      nothing : ◌≡◌ {A = Option (Status × Session S)} none (some (result, t)) → ⊥
      nothing e = cc

  Move-IsSound : {s t : Session S} → Move core s t → IsSound s → IsSound t
  unfolding IsSound halt_for finish_run
  Move-IsSound (halts s) sound = rw (halt-run_status s.top) sound
  Move-IsSound (halts_for s reason) sound = sound
  Move-IsSound (runs s t fuel i result h) sound = run-IsSound fuel i result s t h sound
  Move-IsSound (single_steps s fuel i num result t h) sound =
      elim (step-run_status fuel i num result s.top t h) [
        | inl same ↦ rw same sound
        | inr both ↦ elim sound [
          | inl running ↦ absurd (not_both (sym running.0 ∙ both.0))
          | inr halted ↦ inr (both.1, halted.1)
        ]
      ]
    where
      not_both : k_running ≡ k_halted → ⊥
      not_both e = cc
  Move-IsSound (passes s before others thread fuel p l n h q) sound = elim sound [
    | inl running ↦
        let only = alone before thread running.1.0 others (sym l ∙ running.1.1) in
        inl (running.0, (after_pass core thread p, rw (only.0, only.1) refl))
    | inr halted ↦ absurd (not_empty before thread others (sym l ∙ halted.1))
  ]
  Move-IsSound (leaves s before others thread l c) sound = elim sound [
    | inl running ↦
        let only = alone before thread running.1.0 others (sym l ∙ running.1.1) in
        inr (refl, rw (only.0, only.1) refl)
    | inr halted ↦ absurd (not_empty before thread others (sym l ∙ halted.1))
  ]
  Move-IsSound (notifies s left n e w) sound = sound
  Move-IsSound (waits s n e) sound = sound

  -- From a simulator that is halted with no thread, whatever a user calls and in whatever order its
  -- calls and the threads' passes come, there is one thread that executes instructions while the
  -- status is `kRunning`, and otherwise none, with the status `kHalted`.
  pub Reach-IsSound :
      {s t : Session S} → s.top.run_status ≡ k_halted → s.looping ≡ [] → Reach core s t → IsSound t
  unfolding IsSound
  Reach-IsSound h l here = inr (h, l)
  Reach-IsSound h l (next r m) = Move-IsSound m (Reach-IsSound h l r)
