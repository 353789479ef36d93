-- ===== src/Top/Counts.antt =====
-- What `CoralNPUTop::Step` of sim/coralnpu_top.cc returns: how many steps it takes.
use native.Mathlib.Decide.{ℕ_discrete, dec_lt}
use mathlib.Core.Option.{some-injective}
use coralnpu_mpact.Prelude.{
  ℕ, zero, suc, ◌==◌, ◌<◌, ◌≤◌, ◌≡◌, ◌∙◌, refl, sym, ap, arith, Bool-cases,
}
use coralnpu_mpact.Prelude.{inl, inr, ◌⊎◌, true, false, Option, some, none, Option-cases, pos}
use coralnpu_mpact.Top.{StatusOr, value, k_halted, State, Core, Top}
use coralnpu_mpact.Top.Simulator.{update_pc, set_pc}
use coralnpu_mpact.Top.Step.{
  Loop, passed, steps, step_over, step_halted, step, finish_step, is_halted,
}
use coralnpu_mpact.Top.Passes.{
  pass_breaks, steps-halted, steps_done, steps-pass, pass_of_steps, loop_start, step_halted-over,
  step_over-none, steps-none,
}

module _ {S : Type 0} (core : Core S) where
  -- What the loop does with the count.
  pub Counted : ℕ → Loop S → Loop S → Type 0
  Counted num l m =
      (l.count ≤ m.count)
      × (l.count ≤ num → m.count ≤ num)
      × (m.count < num → m.state.halted ≡ true)
      × (l.state.halted ≡ false → l.count < num → l.count < m.count)

  steps-Counted :
      (fuel rounds num : ℕ) (l m : Loop S) → steps core fuel rounds num l ≡ some m → Counted num l m
  unfolding steps Counted
  steps-Counted fuel zero num l m h = absurd (nothing h)
    where
      nothing : none ≡ some m → ⊥
      nothing c = cc
  steps-Counted fuel (suc rounds) num l m h = elim (Bool-cases l.state.halted) [
    | inl e ↦
        let same : l ≡ m = some-injective _ _ (sym (steps-halted core fuel rounds num l e) ∙ h) in
        rw (sym same) (omega arith, λ z. z, λ z. e, λ c z. absurd (not_both (sym e ∙ c)))
    | inr e ↦ elim (dec_lt l.count num) [
      | no k ↦
          let same : l ≡ m =
            some-injective _ _ (sym (steps_done core fuel rounds num l (omega arith)) ∙ h) in
          rw (sym same) (
            omega arith,
            λ z. z,
            λ z. absurd (omega (arith, z, k)),
            λ c z. absurd (omega (arith, z, k)),
          )
      | yes k ↦
          let (p, q) = pass_of_steps core fuel rounds num l m e k h in
          let rest = sym (steps-pass core fuel rounds num l p e k q) ∙ h in
          elim (Bool-cases p.continues) [
            | inl c ↦
                let (a, b, d, z) = steps-Counted fuel rounds num (passed l p) m (rw c at rest) in
                (omega arith, λ y. b (omega arith), λ y. d (omega arith), λ y z. omega arith)
            | inr c ↦
                let same : passed l p ≡ m = some-injective _ _ (rw c at rest) in
                rw (sym same) (
                  omega arith,
                  λ y. omega arith,
                  λ y. pass_breaks core fuel true l.next_pc l.state p q c,
                  λ y z. omega arith,
                )
          ]
    ]
  ]
    where
      not_both : true ≡ false → ⊥
      not_both c = cc

  step_over-count :
      (fuel : ℕ) (s : State S) (over : ℕ × State S)
      → step_over core fuel s ≡ some over
      → (over.0 ≤ 1) × (over.0 ≡ 0 → over.1.halted ≡ s.halted)
  unfolding step_over
  step_over-count fuel s over h = ground arith

  finish_step-halted : (l : Loop S) → (finish_step core l).state.halted ≡ l.state.halted
  unfolding finish_step update_pc set_pc
  finish_step-halted l = ground arith

  finish_step-run_status : (l : Loop S) → (finish_step core l).run_status ≡ k_halted
  unfolding finish_step
  finish_step-run_status l = refl

  -- What the steps of a halted core return.
  pub StepCounted : ℕ → ℕ → Top S → Type 0
  StepCounted num count t =
      (1 ≤ count)
      × (count ≤ num)
      × (t.run_status ≡ k_halted)
      × ((count ≡ num) ⊎ (t.state.halted ≡ true))

  -- A run of the steps of a halted core, taken apart.
  record Taken (fuel i num : ℕ) (s : State S) (count : ℕ) (t : Top S) : Type 0 where
    over : ℕ × State S
    loop : Loop S
    over_eq : step_over core fuel (record s { halted = false }) ≡ some over
    steps_eq : steps core fuel (suc num) num (loop_start core i over) ≡ some loop
    count_eq : loop.count ≡ count
    top_eq : finish_step core loop ≡ t

  step_halted-Taken :
      (fuel i num count : ℕ) (s : State S) (t : Top S)
      → step_halted core fuel i num s ≡ some (count, t)
      → Taken fuel i num s count t
  step_halted-Taken fuel i num count s t h =
      elim (Option-cases (step_over core fuel (record s { halted = false }))) [
        | inl e ↦ absurd (nothing (sym (step_over-none core fuel i num s e) ∙ h))
        | inr (over, e) ↦
            elim (Option-cases (steps core fuel (suc num) num (loop_start core i over))) [
              | inl e' ↦ absurd (nothing (sym (steps-none core fuel i num s over e e') ∙ h))
              | inr (l, e') ↦ record {
                over = over;
                loop = l;
                over_eq = e;
                steps_eq = e';
                count_eq = ap (λ r. r.0) (result over l e e');
                top_eq = ap (λ r. r.1) (result over l e e');
              }
            ]
      ]
    where
      result :
          (over : ℕ × State S) (l : Loop S)
          → step_over core fuel (record s { halted = false }) ≡ some over
          → steps core fuel (suc num) num (loop_start core i over) ≡ some l
          → ◌≡◌ {A = ℕ × Top S} (l.count, finish_step core l) (count, t)
      result over l e e' =
          some-injective {A = ℕ × Top S} _ _
            (sym (step_halted-over core fuel i num s over l e e') ∙ h)

      nothing : ◌≡◌ {A = Option (ℕ × Top S)} none (some (count, t)) → ⊥
      nothing c = cc

  step_halted-counted :
      (fuel i num count : ℕ) (s : State S) (t : Top S)
      → 0 < num
      → step_halted core fuel i num s ≡ some (count, t)
      → StepCounted num count t
  unfolding StepCounted Counted
  step_halted-counted fuel i num count s t z h =
      let taken = step_halted-Taken fuel i num count s t h in
      let (small, fresh) =
        step_over-count fuel (record s { halted = false }) taken.over taken.over_eq in
      let (up, most, ends, first) =
        steps-Counted fuel (suc num) num (loop_start core i taken.over) taken.loop taken.steps_eq in
      let same : finish_step core taken.loop ≡ t = taken.top_eq in
      let counts : taken.loop.count ≡ count = taken.count_eq in
      (
        elim (ℕ_discrete taken.over.0 0) [
          | yes e ↦ omega (arith, counts, first (fresh e) (omega arith), e)
          | no e ↦ omega (arith, counts, up, e)
        ],
        omega (arith, counts, most (omega (arith, small, z))),
        sym (ap (λ r. r.run_status) same) ∙ finish_step-run_status taken.loop,
        elim (ℕ_discrete count num) [
          | yes e ↦ inl e
          | no e ↦ inr (
              sym (ap (λ r. r.state.halted) same)
              ∙ finish_step-halted taken.loop
              ∙ ends (omega (arith, counts, most (omega (arith, small, z)), e)))
        ],
      )

  returned_halted :
      (fuel i num count : ℕ) (t after : Top S)
      → (num == 0) ≡ false
      → is_halted t.run_status ≡ true
      → step core fuel i (pos num) t ≡ some (value count, after)
      → step_halted core fuel i num t.state ≡ some (count, after)
  unfolding step
  returned_halted fuel i num count t after z r h =
      elim (Option-cases (step_halted core fuel i num t.state)) [
        | inl e ↦ absurd (nothing (rw (e, z, r) at h))
        | inr (done, e) ↦ e ∙ ap some (same done (rw (e, z, r) at h))
      ]
    where
      nothing : ◌≡◌ {A = Option (StatusOr ℕ × Top S)} none (some (value count, after)) → ⊥
      nothing c = cc

      same :
          (done : ℕ × Top S)
          → ◌≡◌ {A = Option (StatusOr ℕ × Top S)}
              (some (value done.0, done.1))
              (some (value count, after))
          → ◌≡◌ {A = ℕ × Top S} done (count, after)
      same done c = cc

  not_returned :
      (num count fuel i : ℕ) (t after : Top S)
      → step core fuel i (pos num) t ≡ some (value count, after)
      → ((num == 0) ≡ false) × (is_halted t.run_status ≡ true)
  unfolding step
  not_returned num count fuel i t after h = ground (arith)

  -- When `Step(num)` returns a count, that count is at least 1 and at most `num`, the core is halted, and
  -- fewer steps than `num` are due to a halt request.
  pub step-counted :
      (fuel i num count : ℕ) (t after : Top S)
      → step core fuel i (pos num) t ≡ some (value count, after)
      → StepCounted num count after
  step-counted fuel i num count t after h =
      let (z, r) = not_returned num count fuel i t after h in
      step_halted-counted fuel i num count t.state after (ground arith)
        (returned_halted fuel i num count t after z r h)
