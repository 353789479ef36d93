-- ===== src/Fuzzer/Kept.antt =====
-- What does not touch the cycles of the tracker of sim/execution_tracker.cc.
use coralnpu_mpact.Prelude.{
  ℕ, zero, suc, ◌+◌, ◌%◌, ◌^◌, ◌/◌, ◌==◌, ◌≡◌, refl, ◌∙◌, ltb, leb, ◌&&◌, ◌||◌, not,
}
use coralnpu_mpact.Prelude.{Bool, true, false, if◌then◌else◌}
use coralnpu_mpact.Prelude.{Option, none, some, List, [], ◌∷◌, codes, text_eq}
use coralnpu_mpact.Fuzzer.Tracker.{
  Operand, VectorLength, Opcodes, ExecutionTracker, cover, check_csr, record_hazard, read_distance,
  track_distance, track_reads, track_sources, registers_of,
}
use coralnpu_mpact.Fuzzer.Reports.{
  count_special, verify_single, verify_value, verify_elements, verify_fp_poison_pills, is_fp_name,
}

-- The count of instructions and the cycles of writes stay.
unfoldable pub Kept : ExecutionTracker → ExecutionTracker → Type 0
Kept t u =
    (u.instruction_count ≡ t.instruction_count) × (u.last_written_cycle ≡ t.last_written_cycle)

pub Kept-trans : (t u v : ExecutionTracker) → Kept t u → Kept u v → Kept t v
unfolding Kept
Kept-trans t u v (a, b) (c, d) = (c ∙ a, d ∙ b)

Kept-if : (b : Bool) (t u v : ExecutionTracker) → Kept t u → Kept t v → Kept t (if b then u else v)
Kept-if true t u v p q = p
Kept-if false t u v p q = q

pub Kept-self : (t : ExecutionTracker) → Kept t t
unfolding Kept
Kept-self t = (refl, refl)

pub Kept-cover : (k : List ℕ) (t : ExecutionTracker) → Kept t (cover k t)
unfolding Kept cover
Kept-cover k t = (refl, refl)

pub Kept-check_csr : (name : List ℕ) (t : ExecutionTracker) → Kept t (check_csr name t)
unfolding Kept check_csr cover
Kept-check_csr name t =
    let same : Kept t t = Kept-self t in
    Kept-if (text_eq name (codes "fflags")) t _ _ (refl, refl)
      (Kept-if (text_eq name (codes "vstart")) t _ _ (refl, refl)
        (Kept-if (text_eq name (codes "mtvec")) t _ _ (refl, refl) (refl, refl)))

pub Kept-track_distance :
    (o : Opcodes) (a : ℕ) (d : Option ℕ) (t : ExecutionTracker) → Kept t (track_distance o a d t)
unfolding track_distance Kept record_hazard
Kept-track_distance o a none t = (refl, refl)
Kept-track_distance o a (some d) t = Kept-if (ltb 0 d && leb d 3) t _ _ (refl, refl) (refl, refl)

pub Kept-track_reads :
    (o : Opcodes) (a : ℕ) (regs : List (List ℕ)) (t : ExecutionTracker)
    → Kept t (track_reads o a regs t)
unfolding track_reads
Kept-track_reads o a [] t = Kept-self t
Kept-track_reads o a (reg ∷ regs) t =
    let u = track_distance o a (read_distance t reg) t in
    Kept-trans t u (track_reads o a regs u) (Kept-track_distance o a (read_distance t reg) t)
      (Kept-track_reads o a regs u)

pub Kept-track_sources :
    (o : Opcodes) (v : VectorLength) (a : ℕ) (ops : List (Option Operand)) (t : ExecutionTracker)
    → Kept t (track_sources o v a ops t)
unfolding track_sources
Kept-track_sources o v a [] t = Kept-self t
Kept-track_sources o v a (none ∷ ops) t = Kept-track_sources o v a ops t
Kept-track_sources o v a (some src ∷ ops) t =
    let r = track_reads o a (registers_of v src) t in
    let u = check_csr src.name r in
    Kept-trans t u (track_sources o v a ops u)
      (Kept-trans t r u (Kept-track_reads o a (registers_of v src) t) (Kept-check_csr src.name r))
      (Kept-track_sources o v a ops u)

Kept-count_special : (e o f q : ℕ) (t : ExecutionTracker) → Kept t (count_special e o f q t)
unfolding count_special cover Kept
Kept-count_special e o f q t =
    Kept-if (e == o && not (f == 0) && f / q % 2 == 0) t _ _ (refl, refl)
      (Kept-if (e == 0 && not (f == 0)) t _ _ (refl, refl) (refl, refl))

Kept-verify_value : (val : ℕ) (t : ExecutionTracker) → Kept t (verify_value val t)
unfolding verify_value verify_single
Kept-verify_value val t =
    let boxed = val / 2 ^ 32 == 0xffffffff in
    let u = if boxed then cover (codes "fp_poison_pill_NaN-boxed_scalar") t else t in
    let first : Kept t u = Kept-if boxed t _ _ (Kept-cover _ t) (Kept-self t) in
    Kept-if (boxed || val / 2 ^ 32 == 0) t _ _
      (Kept-trans t u _ first (Kept-count_special _ _ _ _ u))
      (Kept-trans t u _ first (Kept-count_special _ _ _ _ u))

Kept-verify_elements :
    (n j : ℕ) (value_at : ℕ → ℕ) (t : ExecutionTracker) → Kept t (verify_elements n j value_at t)
unfolding verify_elements
Kept-verify_elements zero j value_at t = Kept-self t
Kept-verify_elements (suc n) j value_at t =
    Kept-trans t (verify_value (value_at j) t) _ (Kept-verify_value (value_at j) t)
      (Kept-verify_elements n (j + 1) value_at (verify_value (value_at j) t))

pub Kept-verify_fp_poison_pills :
    (ops : List (Option Operand)) (t : ExecutionTracker) → Kept t (verify_fp_poison_pills ops t)
unfolding verify_fp_poison_pills
Kept-verify_fp_poison_pills [] t = Kept-self t
Kept-verify_fp_poison_pills (none ∷ ops) t = Kept-verify_fp_poison_pills ops t
Kept-verify_fp_poison_pills (some src ∷ ops) t =
    Kept-trans t _ _
      (Kept-if (is_fp_name src.name) t _ _ (Kept-verify_elements _ 0 src.value_at t) (Kept-self t))
      (Kept-verify_fp_poison_pills ops _)
