-- ===== src/Fuzzer/Counts.antt =====
-- What does not change the counts of hazards of sim/execution_tracker.cc.
use coralnpu_mpact.Prelude.{
  ℕ, zero, suc, ◌+◌, ◌%◌, ◌^◌, ◌/◌, ◌==◌, ◌≡◌, refl, arith, ltb, ◌&&◌, ◌||◌, not,
}
use coralnpu_mpact.Prelude.{Bool, true, false, Bool-cases, inl, inr, if◌then◌else◌, ℤ, pos, negsuc}
use coralnpu_mpact.Prelude.{Option, none, some, List, [], ◌∷◌, codes, text_eq}
use coralnpu_mpact.Fuzzer.Dict.{insert, count_of, count_of-insert_other, increment_count}
use coralnpu_mpact.Fuzzer.Tracker.{
  Operand, VectorLength, Opcodes, ExecutionTracker, cover, log_opcode, check_csr, track_writes,
  track_destinations, registers_of,
}
use coralnpu_mpact.Fuzzer.Reports.{
  count_special, verify_single, verify_value, verify_elements, verify_fp_poison_pills, is_fp_name,
}
use coralnpu_mpact.Fuzzer.Tracker.{hazard_name, opcode_name}
use coralnpu_mpact.Fuzzer.Reports.{is_fp_name}

-- The count of `k` grows by `n`, in 64 bits.
unfoldable pub Counts : List ℕ → ℕ → ExecutionTracker → ExecutionTracker → Type 0
Counts k n t u =
    count_of k u.coverage_summary % 2 ^ 64 ≡ (count_of k t.coverage_summary + n) % 2 ^ 64

pub Counts-self : (k : List ℕ) (t : ExecutionTracker) → Counts k 0 t t
unfolding Counts
Counts-self k t = omega arith

pub Counts-trans :
    (k : List ℕ) (n m : ℕ) (t u v : ExecutionTracker)
    → Counts k n t u
    → Counts k m u v
    → Counts k (n + m) t v
unfolding Counts
Counts-trans k n m t u v a b = omega (arith, a, b)

pub Counts-skip :
    (k : List ℕ) (m : ℕ) (t u v : ExecutionTracker)
    → Counts k 0 t u
    → Counts k m u v
    → Counts k m t v
unfolding Counts
Counts-skip k m t u v a b = omega (arith, a, b)

pub Counts-stop :
    (k : List ℕ) (n : ℕ) (t u v : ExecutionTracker)
    → Counts k n t u
    → Counts k 0 u v
    → Counts k n t v
unfolding Counts
Counts-stop k n t u v a b = omega (arith, a, b)

-- Another key's count, whatever it becomes.
pub Counts-insert :
    (j k : List ℕ) (n : ℕ) (t : ExecutionTracker)
    → text_eq j k ≡ false
    → Counts k 0 t (record t { coverage_summary = insert j n t.coverage_summary })
unfolding Counts
Counts-insert j k n t h = omega (arith, count_of-insert_other j k n t.coverage_summary h)

Counts-cover_other :
    (j k : List ℕ) (t : ExecutionTracker) → text_eq j k ≡ false → Counts k 0 t (cover j t)
unfolding cover increment_count
Counts-cover_other j k t h = Counts-insert j k _ t h

Counts-if :
    (b : Bool) (k : List ℕ) (n : ℕ) (t u v : ExecutionTracker)
    → Counts k n t u
    → Counts k n t v
    → Counts k n t (if b then u else v)
Counts-if true k n t u v p q = p
Counts-if false k n t u v p q = q

pub Counts-check_csr :
    (o : Opcodes) (d : ℕ) (name : List ℕ) (t : ExecutionTracker)
    → Counts (hazard_name o d) 0 t (check_csr name t)
unfolding check_csr hazard_name text_eq
Counts-check_csr o d name t =
    Counts-if (text_eq name (codes "fflags")) _ 0 t _ _ (Counts-cover_other _ _ t refl) (
      Counts-if (text_eq name (codes "vstart")) _ 0 t _ _ (Counts-cover_other _ _ t refl) (
        Counts-if (text_eq name (codes "mtvec")) _ 0 t _ _ (Counts-insert _ _ 1 t refl)
          (Counts-self _ t)))

Counts-track_writes :
    (k : List ℕ) (regs : List (List ℕ)) (t : ExecutionTracker) → Counts k 0 t (track_writes regs t)
unfolding track_writes Counts
Counts-track_writes k [] t = omega arith
Counts-track_writes k (reg ∷ regs) t = Counts-track_writes k regs _

pub Counts-track_destinations :
    (o : Opcodes) (v : VectorLength) (d : ℕ) (ops : List (Option Operand)) (t : ExecutionTracker)
    → Counts (hazard_name o d) 0 t (track_destinations v ops t)
unfolding track_destinations
Counts-track_destinations o v d [] t = Counts-self _ t
Counts-track_destinations o v d (none ∷ ops) t = Counts-track_destinations o v d ops t
Counts-track_destinations o v d (some dest ∷ ops) t =
    let w = track_writes (registers_of v dest) t in
    let u = check_csr dest.name w in
    Counts-trans (hazard_name o d) 0 0 t w _ (Counts-track_writes _ (registers_of v dest) t) (
      Counts-trans (hazard_name o d) 0 0 w u _ (Counts-check_csr o d dest.name w)
        (Counts-track_destinations o v d ops u))

Counts-count_special :
    (o : Opcodes) (d e w f q : ℕ) (t : ExecutionTracker)
    → Counts (hazard_name o d) 0 t (count_special e w f q t)
unfolding count_special hazard_name text_eq
Counts-count_special o d e w f q t =
    Counts-if (e == w && not (f == 0) && f / q % 2 == 0) _ 0 t _ _ (Counts-cover_other _ _ t refl) (
      Counts-if (e == 0 && not (f == 0)) _ 0 t _ _ (Counts-cover_other _ _ t refl)
        (Counts-self _ t))

Counts-verify_value :
    (o : Opcodes) (d val : ℕ) (t : ExecutionTracker)
    → Counts (hazard_name o d) 0 t (verify_value val t)
unfolding verify_value verify_single hazard_name text_eq
Counts-verify_value o d val t =
    let k = hazard_name o d in
    let boxed = val / 2 ^ 32 == 0xffffffff in
    let u = if boxed then cover (codes "fp_poison_pill_NaN-boxed_scalar") t else t in
    let first : Counts k 0 t u =
      Counts-if boxed k 0 t _ _ (Counts-cover_other _ _ t refl) (Counts-self _ t) in
    Counts-if (boxed || val / 2 ^ 32 == 0) k 0 t _ _
      (Counts-trans k 0 0 t u _ first (Counts-count_special o d _ _ _ _ u))
      (Counts-trans k 0 0 t u _ first (Counts-count_special o d _ _ _ _ u))

Counts-verify_elements :
    (o : Opcodes) (d n j : ℕ) (value_at : ℕ → ℕ) (t : ExecutionTracker)
    → Counts (hazard_name o d) 0 t (verify_elements n j value_at t)
unfolding verify_elements
Counts-verify_elements o d zero j value_at t = Counts-self _ t
Counts-verify_elements o d (suc n) j value_at t =
    Counts-trans (hazard_name o d) 0 0 t (verify_value (value_at j) t) _
      (Counts-verify_value o d (value_at j) t)
      (Counts-verify_elements o d n (j + 1) value_at (verify_value (value_at j) t))

pub Counts-verify_fp_poison_pills :
    (o : Opcodes) (d : ℕ) (ops : List (Option Operand)) (t : ExecutionTracker)
    → Counts (hazard_name o d) 0 t (verify_fp_poison_pills ops t)
unfolding verify_fp_poison_pills
Counts-verify_fp_poison_pills o d [] t = Counts-self _ t
Counts-verify_fp_poison_pills o d (none ∷ ops) t = Counts-verify_fp_poison_pills o d ops t
Counts-verify_fp_poison_pills o d (some src ∷ ops) t =
    Counts-trans (hazard_name o d) 0 0 t _ _
      (Counts-if (is_fp_name src.name) _ 0 t _ _ (Counts-verify_elements o d _ 0 src.value_at t)
        (Counts-self _ t))
      (Counts-verify_fp_poison_pills o d ops _)

text_eq-opcode_name :
    (o : Opcodes) (opcode : ℤ) (d : ℕ) → text_eq (opcode_name o opcode) (hazard_name o d) ≡ false
unfolding text_eq opcode_name hazard_name
text_eq-opcode_name o (pos index) d = elim (Bool-cases (ltb index o.k_past_max_value)) [
  | inl e ↦ rw (e, opcode_name) refl
  | inr e ↦ rw (e, opcode_name) refl
]
text_eq-opcode_name o (negsuc index) d = refl

pub Counts-log_opcode :
    (o : Opcodes) (opcode : ℤ) (d : ℕ) (t : ExecutionTracker)
    → Counts (hazard_name o d) 0 t (log_opcode o opcode t)
unfolding log_opcode Counts
Counts-log_opcode o opcode d t =
    Counts-cover_other (opcode_name o opcode) (hazard_name o d)
      (record t { instruction_count = (t.instruction_count + 1) % 2 ^ 64 })
      (text_eq-opcode_name o opcode d)
