-- ===== src/Fuzzer/Distances.antt =====
-- The hazards that the tracker of sim/execution_tracker.cc counts.
use coralnpu_mpact.Prelude.{
  ℕ, ◌+◌, ◌%◌, ◌^◌, ◌<◌, ◌≤◌, ◌==◌, ◌≡◌, ◌⊎◌, refl, ap₂, ◌∙◌, arith, ltb, leb, ◌&&◌,
}
use coralnpu_mpact.Prelude.{Bool, true, false, Bool-cases, inl, inr, if◌then◌else◌, length}
use coralnpu_mpact.Prelude.{Option, none, some, List, [], ◌∷◌, ◌++◌, text_eq}
use coralnpu_mpact.Fuzzer.Dict.{lookup, count_of, count_of-insert_self, increment_count}
use coralnpu_mpact.Fuzzer.Tracker.{
  Operand, TrackedInstruction, VectorLength, Opcodes, ExecutionTracker, cover, log_opcode,
  check_csr, record_hazard, distance_from, read_distance, track_distance, track_reads,
  track_sources, track_destinations, registers_of, length_of, calculate_hazard_distance,
}
use coralnpu_mpact.Fuzzer.Reports.{on_instruction}
use coralnpu_mpact.Fuzzer.Kept.{
  Kept, Kept-trans, Kept-check_csr, Kept-track_distance, Kept-track_reads,
}
use coralnpu_mpact.Fuzzer.Tracker.{hazard_name}
use coralnpu_mpact.Fuzzer.Cycles.{
  registers_named, last_write, or_else, run_all, new_tracker, last_writes_kept,
}
use coralnpu_mpact.Fuzzer.Counts.{
  Counts, Counts-self, Counts-trans, Counts-skip, Counts-stop, Counts-insert, Counts-check_csr,
  Counts-track_destinations, Counts-verify_fp_poison_pills, Counts-log_opcode,
}

-- 1 for the distance `d`.
unfoldable hit : ℕ → Option ℕ → ℕ
hit d none = 0
hit d (some e) = if e == d then 1 else 0

-- Different numbers have different texts.
unfoldable pub HasDistinctTexts : Opcodes → Type 0
HasDistinctTexts o = (e d : ℕ) → text_eq (o.str_cat e) (o.str_cat d) ≡ (e == d)

text_eq-hazard_name :
    (o : Opcodes) (texts : HasDistinctTexts o) (e d : ℕ)
    → text_eq (hazard_name o e) (hazard_name o d) ≡ (e == d)
unfolding hazard_name text_eq HasDistinctTexts
text_eq-hazard_name o texts e d = texts e d

Counts-record_hazard :
    (o : Opcodes) (texts : HasDistinctTexts o) (a e d : ℕ) (t : ExecutionTracker)
    → Counts (hazard_name o d) (hit d (some e)) t (record_hazard a (hazard_name o e) t)
unfolding record_hazard increment_count hit Counts
Counts-record_hazard o texts a e d t = elim (Bool-cases (e == d)) [
  | inl q ↦
      let same : e ≡ d = ground (arith, q) in
      rw (q, same)
        (omega (
          arith,
          count_of-insert_self (hazard_name o d)
              ((count_of (hazard_name o d) t.coverage_summary + 1) % 2 ^ 64) t.coverage_summary,
        ))
  | inr q ↦
      rw q (
        Counts-insert (hazard_name o e) (hazard_name o d) _ t (text_eq-hazard_name o texts e d ∙ q))
]

Counts-track_distance :
    (o : Opcodes) (texts : HasDistinctTexts o) (a d : ℕ) (e : Option ℕ) (t : ExecutionTracker)
    → 0 < d
    → d ≤ 3
    → Counts (hazard_name o d) (hit d e) t (track_distance o a e t)
unfolding track_distance hit
Counts-track_distance o texts a d none t l h = Counts-self _ t
Counts-track_distance o texts a d (some e) t l h = elim (Bool-cases (ltb 0 e && leb e 3)) [
  | inl q ↦ rw q (Counts-record_hazard o texts a e d t)
  | inr q ↦ let far : (e == d) ≡ false = ground (arith, q) in rw (q, far) (Counts-self _ t)
]

-- The hits of the distances `f` among some registers.
unfoldable hits : ℕ → (List ℕ → Option ℕ) → List (List ℕ) → ℕ
hits d f [] = 0
hits d f (reg ∷ regs) = hit d (f reg) + hits d f regs

read_distance-Kept :
    (t u : ExecutionTracker) (reg : List ℕ) → Kept t u → read_distance u reg ≡ read_distance t reg
unfolding Kept read_distance
read_distance-Kept t u reg (a, b) = ap₂ (λ n m. distance_from n (lookup reg m)) a b

hits_cong :
    (d : ℕ) (f g : List ℕ → Option ℕ) (regs : List (List ℕ))
    → ((r : List ℕ) → f r ≡ g r)
    → hits d f regs ≡ hits d g regs
unfolding hits
hits_cong d f g [] h = refl
hits_cong d f g (reg ∷ regs) h = rw (h reg, hits_cong d f g regs h) refl

hits_append :
    (d : ℕ) (f : List ℕ → Option ℕ) (xs ys : List (List ℕ))
    → hits d f (xs ++ ys) ≡ hits d f xs + hits d f ys
unfolding hits
hits_append d f [] ys = omega arith
hits_append d f (x ∷ xs) ys = omega (arith, hits_append d f xs ys)

Counts-track_reads :
    (o : Opcodes) (texts : HasDistinctTexts o) (a d : ℕ) (regs : List (List ℕ))
    (t : ExecutionTracker)
    → 0 < d
    → d ≤ 3
    → Counts (hazard_name o d) (hits d (read_distance t) regs) t (track_reads o a regs t)
unfolding hits track_reads
Counts-track_reads o texts a d [] t l h = Counts-self _ t
Counts-track_reads o texts a d (reg ∷ regs) t l h =
    let u = track_distance o a (read_distance t reg) t in
    let k = Kept-track_distance o a (read_distance t reg) t in
    Counts-trans (hazard_name o d) _ _ t u _
      (Counts-track_distance o texts a d (read_distance t reg) t l h)
      (rw (hits_cong d (read_distance u) (read_distance t) regs (λ r. read_distance-Kept t u r k))
        at (Counts-track_reads o texts a d regs u l h))

Counts-track_sources :
    (o : Opcodes) (texts : HasDistinctTexts o) (v : VectorLength) (a d : ℕ)
    (ops : List (Option Operand)) (t : ExecutionTracker)
    → 0 < d
    → d ≤ 3
    → Counts
        (hazard_name o d)
        (hits d (read_distance t) (registers_named v ops))
        t
        (track_sources o v a ops t)
unfolding track_sources registers_named hits
Counts-track_sources o texts v a d [] t l h = Counts-self _ t
Counts-track_sources o texts v a d (none ∷ ops) t l h = Counts-track_sources o texts v a d ops t l h
Counts-track_sources o texts v a d (some src ∷ ops) t l h =
    let k = hazard_name o d in
    let regs = registers_of v src in
    let rest = registers_named v ops in
    let r = track_reads o a regs t in
    let u = check_csr src.name r in
    let kept = Kept-trans t r u (Kept-track_reads o a regs t) (Kept-check_csr src.name r) in
    let same =
      hits_cong d (read_distance u) (read_distance t) rest (λ g. read_distance-Kept t u g kept) in
    rw (hits_append d (read_distance t) regs rest) (
      Counts-trans k _ _ t r _ (Counts-track_reads o texts a d regs t l h) (
        Counts-skip k _ r u _ (Counts-check_csr o d src.name r)
          (rw same at (Counts-track_sources o texts v a d ops u l h))))

Counts-on_instruction :
    (o : Opcodes) (texts : HasDistinctTexts o) (i : TrackedInstruction) (d : ℕ)
    (t : ExecutionTracker)
    → 0 < d
    → d ≤ 3
    → Counts
        (hazard_name o d)
        (hits d
          (read_distance (log_opcode o i.opcode t))
          (registers_named (length_of i.rv_vector) i.sources))
        t
        (on_instruction o (some i) t)
unfolding on_instruction calculate_hazard_distance
Counts-on_instruction o texts i d t l h =
    let k = hazard_name o d in
    let v = length_of i.rv_vector in
    let g = log_opcode o i.opcode t in
    let s = track_sources o v i.address i.sources g in
    let e = track_destinations v i.destinations s in
    Counts-skip k _ t g _ (Counts-log_opcode o i.opcode d t) (
      Counts-stop k _ g s _ (Counts-track_sources o texts v i.address d i.sources g l h) (
        Counts-trans k 0 0 s e _ (Counts-track_destinations o v d i.destinations s)
          (Counts-verify_fp_poison_pills o d i.sources e)))

or_else-some :
    (l : Option ℕ) (b : Bool) (n m : ℕ)
    → or_else l (if b then some n else none) ≡ some m
    → (l ≡ some m) ⊎ (m ≡ n)
unfolding or_else
or_else-some none true n m h = inr cc
or_else-some none false n m h = cc
or_else-some (some k) b n m h = inl h

last_write_bound :
    (r : List ℕ) (n m : ℕ) (is : List TrackedInstruction)
    → last_write r n is ≡ some m
    → m ≤ n + length is
unfolding last_write or_else
last_write_bound r n m [] h = cc
last_write_bound r n m (i ∷ is) h = elim (or_else-some (last_write r (n + 1) is) _ (n + 1) m h) [
  | inl e ↦ omega (arith, last_write_bound r (n + 1) m is e)
  | inr e ↦ omega (arith, e)
]

-- 1 for a last write at `m` that the instruction at `n` follows at the distance `d`.
unfoldable pub at_distance : ℕ → ℕ → Option ℕ → ℕ
at_distance d n none = 0
at_distance d n (some m) = if m + d == n then 1 else 0

-- The number of the registers that were last written `d` instructions before the one after `is`.
unfoldable pub reads_at : ℕ → List TrackedInstruction → List (List ℕ) → ℕ
reads_at d is [] = 0
reads_at d is (reg ∷ regs) =
    at_distance d (length is + 1) (last_write reg 0 is) + reads_at d is regs

hit-at_distance :
    (d n : ℕ) (l : Option ℕ)
    → n < 2 ^ 64
    → 0 < d
    → d ≤ 3
    → ((m : ℕ) → l ≡ some m → m < n)
    → hit d (distance_from n l) ≡ at_distance d n l
unfolding hit distance_from at_distance
hit-at_distance d n none b l h f = refl
hit-at_distance d n (some m) b l h f = let before = f m refl in ground arith

hits-reads_at :
    (d : ℕ) (is : List TrackedInstruction) (t : ExecutionTracker) (regs : List (List ℕ))
    → length is + 1 < 2 ^ 64
    → 0 < d
    → d ≤ 3
    → t.instruction_count ≡ length is + 1
    → ((r : List ℕ) → lookup r t.last_written_cycle ≡ last_write r 0 is)
    → hits d (read_distance t) regs ≡ reads_at d is regs
unfolding hits reads_at read_distance
hits-reads_at d is t [] b l h n f = refl
hits-reads_at d is t (reg ∷ regs) b l h n f =
    ap₂ (λ x y. x + y)
      (ap₂ (λ c w. hit d (distance_from c w)) n (f reg)
        ∙ hit-at_distance d (length is + 1) (last_write reg 0 is) b l h
            (λ m e. omega (arith, last_write_bound reg 0 m is e)))
      (hits-reads_at d is t regs b l h n f)

-- If different numbers have different texts and fewer than 2 ^ 64 - 1 instructions ran, the next
-- instruction adds to the count of a hazard of distance 1, 2 or 3, in 64 bits, the number of the
-- registers among its sources that were last written so many instructions before.
pub distances_counted :
    (o : Opcodes) (texts : HasDistinctTexts o) (is : List TrackedInstruction)
    (i : TrackedInstruction) (d : ℕ)
    → length is + 1 < 2 ^ 64
    → 0 < d
    → d ≤ 3
    → count_of
          (hazard_name o d)
          (on_instruction o (some i) (run_all o is new_tracker)).coverage_summary
        % 2 ^ 64
      ≡ (count_of (hazard_name o d) (run_all o is new_tracker).coverage_summary
          + reads_at d is (registers_named (length_of i.rv_vector) i.sources))
        % 2 ^ 64
unfolding Counts log_opcode cover
distances_counted o texts is i d b l h =
    let t = run_all o is new_tracker in
    let regs = registers_named (length_of i.rv_vector) i.sources in
    rw
      (hits-reads_at d is (log_opcode o i.opcode t) regs b l h
        (omega (arith, (last_writes_kept o [] is (omega arith)).0))
        (λ r. (last_writes_kept o r is (omega arith)).1))
      at (Counts-on_instruction o texts i d t l h)
