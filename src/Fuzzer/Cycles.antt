-- ===== src/Fuzzer/Cycles.antt =====
-- The cycles that the tracker of sim/execution_tracker.cc keeps, against the instructions that ran.
use coralnpu_mpact.Prelude.{ℕ, ◌+◌, ◌%◌, ◌^◌, ◌<◌, ◌≡◌, refl, sym, ap, ap₂, ◌∙◌, arith}
use coralnpu_mpact.Prelude.{Bool, true, false, Bool-cases, inl, inr, if◌then◌else◌, length}
use coralnpu_mpact.Prelude.{Option, none, some, List, [], ◌∷◌, ◌++◌, text_eq, text_eq-true}
use coralnpu_mpact.Fuzzer.Dict.{lookup, insert, lookup-insert_self, lookup-insert_other}
use coralnpu_mpact.Fuzzer.Tracker.{
  Operand, TrackedInstruction, VectorLength, Opcodes, ExecutionTracker, log_opcode, check_csr,
  track_sources, track_writes, track_destinations, registers_of, length_of,
  calculate_hazard_distance,
}
use coralnpu_mpact.Fuzzer.Reports.{on_instruction}
use coralnpu_mpact.Fuzzer.Sorting.{among}
use coralnpu_mpact.Fuzzer.Kept.{
  Kept, Kept-trans, Kept-self, Kept-cover, Kept-check_csr, Kept-track_sources,
  Kept-verify_fp_poison_pills,
}

-- The registers that operands name.
unfoldable pub registers_named : VectorLength → List (Option Operand) → List (List ℕ)
registers_named v [] = []
registers_named v (none ∷ ops) = registers_named v ops
registers_named v (some dest ∷ ops) = registers_of v dest ++ registers_named v ops

unfoldable pub or_else : Option ℕ → Option ℕ → Option ℕ
or_else none y = y
or_else (some x) y = some x

-- The position, from `n + 1` on, of the last instruction that writes `r`.
unfoldable pub last_write : List ℕ → ℕ → List TrackedInstruction → Option ℕ
last_write r n [] = none
last_write r n (i ∷ is) = or_else (last_write r (n + 1) is) (
    if among r (registers_named (length_of i.rv_vector) i.destinations) then some (n + 1) else none)

unfoldable pub run_all : Opcodes → List TrackedInstruction → ExecutionTracker → ExecutionTracker
run_all o [] t = t
run_all o (i ∷ is) t = run_all o is (on_instruction o (some i) t)

-- The map of cycles after some registers are registers_named at cycle `n`.
unfoldable cycle_after : List ℕ → List (List ℕ) → ℕ → Option ℕ → Option ℕ
cycle_after r regs n old = if among r regs then some n else old

cycle_after_append :
    (r : List ℕ) (xs ys : List (List ℕ)) (n : ℕ) (old : Option ℕ)
    → cycle_after r ys n (cycle_after r xs n old) ≡ cycle_after r (xs ++ ys) n old
unfolding cycle_after among
cycle_after_append r [] ys n old = refl
cycle_after_append r (x ∷ xs) ys n old = elim (Bool-cases (text_eq x r)) [
  | inl e ↦ rw e (settled (among r ys))
  | inr e ↦ rw e (cycle_after_append r xs ys n old)
]
  where
    settled : (b : Bool) → Path (Option ℕ) (if b then some n else some n) (some n)
    settled true = refl
    settled false = refl

-- From `t` to `u` the registers are registers_named at the count of instructions of `t`.
Wrote : List ℕ → List (List ℕ) → ExecutionTracker → ExecutionTracker → Type 0
Wrote r regs t u =
    (u.instruction_count ≡ t.instruction_count)
    × (lookup r u.last_written_cycle
        ≡ cycle_after r regs t.instruction_count (lookup r t.last_written_cycle))

Wrote-append :
    (r : List ℕ) (xs ys : List (List ℕ)) (t u v : ExecutionTracker)
    → Wrote r xs t u
    → Wrote r ys u v
    → Wrote r (xs ++ ys) t v
unfolding Wrote
Wrote-append r xs ys t u v (a, b) (c, d) = (
  c ∙ a,
  d
      ∙ ap₂ (cycle_after r ys) a b
      ∙ cycle_after_append r xs ys t.instruction_count (lookup r t.last_written_cycle),
)

Wrote-Kept : (r : List ℕ) (t u : ExecutionTracker) → Kept t u → Wrote r [] t u
unfolding Wrote Kept cycle_after among
Wrote-Kept r t u (a, b) = (a, ap (lookup r) b)

Wrote-one :
    (r reg : List ℕ) (t : ExecutionTracker)
    → Wrote r
        (reg ∷ [])
        t
        (record t { last_written_cycle = insert reg t.instruction_count t.last_written_cycle })
unfolding Wrote cycle_after among
Wrote-one r reg t = elim (Bool-cases (text_eq reg r)) [
  | inl e ↦
      let same = text_eq-true reg r e in
      rw (e, sym same) (refl, lookup-insert_self reg t.instruction_count t.last_written_cycle)
  | inr e ↦ rw e (refl, lookup-insert_other reg r t.instruction_count t.last_written_cycle e)
]

Wrote-track_writes :
    (r : List ℕ) (regs : List (List ℕ)) (t : ExecutionTracker)
    → Wrote r regs t (track_writes regs t)
unfolding track_writes
Wrote-track_writes r [] t = Wrote-Kept r t t (Kept-self t)
Wrote-track_writes r (reg ∷ regs) t =
    Wrote-append r (reg ∷ []) regs t _ _ (Wrote-one r reg t) (Wrote-track_writes r regs _)

Wrote-track_destinations :
    (r : List ℕ) (v : VectorLength) (ops : List (Option Operand)) (t : ExecutionTracker)
    → Wrote r (registers_named v ops) t (track_destinations v ops t)
unfolding track_destinations registers_named
Wrote-track_destinations r v [] t = Wrote-Kept r t t (Kept-self t)
Wrote-track_destinations r v (none ∷ ops) t = Wrote-track_destinations r v ops t
Wrote-track_destinations r v (some dest ∷ ops) t =
    let w = track_writes (registers_of v dest) t in
    let u = check_csr dest.name w in
    Wrote-append r (registers_of v dest) (registers_named v ops) t w _
      (Wrote-track_writes r (registers_of v dest) t)
      (Wrote-append r [] (registers_named v ops) w u _
        (Wrote-Kept r w u (Kept-check_csr dest.name w)) (Wrote-track_destinations r v ops u))

Wrote-Kept_after :
    (r : List ℕ) (regs : List (List ℕ)) (t u v : ExecutionTracker)
    → Wrote r regs t u
    → Kept u v
    → Wrote r regs t v
unfolding Wrote Kept
Wrote-Kept_after r regs t u v (a, b) (c, d) = (c ∙ a, ap (lookup r) d ∙ b)

unfoldable counted : ExecutionTracker → ExecutionTracker
counted t = record t { instruction_count = (t.instruction_count + 1) % 2 ^ 64 }

Wrote-on_instruction :
    (o : Opcodes) (r : List ℕ) (i : TrackedInstruction) (t : ExecutionTracker)
    → Wrote r
        (registers_named (length_of i.rv_vector) i.destinations)
        (counted t)
        (on_instruction o (some i) t)
unfolding on_instruction calculate_hazard_distance log_opcode counted
Wrote-on_instruction o r i t =
    let v = length_of i.rv_vector in
    let l = log_opcode o i.opcode t in
    let s = track_sources o v i.address i.sources l in
    Wrote-Kept_after r (registers_named v i.destinations) (counted t)
      (track_destinations v i.destinations s) _
      (Wrote-append r [] (registers_named v i.destinations) (counted t) s _
        (Wrote-Kept r (counted t) s (
          Kept-trans (counted t) l s (Kept-cover _ (counted t))
            (Kept-track_sources o v i.address i.sources l)))
        (Wrote-track_destinations r v i.destinations s))
      (Kept-verify_fp_poison_pills i.sources _)

or_else_last :
    (l : Option ℕ) (b : Bool) (n : ℕ) (old : Option ℕ)
    → or_else l (if b then some n else old) ≡ or_else (or_else l (if b then some n else none)) old
unfolding or_else
or_else_last none true n old = refl
or_else_last none false n old = refl
or_else_last (some m) b n old = refl

run_all_cycles :
    (o : Opcodes) (r : List ℕ) (is : List TrackedInstruction) (t : ExecutionTracker)
    → t.instruction_count + length is < 2 ^ 64
    → ((run_all o is t).instruction_count ≡ t.instruction_count + length is)
      × (lookup r (run_all o is t).last_written_cycle
          ≡ or_else (last_write r t.instruction_count is) (lookup r t.last_written_cycle))
unfolding run_all last_write or_else Wrote counted cycle_after
run_all_cycles o r [] t h = (omega arith, refl)
run_all_cycles o r (i ∷ is) t h =
    let regs = registers_named (length_of i.rv_vector) i.destinations in
    let u = on_instruction o (some i) t in
    let w = Wrote-on_instruction o r i t in
    let count : u.instruction_count ≡ t.instruction_count + 1 = w.0 ∙ omega arith in
    let small : (t.instruction_count + 1) % 2 ^ 64 ≡ t.instruction_count + 1 = omega arith in
    let cycle : lookup r u.last_written_cycle
        ≡ cycle_after r regs (t.instruction_count + 1) (lookup r t.last_written_cycle) =
      w.1 ∙ ap (λ n. cycle_after r regs n (lookup r t.last_written_cycle)) small in
    let rest = run_all_cycles o r is u (omega (arith, count)) in
    (
      rest.0 ∙ omega (arith, count),
      rest.1
          ∙ ap₂ (λ n c. or_else (last_write r n is) c) count cycle
          ∙ or_else_last (last_write r (t.instruction_count + 1) is) (among r regs)
              (t.instruction_count + 1) (lookup r t.last_written_cycle),
    )

-- The tracker starts with empty maps.
unfoldable pub new_tracker : ExecutionTracker
new_tracker = record {
  instruction_count = 0;
  last_written_cycle = [];
  coverage_summary = [];
  address_to_generator = λ a. none;
  hazard_to_generator = [];
  hazard_to_address = [];
  expected_hazards = [];
}

-- After fewer than 2 ^ 64 instructions the tracker has counted them all, and the cycle that it keeps
-- for a register is the position of the last instruction that wrote it.
pub last_writes_kept :
    (o : Opcodes) (r : List ℕ) (is : List TrackedInstruction)
    → length is < 2 ^ 64
    → ((run_all o is new_tracker).instruction_count ≡ length is)
      × (lookup r (run_all o is new_tracker).last_written_cycle ≡ last_write r 0 is)
unfolding new_tracker or_else lookup
last_writes_kept o r is h =
    let kept = run_all_cycles o r is new_tracker (omega arith) in
    (kept.0 ∙ omega arith, kept.1 ∙ nothing (last_write r 0 is))
  where
    nothing : (l : Option ℕ) → or_else l none ≡ l
    nothing none = refl
    nothing (some m) = refl
