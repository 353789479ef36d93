-- ===== src/Fuzzer/Reports.antt =====
-- The rest of the tracker (sim/execution_tracker.cc): the special values of floating point operands,
-- what happens at an instruction, and what the tracker is asked.
use coralnpu_mpact.Prelude.{ℕ, zero, suc, ◌+◌, ◌*◌, ◌/◌, ◌%◌, ◌^◌, ◌==◌, ◌&&◌, ◌||◌, not}
use coralnpu_mpact.Prelude.{
  Bool, false, if◌then◌else◌, Option, none, some, List, [], ◌∷◌, codes, text_eq,
}
use coralnpu_mpact.Fuzzer.Dict.{lookup, count_of}
use coralnpu_mpact.Fuzzer.Tracker.{
  Operand, TrackedInstruction, Opcodes, ExecutionTracker, cover, log_opcode,
  calculate_hazard_distance,
}

-- A value whose exponent and fraction have been cut out; `quiet` is the fraction's highest bit and
-- `ones` the highest exponent.
unfoldable pub count_special : ℕ → ℕ → ℕ → ℕ → ExecutionTracker → ExecutionTracker
count_special exponent ones fraction quiet t =
    if exponent == ones && not (fraction == 0) && fraction / quiet % 2 == 0
    then cover (codes "fp_poison_pill_Signaling_NaN") t
    else if exponent == 0 && not (fraction == 0)
    then cover (codes "fp_poison_pill_Denormal") t
    else t

unfoldable pub verify_single : ℕ → ExecutionTracker → ExecutionTracker
verify_single val32 t = count_special (val32 / 2 ^ 23 % 2 ^ 8) 0xff (val32 % 2 ^ 23) (2 ^ 22) t

-- One element of 64 bits.
unfoldable pub verify_value : ℕ → ExecutionTracker → ExecutionTracker
verify_value val t =
    let is_nan_boxed = val / 2 ^ 32 == 0xffffffff in
    let is_zero_extended = val / 2 ^ 32 == 0 in
    let u = if is_nan_boxed then cover (codes "fp_poison_pill_NaN-boxed_scalar") t else t in
    if is_nan_boxed || is_zero_extended
    then verify_single (val % 2 ^ 32) u
    else count_special (val / 2 ^ 52 % 2 ^ 11) 0x7ff (val % 2 ^ 52) (2 ^ 51) u

unfoldable pub verify_elements : ℕ → ℕ → (ℕ → ℕ) → ExecutionTracker → ExecutionTracker
verify_elements zero j value_at t = t
verify_elements (suc n) j value_at t =
    verify_elements n (j + 1) value_at (verify_value (value_at j) t)

unfoldable pub elements : List ℕ → ℕ
elements [] = 1
elements (dim ∷ shape) = dim * elements shape

unfoldable pub is_fp_name : List ℕ → Bool
is_fp_name [] = false
is_fp_name (c ∷ s) = c == 0x66

unfoldable pub verify_fp_poison_pills : List (Option Operand) → ExecutionTracker → ExecutionTracker
verify_fp_poison_pills [] t = t
verify_fp_poison_pills (none ∷ ops) t = verify_fp_poison_pills ops t
verify_fp_poison_pills (some src ∷ ops) t =
    verify_fp_poison_pills ops
      (if is_fp_name src.name then verify_elements (elements src.shape) 0 src.value_at t else t)

unfoldable pub on_instruction :
    Opcodes → Option TrackedInstruction → ExecutionTracker → ExecutionTracker
on_instruction o none t = t
on_instruction o (some inst) t =
    verify_fp_poison_pills inst.sources
      (calculate_hazard_distance o inst (log_opcode o inst.opcode t))

unfoldable pub register_generator_mapping : ℕ → List ℕ → ExecutionTracker → ExecutionTracker
register_generator_mapping address generator_function t = record t {
  address_to_generator =
      λ a. if a == address then some generator_function else t.address_to_generator a;
}

-- A result with a value or NotFound.
unfoldable pub get_generator_for_hazard : List ℕ → ExecutionTracker → Option (List ℕ)
get_generator_for_hazard hazard t = lookup hazard t.hazard_to_generator

unfoldable pub get_trace_address_for_hazard : List ℕ → ExecutionTracker → Option ℕ
get_trace_address_for_hazard hazard t = lookup hazard t.hazard_to_address

-- `expected_hazards_.insert(hazard_name)`
unfoldable pub register_expected_hazard : List ℕ → ExecutionTracker → ExecutionTracker
register_expected_hazard hazard t = record t {
  expected_hazards =
      if has hazard t.expected_hazards then t.expected_hazards else hazard ∷ t.expected_hazards;
}
  where
    has : List ℕ → List (List ℕ) → Bool
    has h [] = false
    has h (k ∷ ks) = text_eq k h || has h ks

-- A missing count and a count of 0 are both gaps.
unfoldable pub gaps_of : List (List ℕ × ℕ) → List (List ℕ) → List (List ℕ)
gaps_of summary [] = []
gaps_of summary (k ∷ ks) =
    if count_of k summary == 0 then k ∷ gaps_of summary ks else gaps_of summary ks

unfoldable pub get_coverage_gaps : ExecutionTracker → List (List ℕ)
get_coverage_gaps t = gaps_of t.coverage_summary t.expected_hazards
