-- ===== src/Fuzzer/Tracker.antt =====
-- The tracker of what ran (sim/execution_tracker.cc). Its maps with texts as keys are lists of entries,
-- and the map from addresses is a function. An instruction is what the tracker asks of it.
use coralnpu_mpact.Prelude.{ℕ, ◌+◌, ◌-◌, ◌*◌, ◌%◌, ◌^◌, ◌==◌, ltb, leb, ◌&&◌, ◌||◌}
use coralnpu_mpact.Prelude.{Bool, if◌then◌else◌, length, get_or, tabulate, ℤ, pos, negsuc}
use coralnpu_mpact.Prelude.{Option, none, some, List, [], ◌∷◌, ◌++◌, codes, text_eq}
use coralnpu_mpact.Fuzzer.Dict.{lookup, insert, increment_count}

-- An operand: AsString, whether GetObject has a value, the shape and AsUint64 of each element.
pub record Operand : Type 0 where
  pub name : List ℕ
  pub has_object : Bool
  pub shape : List ℕ
  pub value_at : ℕ → ℕ

-- The vector state of the machine: its length, and its multiplier in eighths.
pub record VectorLength : Type 0 where
  pub vector_length : ℕ
  pub vector_length_multiplier : ℕ

-- An instruction, with pointers that may be null.
pub record TrackedInstruction : Type 0 where
  pub opcode : ℤ
  pub address : ℕ
  pub rv_vector : Option VectorLength
  pub sources : List (Option Operand)
  pub destinations : List (Option Operand)

-- The generated names of the opcodes, and absl's text of a number.
pub record Opcodes : Type 0 where
  pub k_past_max_value : ℕ
  pub k_opcode_names : ℕ → List ℕ
  pub str_cat : ℕ → List ℕ

pub record ExecutionTracker : Type 0 where
  pub instruction_count : ℕ
  pub last_written_cycle : List (List ℕ × ℕ)
  pub coverage_summary : List (List ℕ × ℕ)
  pub address_to_generator : ℕ → Option (List ℕ)
  pub hazard_to_generator : List (List ℕ × List ℕ)
  pub hazard_to_address : List (List ℕ × ℕ)
  pub expected_hazards : List (List ℕ)

-- `coverage_summary_[key]++`
unfoldable pub cover : List ℕ → ExecutionTracker → ExecutionTracker
cover key t = record t { coverage_summary = increment_count key t.coverage_summary }

unfoldable pub opcode_name : Opcodes → ℤ → List ℕ
opcode_name o (pos index) =
    if ltb index o.k_past_max_value then codes "k" ++ o.k_opcode_names index else codes "kUnknown"
opcode_name o (negsuc index) = codes "kUnknown"

unfoldable pub log_opcode : Opcodes → ℤ → ExecutionTracker → ExecutionTracker
log_opcode o opcode t =
    cover (opcode_name o opcode)
      (record t { instruction_count = (t.instruction_count + 1) % 2 ^ 64 })

abbrev pub k_vector_reg_names : List (List ℕ)
k_vector_reg_names =
    codes "v0"
    ∷ codes "v1"
    ∷ codes "v2"
    ∷ codes "v3"
    ∷ codes "v4"
    ∷ codes "v5"
    ∷ codes "v6"
    ∷ codes "v7"
    ∷ codes "v8"
    ∷ codes "v9"
    ∷ codes "v10"
    ∷ codes "v11"
    ∷ codes "v12"
    ∷ codes "v13"
    ∷ codes "v14"
    ∷ codes "v15"
    ∷ codes "v16"
    ∷ codes "v17"
    ∷ codes "v18"
    ∷ codes "v19"
    ∷ codes "v20"
    ∷ codes "v21"
    ∷ codes "v22"
    ∷ codes "v23"
    ∷ codes "v24"
    ∷ codes "v25"
    ∷ codes "v26"
    ∷ codes "v27"
    ∷ codes "v28"
    ∷ codes "v29"
    ∷ codes "v30"
    ∷ codes "v31"
    ∷ []

-- The number of digits, if there are no other characters.
unfoldable pub reg_num : List ℕ → ℕ → Option ℕ
reg_num [] n = some n
reg_num (c ∷ s) n = if ltb c 0x30 || ltb 0x39 c then none else reg_num s (n * 10 + (c - 0x30))

unfoldable pub group_size : ℕ → ℕ
group_size vlmul_scaled =
    if vlmul_scaled == 16
    then 2
    else if vlmul_scaled == 32
    then 4
    else if vlmul_scaled == 64
    then 8
    else 1

-- The registers that an operand stands for. The number is an `int`, which holds nine digits.
unfoldable pub expand_vector_reg : VectorLength → List ℕ → List (List ℕ)
expand_vector_reg v [] = [] ∷ []
expand_vector_reg v (c ∷ s) =
    if c == 0x76
    then if v.vector_length == 0
      then []
      else if ltb 0 (length s)
      then elim (reg_num s 0) [
        | some n ↦
            tabulate (group_size v.vector_length_multiplier) 0
              (λ i. get_or k_vector_reg_names ((n + i) % 32) [])
        | none ↦ (c ∷ s) ∷ []
      ]
      else (c ∷ s) ∷ []
    else (c ∷ s) ∷ []

unfoldable pub check_csr : List ℕ → ExecutionTracker → ExecutionTracker
check_csr name t =
    if text_eq name (codes "fflags")
    then cover (codes "csr_side_effect_fflags") t
    else if text_eq name (codes "vstart")
    then cover (codes "csr_side_effect_vstart") t
    else if text_eq name (codes "mtvec")
    then record t {
      coverage_summary = insert (codes "Trap Handler Corrupted") 1 t.coverage_summary;
    }
    else t

unfoldable pub hazard_name : Opcodes → ℕ → List ℕ
hazard_name o distance = codes "RAW_HAZARD_" ++ o.str_cat distance

unfoldable pub record_hazard : ℕ → List ℕ → ExecutionTracker → ExecutionTracker
record_hazard current_address hazard t = record t {
  coverage_summary = increment_count hazard t.coverage_summary;
  hazard_to_address = insert hazard current_address t.hazard_to_address;
  hazard_to_generator = elim (t.address_to_generator current_address) [
    | some g ↦ insert hazard g t.hazard_to_generator
    | none ↦ t.hazard_to_generator
  ];
}

-- The distance in 64 bits from the last write.
unfoldable pub distance_from : ℕ → Option ℕ → Option ℕ
distance_from instruction_count none = none
distance_from instruction_count (some last_cycle) =
    some ((instruction_count + (2 ^ 64 - last_cycle)) % 2 ^ 64)

unfoldable pub read_distance : ExecutionTracker → List ℕ → Option ℕ
read_distance t reg = distance_from t.instruction_count (lookup reg t.last_written_cycle)

unfoldable pub track_distance : Opcodes → ℕ → Option ℕ → ExecutionTracker → ExecutionTracker
track_distance o current_address none t = t
track_distance o current_address (some distance) t =
    if ltb 0 distance && leb distance 3
    then record_hazard current_address (hazard_name o distance) t
    else t

unfoldable pub track_reads : Opcodes → ℕ → List (List ℕ) → ExecutionTracker → ExecutionTracker
track_reads o current_address [] t = t
track_reads o current_address (reg ∷ regs) t =
    track_reads o current_address regs (track_distance o current_address (read_distance t reg) t)

-- The registers of an operand with an object.
unfoldable pub registers_of : VectorLength → Operand → List (List ℕ)
registers_of v op = if op.has_object then expand_vector_reg v op.name else []

unfoldable pub track_sources :
    Opcodes → VectorLength → ℕ → List (Option Operand) → ExecutionTracker → ExecutionTracker
track_sources o v current_address [] t = t
track_sources o v current_address (none ∷ ops) t = track_sources o v current_address ops t
track_sources o v current_address (some src ∷ ops) t =
    track_sources o v current_address ops
      (check_csr src.name (track_reads o current_address (registers_of v src) t))

unfoldable pub track_writes : List (List ℕ) → ExecutionTracker → ExecutionTracker
track_writes [] t = t
track_writes (reg ∷ regs) t =
    track_writes regs
      (record t { last_written_cycle = insert reg t.instruction_count t.last_written_cycle })

unfoldable pub track_destinations :
    VectorLength → List (Option Operand) → ExecutionTracker → ExecutionTracker
track_destinations v [] t = t
track_destinations v (none ∷ ops) t = track_destinations v ops t
track_destinations v (some dest ∷ ops) t =
    track_destinations v ops (check_csr dest.name (track_writes (registers_of v dest) t))

-- Without a vector state, 32 and eight eighths.
unfoldable pub length_of : Option VectorLength → VectorLength
length_of none = record { vector_length = 32; vector_length_multiplier = 8 }
length_of (some v) = v

unfoldable pub calculate_hazard_distance :
    Opcodes → TrackedInstruction → ExecutionTracker → ExecutionTracker
calculate_hazard_distance o inst t =
    let v = length_of inst.rv_vector in
    track_destinations v inst.destinations (track_sources o v inst.address inst.sources t)
