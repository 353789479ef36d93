-- ===== src/Examples/Fuzzer.antt =====
-- The theorems on the tools that generate tests, at concrete inputs.
use coralnpu_mpact.Prelude.{
  ℕ, ◌+◌, ◌%◌, ◌^◌, ◌==◌, ◌≤◌, ◌<◌, ◌≡◌, ◌⊎◌, refl, arith, true, false, some, none, pos, codes, [],
  ◌∷◌, List, if◌then◌else◌, length, tabulate, get_or, text_eq,
}
use coralnpu_mpact.Fuzzer.Dict.{lookup, count_of, has_key}
use coralnpu_mpact.Fuzzer.Archive.{
  BehavioralArchive, populate, text_leb, active_keys, extract_descriptor,
}
use coralnpu_mpact.Fuzzer.Best.{
  Offer, Holds, offer_all, empty_archive, best, better, offered, sequence_of, fitness_of,
  best_offers_kept,
}
use coralnpu_mpact.Fuzzer.Sorting.{among}
use coralnpu_mpact.Fuzzer.Chosen.{detector_chosen}
use coralnpu_mpact.Fuzzer.Tracker.{Operand, TrackedInstruction, Opcodes, hazard_name, length_of}
use coralnpu_mpact.Fuzzer.Reports.{on_instruction}
use coralnpu_mpact.Fuzzer.Cycles.{
  registers_named, last_write, run_all, new_tracker, last_writes_kept,
}
use coralnpu_mpact.Fuzzer.Distances.{HasDistinctTexts, reads_at, distances_counted}
use coralnpu_mpact.Fuzzer.Finalize.{
  Cursor, emit_all, assert_equal, perform_phase2_finalize, image_word, is_filler,
}
use coralnpu_mpact.Fuzzer.Images.{reached, run_image, check_executed}
use coralnpu_mpact.Fuzzer.Overwriting.{code_kept}

-- Sequences that are numbers; populating adds 100.
abbrev plain_offer : ℕ → List (List ℕ × ℕ) → Offer ℕ
plain_offer n summary = record {
  descriptor = codes "trap";
  sequence = n;
  summary = summary;
  populate_fn = some (λ m. m + 100);
}

abbrev offers : List (Offer ℕ)
offers =
    plain_offer 1 ((codes "trap", 1) ∷ [])
    ∷ plain_offer 2 ((codes "trap", 1) ∷ (codes "kAdd", 4) ∷ [])
    ∷ plain_offer 3 ((codes "trap", 9) ∷ (codes "kSub", 4) ∷ [])
    ∷ []

-- The second offer: the third is no better.
best_offers_kept_example :
    (lookup (codes "trap") (offer_all offers empty_archive).archive ≡ some 102)
    × (lookup (codes "trap") (offer_all offers empty_archive).fitness_map ≡ some 2)
unfolding Holds best sequence_of fitness_of text_eq better offered populate
best_offers_kept_example = best_offers_kept (codes "trap") offers

abbrev filled : BehavioralArchive ℕ
filled = record { archive = (codes "kAdd", 7) ∷ []; fitness_map = (codes "kAdd", 3) ∷ [] }

abbrev active : List (List ℕ × ℕ)
active = (codes "trap", 5) ∷ (codes "kAdd", 9) ∷ (codes "kSub", 2) ∷ (codes "kDiv", 0) ∷ []

-- kAdd is full and kDiv was not counted, so kSub is chosen before trap.
detector_chosen_example :
    (among (extract_descriptor filled active) (active_keys active) ≡ true)
    × (((has_key (extract_descriptor filled active) filled.archive ≡ false)
          × ((has_key (codes "trap") filled.archive ≡ true)
              ⊎ (text_leb (extract_descriptor filled active) (codes "trap") ≡ true)))
        ⊎ ((has_key (extract_descriptor filled active) filled.archive ≡ true)
            × (has_key (codes "trap") filled.archive ≡ true)
            × (count_of (codes "trap") active
                ≤ count_of (extract_descriptor filled active) active)))
unfolding among active_keys text_eq
detector_chosen_example = detector_chosen filled active (codes "trap") refl

-- One character for each number, the digit for those below ten.
abbrev digit : ℕ → List ℕ
digit n = (0x30 + n) ∷ []

abbrev few_opcodes : Opcodes
few_opcodes = record { k_past_max_value = 2; k_opcode_names = λ i. codes "Vadd"; str_cat = digit }

few_opcodes-HasDistinctTexts : HasDistinctTexts few_opcodes
unfolding HasDistinctTexts text_eq
few_opcodes-HasDistinctTexts e d = ground arith

abbrev register : List ℕ → Operand
register name = record { name = name; has_object = true; shape = 1 ∷ []; value_at = λ j. 0 }

-- Groups of two registers.
abbrev vector_add : List ℕ → List ℕ → TrackedInstruction
vector_add dest src = record {
  opcode = pos 1;
  address = 0x80;
  rv_vector = some (record { vector_length = 16; vector_length_multiplier = 16 });
  sources = some (register src) ∷ none ∷ [];
  destinations = some (register dest) ∷ [];
}

abbrev program : List TrackedInstruction
program = vector_add (codes "v4") (codes "v8") ∷ vector_add (codes "v10") (codes "v4") ∷ []

last_writes_kept_example :
    ((run_all few_opcodes program new_tracker).instruction_count ≡ 2)
    × (lookup (codes "v5") (run_all few_opcodes program new_tracker).last_written_cycle
        ≡ last_write (codes "v5") 0 program)
last_writes_kept_example = last_writes_kept few_opcodes (codes "v5") program (omega arith)

-- A read of v4 and v5, which the first of two instructions wrote.
distances_counted_example :
    count_of
        (hazard_name few_opcodes 2)
        (on_instruction few_opcodes
          (some (vector_add (codes "v6") (codes "v4")))
          (run_all few_opcodes program new_tracker)).coverage_summary
      % 2 ^ 64
    ≡ (count_of
          (hazard_name few_opcodes 2)
          (run_all few_opcodes program new_tracker).coverage_summary
        + reads_at 2 program (
            registers_named
              (length_of (some (record { vector_length = 16; vector_length_multiplier = 16 })))
              (some (register (codes "v4")) ∷ none ∷ [])))
      % 2 ^ 64
distances_counted_example =
    distances_counted few_opcodes few_opcodes-HasDistinctTexts program
      (vector_add (codes "v6") (codes "v4")) 2 (omega arith) (omega arith) (omega arith)

-- Five words, of which the check takes the last four.
abbrev cursor : Cursor
cursor = record { current_pc = 4; binary = tabulate 20 0 (λ i. i) }

abbrev checked : List ℕ
checked = (emit_all (assert_equal 31 5 0xDEADBEEF) cursor).binary

check_executed_example :
    (run_image 3 checked 4 (λ r. if r == 5 then 0xDEADBEEF else 0) ≡ reached 20)
    × (image_word 16 checked ≡ 0x00100073)
unfolding tabulate
check_executed_example =
    check_executed cursor 31 5 0xDEADBEEF (λ r. if r == 5 then 0xDEADBEEF else 0) (omega arith)
      (omega arith) (omega arith) (omega arith) (λ e. absurd (omega (arith, e))) (omega arith)

-- An instruction, four nops and an mpause.
abbrev image : List ℕ
image =
    0x93 ∷ 2 ∷ 0x10 ∷ 0 ∷ 0x13 ∷ 0 ∷ 0 ∷ 0 ∷ 0x13 ∷ 0 ∷ 0 ∷ 0 ∷ 0x13 ∷ 0 ∷ 0 ∷ 0 ∷ 0x13 ∷ 0 ∷ 0 ∷ 0
    ∷ 0x73 ∷ 0 ∷ 0 ∷ 8 ∷ []

code_kept_example :
    (length (perform_phase2_finalize digit ((codes "x5", 1) ∷ []) [] image) ≡ length image)
    × ((get_or (perform_phase2_finalize digit ((codes "x5", 1) ∷ []) [] image) 5 0
          ≡ get_or image 5 0)
        ⊎ ((w : ℕ) × (w ≤ 5) × (5 < w + 4) × (is_filler (image_word w image) ≡ true)))
code_kept_example = code_kept digit ((codes "x5", 1) ∷ []) [] image 5 (omega arith)
