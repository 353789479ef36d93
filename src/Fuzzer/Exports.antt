-- ===== src/Fuzzer/Exports.antt =====
-- The texts that the tracker of sim/execution_tracker.cc reports.
use coralnpu_mpact.Prelude.{ℕ, ◌+◌, ltb, if◌then◌else◌, length, List, [], ◌∷◌, ◌++◌, codes}
use coralnpu_mpact.Fuzzer.Archive.{text_leb}
use coralnpu_mpact.Fuzzer.Tracker.{Opcodes, ExecutionTracker}
use coralnpu_mpact.Fuzzer.Reports.{get_coverage_gaps}

abbrev newline : List ℕ
newline = 0x0A ∷ []

abbrev rule_line : List ℕ
rule_line = codes "----------------------------------------" ++ newline

unfoldable pub gap_lines : List (List ℕ) → List ℕ
gap_lines [] = []
gap_lines (gap ∷ gaps) = gap ++ (newline ++ gap_lines gaps)

unfoldable pub gap_summary : List (List ℕ) → List ℕ
gap_summary [] = codes "No coverage gaps found." ++ newline
gap_summary (gap ∷ gaps) =
    (codes "Coverage Gaps Summary:" ++ newline)
    ++ (rule_line ++ (gap_lines (gap ∷ gaps) ++ rule_line))

unfoldable pub get_coverage_gap_summary : ExecutionTracker → List ℕ
get_coverage_gap_summary t = gap_summary (get_coverage_gaps t)

-- One entry of the object, and the others after commas.
unfoldable pub json_entry : Opcodes → List ℕ × ℕ → List ℕ
json_entry o (key, value) = (0x22 ∷ key) ++ ((0x22 ∷ codes ": ") ++ o.str_cat value)

unfoldable pub json_rest : Opcodes → List (List ℕ × ℕ) → List ℕ
json_rest o [] = []
json_rest o (entry ∷ entries) = codes ", " ++ (json_entry o entry ++ json_rest o entries)

unfoldable pub json_entries : Opcodes → List (List ℕ × ℕ) → List ℕ
json_entries o [] = []
json_entries o (entry ∷ entries) = json_entry o entry ++ json_rest o entries

unfoldable pub get_coverage_json : Opcodes → ExecutionTracker → List ℕ
get_coverage_json o t = codes "{" ++ (json_entries o t.coverage_summary ++ codes "}")

unfoldable pub insert_entry : List ℕ × ℕ → List (List ℕ × ℕ) → List (List ℕ × ℕ)
insert_entry (k, n) [] = (k, n) ∷ []
insert_entry (k, n) ((j, m) ∷ entries) =
    if text_leb k j then (k, n) ∷ (j, m) ∷ entries else (j, m) ∷ insert_entry (k, n) entries

-- `std::sort` by the keys, which are all different.
unfoldable pub sort_entries : List (List ℕ × ℕ) → List (List ℕ × ℕ)
sort_entries [] = []
sort_entries (entry ∷ entries) = insert_entry entry (sort_entries entries)

unfoldable pub count_hit : List (List ℕ × ℕ) → ℕ
count_hit [] = 0
count_hit ((k, n) ∷ entries) = let rest = count_hit entries in if ltb 0 n then rest + 1 else rest

-- The lines of each entry, from a line number on.
unfoldable pub lcov_lines : Opcodes → ℕ → List (List ℕ × ℕ) → List ℕ
lcov_lines o line_num [] = []
lcov_lines o line_num ((k, n) ∷ entries) =
    (codes "FN:" ++ (o.str_cat line_num ++ (codes "," ++ (k ++ newline))))
    ++ ((codes "FNDA:" ++ (o.str_cat n ++ (codes "," ++ (k ++ newline))))
        ++ ((codes "DA:" ++ (o.str_cat line_num ++ (codes "," ++ (o.str_cat n ++ newline))))
            ++ lcov_lines o (line_num + 1) entries))

unfoldable pub total_line : Opcodes → List ℕ → ℕ → List ℕ
total_line o label n = label ++ (o.str_cat n ++ newline)

unfoldable pub get_coverage_lcov : Opcodes → ExecutionTracker → List ℕ
get_coverage_lcov o t =
    let entries = sort_entries t.coverage_summary in
    let total = length entries in
    let hit_count = count_hit entries in
    (codes "TN:coralnpu_m3_coverage" ++ newline)
    ++ ((codes "SF:coralnpu_m3.isa" ++ newline)
        ++ (lcov_lines o 1 entries
            ++ (total_line o (codes "FNF:") total
                ++ (total_line o (codes "FNH:") hit_count
                    ++ (total_line o (codes "LF:") total
                        ++ (total_line o (codes "LH:") hit_count
                            ++ (codes "end_of_record" ++ newline)))))))
