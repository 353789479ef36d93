-- ===== src/Fuzzer/Archive.antt =====
-- The archive of test sequences (sim/behavioral_archive.cc): one sequence for each bin, named by a
-- detector of the coverage. A summary and a map are lists of entries; a hash map's own order is the
-- list's.
use coralnpu_mpact.Prelude.{
  ℕ, zero, suc, ◌%◌, ◌==◌, ltb, Bool, true, false, if◌then◌else◌, length, get_or,
}
use coralnpu_mpact.Prelude.{Option, none, some, List, [], ◌∷◌}
use coralnpu_mpact.Fuzzer.Dict.{insert, count_of, has_key}

-- The order of std::string, by code.
unfoldable pub text_leb : List ℕ → List ℕ → Bool
text_leb [] t = true
text_leb (c ∷ s) [] = false
text_leb (c ∷ s) (d ∷ t) = if ltb c d then true else if ltb d c then false else text_leb s t

unfoldable pub insert_sorted : List ℕ → List (List ℕ) → List (List ℕ)
insert_sorted k [] = k ∷ []
insert_sorted k (j ∷ ks) = if text_leb k j then k ∷ j ∷ ks else j ∷ insert_sorted k ks

-- `std::sort`
unfoldable pub sort : List (List ℕ) → List (List ℕ)
sort [] = []
sort (k ∷ ks) = insert_sorted k (sort ks)

-- The keys that were counted.
unfoldable pub active_keys : List (List ℕ × ℕ) → List (List ℕ)
active_keys [] = []
active_keys ((k, n) ∷ summary) = if ltb 0 n then k ∷ active_keys summary else active_keys summary

unfoldable pub active_detectors : List (List ℕ × ℕ) → List (List ℕ)
active_detectors summary = sort (active_keys summary)

-- The loop for the highest count: the highest so far and its key.
unfoldable pub highest_count : List (List ℕ × ℕ) → List (List ℕ) → ℕ → List ℕ → List ℕ
highest_count summary [] max_count name = name
highest_count summary (k ∷ ks) max_count name =
    let count = count_of k summary in
    if ltb max_count count
    then highest_count summary ks count k
    else highest_count summary ks max_count name

-- A name that is still empty becomes the first detector.
unfoldable pub or_first : List (List ℕ) → List ℕ → List ℕ
or_first detectors [] = get_or detectors 0 []
or_first detectors (c ∷ s) = c ∷ s

unfoldable pub fallback : List (List ℕ × ℕ) → List (List ℕ) → List ℕ
fallback summary detectors = or_first detectors (highest_count summary detectors 0 [])

-- BehavioralArchive, with S for the sequences.
pub record BehavioralArchive {ℓ} (S : Type ℓ) : Type ℓ where
  pub archive : List (List ℕ × S)
  pub fitness_map : List (List ℕ × ℕ)

module _ {ℓ} {S : Type ℓ} where
  unfoldable pub first_empty : List (List ℕ × S) → List (List ℕ) → Option (List ℕ)
  first_empty archive [] = none
  first_empty archive (k ∷ ks) = if has_key k archive then first_empty archive ks else some k

  unfoldable pub extract_descriptor : BehavioralArchive S → List (List ℕ × ℕ) → List ℕ
  extract_descriptor a summary = elim (first_empty a.archive (active_detectors summary)) [
    | some candidate ↦ candidate
    | none ↦ fallback summary (active_detectors summary)
  ]

  -- `populate_fn`, a function object that may be empty.
  unfoldable pub populate : Option (S → S) → S → S
  populate none s = s
  populate (some f) s = f s

  unfoldable pub store_seq :
      List ℕ → S → ℕ → Option (S → S) → BehavioralArchive S → BehavioralArchive S
  store_seq descriptor seq current_fitness populate_fn a = record {
    archive = insert descriptor (populate populate_fn seq) a.archive;
    fitness_map = insert descriptor current_fitness a.fitness_map;
  }

  -- `fitness_map_[descriptor]` as a statement: a missing entry is made, with 0.
  unfoldable pub fitness_read : List ℕ → BehavioralArchive S → BehavioralArchive S
  fitness_read descriptor a = record {
    archive = a.archive;
    fitness_map = insert descriptor (count_of descriptor a.fitness_map) a.fitness_map;
  }

  unfoldable pub add_if_novel :
      List ℕ
      → S
      → List (List ℕ × ℕ)
      → Option (S → S)
      → BehavioralArchive S
      → Bool × BehavioralArchive S
  add_if_novel descriptor seq summary populate_fn a =
      let current_fitness = length summary in
      if has_key descriptor a.archive
      then if ltb (count_of descriptor a.fitness_map) current_fitness
        then (
          true,
          store_seq descriptor seq current_fitness populate_fn (fitness_read descriptor a),
        )
        else (false, fitness_read descriptor a)
      else (true, store_seq descriptor seq current_fitness populate_fn a)

  -- The sequence of the entry that `it` reaches after `idx` steps.
  unfoldable pub entry_at : S → List (List ℕ × S) → ℕ → S
  entry_at empty [] idx = empty
  entry_at empty ((k, s) ∷ m) zero = s
  entry_at empty ((k, s) ∷ m) (suc idx) = entry_at empty m idx

  -- `draw` is what the generator of random numbers gives, `empty` the sequence made by default.
  -- `int idx` keeps the remainder, which is below the size of a map.
  unfoldable pub get_random_parent : S → ℕ → BehavioralArchive S → S
  get_random_parent empty draw a =
      if length a.archive == 0 then empty else entry_at empty a.archive (draw % length a.archive)
