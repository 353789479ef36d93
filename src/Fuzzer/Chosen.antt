-- ===== src/Fuzzer/Chosen.antt =====
-- The bin that ExtractDescriptor of sim/behavioral_archive.cc chooses.
use coralnpu_mpact.Prelude.{
  ℕ, ◌≤◌, ◌≡◌, ◌⊎◌, refl, sym, ◌∙◌, arith, ltb, Bool, true, false, Bool-cases, Option-cases, inl,
  inr, if◌then◌else◌, ◌||◌,
}
use coralnpu_mpact.Prelude.{Option, none, some, List, [], ◌∷◌, text_eq, text_eq-true, text_eq_self}
use coralnpu_mpact.Fuzzer.Dict.{count_of, has_key}
use coralnpu_mpact.Fuzzer.Archive.{
  BehavioralArchive, text_leb, sort, active_keys, active_detectors, highest_count, first_empty,
  or_first, fallback, extract_descriptor,
}
use coralnpu_mpact.Fuzzer.Sorting.{
  among, is_sorted, among-sort, is_sorted-sort, text_leb_empty, head_first,
}

-- The highest count of the listed, at least `n`.
unfoldable peak : List (List ℕ × ℕ) → List (List ℕ) → ℕ → ℕ
peak summary [] n = n
peak summary (k ∷ ks) n =
    let count = count_of k summary in
    if ltb n count then peak summary ks count else peak summary ks n

peak_above : (summary : List (List ℕ × ℕ)) (ks : List (List ℕ)) (n : ℕ) → n ≤ peak summary ks n
unfolding peak
peak_above summary [] n = omega arith
peak_above summary (k ∷ ks) n =
    ground (arith, peak_above summary ks n, peak_above summary ks (count_of k summary))

peak_highest :
    (summary : List (List ℕ × ℕ)) (ks : List (List ℕ)) (n : ℕ) (e : List ℕ)
    → among e ks ≡ true
    → count_of e summary ≤ peak summary ks n
unfolding peak among
peak_highest summary [] n e m = cc
peak_highest summary (k ∷ ks) n e m =
    let rest : text_eq k e ≡ false → among e ks ≡ true = λ q. rw q at m in
    elim (Bool-cases (text_eq k e)) [
      | inl q ↦
          rw (sym (text_eq-true k e q))
            (ground (arith, peak_above summary ks n, peak_above summary ks (count_of k summary)))
      | inr q ↦ ground (
        arith,
        peak_highest summary ks n e (rest q),
        peak_highest summary ks (count_of k summary) e (rest q),
      )
    ]

-- The highest count is the one that the loop had, or the one of a listed name.
IsPeak : List (List ℕ × ℕ) → List (List ℕ) → ℕ → List ℕ → List ℕ → ℕ → Type 0
IsPeak summary ks n name r p =
    ((r ≡ name) × (p ≡ n)) ⊎ ((among r ks ≡ true) × (p ≡ count_of r summary))

IsPeak-counted :
    (summary : List (List ℕ × ℕ)) (k : List ℕ) (ks : List (List ℕ)) (n p : ℕ) (name r : List ℕ)
    → IsPeak summary ks (count_of k summary) k r p
    → IsPeak summary (k ∷ ks) n name r p
unfolding IsPeak among
IsPeak-counted summary k ks n p name r (inl (a, b)) = inr (rw (a, text_eq_self k) refl, rw a b)
IsPeak-counted summary k ks n p name r (inr (a, b)) = inr (ground (arith, a), b)

IsPeak-skipped :
    (summary : List (List ℕ × ℕ)) (k : List ℕ) (ks : List (List ℕ)) (n p : ℕ) (name r : List ℕ)
    → IsPeak summary ks n name r p
    → IsPeak summary (k ∷ ks) n name r p
unfolding IsPeak among
IsPeak-skipped summary k ks n p name r (inl e) = inl e
IsPeak-skipped summary k ks n p name r (inr (a, b)) = inr (ground (arith, a), b)

IsPeak-highest_count :
    (summary : List (List ℕ × ℕ)) (ks : List (List ℕ)) (n : ℕ) (name : List ℕ)
    → IsPeak summary ks n name (highest_count summary ks n name) (peak summary ks n)
unfolding IsPeak peak highest_count
IsPeak-highest_count summary [] n name = inl (refl, refl)
IsPeak-highest_count summary (k ∷ ks) n name = elim (Bool-cases (ltb n (count_of k summary))) [
  | inl q ↦
      let r : highest_count summary (k ∷ ks) n name
          ≡ highest_count summary ks (count_of k summary) k =
        rw q refl in
      let p : peak summary (k ∷ ks) n ≡ peak summary ks (count_of k summary) = rw q refl in
      rw (r, p)
        (IsPeak-counted summary k ks n (peak summary ks (count_of k summary)) name
          (highest_count summary ks (count_of k summary) k)
          (IsPeak-highest_count summary ks (count_of k summary) k))
  | inr q ↦
      let r : highest_count summary (k ∷ ks) n name ≡ highest_count summary ks n name = rw q refl in
      let p : peak summary (k ∷ ks) n ≡ peak summary ks n = rw q refl in
      rw (r, p)
        (IsPeak-skipped summary k ks n (peak summary ks n) name (highest_count summary ks n name)
          (IsPeak-highest_count summary ks n name))
]

or_first_highest :
    (summary : List (List ℕ × ℕ)) (k : List ℕ) (ks : List (List ℕ)) (e r : List ℕ) (p : ℕ)
    → is_sorted (k ∷ ks) ≡ true
    → count_of e summary ≤ p
    → IsPeak summary (k ∷ ks) 0 [] r p
    → (among (or_first (k ∷ ks) r) (k ∷ ks) ≡ true)
      × (count_of e summary ≤ count_of (or_first (k ∷ ks) r) summary)
unfolding IsPeak or_first among
or_first_highest summary k ks e r p s h (inl (a, b)) = rw a (rw (text_eq_self k) refl, ground arith)
or_first_highest summary k ks e [] p s h (inr (a, b)) =
    let first = text_leb_empty k (head_first k [] ks s a) in
    (rw (text_eq_self k) refl, rw first (rw b at h))
or_first_highest summary k ks e (c ∷ r) p s h (inr (a, b)) = (a, rw b at h)

-- The fallback is a listed name with the highest count.
fallback_highest :
    (summary : List (List ℕ × ℕ)) (ks : List (List ℕ)) (e : List ℕ)
    → is_sorted ks ≡ true
    → among e ks ≡ true
    → (among (fallback summary ks) ks ≡ true)
      × (count_of e summary ≤ count_of (fallback summary ks) summary)
unfolding fallback among
fallback_highest summary [] e s m = cc
fallback_highest summary (k ∷ ks) e s m =
    or_first_highest summary k ks e (highest_count summary (k ∷ ks) 0 []) (peak summary (k ∷ ks) 0)
      s (peak_highest summary (k ∷ ks) 0 e m) (IsPeak-highest_count summary (k ∷ ks) 0 [])

some_injective : (k d : List ℕ) → Path (Option (List ℕ)) (some k) (some d) → k ≡ d
some_injective k d h = cc

module _ {ℓ} {S : Type ℓ} where
  first_empty-none :
      (archive : List (List ℕ × S)) (ks : List (List ℕ)) (e : List ℕ)
      → first_empty archive ks ≡ none
      → among e ks ≡ true
      → has_key e archive ≡ true
  unfolding first_empty among
  first_empty-none archive [] e h m = cc
  first_empty-none archive (k ∷ ks) e h m =
      ground (arith, first_empty-none archive ks e, text_eq-true k e)

  among-first_empty :
      (archive : List (List ℕ × S)) (ks : List (List ℕ)) (d : List ℕ)
      → first_empty archive ks ≡ some d
      → (among d ks ≡ true) × (has_key d archive ≡ false)
  unfolding first_empty among
  among-first_empty archive [] d h = cc
  among-first_empty archive (k ∷ ks) d h = elim (Bool-cases (has_key k archive)) [
    | inl c ↦
        let rest = among-first_empty archive ks d (rw c at h) in
        (rw (rest.0) (or_true (text_eq k d)), rest.1)
    | inr c ↦
        let same : k ≡ d = some_injective k d (rw c at h) in
        (rw (same, text_eq_self d) refl, rw same at c)
  ]
    where
      or_true : (b : Bool) → (b || true) ≡ true
      or_true b = ground arith

  first_empty_least :
      (archive : List (List ℕ × S)) (ks : List (List ℕ)) (d e : List ℕ)
      → is_sorted ks ≡ true
      → first_empty archive ks ≡ some d
      → among e ks ≡ true
      → (has_key e archive ≡ true) ⊎ (text_leb d e ≡ true)
  unfolding first_empty among is_sorted
  first_empty_least archive [] d e s h m = cc
  first_empty_least archive (k ∷ ks) d e s h m = elim (Bool-cases (has_key k archive)) [
    | inl c ↦ elim (Bool-cases (text_eq k e)) [
      | inl q ↦ inl (rw (text_eq-true k e q) at c)
      | inr q ↦ first_empty_least archive ks d e (ground (arith, s)) (rw c at h) (rw q at m)
    ]
    | inr c ↦
        let same : k ≡ d = some_injective k d (rw c at h) in
        inr (rw same at (head_first k e ks s m))
  ]

  -- For every active detector, the chosen one is active; when its bin is empty, the other's is full
  -- or its name comes no earlier, and when its bin is full, so is the other's, with a count that is
  -- no higher.
  pub detector_chosen :
      (a : BehavioralArchive S) (summary : List (List ℕ × ℕ)) (e : List ℕ)
      → among e (active_keys summary) ≡ true
      → (among (extract_descriptor a summary) (active_keys summary) ≡ true)
        × (((has_key (extract_descriptor a summary) a.archive ≡ false)
              × ((has_key e a.archive ≡ true) ⊎ (text_leb (extract_descriptor a summary) e ≡ true)))
            ⊎ ((has_key (extract_descriptor a summary) a.archive ≡ true)
                × (has_key e a.archive ≡ true)
                × (count_of e summary ≤ count_of (extract_descriptor a summary) summary)))
  unfolding extract_descriptor active_detectors
  detector_chosen a summary e m =
      let ks = sort (active_keys summary) in
      let listed : among e ks ≡ true = among-sort e (active_keys summary) ∙ m in
      elim (Option-cases (first_empty a.archive ks)) [
        | inl n ↦
            let f = fallback_highest summary ks e (is_sorted-sort (active_keys summary)) listed in
            let d = fallback summary ks in
            rw (n, extract_descriptor)
              (
                sym (among-sort d (active_keys summary)) ∙ f.0,
                inr (
                  first_empty-none a.archive ks d n f.0,
                  first_empty-none a.archive ks e n listed,
                  f.1,
                ),
              )
        | inr (d, n) ↦
            let f = among-first_empty a.archive ks d n in
            let l =
              first_empty_least a.archive ks d e (is_sorted-sort (active_keys summary)) n listed in
            rw (n, extract_descriptor)
              (sym (among-sort d (active_keys summary)) ∙ f.0, inl (f.1, l))
      ]
