-- ===== src/Fuzzer/Dict.antt =====
-- Maps with texts as keys, as lists of entries. Hash maps have no order: a list is one order of the
-- entries.
use coralnpu_mpact.Prelude.{
  ℕ, ◌+◌, ◌%◌, ◌^◌, ◌≡◌, refl, ap, ◌∙◌, Bool, true, false, Bool-cases, inl, inr, if◌then◌else◌,
}
use coralnpu_mpact.Prelude.{Option, none, some, List, [], ◌∷◌, text_eq, text_eq-true, text_eq_self}

module _ {ℓ} {V : Type ℓ} where
  -- `m.find(k)`
  unfoldable pub lookup : List ℕ → List (List ℕ × V) → Option V
  lookup k [] = none
  lookup k ((j, v) ∷ m) = if text_eq j k then some v else lookup k m

  -- `m[k] = v`
  unfoldable pub insert : List ℕ → V → List (List ℕ × V) → List (List ℕ × V)
  insert k v [] = (k, v) ∷ []
  insert k v ((j, w) ∷ m) = if text_eq j k then (k, v) ∷ m else (j, w) ∷ insert k v m

  pub lookup-insert_self :
      (k : List ℕ) (v : V) (m : List (List ℕ × V)) → lookup k (insert k v m) ≡ some v
  unfolding lookup insert
  lookup-insert_self k v [] = rw (text_eq_self k) refl
  lookup-insert_self k v ((j, w) ∷ m) = elim (Bool-cases (text_eq j k)) [
    | inl e ↦ rw (e, text_eq_self k) refl
    | inr e ↦ rw (e, e) (lookup-insert_self k v m)
  ]

  pub lookup-insert_other :
      (k i : List ℕ) (v : V) (m : List (List ℕ × V))
      → text_eq k i ≡ false
      → lookup i (insert k v m) ≡ lookup i m
  unfolding lookup insert
  lookup-insert_other k i v [] n = rw n refl
  lookup-insert_other k i v ((j, w) ∷ m) n = elim (Bool-cases (text_eq j k)) [
    | inl e ↦
        let same : text_eq j i ≡ false = ap (λ t. text_eq t i) (text_eq-true j k e) ∙ n in
        rw (e, n, same) refl
    | inr e ↦ rw e (ap (λ o. if text_eq j i then some w else o) (lookup-insert_other k i v m n))
  ]

-- `m[k]`, where a missing key counts as 0.
unfoldable pub count_of : List ℕ → List (List ℕ × ℕ) → ℕ
count_of k m = elim (lookup k m) [ none ↦ 0 | some n ↦ n ]

pub count_of-insert_self :
    (k : List ℕ) (n : ℕ) (m : List (List ℕ × ℕ)) → count_of k (insert k n m) ≡ n
unfolding count_of
count_of-insert_self k n m = rw (lookup-insert_self k n m, count_of) refl

pub count_of-insert_other :
    (j k : List ℕ) (n : ℕ) (m : List (List ℕ × ℕ))
    → text_eq j k ≡ false
    → count_of k (insert j n m) ≡ count_of k m
unfolding count_of
count_of-insert_other j k n m h = rw (lookup-insert_other j k n m h, count_of) refl

-- `m[k]++` on counts of 64 bits.
unfoldable pub increment_count : List ℕ → List (List ℕ × ℕ) → List (List ℕ × ℕ)
increment_count k m = insert k ((count_of k m + 1) % 2 ^ 64) m

-- `m.contains(k)`, `m.find(k) != m.end()`
unfoldable pub has_key {ℓ} : {V : Type ℓ} → List ℕ → List (List ℕ × V) → Bool
has_key k m = elim (lookup k m) [ none ↦ false | some v ↦ true ]
