-- ===== src/Prelude/Lists.antt =====
-- Lists measured and indexed by native numbers, and tabulated buffers.
use Prim.Native.Nat.{ℕ, zero, suc, ◌+◌, ◌<◌}
use mathlib.Core.Path.{◌≡◌, refl, ap}
use mathlib.Core.List.{List, [], ◌∷◌, ◌++◌}
use native.Mathlib.Omega.{arith}

module _ {ℓ} {A : Type ℓ} where
  abbrev pub length : List A → ℕ
  length [] = 0
  length (x ∷ xs) = suc (length xs)

  abbrev pub get_or : List A → ℕ → A → A
  get_or [] i d = d
  get_or (x ∷ xs) zero d = x
  get_or (x ∷ xs) (suc i) d = get_or xs i d

  -- The buffer of `n` entries that a loop from index `i` on fills.
  unfoldable pub tabulate : ℕ → ℕ → (ℕ → A) → List A
  tabulate zero i f = []
  tabulate (suc n) i f = f i ∷ tabulate n (i + 1) f

  pub length-tabulate : (n i : ℕ) (f : ℕ → A) → length (tabulate n i f) ≡ n
  unfolding tabulate
  length-tabulate zero i f = refl
  length-tabulate (suc n) i f = ap suc (length-tabulate n (i + 1) f)

  pub get_or-tabulate :
      (n i j : ℕ) (f : ℕ → A) (d : A) → j < n → get_or (tabulate n i f) j d ≡ f (i + j)
  unfolding tabulate
  get_or-tabulate zero i j f d h = elim h [ ]
  get_or-tabulate (suc n) i zero f d h = ap f (omega arith)
  get_or-tabulate (suc n) i (suc j) f d h =
      ground (arith, get_or-tabulate n (i + 1) j f d (omega arith), lift)
    where
      lift : f (i + 1 + j) ≡ f (i + suc j)
      lift = ap f (omega arith)

  -- The same entries, from another index on.
  pub tabulate_cong :
      (n i k : ℕ) (f g : ℕ → A)
      → ((j : ℕ) → j < n → f (i + j) ≡ g (k + j))
      → tabulate n i f ≡ tabulate n k g
  unfolding tabulate
  tabulate_cong zero i k f g h = refl
  tabulate_cong (suc n) i k f g h =
      let first : f i ≡ g k = rw (add_zero i, add_zero k) at (h 0 (omega arith)) in
      rw
        (
          first,
          tabulate_cong n (i + 1) (k + 1) f g
              (λ j l. rw (moved i j, moved k j) at (h (suc j) (omega arith))),
        )
        refl
    where
      add_zero : (x : ℕ) → x + 0 ≡ x
      add_zero x = omega arith

      moved : (x j : ℕ) → x + suc j ≡ x + 1 + j
      moved x j = omega arith

  -- A loop cut in two.
  pub tabulate-add :
      (n k i : ℕ) (f : ℕ → A) → tabulate (n + k) i f ≡ tabulate n i f ++ tabulate k (i + n) f
  unfolding tabulate
  tabulate-add zero k i f =
      let none_left : 0 + k ≡ k = omega arith in
      let same_start : i + 0 ≡ i = omega arith in rw (none_left, same_start) refl
  tabulate-add (suc n) k i f =
      let count : suc n + k ≡ suc (n + k) = omega arith in
      let moved : i + 1 + n ≡ i + suc n = omega arith in
      rw (count, tabulate-add n k (i + 1) f, moved) refl
