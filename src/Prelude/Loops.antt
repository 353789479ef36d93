-- ===== src/Prelude/Loops.antt =====
-- A counted loop: `for (int j = i; j < i + n; ++j) a = step(j, a)`.
use Prim.Native.Nat.{ℕ, zero, suc, ◌+◌, ◌-◌, ◌<◌, ◌≤◌}
use mathlib.Core.Path.{◌≡◌, refl, ap, ◌∙◌}
use mathlib.Core.Logic.{◌≢◌}
use native.Mathlib.Omega.{arith}

module _ {ℓ} {A : Type ℓ} where
  unfoldable pub for_loop : ℕ → ℕ → (ℕ → A → A) → A → A
  for_loop zero i step a = a
  for_loop (suc n) i step a = for_loop n (i + 1) step (step i a)

  -- A loop cut in two.
  pub for_loop-add :
      (n k i : ℕ) (step : ℕ → A → A) (a : A)
      → for_loop (n + k) i step a ≡ for_loop k (i + n) step (for_loop n i step a)
  unfolding for_loop
  for_loop-add zero k i step a =
      let none_left : 0 + k ≡ k = omega arith in
      let same_start : i + 0 ≡ i = omega arith in rw (none_left, same_start) refl
  for_loop-add (suc n) k i step a =
      let count : suc n + k ≡ suc (n + k) = omega arith in
      let moved : i + 1 + n ≡ i + suc n = omega arith in
      rw (count, for_loop-add n k (i + 1) step (step i a), moved) refl

  pub for_loop_once : (i : ℕ) (step : ℕ → A → A) (a : A) → for_loop 1 i step a ≡ step i a
  unfolding for_loop
  for_loop_once i step a = refl

  -- Passes that change nothing.
  pub for_loop_idle :
      (n i : ℕ) (step : ℕ → A → A) (a : A)
      → ((j : ℕ) → i ≤ j → j < i + n → step j a ≡ a)
      → for_loop n i step a ≡ a
  unfolding for_loop
  for_loop_idle zero i step a h = refl
  for_loop_idle (suc n) i step a h =
      rw (h i (omega arith) (omega arith))
        (for_loop_idle n (i + 1) step a (λ j p q. h j (omega arith) (omega arith)))

  -- Passes that do the same.
  pub for_loop_cong :
      (n i : ℕ) (step other : ℕ → A → A) (a : A)
      → ((j : ℕ) (b : A) → i ≤ j → j < i + n → step j b ≡ other j b)
      → for_loop n i step a ≡ for_loop n i other a
  unfolding for_loop
  for_loop_cong zero i step other a h = refl
  for_loop_cong (suc n) i step other a h = rw (h i a (omega arith) (omega arith)) (
      for_loop_cong n (i + 1) step other (other i a) (λ j b p q. h j b (omega arith) (omega arith)))

  -- A loop of which only the passes in the middle change anything.
  pub for_loop_window :
      (before m after i : ℕ) (step : ℕ → A → A) (a : A)
      → ((j : ℕ) (b : A) → j < i + before → step j b ≡ b)
      → ((j : ℕ) (b : A) → i + before + m ≤ j → j < i + before + m + after → step j b ≡ b)
      → for_loop (before + (m + after)) i step a ≡ for_loop m (i + before) step a
  for_loop_window before m after i step a h k =
      for_loop-add before (m + after) i step a
      ∙ ap (for_loop (m + after) (i + before) step)
          (for_loop_idle before i step a (λ j p q. h j a q))
      ∙ for_loop-add m after (i + before) step a
      ∙ for_loop_idle after (i + before + m) step _ (λ j p q. k j _ p q)

  -- A loop of which one pass alone changes anything, and gives a value.
  pub for_loop_sets :
      (n t : ℕ) (step : ℕ → A → A) (v a : A)
      → t < n
      → ((j : ℕ) (b : A) → j ≢ t → step j b ≡ b)
      → ((b : A) → step t b ≡ v)
      → for_loop n 0 step a ≡ v
  for_loop_sets n t step v a l other sets =
      let count : n ≡ t + (1 + (n - t - 1)) = omega arith in
      ap (λ m. for_loop m 0 step a) count
      ∙ for_loop_window t 1 (n - t - 1) 0 step a (λ j b q. other j b (omega arith))
          (λ j b p q. other j b (omega arith))
      ∙ ap (λ i. for_loop 1 i step a) (omega arith)
      ∙ for_loop_once t step a
      ∙ sets a

-- What a loop does to a part of its state.
pub for_loop_maps {ℓ κ} :
    {A : Type ℓ} {B : Type κ} (f : A → B) (n i : ℕ) (step : ℕ → A → A) (part : ℕ → B → B) (a : A)
    → ((j : ℕ) (b : A) → i ≤ j → j < i + n → f (step j b) ≡ part j (f b))
    → f (for_loop n i step a) ≡ for_loop n i part (f a)
unfolding for_loop
for_loop_maps f zero i step part a h = refl
for_loop_maps f (suc n) i step part a h =
    for_loop_maps f n (i + 1) step part (step i a) (λ j b p q. h j b (omega arith) (omega arith))
    ∙ ap (λ b. for_loop n (i + 1) part b) (h i a (omega arith) (omega arith))

-- What every pass keeps, by the number of the next pass.
pub for_loop_invariant {ℓ κ} :
    {A : Type ℓ} (I : ℕ → A → Type κ) (n i : ℕ) (step : ℕ → A → A) (a : A)
    → ((j : ℕ) (b : A) → i ≤ j → j < i + n → I j b → I (j + 1) (step j b))
    → I i a
    → I (i + n) (for_loop n i step a)
unfolding for_loop
for_loop_invariant I zero i step a h k = let same_start : i + 0 ≡ i = omega arith in rw same_start k
for_loop_invariant I (suc n) i step a h k =
    let moved : i + suc n ≡ i + 1 + n = omega arith in
    rw moved (
      for_loop_invariant I n (i + 1) step (step i a) (λ j b p q. h j b (omega arith) (omega arith))
        (h i a (omega arith) (omega arith) k))
