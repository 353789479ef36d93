-- ===== src/Logging/Strings.antt =====
-- CoralNPUStringLoadHelper of sim/coralnpu_instructions.cc on a string in memory.
use mathlib.Core.List.{append_assoc}
use coralnpu_mpact.Prelude.{
  ◌⊎◌, ℕ, zero, suc, ◌+◌, ◌-◌, ◌*◌, ◌/◌, ◌%◌, ◌^◌, ◌==◌, ◌<◌, ◌≤◌, ◌≡◌, ◌≢◌, refl, sym, ap, ◌∙◌,
  arith, ltb, ◌||◌,
}
use coralnpu_mpact.Prelude.{true, false, Bool-cases, inl, inr, some, List, [], ◌∷◌, ◌++◌, tabulate}
use coralnpu_mpact.Logging.{
  word_has_zero, word_bytes, trimmed, option_cons, string_load_loop, string_load_helper,
}

-- The word at an address of a memory of bytes.
abbrev pub word_at : (ℕ → ℕ) → ℕ → ℕ
word_at m a = m a + 2 ^ 8 * m (a + 1) + 2 ^ 16 * m (a + 2) + 2 ^ 24 * m (a + 3)

word_bytes_word_at :
    (b c d e : ℕ)
    → b < 256
    → c < 256
    → d < 256
    → e < 256
    → word_bytes (b + 2 ^ 8 * c + 2 ^ 16 * d + 2 ^ 24 * e) ≡ b ∷ c ∷ d ∷ e ∷ []
word_bytes_word_at b c d e h i j k =
    let first : (b + 2 ^ 8 * c + 2 ^ 16 * d + 2 ^ 24 * e) % 2 ^ 8 ≡ b = omega arith in
    let second : (b + 2 ^ 8 * c + 2 ^ 16 * d + 2 ^ 24 * e) / 2 ^ 8 % 2 ^ 8 ≡ c = omega arith in
    let third : (b + 2 ^ 8 * c + 2 ^ 16 * d + 2 ^ 24 * e) / 2 ^ 16 % 2 ^ 8 ≡ d = omega arith in
    let fourth : (b + 2 ^ 8 * c + 2 ^ 16 * d + 2 ^ 24 * e) / 2 ^ 24 % 2 ^ 8 ≡ e = omega arith in
    rw (first, second, third, fourth) refl

word_has_zero_lem :
    (b c d e : ℕ)
    → b < 256
    → c < 256
    → d < 256
    → e < 256
    → word_has_zero (b + 2 ^ 8 * c + 2 ^ 16 * d + 2 ^ 24 * e)
      ≡ (e == 0 || d == 0 || c == 0 || b == 0)
unfolding word_has_zero
word_has_zero_lem b c d e h i j k =
    let first : (b + 2 ^ 8 * c + 2 ^ 16 * d + 2 ^ 24 * e) % 2 ^ 8 ≡ b = omega arith in
    let second : (b + 2 ^ 8 * c + 2 ^ 16 * d + 2 ^ 24 * e) / 2 ^ 8 % 2 ^ 8 ≡ c = omega arith in
    let third : (b + 2 ^ 8 * c + 2 ^ 16 * d + 2 ^ 24 * e) / 2 ^ 16 % 2 ^ 8 ≡ d = omega arith in
    let fourth : (b + 2 ^ 8 * c + 2 ^ 16 * d + 2 ^ 24 * e) / 2 ^ 24 % 2 ^ 8 ≡ e = omega arith in
    rw (first, second, third, fourth) refl

-- A string that ends at the first of its zeros.
trimmed-tabulate :
    (k n a : ℕ) (m : ℕ → ℕ)
    → k < n
    → ((i : ℕ) → i < k → m (a + i) ≢ 0)
    → m (a + k) ≡ 0
    → trimmed (tabulate n a m) ≡ some (tabulate k a m)
unfolding trimmed tabulate option_cons
trimmed-tabulate k zero a m l h z = absurd (omega (arith, l))
trimmed-tabulate zero (suc n) a m l h z =
    let here : (m a == 0) ≡ true = ground (arith, rw (add_zero a) at z) in rw here refl
  where
    add_zero : (x : ℕ) → x + 0 ≡ x
    add_zero x = omega arith
trimmed-tabulate (suc k) (suc n) a m l h z =
    let here : (m a == 0) ≡ false = ground (arith, rw (add_zero a) at (h 0 (omega arith))) in
    rw
      (
        here,
        trimmed-tabulate k n (a + 1) m (omega arith)
            (λ i b. rw (moved a i) at (h (suc i) (omega arith))) (rw (moved a k) at z),
      )
      refl
  where
    add_zero : (x : ℕ) → x + 0 ≡ x
    add_zero x = omega arith

    moved : (x i : ℕ) → x + suc i ≡ x + 1 + i
    moved x i = omega arith

ltb_cases : (k n : ℕ) → (k < n) ⊎ (n ≤ k)
ltb_cases k n = elim (Bool-cases (ltb k n)) [
  | inl e ↦ inl (ground (arith, e))
  | inr e ↦ inr (ground (arith, e))
]

tabulate_word :
    (n a : ℕ) (m : ℕ → ℕ)
    → tabulate (4 + n) a m ≡ m a ∷ m (a + 1) ∷ m (a + 2) ∷ m (a + 3) ∷ tabulate n (a + 4) m
unfolding tabulate
tabulate_word n a m =
    let count : 4 + n ≡ suc (suc (suc (suc n))) = omega arith in
    let second : a + 1 + 1 ≡ a + 2 = omega arith in
    let third : a + 2 + 1 ≡ a + 3 = omega arith in
    let fourth : a + 3 + 1 ≡ a + 4 = omega arith in rw (count, second, third, fourth) refl

zero_within :
    (k a : ℕ) (m : ℕ → ℕ)
    → k < 4
    → m (a + k) ≡ 0
    → (m (a + 3) == 0 || m (a + 2) == 0 || m (a + 1) == 0 || m a == 0) ≡ true
zero_within zero a m l z = let same : a + 0 ≡ a = omega arith in ground (arith, rw same at z)
zero_within (suc zero) a m l z = ground (arith, z)
zero_within (suc (suc zero)) a m l z = ground (arith, z)
zero_within (suc (suc (suc zero))) a m l z = ground (arith, z)
zero_within (suc (suc (suc (suc k)))) a m l z = absurd (omega (arith, l))

none_within :
    (a : ℕ) (m : ℕ → ℕ)
    → ((i : ℕ) → i < 4 → m (a + i) ≢ 0)
    → (m (a + 3) == 0 || m (a + 2) == 0 || m (a + 1) == 0 || m a == 0) ≡ false
none_within a m h =
    let same : a + 0 ≡ a = omega arith in
    ground (
      arith,
      rw same at (h 0 (omega arith)),
      h 1 (omega arith),
      h 2 (omega arith),
      h 3 (omega arith),
    )

module _ (m : ℕ → ℕ) (is_byte : (a : ℕ) → m a < 256) where
  -- The loop reads whole words, up to the one that holds the zero.
  string_load_loop_lem :
      (fuel k a limit : ℕ) (out : List ℕ)
      → k / 4 < fuel
      → a + k < limit
      → a + k + 4 < 2 ^ 32
      → ((i : ℕ) → i < k → m (a + i) ≢ 0)
      → m (a + k) ≡ 0
      → string_load_loop fuel limit (word_at m) a out ≡ some (out ++ tabulate (4 * (k / 4) + 4) a m)
  unfolding string_load_loop
  string_load_loop_lem zero k a limit out f l b h z = absurd (omega (arith, f))
  string_load_loop_lem (suc fuel) k a limit out f l b h z =
      let bytes =
        word_bytes_word_at (m a) (m (a + 1)) (m (a + 2)) (m (a + 3)) (is_byte a) (is_byte (a + 1))
          (is_byte (a + 2)) (is_byte (a + 3)) in
      let zeros =
        word_has_zero_lem (m a) (m (a + 1)) (m (a + 2)) (m (a + 3)) (is_byte a) (is_byte (a + 1))
          (is_byte (a + 2)) (is_byte (a + 3)) in
      elim (ltb_cases k 4) [
        | inl less ↦
            let stops : word_has_zero (word_at m a) ≡ true = zeros ∙ zero_within k a m less z in
            let count : 4 * (k / 4) + 4 ≡ 4 + 0 = omega (arith, less) in
            rw (stops, bytes, count, tabulate_word 0 a m) (unfold tabulate in refl)
        | inr more ↦
            let goes : word_has_zero (word_at m a) ≡ false =
              zeros ∙ none_within a m (λ i c. h i (omega (arith, more, c))) in
            let next : (a + 4) % 2 ^ 32 ≡ a + 4 = omega (arith, b) in
            let below : ltb (a + 4) limit ≡ true = ground (arith, more, l) in
            let count : 4 * (k / 4) + 4 ≡ 4 + (4 * ((k - 4) / 4) + 4) = omega (arith, more) in
            let place : (i : ℕ) → a + 4 + i ≡ a + (4 + i) = λ i. omega arith in
            let end : a + 4 + (k - 4) ≡ a + k = omega (arith, more) in
            rw (goes, next, below)
              (string_load_loop_lem fuel (k - 4) (a + 4) limit (out ++ word_bytes (word_at m a))
                  (omega (arith, f, more)) (omega (arith, l, more)) (omega (arith, b, more))
                  (λ i c e. h (4 + i) (omega (arith, c, more)) (rw (place i) at e))
                  (rw (sym end) at z)
                ∙ ap some (
                    append_assoc out (word_bytes (word_at m a)) _
                    ∙ ap (λ t. out ++ t)
                        (ap (λ w. w ++ tabulate (4 * ((k - 4) / 4) + 4) (a + 4) m) bytes
                          ∙ sym (
                              ap (λ n. tabulate n a m) count
                              ∙ tabulate_word (4 * ((k - 4) / 4) + 4) a m))))
      ]

  -- CoralNPUStringLoadHelper reads a string of `k` characters that stands in a memory of bytes with a
  -- zero behind it, within the physical memory and four bytes below its end, and with one round for
  -- each word of the string it ends and returns exactly its characters.
  pub string_load_helper_lem :
      (fuel k a limit : ℕ)
      → k / 4 < fuel
      → a + k < limit
      → a + k + 4 < 2 ^ 32
      → ((i : ℕ) → i < k → m (a + i) ≢ 0)
      → m (a + k) ≡ 0
      → string_load_helper fuel limit (word_at m) a ≡ some (tabulate k a m)
  unfolding string_load_helper
  string_load_helper_lem fuel k a limit f l b h z =
      rw (string_load_helper, string_load_loop_lem fuel k a limit [] f l b h z)
        (trimmed-tabulate k (4 * (k / 4) + 4) a m (omega arith) h z)
