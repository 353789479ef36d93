-- ===== src/Vector/Shuffle/Zip.antt =====
-- The lanes that VZIP and VEVNODD take.
use native.Mathlib.Decide.{dec_lt}
use coralnpu_mpact.Prelude.{
  ℕ, ◌+◌, ◌-◌, ◌*◌, ◌/◌, ◌%◌, ◌<◌, ◌≡◌, ap, ◌∙◌, arith, Bool, true, false, ℤ, ◌==◌, if◌then◌else◌,
  ltb, refl,
}
use coralnpu_mpact.Scalar.{CType}
use coralnpu_mpact.Vector.Machine.{Machine, elts_per_register, num_ops}
use coralnpu_mpact.Vector.Shuffle.{
  concatenated, vevn_op_get_arg1, vodd_op_get_arg1, vevnodd_op_get_arg1, vzip_op_get_arg1,
}

-- In `s'` the argument registers of VEVNODD hold what VZIP computes from those of `s`: the first
-- argument its even destination registers, the second one the odd ones.
pub record Zipped {S : Type 0} (m : Machine S) (t : CType) (strip_mine : Bool) (s s' : S)
    : Type 0 where
  pub low :
      (o e : ℕ)
      → o < num_ops strip_mine
      → e < elts_per_register m t
      → m.source s' t 0 (o * elts_per_register m t + e)
        ≡ vzip_op_get_arg1 m t s false (num_ops strip_mine) o e 0
  pub high :
      (o e : ℕ)
      → o < num_ops strip_mine
      → e < elts_per_register m t
      → m.source s' t 1 (o * elts_per_register m t + e)
        ≡ vzip_op_get_arg1 m t s false (num_ops strip_mine) o e 1

-- The arithmetic of the indices.
half_index :
    (o i n half e : ℕ) → ((i * n + o) * (half + half) + e) / 2 ≡ o * half + e / 2 + i * half * n
half_index o i n half e = omega arith

half_parity : (o i n half e : ℕ) → ((i * n + o) * (half + half) + e) % 2 ≡ e % 2
half_parity o i n half e = omega arith

half_sum : (half : ℕ) → (half + half) / 2 ≡ half
half_sum half = omega arith

inside : (q r n elts : ℕ) → q < n → r < elts → ltb (q * elts + r) (elts * n) ≡ true
inside q r n elts h k = ground (arith, bound)
  where
    bound : q * elts + r < elts * n
    bound = grind arith

outside : (d r n elts : ℕ) → ltb ((n + d) * elts + r) (elts * n) ≡ false
outside d r n elts = ground arith

past : (d r n elts : ℕ) → (n + d) * elts + r - elts * n ≡ d * elts + r
past d r n elts = omega arith

module _ {S : Type 0} (m : Machine S) (t : CType) (half : ℕ) (strip_mine : Bool) (s : S)
    (even : elts_per_register m t ≡ half + half) where
  abbrev n : ℕ
  n = num_ops strip_mine

  abbrev elts : ℕ
  elts = elts_per_register m t

  -- Lane `k` of the two arguments woven into one row.
  woven : ℕ → ℤ
  woven k = if k % 2 == 1 then m.source s t 1 (k / 2) else m.source s t 0 (k / 2)

  zip-woven : (o e i : ℕ) → vzip_op_get_arg1 m t s false n o e i ≡ woven ((i * n + o) * elts + e)
  unfolding woven vzip_op_get_arg1
  zip-woven o e i = rw even (rw (half_sum, half_parity, half_index) refl)

  module _ (s' : S) (z : Zipped m t strip_mine s s') where
    low-woven :
        (q r : ℕ)
        → q < n
        → r < elts
        → concatenated m t s' false (elts * n) (q * elts + r) ≡ woven (q * elts + r)
    unfolding concatenated
    low-woven q r h k =
        rw (inside q r n elts h k)
          (z.low q r h k ∙ zip-woven q r 0 ∙ ap (λ c. woven (c * elts + r)) (omega arith))

    high-woven :
        (d r : ℕ)
        → d < n
        → r < elts
        → concatenated m t s' false (elts * n) ((n + d) * elts + r) ≡ woven ((n + d) * elts + r)
    unfolding concatenated
    high-woven d r h k =
        rw (outside d r n elts, past d r n elts)
          (z.high d r h k ∙ zip-woven d r 1 ∙ ap (λ c. woven (c * elts + r)) (omega arith))

    concatenated-woven :
        (q r : ℕ)
        → q < n + n
        → r < elts
        → concatenated m t s' false (elts * n) (q * elts + r) ≡ woven (q * elts + r)
    concatenated-woven q r h k = elim (dec_lt q n) [
      | yes p ↦ low-woven q r p k
      | no p ↦
          let e : n + (q - n) ≡ q = omega arith in rw e at (high-woven (q - n) r (omega arith) k)
    ]

    at_row :
        (o e p : ℕ)
        → o < n
        → e < elts
        → p < 2
        → concatenated m t s' false (elts * n) (o * elts * 2 + e * 2 + p)
          ≡ woven (o * elts * 2 + e * 2 + p)
    at_row o e p h k b = elim (dec_lt (e * 2 + p) elts) [
      | yes q ↦
          let i : o * 2 * elts + (e * 2 + p) ≡ o * elts * 2 + e * 2 + p = omega arith in
          rw i at (concatenated-woven (o * 2) (e * 2 + p) (omega arith) q)
      | no q ↦
          let i : (o * 2 + 1) * elts + (e * 2 + p - elts) ≡ o * elts * 2 + e * 2 + p =
            omega arith in
          rw i at (concatenated-woven (o * 2 + 1) (e * 2 + p - elts) (omega arith) (omega arith))
    ]

    woven_even : (j k : ℕ) → j ≡ k * 2 → woven j ≡ m.source s t 0 k
    unfolding woven
    woven_even j k h =
        let parity : j % 2 ≡ 0 = omega arith in
        let half_of : j / 2 ≡ k = omega arith in rw (parity, half_of) refl

    woven_odd : (j k : ℕ) → j ≡ k * 2 + 1 → woven j ≡ m.source s t 1 k
    unfolding woven
    woven_odd j k h =
        let parity : j % 2 ≡ 1 = omega arith in
        let half_of : j / 2 ≡ k = omega arith in rw (parity, half_of) refl

    -- The arguments of VEVNODD on what VZIP wrote are the lanes of VZIP's two arguments.
    pub vevnodd_args-zip :
        (o e : ℕ)
        → o < n
        → e < elts
        → (vevnodd_op_get_arg1 m t s' false n o e 0 ≡ m.source s t 0 (o * elts + e))
          × (vevnodd_op_get_arg1 m t s' false n o e 1 ≡ m.source s t 1 (o * elts + e))
    unfolding vevnodd_op_get_arg1 vevn_op_get_arg1 vodd_op_get_arg1
    vevnodd_args-zip o e h k = (
      ap (concatenated m t s' false (elts * n)) (omega arith)
          ∙ at_row o e 0 h k (omega arith)
          ∙ woven_even _ (o * elts + e) (omega arith),
      at_row o e 1 h k (omega arith) ∙ woven_odd _ (o * elts + e) (omega arith),
    )
