-- ===== src/Examples/Convolution.antt =====
-- The theorems on the convolutions, at concrete commands and registers.
use native.Mathlib.Decide.{ℕ_discrete}
use coralnpu_mpact.Prelude.{both}
use coralnpu_mpact.Prelude.{
  ℕ, zero, suc, ◌+◌, ◌*◌, ◌%◌, ◌^◌, ◌<◌, ◌≡◌, refl, arith, Bool, true, some, ◌&&◌, leb,
}
use coralnpu_mpact.Prelude.{ℤ, pos, pos_part, neg_part, ◌+ℤ◌, ◌*ℤ◌}
use coralnpu_mpact.Scalar.{cast, plus, times, uint32, int32, InRange}
use coralnpu_mpact.Convolution.{data_value, vconv_cmd, vconv_loop, vconv, idx_i, idx_j, Accumulator}
use coralnpu_mpact.Convolution.Sums.{exact_sum, vconv_lem}
use coralnpu_mpact.Convolution.Depthwise.{
  vdwconv_cmd, vdwconv, signed_field, dw_product, a_data, vs1_idx, dw_place, dw_sum, vdwconv_lem,
}

abbrev bytes : ℕ → ℕ → ℕ
bytes r b = (37 * r + 11 * b) % 256

abbrev sevens : Accumulator
sevens = λ x y. pos 7

-- The steps 0 to 2, with the first bias 5 and signed bytes.
abbrev command : ℕ
command = 2 * 2 ^ 7 + 5 * 2 ^ 12 + 2 ^ 21 + 2 ^ 31

vconv_lem_example :
    (let cmd = vconv_cmd command in
      let left = vconv_loop cmd bytes bytes sevens in
      (vconv command bytes bytes sevens ≡ some left)
      × (left (idx_i 3 (4 * 6)) (idx_j 3 (4 * 6))
          ≡ cast uint32 (exact_sum cmd bytes bytes 3 6 (pos 7))))
unfolding vconv_cmd
vconv_lem_example =
    vconv_lem command bytes bytes sevens 3 6 refl (omega arith) (omega arith) (omega arith)
      (omega arith) (omega arith)

-- The sparsity 1, with the base 3, a first bias and signed bytes.
abbrev dw_command : ℕ
dw_command = 2 ^ 2 + 3 * 2 ^ 4 + 5 * 2 ^ 12 + 2 ^ 21 + 2 ^ 31

-- A test that holds of every number below a bound.
abbrev below_all : ℕ → (ℕ → Bool) → Bool
below_all zero f = true
below_all (suc n) f = f n && below_all n f

below_all_holds : (n i : ℕ) (f : ℕ → Bool) → below_all n f ≡ true → i < n → f i ≡ true
below_all_holds zero i f h l = absurd (omega arith)
below_all_holds (suc n) i f h l = elim (ℕ_discrete i n) [
  | yes e ↦ rw e ((both (f n) (below_all n f) h).0)
  | no e ↦ below_all_holds n i f ((both (f n) (below_all n f) h).1) (omega arith)
]

abbrev dw_total : ℕ → ℕ → ℤ
dw_total r j = dw_sum (vdwconv_cmd dw_command) bytes bytes (λ q. pos 7) r j

-- No sum on the way is beyond 2 ^ 20.
abbrev is_small : ℤ → Bool
is_small z = leb (neg_part z) (2 ^ 20) && leb (pos_part z) (2 ^ 20)

totals_small : below_all 32 (λ j. below_all 4 (λ r. is_small (dw_total r j))) ≡ true
unfolding vdwconv_cmd signed_field dw_sum dw_product a_data vs1_idx data_value dw_place cast plus
    times ◌+ℤ◌ ◌*ℤ◌
totals_small = refl

small-InRange : (z : ℤ) → is_small z ≡ true → InRange int32 z
small-InRange z h = ground arith

totals_fit : (j r : ℕ) → j < 32 → r < 4 → InRange int32 (dw_total r j)
totals_fit j r l k = small-InRange (dw_total r j) (
    below_all_holds 4 r (λ q. is_small (dw_total q j))
      (below_all_holds 32 j (λ j. below_all 4 (λ r. is_small (dw_total r j))) totals_small l) k)

vdwconv_lem_example :
    (left : ℕ → ℤ) × (vdwconv true dw_command bytes bytes (λ q. pos 7)
      ≡ some (left, some (λ k j. left (k * 8 + j))))
    × (left (dw_place 13) ≡ dw_total 3 13)
unfolding vdwconv_cmd
vdwconv_lem_example =
    vdwconv_lem true dw_command bytes bytes (λ q. pos 7) 13 (omega arith) totals_fit (omega arith)
