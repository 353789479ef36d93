-- ===== src/Vector/Shuffle/Slide.antt =====
-- The horizontal slides move lanes across the whole stripmined group.
use coralnpu_mpact.Prelude.{
  ℕ, zero, suc, ◌+◌, ◌-◌, ◌*◌, ◌≤◌, ◌<◌, ◌^◌, ◌≡◌, arith, Bool, true, false,
}
use coralnpu_mpact.Scalar.{CType}
use coralnpu_mpact.Vector.Machine.{Machine, elts_per_register}
use coralnpu_mpact.Vector.Shuffle.{concatenated, vsliden_op_get_arg1, vslidep_op_get_arg1}
use coralnpu_mpact.Vector.Shuffle.{sliden_start, sliden_end, slidep_start, slidep_end}

module _ {S : Type 0} (m : Machine S) (t : CType) (index : ℕ) (s : S) (scalar : Bool) (e i : ℕ)
    (fits : index ≤ elts_per_register m t) (inside : e < elts_per_register m t) where
  abbrev elts : ℕ
  elts = elts_per_register m t

  -- In a horizontal slide to the next register by at most a register's lanes, lane `e` of register
  -- `o` of the stripmined group is lane `o * elts + e + index` of the two arguments' groups laid one
  -- after the other.
  pub slide_next :
      (o : ℕ)
      → o < 4
      → vsliden_op_get_arg1 m t true index s scalar 4 o e i
        ≡ concatenated m t s false (4 * elts) (o * elts + e + index)
  unfolding vsliden_op_get_arg1 concatenated sliden_start sliden_end
  slide_next zero h = ground arith
  slide_next (suc zero) h = ground arith
  slide_next (suc (suc zero)) h = ground arith
  slide_next (suc (suc (suc zero))) h = ground arith
  slide_next (suc (suc (suc (suc o)))) h = absurd (omega arith)

  -- In a horizontal slide from the previous register by at most a register's lanes, where a group's
  -- lanes are fewer than 2 ^ 32, lane `e` of register `o` of the stripmined group is lane
  -- `4 * elts + o * elts + e - index` of the two arguments' groups laid one after the other.
  pub slide_previous :
      (o : ℕ)
      → o < 4
      → 4 * elts < 2 ^ 32
      → vslidep_op_get_arg1 m t true index s scalar 4 o e i
        ≡ concatenated m t s false (4 * elts) (4 * elts + o * elts + e - index)
  unfolding vslidep_op_get_arg1 concatenated slidep_start slidep_end
  slide_previous zero h small = ground arith
  slide_previous (suc zero) h small = ground arith
  slide_previous (suc (suc zero)) h small = ground arith
  slide_previous (suc (suc (suc zero))) h small = ground arith
  slide_previous (suc (suc (suc (suc o)))) h small = absurd (omega arith)

  -- In a horizontal slide by at most a register's lanes, where a group's lanes are fewer than 2 ^ 32,
  -- lane `e` of register `o` of the stripmined group is, in the two arguments' groups laid one after
  -- the other, lane `o * elts + e + index` when the slide is to the next register, and lane
  -- `4 * elts + o * elts + e - index` when it is from the previous one.
  slides_concatenated :
      (o : ℕ)
      → o < 4
      → 4 * elts < 2 ^ 32
      → (vsliden_op_get_arg1 m t true index s scalar 4 o e i
          ≡ concatenated m t s false (4 * elts) (o * elts + e + index))
        × (vslidep_op_get_arg1 m t true index s scalar 4 o e i
            ≡ concatenated m t s false (4 * elts) (4 * elts + o * elts + e - index))
  slides_concatenated o h small = (slide_next o h, slide_previous o h small)
