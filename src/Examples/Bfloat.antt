-- ===== src/Examples/Bfloat.antt =====
-- The theorems on the conversions of bfloat16, at concrete patterns.
use coralnpu_mpact.Prelude.{◌%◌, ◌^◌, ◌==◌, ◌≡◌, refl, arith, not, ◌||◌, true, false, some}
use coralnpu_mpact.Bfloat.{
  FpState, no_flags, or_flags, round_bfloat16, is_nan32, fcvtsbf16, fcvtbf16s, written,
}
use coralnpu_mpact.Bfloat.Rounding.{rounded, mode, round_bfloat16_lem}
use coralnpu_mpact.Prelude.{
  ℕ, ◌+◌, ◌-◌, ltb, ◌&&◌, Option, none, List, [], ◌∷◌, ℤ, pos, tabulate, get_or,
}
use coralnpu_mpact.Bfloat.Vectors.{
  Operands, is_allowed, is_masked, check_overlap, check_mask_overlap, is_conflict, any_from,
  before_dot, get_register_number, is_even_register, check_zvfbfmin_vector_op_constraints,
  vector_written, widen_loop, vfwcvtbf16ffv, vfncvtbf16ffw,
}
use coralnpu_mpact.Bfloat.Vectors.Lanes.{is_allowed_disjoint, vfncvtbf16ffw-vfwcvtbf16ffv}
use coralnpu_mpact.Bfloat.Overrides.{m3_written, m3_fcvt_bf16_s, m3_fcvt_s_bf16}
use coralnpu_mpact.Bfloat.Agreement.{converted, wide_of, float_of, with_underflow, overrides_agree}
use coralnpu_mpact.Bfloat.Boxed.{box16, box32, widened, canonical16}

round_bfloat16_lem_example :
    (let result = round_bfloat16 0x3F80C000 7 (some 4) no_flags in
      (result.0 ≡ rounded (mode 7 (some 4)) 0x3F80C000)
      × (result.1.inexact ≡ (false || not (0x3F80C000 % 2 ^ 16 == 0))))
unfolding is_nan32
round_bfloat16_lem_example = round_bfloat16_lem 0x3F80C000 7 (some 4) no_flags (omega arith) refl

abbrev fp_state : FpState
fp_state = record { rounding_mode = 3; rounding_mode_valid = true; fflags = no_flags }

overrides_agree_example :
    (let result = converted fp_state 7 (box32 0x00012345) in
      (m3_fcvt_bf16_s float_of (some fp_state) 1 7 (box32 0x00012345)
        ≡ m3_written (box16 result.0) (with_underflow result) 3)
      × (fcvtbf16s (some fp_state) 7 (box32 0x00012345)
          ≡ written (box16 result.0) (or_flags fp_state.fflags result.1))
      × (m3_fcvt_s_bf16 (some fp_state) 1 0 (box32 0x00012345)
          ≡ m3_written (box32 (wide_of (box32 0x00012345)).0) (wide_of (box32 0x00012345)).1 3)
      × (fcvtsbf16 (some fp_state) 0 (box32 0x00012345)
          ≡ written
              (box32 (wide_of (box32 0x00012345)).0)
              (or_flags fp_state.fflags (wide_of (box32 0x00012345)).1)))
overrides_agree_example =
    overrides_agree float_of fp_state 1 7 (box32 0x00012345) refl (omega arith) (omega arith)
      (omega arith) refl

-- One digit after the letter.
abbrev one_digit : List ℕ → Option ℤ
one_digit [] = none
one_digit (c ∷ cs) = some (pos (c - 0x30))

abbrev two_to_one : Operands
two_to_one = record {
  num_regs_dst = 2;
  num_regs_src = 1;
  dest_reg = λ i. 2 + i;
  src_reg = λ j. 2 + j;
  name = λ r. 0x76 ∷ (0x30 + r) ∷ [];
  vm_op = some [];
  v0_reg = 0;
  vtype = 8;
}

abbrev one_to_two : Operands
one_to_two = record {
  num_regs_dst = 1;
  num_regs_src = 2;
  dest_reg = λ i. 4 + i;
  src_reg = λ j. 4 + j;
  name = λ r. 0x76 ∷ (0x30 + r) ∷ [];
  vm_op = none;
  v0_reg = 0;
  vtype = 8;
}

abbrev lane_bits : ℕ → ℕ
lane_bits k = (0x7F80 + k) % 2 ^ 16

is_allowed-two_to_one : is_allowed one_digit true two_to_one none ≡ true
unfolding is_allowed check_overlap check_zvfbfmin_vector_op_constraints any_from get_register_number
    is_conflict is_masked check_mask_overlap before_dot is_even_register
is_allowed-two_to_one = refl

is_allowed-one_to_two : is_allowed one_digit false one_to_two (some 3) ≡ true
unfolding is_allowed check_overlap check_zvfbfmin_vector_op_constraints any_from get_register_number
    is_conflict is_masked check_mask_overlap before_dot is_even_register
is_allowed-one_to_two = refl

is_allowed_disjoint_example :
    (◌≡◌ {A = ℕ} 0 0) × ((not true || ltb 1 2) ≡ true) × ((is_masked (some []) && 3 == 0) ≡ false)
is_allowed_disjoint_example =
    is_allowed_disjoint one_digit true two_to_one none 0 0 1 is_allowed-two_to_one (omega arith)
      (omega arith) (omega arith) refl

vfncvtbf16ffw-vfwcvtbf16ffv_example :
    (let lanes = tabulate 4 0 (λ k. widened (lane_bits k)) in
      (vfwcvtbf16ffv one_digit two_to_one fp_state 4 lane_bits
        ≡ vector_written lanes (widen_loop 4 0 lane_bits fp_state.fflags).1)
      × (vfncvtbf16ffw one_digit one_to_two fp_state 3 4 (λ k. get_or lanes k 0)
          ≡ vector_written (tabulate 4 0 (λ k. canonical16 (lane_bits k))) fp_state.fflags))
vfncvtbf16ffw-vfwcvtbf16ffv_example =
    vfncvtbf16ffw-vfwcvtbf16ffv one_digit two_to_one one_to_two fp_state 3 4 lane_bits
      is_allowed-two_to_one is_allowed-one_to_two (λ k. omega arith)
