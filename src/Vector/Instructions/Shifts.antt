-- ===== src/Vector/Instructions/Shifts.antt =====
-- The shifts of sim/coralnpu_vector_instructions.cc.
use coralnpu_mpact.Prelude.{Bool, Option, false}
use coralnpu_mpact.Scalar.{CType}
use coralnpu_mpact.Vector.Machine.{
  Machine, binary_vector_op, checked, common_binary_op_get_arg2, two,
}
use coralnpu_mpact.Vector.Shift.{vshift_helper, vsll_lane, vsra_lane, vsrans_helper, vsrl_lane}
use coralnpu_mpact.Vector.Shuffle.{vsrans_op_get_arg1}
use coralnpu_mpact.Vector.Instructions.{elementwise, lane_types}

module _ {S : Type 0} (m : Machine S) where
  unfoldable pub vsll : CType → Bool → Bool → S → Option S
  vsll t scalar strip_mine = elementwise m t scalar strip_mine (two (vsll_lane t))

  unfoldable pub vsra : CType → Bool → Bool → S → Option S
  vsra t scalar strip_mine = elementwise m t scalar strip_mine (two (vsra_lane t))

  unfoldable pub vsrl : CType → Bool → Bool → S → Option S
  vsrl t scalar strip_mine = elementwise m t scalar strip_mine (two (vsrl_lane t))

  unfoldable pub vshift : CType → Bool → Bool → Bool → S → Option S
  vshift t round scalar strip_mine =
      elementwise m t scalar strip_mine (checked (vshift_helper t round))

  unfoldable pub vsrans : CType → CType → Bool → Bool → Bool → S → Option S
  vsrans td ts round scalar strip_mine =
      let types = lane_types td ts td in
      binary_vector_op m false false types scalar strip_mine (two (vsrans_helper td ts round))
        (vsrans_op_get_arg1 m types) (common_binary_op_get_arg2 m types)
