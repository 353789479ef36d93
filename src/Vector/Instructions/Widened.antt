-- ===== src/Vector/Instructions/Widened.antt =====
-- The widening operations, and the operations on lane pairs of sim/coralnpu_vector_instructions.cc.
use coralnpu_mpact.Prelude.{Bool, Option, false, true}
use coralnpu_mpact.Scalar.{CType}
use coralnpu_mpact.Vector.Machine.{Machine, binary_vector_op, two}
use coralnpu_mpact.Vector.Arithmetic.{vacc_lane, vaddw_lane, vpadd_lane, vpsub_lane, vsubw_lane}
use coralnpu_mpact.Vector.Shuffle.{packed_binary_op_get_arg1, packed_binary_op_get_arg2}
use coralnpu_mpact.Vector.Instructions.{default_vector_op, lane_types}

module _ {S : Type 0} (m : Machine S) where
  unfoldable pub vaddw : CType → CType → Bool → Bool → S → Option S
  vaddw td ts scalar strip_mine =
      default_vector_op m (lane_types td ts ts) scalar strip_mine (two (vaddw_lane td))

  unfoldable pub vsubw : CType → CType → Bool → Bool → S → Option S
  vsubw td ts scalar strip_mine =
      default_vector_op m (lane_types td ts ts) scalar strip_mine (two (vsubw_lane td))

  unfoldable pub vacc : CType → CType → Bool → Bool → S → Option S
  vacc td ts2 scalar strip_mine =
      default_vector_op m (lane_types td td ts2) scalar strip_mine (two (vacc_lane td))

  unfoldable pub vpadd : CType → CType → Bool → S → Option S
  vpadd td ts strip_mine =
      let types = lane_types td ts ts in
      binary_vector_op m true false types false strip_mine (two (vpadd_lane td))
        (packed_binary_op_get_arg1 m types) (packed_binary_op_get_arg2 m types)

  unfoldable pub vpsub : CType → CType → Bool → S → Option S
  vpsub td ts strip_mine =
      let types = lane_types td ts ts in
      binary_vector_op m true false types false strip_mine (two (vpsub_lane td))
        (packed_binary_op_get_arg1 m types) (packed_binary_op_get_arg2 m types)
