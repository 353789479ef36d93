-- ===== src/Vector/Instructions/Products.antt =====
-- The multiplications of sim/coralnpu_vector_instructions.cc.
use coralnpu_mpact.Prelude.{Bool, Option}
use coralnpu_mpact.Scalar.{CType}
use coralnpu_mpact.Vector.Machine.{Machine, three, two}
use coralnpu_mpact.Vector.Multiply.{vdmulh_helper, vmacc_lane, vmadd_lane, vmul_lane, vmulh_helper}
use coralnpu_mpact.Vector.Multiply.{vmuls_lane, vmulw_lane}
use coralnpu_mpact.Vector.Instructions.{default_vector_op, elementwise, lane_types}

module _ {S : Type 0} (m : Machine S) where
  unfoldable pub vmul : CType → Bool → Bool → S → Option S
  vmul t scalar strip_mine = elementwise m t scalar strip_mine (two (vmul_lane t))

  unfoldable pub vmuls : CType → Bool → Bool → S → Option S
  vmuls t scalar strip_mine = elementwise m t scalar strip_mine (two (vmuls_lane t))

  unfoldable pub vmulw : CType → CType → Bool → Bool → S → Option S
  vmulw td ts scalar strip_mine =
      default_vector_op m (lane_types td ts ts) scalar strip_mine (two (vmulw_lane td))

  unfoldable pub vmulh : CType → Bool → Bool → Bool → S → Option S
  vmulh t scalar strip_mine round = elementwise m t scalar strip_mine (two (vmulh_helper t round))

  unfoldable pub vdmulh : CType → Bool → Bool → Bool → Bool → S → Option S
  vdmulh t scalar strip_mine round round_neg =
      elementwise m t scalar strip_mine (two (vdmulh_helper t round round_neg))

  unfoldable pub vmacc : CType → Bool → Bool → S → Option S
  vmacc t scalar strip_mine = elementwise m t scalar strip_mine (three (vmacc_lane t))

  unfoldable pub vmadd : CType → Bool → Bool → S → Option S
  vmadd t scalar strip_mine = elementwise m t scalar strip_mine (three (vmadd_lane t))
