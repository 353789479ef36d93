-- ===== src/Vector/Instructions/Sums.antt =====
-- The additions and subtractions of sim/coralnpu_vector_instructions.cc.
use coralnpu_mpact.Prelude.{Bool, Option}
use coralnpu_mpact.Scalar.{CType, make_unsigned}
use coralnpu_mpact.Vector.Machine.{Machine, three, two}
use coralnpu_mpact.Vector.Arithmetic.{vabsd_lane, vadd3_lane, vadd_lane, vrsub_lane, vsub_lane}
use coralnpu_mpact.Vector.Instructions.{default_vector_op, elementwise, lane_types}

module _ {S : Type 0} (m : Machine S) where
  unfoldable pub vadd : CType → Bool → Bool → S → Option S
  vadd t scalar strip_mine = elementwise m t scalar strip_mine (two (vadd_lane t))

  unfoldable pub vsub : CType → Bool → Bool → S → Option S
  vsub t scalar strip_mine = elementwise m t scalar strip_mine (two (vsub_lane t))

  unfoldable pub vrsub : CType → Bool → Bool → S → Option S
  vrsub t scalar strip_mine = elementwise m t scalar strip_mine (two (vrsub_lane t))

  unfoldable pub vabsd : CType → Bool → Bool → S → Option S
  vabsd t scalar strip_mine =
      default_vector_op m (lane_types (make_unsigned t) t t) scalar strip_mine (two (vabsd_lane t))

  unfoldable pub vadd3 : CType → Bool → Bool → S → Option S
  vadd3 t scalar strip_mine = elementwise m t scalar strip_mine (three (vadd3_lane t))
