-- ===== src/Vector/Instructions/Saturated.antt =====
-- The saturating and halving additions and subtractions of sim/coralnpu_vector_instructions.cc.
use coralnpu_mpact.Prelude.{Bool, Option}
use coralnpu_mpact.Scalar.{CType}
use coralnpu_mpact.Vector.Machine.{Machine, two}
use coralnpu_mpact.Vector.Arithmetic.{
  vadds_helper, vaddsu_helper, vhadd_helper, vhsub_helper, vsubs_helper,
}
use coralnpu_mpact.Vector.Arithmetic.{vsubsu_lane}
use coralnpu_mpact.Vector.Instructions.{elementwise}

module _ {S : Type 0} (m : Machine S) where
  unfoldable pub vadds : CType → Bool → Bool → S → Option S
  vadds t scalar strip_mine = elementwise m t scalar strip_mine (two (vadds_helper t))

  unfoldable pub vaddsu : CType → Bool → Bool → S → Option S
  vaddsu t scalar strip_mine = elementwise m t scalar strip_mine (two (vaddsu_helper t))

  unfoldable pub vsubs : CType → Bool → Bool → S → Option S
  vsubs t scalar strip_mine = elementwise m t scalar strip_mine (two (vsubs_helper t))

  unfoldable pub vsubsu : CType → Bool → Bool → S → Option S
  vsubsu t scalar strip_mine = elementwise m t scalar strip_mine (two (vsubsu_lane t))

  unfoldable pub vhadd : CType → Bool → Bool → Bool → S → Option S
  vhadd t scalar strip_mine round = elementwise m t scalar strip_mine (two (vhadd_helper t round))

  unfoldable pub vhsub : CType → Bool → Bool → Bool → S → Option S
  vhsub t scalar strip_mine round = elementwise m t scalar strip_mine (two (vhsub_helper t round))
