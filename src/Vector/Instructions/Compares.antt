-- ===== src/Vector/Instructions/Compares.antt =====
-- The comparisons, maximum and minimum of sim/coralnpu_vector_instructions.cc.
use coralnpu_mpact.Prelude.{Bool, Option}
use coralnpu_mpact.Scalar.{CType}
use coralnpu_mpact.Vector.Machine.{Machine, two}
use coralnpu_mpact.Vector.Arithmetic.{veq_lane, vge_lane, vgt_lane, vle_lane, vlt_lane}
use coralnpu_mpact.Vector.Arithmetic.{vmax_lane, vmin_lane, vne_lane}
use coralnpu_mpact.Vector.Instructions.{elementwise}

module _ {S : Type 0} (m : Machine S) where
  unfoldable pub veq : CType → Bool → Bool → S → Option S
  veq t scalar strip_mine = elementwise m t scalar strip_mine (two veq_lane)

  unfoldable pub vne : CType → Bool → Bool → S → Option S
  vne t scalar strip_mine = elementwise m t scalar strip_mine (two vne_lane)

  unfoldable pub vlt : CType → Bool → Bool → S → Option S
  vlt t scalar strip_mine = elementwise m t scalar strip_mine (two vlt_lane)

  unfoldable pub vle : CType → Bool → Bool → S → Option S
  vle t scalar strip_mine = elementwise m t scalar strip_mine (two vle_lane)

  unfoldable pub vgt : CType → Bool → Bool → S → Option S
  vgt t scalar strip_mine = elementwise m t scalar strip_mine (two vgt_lane)

  unfoldable pub vge : CType → Bool → Bool → S → Option S
  vge t scalar strip_mine = elementwise m t scalar strip_mine (two vge_lane)

  unfoldable pub vmax : CType → Bool → Bool → S → Option S
  vmax t scalar strip_mine = elementwise m t scalar strip_mine (two vmax_lane)

  unfoldable pub vmin : CType → Bool → Bool → S → Option S
  vmin t scalar strip_mine = elementwise m t scalar strip_mine (two vmin_lane)
