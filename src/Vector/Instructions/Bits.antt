-- ===== src/Vector/Instructions/Bits.antt =====
-- The bitwise instructions, the counts of bits, and VMV of sim/coralnpu_vector_instructions.cc.
use coralnpu_mpact.Prelude.{Bool, Option, ℕ}
use coralnpu_mpact.Scalar.{CType}
use coralnpu_mpact.Vector.Machine.{Machine, common_binary_op_get_arg1, two, unary_vector_op}
use coralnpu_mpact.Vector.Bitwise.{vand_lane, vclb_lane, vclz_lane, vcpop_lane, vnot_lane}
use coralnpu_mpact.Vector.Bitwise.{vor_lane, vrev_lane, vror_lane, vxor_lane}
use coralnpu_mpact.Vector.Instructions.{elementwise, lane_types}

module _ {S : Type 0} (m : Machine S) where
  unfoldable pub vand : CType → Bool → Bool → S → Option S
  vand t scalar strip_mine = elementwise m t scalar strip_mine (two (vand_lane t))

  unfoldable pub vor : CType → Bool → Bool → S → Option S
  vor t scalar strip_mine = elementwise m t scalar strip_mine (two (vor_lane t))

  unfoldable pub vxor : CType → Bool → Bool → S → Option S
  vxor t scalar strip_mine = elementwise m t scalar strip_mine (two (vxor_lane t))

  unfoldable pub vrev : CType → Bool → Bool → S → Option S
  vrev t scalar strip_mine = elementwise m t scalar strip_mine (two (vrev_lane t))

  unfoldable pub vror : CType → Bool → Bool → S → Option S
  vror t scalar strip_mine = elementwise m t scalar strip_mine (two (vror_lane t))

  unfoldable pub vnot : CType → Bool → S → Option S
  vnot t strip_mine =
      unary_vector_op m t t strip_mine (vnot_lane t)
        (common_binary_op_get_arg1 m (lane_types t t t))

  unfoldable pub vclb : (CType → ℕ → ℕ) → (CType → ℕ → ℕ) → CType → Bool → S → Option S
  vclb countl_zero countl_one t strip_mine =
      unary_vector_op m t t strip_mine (vclb_lane countl_zero countl_one t)
        (common_binary_op_get_arg1 m (lane_types t t t))

  unfoldable pub vclz : (CType → ℕ → ℕ) → CType → Bool → S → Option S
  vclz countl_zero t strip_mine =
      unary_vector_op m t t strip_mine (vclz_lane countl_zero t)
        (common_binary_op_get_arg1 m (lane_types t t t))

  unfoldable pub vcpop : (CType → ℕ → ℕ) → CType → Bool → S → Option S
  vcpop popcount t strip_mine =
      unary_vector_op m t t strip_mine (vcpop_lane popcount t)
        (common_binary_op_get_arg1 m (lane_types t t t))

  unfoldable pub vmv : CType → Bool → S → Option S
  vmv t strip_mine =
      unary_vector_op m t t strip_mine (λ vs. vs) (common_binary_op_get_arg1 m (lane_types t t t))
