-- ===== src/Vector/Instructions/Interleaves.antt =====
-- The selection, register pairs, even and odd lanes, and VZIP of sim/coralnpu_vector_instructions.cc.
use coralnpu_mpact.Prelude.{Bool, Option, false, true, ℤ}
use coralnpu_mpact.Prelude.{pos, if◌then◌else◌}
use coralnpu_mpact.Scalar.{CType, eqb_ℤ, bitwise_and}
use coralnpu_mpact.Vector.Machine.{LaneOp, Machine, binary_vector_op, three, two}
use coralnpu_mpact.Vector.Shuffle.{
  vevn_op_get_arg1, vevnodd_op_get_arg1, vmvp_op_get_arg1, vodd_op_get_arg1, vzip_op_get_arg1,
}
use coralnpu_mpact.Vector.Instructions.{elementwise, lane_types}

-- `vs1 & 1 ? vd : vs2`
unfoldable pub vsel_lane : CType → ℤ → ℤ → ℤ → ℤ
vsel_lane t vd vs1 vs2 = if eqb_ℤ (bitwise_and t vs1 (pos 1)) (pos 0) then vs2 else vd

-- `[](T vs1, T vs2) -> T { return vs1; }`
abbrev pub first : LaneOp
first = two (λ vs1 vs2. vs1)

module _ {S : Type 0} (m : Machine S) where
  unfoldable pub vsel : CType → Bool → Bool → S → Option S
  vsel t scalar strip_mine = elementwise m t scalar strip_mine (three (vsel_lane t))

  unfoldable pub vmvp : CType → Bool → Bool → S → Option S
  vmvp t scalar strip_mine =
      let types = lane_types t t t in
      binary_vector_op m false true types scalar strip_mine first (vmvp_op_get_arg1 m types)
        (vmvp_op_get_arg1 m types)

  unfoldable pub vevn : CType → Bool → Bool → S → Option S
  vevn t scalar strip_mine =
      let types = lane_types t t t in
      binary_vector_op m false false types scalar strip_mine first (vevn_op_get_arg1 m t)
        (vevn_op_get_arg1 m t)

  unfoldable pub vodd : CType → Bool → Bool → S → Option S
  vodd t scalar strip_mine =
      let types = lane_types t t t in
      binary_vector_op m false false types scalar strip_mine first (vodd_op_get_arg1 m t)
        (vodd_op_get_arg1 m t)

  unfoldable pub vevnodd : CType → Bool → Bool → S → Option S
  vevnodd t scalar strip_mine =
      let types = lane_types t t t in
      binary_vector_op m false true types scalar strip_mine first (vevnodd_op_get_arg1 m t)
        (vevnodd_op_get_arg1 m t)

  unfoldable pub vzip : CType → Bool → Bool → S → Option S
  vzip t scalar strip_mine =
      let types = lane_types t t t in
      binary_vector_op m false true types scalar strip_mine first (vzip_op_get_arg1 m t)
        (vzip_op_get_arg1 m t)
