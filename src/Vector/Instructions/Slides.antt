-- ===== src/Vector/Instructions/Slides.antt =====
-- The slides to the next and from the previous register of sim/coralnpu_vector_instructions.cc.
use coralnpu_mpact.Prelude.{Bool, Option, false, true, ℕ}
use coralnpu_mpact.Scalar.{CType}
use coralnpu_mpact.Vector.Machine.{
  LaneOp, Machine, binary_vector_op, common_binary_op_get_arg2, two,
}
use coralnpu_mpact.Vector.Shuffle.{vsliden_op_get_arg1, vslidep_op_get_arg1}
use coralnpu_mpact.Vector.Instructions.{lane_types}

-- `[](T vs1, T vs2) -> T { return vs1; }`
abbrev first : LaneOp
first = two (λ vs1 vs2. vs1)

module _ {S : Type 0} (m : Machine S) where
  unfoldable pub vslidevn : CType → ℕ → Bool → S → Option S
  vslidevn t index strip_mine =
      let types = lane_types t t t in
      binary_vector_op m false false types false strip_mine first
        (vsliden_op_get_arg1 m t false index) (common_binary_op_get_arg2 m types)

  unfoldable pub vslidehn : CType → ℕ → S → Option S
  vslidehn t index =
      let types = lane_types t t t in
      binary_vector_op m false false types false true first (vsliden_op_get_arg1 m t true index)
        (common_binary_op_get_arg2 m types)

  unfoldable pub vslidevp : CType → ℕ → Bool → S → Option S
  vslidevp t index strip_mine =
      let types = lane_types t t t in
      binary_vector_op m false false types false strip_mine first
        (vslidep_op_get_arg1 m t false index) (common_binary_op_get_arg2 m types)

  unfoldable pub vslidehp : CType → ℕ → S → Option S
  vslidehp t index =
      let types = lane_types t t t in
      binary_vector_op m false false types false true first (vslidep_op_get_arg1 m t true index)
        (common_binary_op_get_arg2 m types)
