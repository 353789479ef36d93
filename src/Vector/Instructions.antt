-- ===== src/Vector/Instructions.antt =====
-- The instructions of sim/coralnpu_vector_instructions.cc: the loops, applied to the lane functions.
-- The template arguments are the first arguments; `s` is the state that the instruction reads.
pub mod Sums
pub mod Compares
pub mod Saturated
pub mod Widened
pub mod Bits
pub mod Shifts
pub mod Products
pub mod Slides
pub mod Interleaves
pub mod Zips
pub mod Written
pub mod Guarantees
use coralnpu_mpact.Prelude.{Bool, false, Option}
use coralnpu_mpact.Scalar.{CType}
use coralnpu_mpact.Vector.Machine.{Machine, LaneOp, LaneTypes, binary_vector_op}
use coralnpu_mpact.Vector.Machine.{common_binary_op_get_arg1, common_binary_op_get_arg2}

abbrev pub lane_types : CType → CType → CType → LaneTypes
lane_types vd vs1 vs2 = record { vd = vd; vs1 = vs1; vs2 = vs2 }

module _ {S : Type 0} (m : Machine S) where
  -- `CoralNPUBinaryVectorOp` with its default arguments.
  unfoldable pub default_vector_op : LaneTypes → Bool → Bool → LaneOp → S → Option S
  default_vector_op ts scalar strip_mine op =
      binary_vector_op m false false ts scalar strip_mine op (common_binary_op_get_arg1 m ts)
        (common_binary_op_get_arg2 m ts)

  -- The same, where the three lane types are one.
  unfoldable pub elementwise : CType → Bool → Bool → LaneOp → S → Option S
  elementwise t = default_vector_op (lane_types t t t)
