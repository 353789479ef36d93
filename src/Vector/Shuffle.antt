-- ===== src/Vector/Shuffle.antt =====
-- The argument getters of sim/coralnpu_vector_instructions.cc that move lanes between registers:
-- packed pairs, VMVP, the narrowing shifts, slides, even and odd lanes, and VZIP.
pub mod Slide
pub mod Zip
use coralnpu_mpact.Prelude.{ℕ, zero, suc, ◌+◌, ◌-◌, ◌*◌, ◌/◌, ◌%◌, ◌^◌, ◌==◌, ltb, if◌then◌else◌}
use coralnpu_mpact.Prelude.{Bool, true, false, ℤ}
use coralnpu_mpact.Scalar.{CType, size_of}
use coralnpu_mpact.Vector.Machine.{Machine, LaneTypes, SourceArgGetter, elts_per_register}
use coralnpu_mpact.Vector.Machine.{common_binary_op_get_arg1, common_binary_op_get_arg2}

-- `size_t` subtraction wraps.
abbrev pub sub_size : ℕ → ℕ → ℕ
sub_size a b = (a + 2 ^ 64 - b) % 2 ^ 64

-- `{0, 2, 1, 3}`
unfoldable pub sran_interleave : ℕ → ℕ
sran_interleave zero = 0
sran_interleave (suc zero) = 2
sran_interleave (suc (suc zero)) = 1
sran_interleave _ = 3

-- A row of the slides' tables: the register of the group, and the argument that it is read from.
pub record Interleave : Type 0 where
  pub register_num : ℕ
  pub source_arg : ℕ

abbrev entry : ℕ → ℕ → Interleave
entry r a = record { register_num = r; source_arg = a }

-- `interleave_start` and `interleave_end` of `VSlidenOpGetArg1`, by `horizontal` and `op_index`.
unfoldable pub sliden_start : Bool → ℕ → Interleave
sliden_start horizontal op_index = entry op_index 0

unfoldable pub sliden_end : Bool → ℕ → Interleave
sliden_end false op_index = entry op_index 1
sliden_end true op_index = if op_index == 3 then entry 0 1 else entry (op_index + 1) 0

-- The tables of `VSlidepOpGetArg1`.
unfoldable pub slidep_start : Bool → ℕ → Interleave
slidep_start false op_index = entry op_index 0
slidep_start true op_index = if op_index == 0 then entry 3 0 else entry (op_index - 1) 1

unfoldable pub slidep_end : Bool → ℕ → Interleave
slidep_end horizontal op_index = entry op_index 1

module _ {S : Type 0} (m : Machine S) where
  unfoldable pub packed_binary_op_get_arg1 : LaneTypes → SourceArgGetter m
  packed_binary_op_get_arg1 ts s scalar num_ops op_index dst_element_index dst_reg_index =
      m.source s ts.vs1 0
        (op_index * elts_per_register m ts.vs1 + dst_element_index * size_of ts.vd / size_of ts.vs1)

  unfoldable pub packed_binary_op_get_arg2 : LaneTypes → SourceArgGetter m
  packed_binary_op_get_arg2 ts s scalar num_ops op_index dst_element_index dst_reg_index =
      m.source s ts.vs2 0 (
        op_index * elts_per_register m ts.vs2
        + dst_element_index * size_of ts.vd / size_of ts.vs2
        + 1)

  unfoldable pub vmvp_op_get_arg1 : LaneTypes → SourceArgGetter m
  vmvp_op_get_arg1 ts s scalar num_ops op_index dst_element_index dst_reg_index =
      if dst_reg_index == 0
      then common_binary_op_get_arg1 m ts s scalar num_ops op_index dst_element_index 0
      else common_binary_op_get_arg2 m ts s scalar num_ops op_index dst_element_index 0

  unfoldable pub vsrans_op_get_arg1 : LaneTypes → SourceArgGetter m
  vsrans_op_get_arg1 ts s scalar num_ops op_index dst_element_index dst_reg_index =
      let elts = elts_per_register m ts.vs1 in
      let src_element_index =
        op_index * elts + dst_element_index * size_of ts.vd / size_of ts.vs1 in
      m.source s ts.vs1 0 (
        src_element_index
        + (if size_of ts.vs1 / size_of ts.vd == 2
            then (if dst_element_index % 2 == 1 then num_ops * elts else 0)
            else sran_interleave (dst_element_index % 4) * num_ops * elts))

  unfoldable pub vsliden_op_get_arg1 : CType → Bool → ℕ → SourceArgGetter m
  vsliden_op_get_arg1 t horizontal index s scalar num_ops op_index dst_element_index dst_reg_index =
      let elts = elts_per_register m t in
      let start = sliden_start horizontal op_index in
      let end = sliden_end horizontal op_index in
      if ltb (dst_element_index + index) elts
      then m.source s t start.source_arg (start.register_num * elts + dst_element_index + index)
      else m.source s t end.source_arg (end.register_num * elts + dst_element_index + index - elts)

  unfoldable pub vslidep_op_get_arg1 : CType → Bool → ℕ → SourceArgGetter m
  vslidep_op_get_arg1 t horizontal index s scalar num_ops op_index dst_element_index dst_reg_index =
      let elts = elts_per_register m t in
      let start = slidep_start horizontal op_index in
      let end = slidep_end horizontal op_index in
      if ltb dst_element_index index
      then m.source s t start.source_arg
          ((sub_size (start.register_num * elts + dst_element_index) index + elts) % 2 ^ 64)
      else m.source s t end.source_arg (end.register_num * elts + dst_element_index - index)

  -- The lane of the two arguments' registers, one after the other.
  unfoldable pub concatenated : CType → S → Bool → ℕ → ℕ → ℤ
  concatenated t s scalar elts_per_src src_element_index =
      if ltb src_element_index elts_per_src
      then m.source s t 0 src_element_index
      else m.source s t 1 (if scalar then 0 else src_element_index - elts_per_src)

  unfoldable pub vevn_op_get_arg1 : CType → SourceArgGetter m
  vevn_op_get_arg1 t s scalar num_ops op_index dst_element_index dst_reg_index =
      let elts = elts_per_register m t in
      concatenated t s scalar (elts * num_ops) (op_index * elts * 2 + dst_element_index * 2)

  unfoldable pub vodd_op_get_arg1 : CType → SourceArgGetter m
  vodd_op_get_arg1 t s scalar num_ops op_index dst_element_index dst_reg_index =
      let elts = elts_per_register m t in
      concatenated t s scalar (elts * num_ops) (op_index * elts * 2 + dst_element_index * 2 + 1)

  unfoldable pub vevnodd_op_get_arg1 : CType → SourceArgGetter m
  vevnodd_op_get_arg1 t s scalar num_ops op_index dst_element_index dst_reg_index =
      if dst_reg_index == 0
      then vevn_op_get_arg1 t s scalar num_ops op_index dst_element_index dst_reg_index
      else vodd_op_get_arg1 t s scalar num_ops op_index dst_element_index dst_reg_index

  unfoldable pub vzip_op_get_arg1 : CType → SourceArgGetter m
  vzip_op_get_arg1 t s scalar num_ops op_index dst_element_index dst_reg_index =
      let half_elts = elts_per_register m t / 2 in
      let src_element_index =
        op_index * half_elts + dst_element_index / 2 + dst_reg_index * half_elts * num_ops in
      if dst_element_index % 2 == 1
      then m.source s t 1 (if scalar then 0 else src_element_index)
      else m.source s t 0 src_element_index
