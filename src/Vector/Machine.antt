-- ===== src/Vector/Machine.antt =====
-- The loops of `CoralNPUBinaryVectorOp` and `CoralNPUUnaryVectorOp`, and the getters of their
-- arguments, over the registers that the simulator framework keeps.
pub mod Submit
pub mod Lanes
pub mod Operations
use coralnpu_mpact.Prelude.{ℕ, zero, suc, ◌+◌, ◌*◌, ◌/◌, ◌==◌, ltb, if◌then◌else◌}
use coralnpu_mpact.Prelude.{Bool, true, false, not, ◌&&◌, ◌||◌, Option, none, some, List, [], ◌∷◌}
use coralnpu_mpact.Prelude.{ℤ, pos}
use coralnpu_mpact.Scalar.{CType, size_of}

-- What the framework gives an instruction, for a state `S` that holds the vector registers:
-- `source s t i e` is `GetInstructionSource<T>(inst, i, e)`, `dest_lane s t r e` is lane `e` of the
-- copied data buffer of destination register `r`, and `submit s t r v` is the state after the
-- buffer `v` of destination register `r` is submitted.
pub record Machine (S : Type 0) : Type 0 where
  pub vector_register_width : ℕ
  pub source : S → CType → ℕ → ℕ → ℤ
  pub dest_lane : S → CType → ℕ → ℕ → ℤ
  pub submit : S → CType → ℕ → List ℤ → S

-- The function of an instruction on lanes: of the two arguments, of the destination's lane and the
-- two arguments, or of the two arguments where it may abort the program.
pub data LaneOp : Type 0 where
  two : (ℤ → ℤ → ℤ) → LaneOp
  three : (ℤ → ℤ → ℤ → ℤ) → LaneOp
  checked : (ℤ → ℤ → Option ℤ) → LaneOp

-- The two overloads of `BinaryOpInvoke`.
unfoldable pub binary_op_invoke : LaneOp → ℤ → ℤ → ℤ → Option ℤ
binary_op_invoke (two op) vd vs1 vs2 = some (op vs1 vs2)
binary_op_invoke (three op) vd vs1 vs2 = some (op vd vs1 vs2)
binary_op_invoke (checked op) vd vs1 vs2 = op vs1 vs2

-- `is_reading_dest`
unfoldable pub is_reading_dest : LaneOp → Bool
is_reading_dest (two op) = false
is_reading_dest (three op) = true
is_reading_dest (checked op) = false

-- The lane types of the destination and of the two arguments.
pub record LaneTypes : Type 0 where
  pub vd : CType
  pub vs1 : CType
  pub vs2 : CType

abbrev pub num_ops : Bool → ℕ
num_ops strip_mine = if strip_mine then 4 else 1

-- `is_widen_op`, and the destination registers per operation.
unfoldable pub dest_regs_per_op : LaneTypes → Bool → Bool → ℕ
dest_regs_per_op ts halftype widen_dst =
    if ltb (size_of ts.vs2) (size_of ts.vd) && not halftype || widen_dst then 2 else 1

-- What a loop from index `i` on collects in `n` rounds, unless a round aborts.
unfoldable pub collect {ℓ} : {A : Type ℓ} → ℕ → ℕ → (ℕ → Option A) → Option (List A)
collect zero i round = some []
collect (suc n) i round =
    let rest = collect n (i + 1) round in
    elim (round i) [ none ↦ none | some v ↦ elim rest [ none ↦ none | some vs ↦ some (v ∷ vs) ] ]

module _ {S : Type 0} (m : Machine S) where
  unfoldable pub elts_per_register : CType → ℕ
  elts_per_register t = m.vector_register_width / size_of t

  -- A getter's arguments: the state, `scalar`, `num_ops`, `op_index`, `dst_element_index` and
  -- `dst_reg_index`.
  abbrev pub SourceArgGetter : Type 0
  SourceArgGetter = S → Bool → ℕ → ℕ → ℕ → ℕ → ℤ

  unfoldable pub common_binary_op_get_arg1 : LaneTypes → SourceArgGetter
  common_binary_op_get_arg1 ts s scalar num_ops op_index dst_element_index dst_reg_index =
      let elts = elts_per_register ts.vs1 in
      let src_element_index =
        op_index * elts + dst_element_index * size_of ts.vd / size_of ts.vs1 in
      m.source s ts.vs1 0 (
        if size_of ts.vd == size_of ts.vs1 && size_of ts.vs1 == 2 * size_of ts.vs2
        then src_element_index + num_ops * elts * dst_reg_index
        else src_element_index + dst_reg_index)

  unfoldable pub common_binary_op_get_arg2 : LaneTypes → SourceArgGetter
  common_binary_op_get_arg2 ts s scalar num_ops op_index dst_element_index dst_reg_index =
      let src_element_index =
        op_index * elts_per_register ts.vs2
        + dst_element_index * size_of ts.vd / size_of ts.vs2
        + dst_reg_index in
      m.source s ts.vs2 1 (if scalar then 0 else src_element_index)

  -- The buffers of one operation's destination registers are submitted in order.
  unfoldable pub submit_all : CType → ℕ → ℕ → ℕ → List (List ℤ) → S → S
  submit_all t num_ops op_index i [] s = s
  submit_all t num_ops op_index i (b ∷ bs) s =
      submit_all t num_ops op_index (i + 1) bs (m.submit s t (op_index + i * num_ops) b)

  -- The loop over `op_index`; `none` is an abort by a failed check in a lane.
  unfoldable pub ops_loop : CType → ℕ → ℕ → (S → ℕ → ℕ → Option (List ℤ)) → ℕ → ℕ → S → Option S
  ops_loop t num_ops regs buffer zero op_index s = some s
  ops_loop t num_ops regs buffer (suc left) op_index s = elim (collect regs 0 (buffer s op_index)) [
    | none ↦ none
    | some bs ↦
        ops_loop t num_ops regs buffer left (op_index + 1) (submit_all t num_ops op_index 0 bs s)
  ]

  -- One lane: the new buffer's lane holds no defined value unless the buffer was copied.
  unfoldable pub binary_lane :
      LaneTypes
      → Bool
      → Bool
      → LaneOp
      → SourceArgGetter
      → SourceArgGetter
      → S
      → ℕ
      → ℕ
      → ℕ
      → Option ℤ
  binary_lane ts scalar strip_mine op arg1_getter arg2_getter s op_index i e =
      let n = num_ops strip_mine in
      binary_op_invoke op
        (if is_reading_dest op then m.dest_lane s ts.vd (op_index + i * n) e else pos 0)
        (arg1_getter s scalar n op_index e i) (arg2_getter s scalar n op_index e i)

  unfoldable pub binary_vector_op :
      Bool
      → Bool
      → LaneTypes
      → Bool
      → Bool
      → LaneOp
      → SourceArgGetter
      → SourceArgGetter
      → S
      → Option S
  binary_vector_op halftype widen_dst ts scalar strip_mine op arg1_getter arg2_getter s =
      let n = num_ops strip_mine in
      ops_loop ts.vd n (dest_regs_per_op ts halftype widen_dst)
        (λ s' op_index i.
          collect (elts_per_register ts.vd) 0
            (binary_lane ts scalar strip_mine op arg1_getter arg2_getter s' op_index i))
        n 0 s

  -- One destination register per operation, and one argument.
  unfoldable pub unary_vector_op : CType → CType → Bool → (ℤ → ℤ) → SourceArgGetter → S → Option S
  unary_vector_op vd vs strip_mine op arg_getter s =
      let n = num_ops strip_mine in
      ops_loop vd n 1
        (λ s' op_index i.
          collect (elts_per_register vd) 0 (λ e. some (op (arg_getter s' false n op_index e 0))))
        n 0 s
