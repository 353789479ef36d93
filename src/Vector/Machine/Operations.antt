-- ===== src/Vector/Machine/Operations.antt =====
-- What `CoralNPUBinaryVectorOp` and `CoralNPUUnaryVectorOp` leave in the destination registers.
use coralnpu_mpact.Prelude.{ℕ, ◌+◌, ◌*◌, ◌<◌, ◌≡◌, refl, ap, ◌∙◌, arith}
use coralnpu_mpact.Prelude.{Bool, false, some, ℤ, pos, if◌then◌else◌}
use coralnpu_mpact.Scalar.{CType}
use coralnpu_mpact.Vector.Machine.{Machine, LaneOp, LaneTypes, SourceArgGetter, num_ops}
use coralnpu_mpact.Vector.Machine.{is_reading_dest, dest_regs_per_op}
use coralnpu_mpact.Vector.Machine.{
  elts_per_register, binary_lane, binary_vector_op, unary_vector_op,
}
use coralnpu_mpact.Vector.Machine.{common_binary_op_get_arg1, common_binary_op_get_arg2}
use coralnpu_mpact.Vector.Machine.Submit.{Isolated, collect-total}
use coralnpu_mpact.Vector.Machine.Lanes.{Agrees, Leaves, loop-Leaves}

module _ {S : Type 0} (m : Machine S) where
  -- A getter that reads the source registers alone.
  abbrev pub ReadsSources : SourceArgGetter m → Type 0
  ReadsSources getter =
      (s s' : S)
      → ((t : CType) (j e : ℕ) → m.source s' t j e ≡ m.source s t j e)
      → (scalar : Bool) (n o e i : ℕ) → getter s' scalar n o e i ≡ getter s scalar n o e i

  pub common_arg1-ReadsSources : (ts : LaneTypes) → ReadsSources (common_binary_op_get_arg1 m ts)
  unfolding common_binary_op_get_arg1
  common_arg1-ReadsSources ts s s' h scalar n o e i = h _ _ _

  pub common_arg2-ReadsSources : (ts : LaneTypes) → ReadsSources (common_binary_op_get_arg2 m ts)
  unfolding common_binary_op_get_arg2
  common_arg2-ReadsSources ts s s' h scalar n o e i = h _ _ _

  -- What `vd` is for an operation: the lane before, where the operation reads it.
  abbrev pub old_lane : LaneOp → LaneTypes → S → ℕ → ℕ → ℤ
  old_lane op ts s r e = if is_reading_dest op then m.dest_lane s ts.vd r e else pos 0

module _ {S : Type 0} (m : Machine S) (law : Isolated m) (ts : LaneTypes) (scalar strip_mine : Bool)
    (op : LaneOp) (arg1 arg2 : SourceArgGetter m) (reads1 : ReadsSources m arg1)
    (reads2 : ReadsSources m arg2) where
  abbrev n : ℕ
  n = num_ops strip_mine

  old_lane-Agrees :
      (regs : ℕ) (s s' : S) (o i e : ℕ)
      → o < n
      → i < regs
      → Agrees m ts.vd strip_mine regs s s' o
      → old_lane m op ts s' (o + i * n) e ≡ old_lane m op ts s (o + i * n) e
  old_lane-Agrees regs s s' o i e p q a =
      ap (λ x. if is_reading_dest op then x else pos 0) (a.lanes o i e (omega arith) p q)

  -- A lane is computed from what the registers held before the instruction.
  binary_lane-Agrees :
      (regs : ℕ) (s s' : S) (o i e : ℕ)
      → o < n
      → i < regs
      → Agrees m ts.vd strip_mine regs s s' o
      → binary_lane m ts scalar strip_mine op arg1 arg2 s' o i e
        ≡ binary_lane m ts scalar strip_mine op arg1 arg2 s o i e
  unfolding binary_lane
  binary_lane-Agrees regs s s' o i e p q a =
      rw
        (
          old_lane-Agrees regs s s' o i e p q a,
          reads1 s s' a.sources scalar n o e i,
          reads2 s s' a.sources scalar n o e i,
        )
        refl

  -- For registers that are isolated and getters that read the sources alone: where the function of
  -- the instruction has a value `lane o i e` on every lane of the registers
  -- before the instruction, the binary loop returns, writes those values into the lanes of its
  -- destination registers, and changes no other register.
  pub binary_vector_op-Leaves :
      (halftype widen_dst : Bool) (s : S) (lane : ℕ → ℕ → ℕ → ℤ)
      → ((o i e : ℕ)
          → o < n
          → i < dest_regs_per_op ts halftype widen_dst
          → binary_lane m ts scalar strip_mine op arg1 arg2 s o i e ≡ some (lane o i e))
      → Leaves m ts.vd strip_mine
          (elts_per_register m ts.vd)
          (dest_regs_per_op ts halftype widen_dst)
          lane
          0
          s
          (binary_vector_op m halftype widen_dst ts scalar strip_mine op arg1 arg2 s)
  unfolding binary_vector_op
  binary_vector_op-Leaves halftype widen_dst s lane computes =
      loop-Leaves m law ts.vd strip_mine (elts_per_register m ts.vd)
        (dest_regs_per_op ts halftype widen_dst) lane _ s
        (λ s' o i p q a.
          collect-total _ 0 _ (lane o i)
            (λ e _ _. binary_lane-Agrees _ s s' o i e p q a ∙ computes o i e p q))
        n 0 s (omega arith) (record { sources = λ t j e. refl; lanes = λ p i e _ _ _. refl })

module _ {S : Type 0} (m : Machine S) (law : Isolated m) (vd vs : CType) (strip_mine : Bool)
    (op : ℤ → ℤ) (arg : SourceArgGetter m) (reads : ReadsSources m arg) where
  -- For registers that are isolated and a getter that reads the sources alone, the unary loop returns, writes the function of the argument into every lane of its destination
  -- registers, and changes no other register.
  unary_vector_op-Leaves :
      (s : S)
      → Leaves m vd strip_mine
          (elts_per_register m vd)
          1
          (λ o i e. op (arg s false (num_ops strip_mine) o e 0))
          0
          s
          (unary_vector_op m vd vs strip_mine op arg s)
  unfolding unary_vector_op
  unary_vector_op-Leaves s =
      loop-Leaves m law vd strip_mine (elts_per_register m vd) 1 _ _ s
        (λ s' o i p q a.
          collect-total _ 0 _ _
            (λ e _ _. ap (λ x. some (op x)) (reads s s' a.sources false _ o e 0)))
        (num_ops strip_mine) 0 s (omega arith)
        (record { sources = λ t j e. refl; lanes = λ p i e _ _ _. refl })
