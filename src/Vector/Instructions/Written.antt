-- ===== src/Vector/Instructions/Written.antt =====
-- What the elementwise instructions leave in the vector registers, from the source lanes to the
-- destination lanes.
use coralnpu_mpact.Prelude.{ℕ, zero, suc, ◌+◌, ◌*◌, ◌≤◌, ◌<◌, ◌≡◌, ap, arith}
use coralnpu_mpact.Prelude.{Bool, false, Option, some, if◌then◌else◌}
use coralnpu_mpact.Prelude.{ℤ}
use coralnpu_mpact.Scalar.{Lane, i8, int8, ctype, InRange}
use coralnpu_mpact.Vector.Machine.{
  Machine, LaneOp, LaneTypes, num_ops, elts_per_register, binary_op_invoke,
}
use coralnpu_mpact.Vector.Machine.{
  binary_lane, common_binary_op_get_arg1, common_binary_op_get_arg2, dest_regs_per_op,
}
use coralnpu_mpact.Vector.Machine.Submit.{Isolated}
use coralnpu_mpact.Vector.Machine.Lanes.{Leaves}
use coralnpu_mpact.Vector.Machine.Operations.{
  old_lane, common_arg1-ReadsSources, common_arg2-ReadsSources, binary_vector_op-Leaves,
}
use coralnpu_mpact.Vector.Instructions.{lane_types, elementwise, default_vector_op}

abbrev same : Lane → LaneTypes
same t = lane_types (ctype t) (ctype t) (ctype t)

one_register : (t : Lane) → dest_regs_per_op (same t) false false ≡ 1
unfolding dest_regs_per_op
one_register i8 = ground arith
one_register _ = ground arith

module _ {S : Type 0} (m : Machine S) where
  arg1_lem :
      (t : Lane) (s : S) (scalar : Bool) (n o e i : ℕ)
      → common_binary_op_get_arg1 m (same t) s scalar n o e i
        ≡ m.source s (ctype t) 0 (o * elts_per_register m (ctype t) + e + i)
  unfolding common_binary_op_get_arg1
  arg1_lem i8 s scalar n o e i = ap (m.source s int8 0) (ground arith)
  arg1_lem _ s scalar n o e i = ap (m.source s _ 0) (ground arith)

  arg2_lem :
      (t : Lane) (s : S) (scalar : Bool) (n o e i : ℕ)
      → common_binary_op_get_arg2 m (same t) s scalar n o e i
        ≡ m.source s (ctype t) 1 (if scalar then 0 else o * elts_per_register m (ctype t) + e + i)
  unfolding common_binary_op_get_arg2
  arg2_lem i8 s scalar n o e i = ap (m.source s int8 1) (ground arith)
  arg2_lem _ s scalar n o e i = ap (m.source s _ 1) (ground arith)

past : {n : ℕ} (r o i : ℕ) → n ≤ r → o < n → i < 1 → o + i * n ≡ r → ⊥
past r o zero p l k h = omega arith
past r o (suc i) p l k h = omega arith

module _ {S : Type 0} (m : Machine S) (t : Lane) (scalar strip_mine : Bool) (s : S) where
  -- Lane `e` of operation `o` of the first argument, and of the second one, which is a scalar if
  -- `scalar` is set.
  abbrev pub lane1 : ℕ → ℕ → ℤ
  lane1 o e = m.source s (ctype t) 0 (o * elts_per_register m (ctype t) + e)

  abbrev pub lane2 : ℕ → ℕ → ℤ
  lane2 o e = m.source s (ctype t) 1 (if scalar then 0 else o * elts_per_register m (ctype t) + e)

  -- The sources of the instruction are values of the lane type.
  abbrev pub HoldsLanes : Type 0
  HoldsLanes = (i j : ℕ) → InRange (ctype t) (m.source s (ctype t) i j)

  -- The instruction returns; register `o` of its operations holds the values, and the registers
  -- past them are as before.
  pub record Writes (value : ℕ → ℕ → ℤ) (out : Option S) : Type 0 where
    pub result : S
    pub returns : out ≡ some result
    pub written :
        (o e : ℕ)
        → o < num_ops strip_mine
        → e < elts_per_register m (ctype t)
        → m.dest_lane result (ctype t) o e ≡ value o e
    pub kept :
        (r e : ℕ)
        → num_ops strip_mine ≤ r
        → m.dest_lane result (ctype t) r e ≡ m.dest_lane s (ctype t) r e

  module _ (law : Isolated m) (op : LaneOp) (value : ℕ → ℕ → ℤ)
      (computes : (o e : ℕ)
        → binary_op_invoke op (old_lane m op (same t) s o e) (lane1 o e) (lane2 o e)
          ≡ some (value o e)) where
    lane_value :
        (o i e : ℕ)
        → i ≡ 0
        → binary_lane m
            (same t)
            scalar
            strip_mine
            op
            (common_binary_op_get_arg1 m (same t))
            (common_binary_op_get_arg2 m (same t))
            s
            o
            i
            e
          ≡ some (value o e)
    unfolding binary_lane
    lane_value o i e z =
        let here : o + i * num_ops strip_mine ≡ o = rw z (omega arith) in
        let first : o * elts_per_register m (ctype t) + e + i
            ≡ o * elts_per_register m (ctype t) + e =
          omega arith in
        rw (arg1_lem m t s scalar (num_ops strip_mine) o e i)
          (rw (arg2_lem m t s scalar (num_ops strip_mine) o e i) (rw (here, first) (computes o e)))

    leaves :
        Leaves m
          (ctype t)
          strip_mine
          (elts_per_register m (ctype t))
          (dest_regs_per_op (same t) false false)
          (λ o i e. value o e)
          0
          s
          (elementwise m (ctype t) scalar strip_mine op s)
    unfolding elementwise default_vector_op
    leaves =
        binary_vector_op-Leaves m law (same t) scalar strip_mine op
          (common_binary_op_get_arg1 m (same t)) (common_binary_op_get_arg2 m (same t))
          (common_arg1-ReadsSources m (same t)) (common_arg2-ReadsSources m (same t)) false false s
          (λ o i e. value o e) (λ o i e p q. lane_value o i e (omega (arith, one_register t)))

    -- An instruction whose function has the value `value o e` on the lanes of its operands.
    pub elementwise-Writes : Writes value (elementwise m (ctype t) scalar strip_mine op s)
    elementwise-Writes = record {
      result = leaves.result;
      returns = leaves.returns;
      written = λ o e p q.
          (let here : o + 0 * num_ops strip_mine ≡ o = omega arith in
            rw here at (leaves.written o 0 e (omega arith) p (omega (arith, one_register t)) q));
      kept = λ r e p. leaves.kept r e (λ o i _ l k same_register.
          absurd (past r o i p l (rw (one_register t) at k) same_register));
    }
