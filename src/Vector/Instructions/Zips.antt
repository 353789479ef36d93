-- ===== src/Vector/Instructions/Zips.antt =====
-- VZIP and VEVNODD of sim/coralnpu_vector_instructions.cc, one after the other.
use coralnpu_mpact.Prelude.{ℕ, ◌+◌, ◌*◌, ◌%◌, ◌==◌, ltb, ◌<◌, ◌≡◌, ap₂, ◌∙◌, arith, refl}
use coralnpu_mpact.Prelude.{Bool, false, true, Option, some, if◌then◌else◌, ℤ}
use coralnpu_mpact.Scalar.{CType}
use coralnpu_mpact.Vector.Machine.{Machine, elts_per_register, num_ops, dest_regs_per_op}
use coralnpu_mpact.Vector.Machine.{binary_lane, binary_op_invoke}
use coralnpu_mpact.Vector.Machine.Submit.{Isolated}
use coralnpu_mpact.Vector.Machine.Lanes.{Leaves}
use coralnpu_mpact.Vector.Machine.Operations.{ReadsSources, binary_vector_op-Leaves}
use coralnpu_mpact.Vector.Instructions.{lane_types}
use coralnpu_mpact.Vector.Instructions.Interleaves.{vzip, vevnodd, first}
use coralnpu_mpact.Vector.Shuffle.{
  concatenated, vevn_op_get_arg1, vodd_op_get_arg1, vevnodd_op_get_arg1, vzip_op_get_arg1,
}
use coralnpu_mpact.Vector.Shuffle.Zip.{Zipped, vevnodd_args-zip}

two_registers : (t : CType) → dest_regs_per_op (lane_types t t t) false true ≡ 2
unfolding dest_regs_per_op
two_registers t = ground arith

module _ {S : Type 0} (m : Machine S) (t : CType) where
  vzip-ReadsSources : ReadsSources m (vzip_op_get_arg1 m t)
  unfolding vzip_op_get_arg1
  vzip-ReadsSources s s' h scalar n o e i =
      ap₂ (λ x y. if e % 2 == 1 then x else y) (h t 1 _) (h t 0 _)

  concatenated_reads :
      (s s' : S) (scalar : Bool) (elts k : ℕ)
      → ((t : CType) (j e : ℕ) → m.source s' t j e ≡ m.source s t j e)
      → concatenated m t s' scalar elts k ≡ concatenated m t s scalar elts k
  unfolding concatenated
  concatenated_reads s s' scalar elts k h =
      ap₂ (λ x y. if ltb k elts then x else y) (h t 0 _) (h t 1 _)

  vevnodd-ReadsSources : ReadsSources m (vevnodd_op_get_arg1 m t)
  unfolding vevnodd_op_get_arg1 vevn_op_get_arg1 vodd_op_get_arg1
  vevnodd-ReadsSources s s' h scalar n o e i =
      ap₂ (λ x y. if i == 0 then x else y) (concatenated_reads s s' scalar _ _ h)
        (concatenated_reads s s' scalar _ _ h)

  -- The sources of `s'` are the registers that an instruction left in `r`: the first argument its
  -- first destination registers, and the second argument its second ones.
  pub record Feeds (strip_mine : Bool) (r s' : S) : Type 0 where
    pub low :
        (o e : ℕ)
        → o < num_ops strip_mine
        → e < elts_per_register m t
        → m.source s' t 0 (o * elts_per_register m t + e) ≡ m.dest_lane r t o e
    pub high :
        (o e : ℕ)
        → o < num_ops strip_mine
        → e < elts_per_register m t
        → m.source s' t 1 (o * elts_per_register m t + e)
          ≡ m.dest_lane r t (o + num_ops strip_mine) e

module _ {S : Type 0} (m : Machine S) (law : Isolated m) (t : CType) (strip_mine : Bool)
    (s : S) where
  abbrev n : ℕ
  n = num_ops strip_mine

  abbrev elts : ℕ
  elts = elts_per_register m t

  vzip-Leaves :
      Leaves m t strip_mine elts
        (dest_regs_per_op (lane_types t t t) false true)
        (λ o i e. vzip_op_get_arg1 m t s false n o e i)
        0
        s
        (vzip m t false strip_mine s)
  unfolding vzip binary_lane binary_op_invoke
  vzip-Leaves =
      binary_vector_op-Leaves m law (lane_types t t t) false strip_mine first (vzip_op_get_arg1 m t)
        (vzip_op_get_arg1 m t) (vzip-ReadsSources m t) (vzip-ReadsSources m t) false true s _
        (λ o i e p q. refl)

  vevnodd-Leaves :
      Leaves m t strip_mine elts
        (dest_regs_per_op (lane_types t t t) false true)
        (λ o i e. vevnodd_op_get_arg1 m t s false n o e i)
        0
        s
        (vevnodd m t false strip_mine s)
  unfolding vevnodd binary_lane binary_op_invoke
  vevnodd-Leaves =
      binary_vector_op-Leaves m law (lane_types t t t) false strip_mine first
        (vevnodd_op_get_arg1 m t) (vevnodd_op_get_arg1 m t) (vevnodd-ReadsSources m t)
        (vevnodd-ReadsSources m t) false true s _ (λ o i e p q. refl)

  -- The registers of the pair that an operation leaves.
  pair :
      {lane : ℕ → ℕ → ℕ → ℤ} {out : Option S}
      → (l : Leaves m t strip_mine elts
          (dest_regs_per_op (lane_types t t t) false true)
          lane
          0
          s
          out)
      → (o e : ℕ) → o < n
      → e < elts
      → (m.dest_lane l.result t o e ≡ lane o 0 e) × (m.dest_lane l.result t (o + n) e ≡ lane o 1 e)
  pair l o e p q =
      let here : o + 0 * n ≡ o = omega arith in
      let there : o + 1 * n ≡ o + n = omega arith in
      (
        rw here at (l.written o 0 e (omega arith) p (omega (arith, two_registers t)) q),
        rw there at (l.written o 1 e (omega arith) p (omega (arith, two_registers t)) q),
      )

module _ {S : Type 0} (m : Machine S) (law : Isolated m) (t : CType) (half : ℕ) (strip_mine : Bool)
    (next : S → S) (feeds : (r : S) → Feeds m t strip_mine r (next r)) where
  -- On isolated registers with an even number of lanes, with no scalar operand, stripmined or not:
  -- VZIP returns, and VEVNODD on registers whose sources are those that VZIP wrote returns, and leaves
  -- the lanes of VZIP's first argument in its first destination register of each operation, and
  -- those of VZIP's second argument in the second one.
  pub vevnodd-vzip :
      (s : S) (o e : ℕ)
      → elts_per_register m t ≡ half + half
      → o < num_ops strip_mine
      → e < elts_per_register m t
      → (r : S) × (out : S) × (vzip m t false strip_mine s ≡ some r)
        × (vevnodd m t false strip_mine (next r) ≡ some out)
        × (m.dest_lane out t o e ≡ m.source s t 0 (o * elts_per_register m t + e))
        × (m.dest_lane out t (o + num_ops strip_mine) e
            ≡ m.source s t 1 (o * elts_per_register m t + e))
  vevnodd-vzip s o e even p q =
      let zip = vzip-Leaves m law t strip_mine s in
      let r : S = zip.result in
      let zipped : Zipped m t strip_mine s (next r) = record {
        low = λ o e p q. (feeds r).low o e p q ∙ (pair m law t strip_mine s zip o e p q).0;
        high = λ o e p q. (feeds r).high o e p q ∙ (pair m law t strip_mine s zip o e p q).1;
      } in
      let back = vevnodd-Leaves m law t strip_mine (next r) in
      let lanes = pair m law t strip_mine (next r) back o e p q in
      let args = vevnodd_args-zip m t half strip_mine s even (next r) zipped o e p q in
      (r, back.result, zip.returns, back.returns, lanes.0 ∙ args.0, lanes.1 ∙ args.1)
