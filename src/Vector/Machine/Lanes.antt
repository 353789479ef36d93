-- ===== src/Vector/Machine/Lanes.antt =====
-- What the loop over the operations leaves in the destination registers.
use coralnpu_mpact.Prelude.{ℕ, zero, suc, ◌+◌, ◌*◌, ◌≤◌, ◌<◌, ◌≡◌, ◌≢◌, refl, sym, ap, ◌∙◌, arith}
use coralnpu_mpact.Prelude.{Bool, Option, some, List, [], length, get_or}
use coralnpu_mpact.Prelude.{tabulate, get_or-tabulate, length-tabulate, ℤ, pos}
use native.Mathlib.Decide.{ℕ_discrete}
use coralnpu_mpact.Scalar.{CType}
use coralnpu_mpact.Vector.Machine.{Machine, num_ops, submit_all, ops_loop}
use coralnpu_mpact.Vector.Machine.Submit.{Isolated, collect-total, register_injective}
use coralnpu_mpact.Vector.Machine.Submit.{submit_all-source, submit_all-other, submit_all_self}

not-later : {o p : ℕ} → o + 1 ≤ p → p ≡ o → ⊥
not-later h e = omega arith

module _ {S : Type 0} (m : Machine S) (t : CType) (strip_mine : Bool) where
  abbrev ops : ℕ
  ops = num_ops strip_mine

  -- A state that agrees with `s` on the sources, and on the registers of the operations from
  -- `o` on.
  pub record Agrees (regs : ℕ) (s s' : S) (o : ℕ) : Type 0 where
    pub sources : (t' : CType) (j e : ℕ) → m.source s' t' j e ≡ m.source s t' j e
    pub lanes :
        (p i e : ℕ)
        → o ≤ p
        → p < ops
        → i < regs
        → m.dest_lane s' t (p + i * ops) e ≡ m.dest_lane s t (p + i * ops) e

  -- What a loop from operation `o` on leaves: the lanes of its own registers, and all else as it
  -- was.
  pub record Leaves (elts regs : ℕ) (lane : ℕ → ℕ → ℕ → ℤ) (o : ℕ) (s : S) (out : Option S)
      : Type 0 where
    pub result : S
    pub returns : out ≡ some result
    pub written :
        (p i e : ℕ)
        → o ≤ p
        → p < ops
        → i < regs
        → e < elts
        → m.dest_lane result t (p + i * ops) e ≡ lane p i e
    pub kept :
        (r e : ℕ)
        → ((p i : ℕ) → o ≤ p → p < ops → i < regs → p + i * ops ≢ r)
        → m.dest_lane result t r e ≡ m.dest_lane s t r e

module _ {S : Type 0} (m : Machine S) (law : Isolated m) (t : CType) (strip_mine : Bool) where
  abbrev n : ℕ
  n = num_ops strip_mine

  module _ (elts regs : ℕ) (lane : ℕ → ℕ → ℕ → ℤ) (buffer : S → ℕ → ℕ → Option (List ℤ)) (start : S)
      (fills : (s : S) (o i : ℕ)
        → o < n
        → i < regs
        → Agrees m t strip_mine regs start s o
        → buffer s o i ≡ some (tabulate elts 0 (lane o i))) where
    abbrev round_buffers : ℕ → List (List ℤ)
    round_buffers o = tabulate regs 0 (λ i. tabulate elts 0 (lane o i))

    abbrev after : ℕ → S → S
    after o s = submit_all m t n o 0 (round_buffers o) s

    round_lem :
        (left o : ℕ) (s : S)
        → o < n
        → Agrees m t strip_mine regs start s o
        → ops_loop m t n regs buffer (suc left) o s
          ≡ ops_loop m t n regs buffer left (o + 1) (after o s)
    unfolding ops_loop
    round_lem left o s p a =
        rw
          (
            collect-total regs 0 (buffer s o) (λ i. tabulate elts 0 (lane o i))
                (λ i _ q. fills s o i p (omega arith) a),
            ops_loop,
          )
          refl

    -- A register of another operation keeps its lanes over a round.
    after_other :
        (o r e : ℕ) (s : S)
        → ((k : ℕ) → k < regs → o + k * n ≢ r)
        → m.dest_lane (after o s) t r e ≡ m.dest_lane s t r e
    after_other o r e s h =
        submit_all-other m law t strip_mine o 0 r e (round_buffers o) s
          (λ k _ q. h k (rw length-tabulate at (below k q)))
      where
        below : (k : ℕ) → k < 0 + length (round_buffers o) → k < length (round_buffers o)
        below k q = omega arith

    after_self :
        (o i e : ℕ) (s : S)
        → o < n
        → i < regs
        → e < elts
        → m.dest_lane (after o s) t (o + i * n) e ≡ lane o i e
    after_self o i e s p q h =
        submit_all_self m law t strip_mine o 0 i i e (round_buffers o) s p (rw length-tabulate q)
          (omega arith)
        ∙ ap (λ b. get_or b e (pos 0))
            (get_or-tabulate regs 0 i (λ j. tabulate elts 0 (lane o j)) [] q
              ∙ ap (λ j. tabulate elts 0 (lane o j)) (omega arith))
        ∙ get_or-tabulate elts 0 e (lane o i) (pos 0) h
        ∙ ap (lane o i) (omega arith)

    Agrees-after :
        (o : ℕ) (s : S)
        → o < n
        → Agrees m t strip_mine regs start s o
        → Agrees m t strip_mine regs start (after o s) (o + 1)
    Agrees-after o s p a = record {
      sources = λ t' j e.
          submit_all-source m law t strip_mine t' o 0 j e (round_buffers o) s ∙ a.sources t' j e;
      lanes = λ p' i e q q' c.
          after_other o (p' + i * n) e s
            (λ k _ d. absurd (not-later q (register_injective strip_mine p' i o k q' p (sym d)).0))
          ∙ a.lanes p' i e (omega arith) q' c;
    }

    pub loop-Leaves :
        (left o : ℕ) (s : S)
        → o + left ≡ n
        → Agrees m t strip_mine regs start s o
        → Leaves m t strip_mine elts regs lane o s (ops_loop m t n regs buffer left o s)
    loop-Leaves zero o s h a = record {
      result = s;
      returns = unfold ops_loop in refl;
      written = λ p i e q q' c d. absurd (omega arith);
      kept = λ r e c. refl;
    }
    loop-Leaves (suc left) o s h a =
        let below : o < n = omega arith in
        let rest = loop-Leaves left (o + 1) (after o s) (omega arith) (Agrees-after o s below a) in
        record {
          result = rest.result;
          returns = round_lem left o s below a ∙ rest.returns;
          written = λ p i e q q' c d. elim (ℕ_discrete p o) [
            | yes same ↦
                ap (λ x. m.dest_lane rest.result t (x + i * n) e) same
                ∙ rest.kept (o + i * n) e (λ p' i' g g' _ x.
                  absurd (not-later g (register_injective strip_mine p' i' o i g' below x).0))
                ∙ after_self o i e s below c d
                ∙ ap (λ x. lane x i e) (sym same)
            | no other ↦ rest.written p i e (omega arith) q' c d
          ];
          kept = λ r e c.
              rest.kept r e (λ p i q q' d. c p i (omega arith) q' d)
              ∙ after_other o r e s (λ k d. c o k (omega arith) below d);
        }
