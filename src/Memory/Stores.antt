-- ===== src/Memory/Stores.antt =====
-- The buffers that the stores hand to the memory, entry by entry.
use coralnpu_mpact.Prelude.{ℕ, zero, suc, ◌+◌, ◌-◌, ◌*◌, ◌/◌, ◌%◌, ◌^◌, ◌<◌, ◌≡◌, min}
use coralnpu_mpact.Prelude.{refl, sym, ap, ap₂, ◌∙◌, arith, false, ltb}
use coralnpu_mpact.Prelude.{Bool-cases, inl, inr}
use coralnpu_mpact.Prelude.{tabulate, tabulate_cong, length-tabulate, ℤ}
use coralnpu_mpact.Scalar.{CType, size_of}
use coralnpu_mpact.Vector.Machine.{num_ops}
use coralnpu_mpact.Memory.{
  Access, elts_per_register, elts_to_move, store_elements, store_rounds, vector_store_helper,
}
use coralnpu_mpact.Memory.Addresses.{
  quotient, remainder, join, to_move-le, chunk_base, element_address, chunk_base-zero,
  chunk_base-suc, element_address_lem,
}

elements_lem :
    (source_span : ℕ → ℤ) (first base size limit n j index : ℕ)
    → store_elements source_span first base size limit n j index
      ≡ tabulate (min n (limit - index)) j (λ j. (base + j * size, source_span (first + j)))
unfolding store_elements tabulate
elements_lem source_span first base size limit zero j index =
    let none_left : min 0 (limit - index) ≡ 0 = omega arith in rw none_left refl
elements_lem source_span first base size limit (suc n) j index =
    elim (Bool-cases (ltb index limit)) [
      | inl h ↦
          let one : min (suc n) (limit - index) ≡ suc (min n (limit - (index + 1))) =
            ground arith in
          rw (h, one, elements_lem source_span first base size limit n (j + 1) (index + 1)) refl
      | inr h ↦
          let none_left : min (suc n) (limit - index) ≡ 0 = ground arith in rw (h, none_left) refl
    ]

module _ (t : CType) (a : Access) (vs : ℕ → ℕ → ℤ) where
  abbrev elts : ℕ
  elts = elts_per_register t a

  -- Entry `k` of the buffers, where the chunks between strides have `size` elements.
  abbrev pub stored : ℕ → ℕ → ℕ × ℤ
  stored size k = (element_address t a size k, vs (k / elts) (k % elts))

  pub chunk_lem :
      (size c first op limit index : ℕ)
      → ((j : ℕ) → j < size → first + j < elts)
      → ((j : ℕ) → j < size → c * size + j ≡ op * elts + (first + j))
      → store_elements (vs op) first (chunk_base t a c) (size_of t) limit size 0 index
        ≡ tabulate (min size (limit - index)) (c * size) (stored size)
  chunk_lem size c first op limit index inside same =
      elements_lem (vs op) first (chunk_base t a c) (size_of t) limit size 0 index
      ∙ tabulate_cong (min size (limit - index)) 0 (c * size) _ _ (λ j l.
        (let from_zero : 0 + j ≡ j = omega arith in
          rw from_zero (
            ap₂ (λ x y. (x, y)) (sym (element_address_lem t a size c j (omega arith)))
              (ap₂ vs
                (sym (
                  ap (λ x. x / elts) (same j (omega arith))
                  ∙ quotient elts op (first + j) (inside j (omega arith))))
                (sym (
                  ap (λ x. x % elts) (same j (omega arith))
                  ∙ remainder elts op (first + j) (inside j (omega arith))))))))

  rounds_lem :
      (limit rounds op index : ℕ)
      → store_rounds t a false vs limit rounds op (chunk_base t a op) index
        ≡ tabulate (min (limit - index) (rounds * elts)) (op * elts) (stored elts)
  unfolding store_rounds
  rounds_lem limit zero op index =
      let none_left : min (limit - index) (0 * elts) ≡ 0 = omega arith in
      rw none_left (unfold tabulate in refl)
  rounds_lem limit (suc rounds) op index =
      let first_round =
        chunk_lem elts op 0 op limit index (λ j l. omega arith) (λ j l. omega arith) in
      let turn : min elts (limit - index) ≡ min (limit - index) elts = omega arith in
      let rest : limit - (index + min (limit - index) elts)
          ≡ limit - index - min (limit - index) elts =
        omega arith in
      rw
        (
          chunk_base-suc t a op,
          first_round,
          turn,
          length-tabulate (min (limit - index) elts) (op * elts) (stored elts),
          rounds_lem limit rounds (op + 1) (index + min (limit - index) elts),
          rest,
        )
        (join (stored elts) elts rounds op (limit - index))

  -- For a 32-bit address, VST hands to the memory the first `elts_to_store` elements of its source
  -- registers in order, each with the address that a load of the same operands reads it from.
  vector_store_helper_lem :
      a.address < 2 ^ 32
      → vector_store_helper t a false vs
        ≡ tabulate (elts_to_move t a) 0 (stored (elts_per_register t a))
  unfolding vector_store_helper
  vector_store_helper_lem h =
      let all : min (elts_to_move t a - 0) (num_ops a.strip_mine * elts) ≡ elts_to_move t a =
        omega (arith, to_move-le t a) in
      let start : 0 * elts ≡ 0 = omega arith in
      ap (λ b. store_rounds t a false vs (elts_to_move t a) (num_ops a.strip_mine) 0 b 0)
        (sym (chunk_base-zero t a h))
      ∙ (rw (all, start) at (rounds_lem (elts_to_move t a) (num_ops a.strip_mine) 0 0))
