-- ===== src/Memory/Quads.antt =====
-- The buffers of the quad store, whose registers are stored by quarters.
use coralnpu_mpact.Prelude.{ℕ, zero, suc, ◌+◌, ◌-◌, ◌*◌, ◌/◌, ◌^◌, ◌<◌, ◌≡◌, min}
use coralnpu_mpact.Prelude.{refl, sym, ap, ◌∙◌, arith, true}
use coralnpu_mpact.Prelude.{tabulate, length-tabulate, ℤ}
use coralnpu_mpact.Scalar.{CType, size_of}
use coralnpu_mpact.Vector.Machine.{num_ops}
use coralnpu_mpact.Memory.{
  Access, elts_per_register, elts_to_move, masked_address, next_base, store_elements, store_quads,
  store_rounds, vector_store_helper,
}
use coralnpu_mpact.Memory.Addresses.{join, to_move-le, chunk_base, chunk_base-zero, chunk_base-suc}
use coralnpu_mpact.Memory.Stores.{stored, chunk_lem}

in_register : (i quad j : ℕ) → i < 4 → j < quad → i * quad + j < 4 * quad
in_register zero quad j h l = omega arith
in_register (suc zero) quad j h l = omega arith
in_register (suc (suc zero)) quad j h l = omega arith
in_register (suc (suc (suc zero))) quad j h l = omega arith
in_register (suc (suc (suc (suc i)))) quad j h l = absurd (omega arith)

module _ (t : CType) (a : Access) (vs : ℕ → ℕ → ℤ) (quad : ℕ)
    (whole : elts_per_register t a ≡ 4 * quad) where
  quad_size_lem : elts_per_register t a / 4 ≡ quad
  quad_size_lem = omega (arith, whole)

  quarter_lem :
      (limit op i index : ℕ)
      → i < 4
      → store_elements
          (vs op)
          (i * quad)
          (chunk_base t a (op * 4 + i))
          (size_of t)
          limit
          quad
          0
          index
        ≡ tabulate (min (limit - index) quad) ((op * 4 + i) * quad) (stored t a vs quad)
  quarter_lem limit op i index h =
      let turn : min quad (limit - index) ≡ min (limit - index) quad = omega arith in
      rw turn at (
        chunk_lem t a vs quad (op * 4 + i) (i * quad) op limit index
          (λ j l. rw whole (in_register i quad j h l)) (λ j l. rw whole (omega arith)))

  quads_lem :
      (limit left op i index : ℕ)
      → i + left ≡ 4
      → store_quads t a (vs op) limit left i (chunk_base t a (op * 4 + i)) index
        ≡ tabulate (min (limit - index) (left * quad)) ((op * 4 + i) * quad) (stored t a vs quad)
  unfolding store_quads
  quads_lem limit zero op i index h =
      let none_left : min (limit - index) (0 * quad) ≡ 0 = omega arith in
      rw none_left (unfold tabulate in refl)
  quads_lem limit (suc left) op i index h =
      let rest : limit - (index + min (limit - index) quad)
          ≡ limit - index - min (limit - index) quad =
        omega arith in
      let next : op * 4 + (i + 1) ≡ op * 4 + i + 1 = omega arith in
      rw
        (
          quad_size_lem,
          chunk_base-suc t a (op * 4 + i),
          quarter_lem limit op i index (omega arith),
          length-tabulate (min (limit - index) quad) ((op * 4 + i) * quad) (stored t a vs quad),
          rw (next, rest) at
              (quads_lem limit left op (i + 1) (index + min (limit - index) quad) (omega arith)),
        )
        (join (stored t a vs quad) quad left (op * 4 + i) (limit - index))

  register_lem :
      (limit op index : ℕ)
      → store_quads t a (vs op) limit 4 0 (chunk_base t a (op * 4)) index
        ≡ tabulate (min (limit - index) (4 * quad)) (op * (4 * quad)) (stored t a vs quad)
  register_lem limit op index =
      let start : op * 4 + 0 ≡ op * 4 = omega arith in
      let entry : op * 4 * quad ≡ op * (4 * quad) = omega arith in
      rw entry at (rw start at (quads_lem limit 4 op 0 index refl))

  four_strides :
      (op : ℕ)
      → (let next = next_base t a in next (next (next (next (chunk_base t a (op * 4))))))
        ≡ chunk_base t a ((op + 1) * 4)
  four_strides op =
      rw
        (
          chunk_base-suc t a (op * 4),
          chunk_base-suc t a (op * 4 + 1),
          chunk_base-suc t a (op * 4 + 1 + 1),
          chunk_base-suc t a (op * 4 + 1 + 1 + 1),
        )
        (ap (chunk_base t a) (omega arith))

  rounds_lem :
      (limit rounds op index : ℕ)
      → store_rounds t a true vs limit rounds op (chunk_base t a (op * 4)) index
        ≡ tabulate
            (min (limit - index) (rounds * (4 * quad)))
            (op * (4 * quad))
            (stored t a vs quad)
  unfolding store_rounds
  rounds_lem limit zero op index =
      let none_left : min (limit - index) (0 * (4 * quad)) ≡ 0 = omega arith in
      rw none_left (unfold tabulate in refl)
  rounds_lem limit (suc rounds) op index =
      let count = min (limit - index) (4 * quad) in
      let rest : limit - (index + count) ≡ limit - index - count = omega arith in
      rw
        (
          four_strides op,
          register_lem limit op index,
          length-tabulate count (op * (4 * quad)) (stored t a vs quad),
          rounds_lem limit rounds (op + 1) (index + count),
          rest,
        )
        (join (stored t a vs quad) (4 * quad) rounds op (limit - index))

  -- For a 32-bit address and registers whose quarters have a whole number of elements, VSTQ hands to
  -- the memory: entry `k` of the buffers is element `k` of the source registers and its address, for
  -- quarters that are `stride_elts` elements apart.
  pub vstq_lem :
      a.address < 2 ^ 32
      → vector_store_helper t a true vs ≡ tabulate (elts_to_move t a) 0 (stored t a vs quad)
  unfolding vector_store_helper
  vstq_lem h =
      let all : min (elts_to_move t a - 0) (num_ops a.strip_mine * (4 * quad)) ≡ elts_to_move t a =
        omega (arith, rw whole at (to_move-le t a)) in
      let start : 0 * (4 * quad) ≡ 0 = omega arith in
      let first : chunk_base t a (0 * 4) ≡ masked_address a = chunk_base-zero t a h in
      ap (λ b. store_rounds t a true vs (elts_to_move t a) (num_ops a.strip_mine) 0 b 0) (sym first)
      ∙ (rw (all, start) at (rounds_lem (elts_to_move t a) (num_ops a.strip_mine) 0 0))
