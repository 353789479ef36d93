-- ===== src/Memory/Addresses.antt =====
-- The address buffers of the loads and stores, entry by entry.
use native.Mathlib.Nat.{mul-add-div_right, mul-add-mod_self_right, div-eq_of_lt, mod-eq_of_lt}
use coralnpu_mpact.Prelude.{ℕ, zero, suc, ◌+◌, ◌-◌, ◌*◌, ◌/◌, ◌%◌, ◌^◌, ◌≤◌, ◌<◌, ◌≡◌, min}
use coralnpu_mpact.Prelude.{refl, sym, ap, ◌∙◌, arith}
use coralnpu_mpact.Prelude.{◌∷◌, ◌++◌, tabulate, tabulate_cong, tabulate-add}
use coralnpu_mpact.Scalar.{CType, size_of}
use coralnpu_mpact.Vector.Machine.{num_ops}
use coralnpu_mpact.Memory.{
  Access, elts_per_register, elts_to_move, stride_elts, masked_address, next_base, load_round,
  load_rounds, load_addresses,
}

-- The bounds of the operands.
pub masked-lt : (a : Access) → a.address < 2 ^ 32 → masked_address a < 2 ^ 32
unfolding masked_address
masked-lt a h = ground arith

pub to_move-le :
    (t : CType) (a : Access) → elts_to_move t a ≤ num_ops a.strip_mine * elts_per_register t a
unfolding elts_to_move
to_move-le t a = ground arith

pub quotient : (size c j : ℕ) → j < size → (c * size + j) / size ≡ c
quotient size c j h = mul-add-div_right (omega arith) c j ∙ omega (arith, div-eq_of_lt h)

pub remainder : (size c j : ℕ) → j < size → (c * size + j) % size ≡ j
remainder size c j h = mul-add-mod_self_right c size j ∙ mod-eq_of_lt h

-- What a loop over rounds of `size` elements collects, cut at its first round; `left` elements are
-- left for it.
pub join {ℓ} :
    {A : Type ℓ} (f : ℕ → A) (size rounds op left : ℕ)
    → tabulate (min left size) (op * size) f
        ++ tabulate (min (left - min left size) (rounds * size)) ((op + 1) * size) f
      ≡ tabulate (min left (suc rounds * size)) (op * size) f
join f size rounds op left =
    let n1 = min left size in
    let n2 = min (left - min left size) (rounds * size) in
    let whole : min left (suc rounds * size) ≡ n1 + n2 = omega arith in
    ap (λ r. tabulate n1 (op * size) f ++ r)
      (tabulate_cong n2 ((op + 1) * size) (op * size + n1) f f (λ j h. ap f (omega arith)))
    ∙ sym (rw whole (tabulate-add n1 n2 (op * size) f))

module _ (t : CType) (a : Access) where
  abbrev elts : ℕ
  elts = elts_per_register t a

  -- The base address of chunk `c`: strides from the masked address on, in 32 bits.
  unfoldable pub chunk_base : ℕ → ℕ
  chunk_base c = (masked_address a + c * (stride_elts t a * size_of t)) % 2 ^ 32

  -- The address of element `k` where the chunks between strides have `size` elements.
  unfoldable pub element_address : ℕ → ℕ → ℕ
  element_address size k = chunk_base (k / size) + k % size * size_of t

  pub chunk_base-zero : a.address < 2 ^ 32 → chunk_base 0 ≡ masked_address a
  unfolding chunk_base
  chunk_base-zero h = omega (arith, masked-lt a h)

  pub chunk_base-suc : (c : ℕ) → next_base t a (chunk_base c) ≡ chunk_base (c + 1)
  unfolding chunk_base next_base
  chunk_base-suc c = omega arith

  pub element_address_lem :
      (size c j : ℕ) → j < size → element_address size (c * size + j) ≡ chunk_base c + j * size_of t
  unfolding element_address
  element_address_lem size c j h = rw (quotient size c j h, remainder size c j h) refl

  load_round_lem :
      (first base n i : ℕ)
      → load_round (size_of t) first base n i
        ≡ tabulate n i (λ j. (first + j, base + j * size_of t))
  unfolding load_round tabulate
  load_round_lem first base zero i = refl
  load_round_lem first base (suc n) i =
      ap (λ r. (first + i, base + i * size_of t) ∷ r) (load_round_lem first base n (i + 1))

  round_entries :
      (op n : ℕ)
      → n ≤ elts
      → load_round (size_of t) (op * elts) (chunk_base op) n 0
        ≡ tabulate n (op * elts) (λ k. (k, element_address elts k))
  round_entries op n h =
      load_round_lem (op * elts) (chunk_base op) n 0
      ∙ tabulate_cong n 0 (op * elts) _ _ (λ j l.
        (let from_zero : 0 + j ≡ j = omega arith in
          rw from_zero
            (ap (λ x. (op * elts + j, x)) (sym (element_address_lem elts op j (omega arith))))))

  load_rounds_lem :
      (rounds op left : ℕ)
      → load_rounds t a rounds op left (chunk_base op)
        ≡ tabulate (min left (rounds * elts)) (op * elts) (λ k. (k, element_address elts k))
  unfolding load_rounds
  load_rounds_lem zero op left =
      let none_left : min left (0 * elts) ≡ 0 = omega arith in
      rw none_left (unfold tabulate in refl)
  load_rounds_lem (suc rounds) op left =
      rw
        (
          chunk_base-suc op,
          round_entries op (min left elts) (omega arith),
          load_rounds_lem rounds (op + 1) (left - min left elts),
        )
        (join _ elts rounds op left)

  -- For a 32-bit address, the address buffer of a load: every one of its entries is written once, in order, and entry
  -- `k` holds the address of element `k` for registers that are `stride_elts` elements apart.
  pub load_addresses_lem :
      a.address < 2 ^ 32
      → load_addresses t a
        ≡ tabulate (elts_to_move t a) 0 (λ k. (k, element_address (elts_per_register t a) k))
  unfolding load_addresses
  load_addresses_lem h =
      let all : min (elts_to_move t a) (num_ops a.strip_mine * elts) ≡ elts_to_move t a =
        omega (arith, to_move-le t a) in
      let start : 0 * elts ≡ 0 = omega arith in
      ap (load_rounds t a (num_ops a.strip_mine) 0 (elts_to_move t a)) (sym (chunk_base-zero h))
      ∙ (rw (all, start) at (load_rounds_lem (num_ops a.strip_mine) 0 (elts_to_move t a)))
