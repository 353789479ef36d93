-- ===== src/Access/Fast.antt =====
-- The fast path of `ValidateStridedVectorAccess`: a range that is permitted as a whole.
use coralnpu_mpact.Prelude.{
  ℕ, zero, suc, ◌+◌, ◌-◌, ◌*◌, ◌^◌, ◌≤◌, ◌<◌, ◌≡◌, refl, sym, ap, ◌∙◌, arith,
}
use coralnpu_mpact.Prelude.{ltb, Bool, true, false, Bool-cases, inl, inr}
use coralnpu_mpact.Prelude.{Option, List, ℤ, pos, negsuc, pos_part, neg_part, ◌+ℤ◌, ◌*ℤ◌, leb_ℤ}
use coralnpu_mpact.Access.{
  MemoryRegion, has_permission, has_range_permission, has_span_permission, uint32_of, Verdict,
  allowed, check_vector_access, strided_validator, is_active, validate_vector_access,
  strided_address, validate_strided_vector_access,
}
use coralnpu_mpact.Access.Regions.{disjoint, has_permission-sub}
use coralnpu_mpact.Access.Span.{up_bounds, down_bounds, up_checks, down_checks}

-- The count less one is the index of the last element.
last_index : (n : ℕ) → pos (suc n) +ℤ negsuc 0 ≡ pos n
unfolding ◌+ℤ◌
last_index n = ground arith

product_up : (n k : ℕ) → pos n *ℤ pos k ≡ pos (n * k)
unfolding ◌*ℤ◌
product_up n k = ground arith

product_down : (n k j : ℕ) → n * suc k ≡ suc j → pos n *ℤ negsuc k ≡ negsuc j
unfolding ◌*ℤ◌
product_down n k j h = ground arith

product_none : (k : ℕ) → pos 0 *ℤ negsuc k ≡ pos 0
unfolding ◌*ℤ◌
product_none k = ground arith

-- The bytes from the first to the last one of a strided access of `suc n` elements.
abbrev pub extent : ℕ → ℤ → ℕ → ℕ
extent n stride size = n * (pos_part stride + neg_part stride) + size

module _ (regions : List MemoryRegion) (apart : disjoint regions ≡ true) (base size permission : ℕ)
    (small : base < 2 ^ 32) (nonempty : 0 < size) where
  up_elements :
      (n k i : ℕ)
      → i ≤ n
      → extent n (pos k) size < 2 ^ 32
      → has_range_permission regions base (pos k) (pos (suc n)) size permission ≡ true
      → has_permission regions (strided_address base (pos k) i) size permission ≡ true
  unfolding has_range_permission strided_address
  up_elements n k i h l e =
      let some_elements : leb_ℤ (pos (suc n)) (pos 0) ≡ false = ground arith in
      let range =
        up_checks regions base (n * k) size permission small (omega arith)
          (rw (some_elements, last_index n, product_up n k) at e) in
      let bounds = up_bounds base k n i size small h (omega (arith, range.0)) in
      has_permission-sub regions base (n * k + size) _ size permission apart bounds.1
        (omega (arith, bounds.2)) nonempty range.1

  down_elements :
      (n k i : ℕ)
      → i ≤ n
      → extent n (negsuc k) size < 2 ^ 32
      → has_range_permission regions base (negsuc k) (pos (suc n)) size permission ≡ true
      → has_permission regions (strided_address base (negsuc k) i) size permission ≡ true
  unfolding has_range_permission has_span_permission strided_address
  down_elements zero k i h l e =
      let some_elements : leb_ℤ (pos 1) (pos 0) ≡ false = ground arith in
      let range =
        up_checks regions base 0 size permission small (omega arith)
          (rw (some_elements, last_index 0, product_none k) at e) in
      let bounds = down_bounds base k 0 i size small h (omega arith) in
      has_permission-sub regions base (0 + size) _ size permission apart (omega (arith, bounds.2))
        (omega (arith, bounds.1)) nonempty range.1
  down_elements (suc n) k i h l e =
      let some_elements : leb_ℤ (pos (suc (suc n))) (pos 0) ≡ false = ground arith in
      let j = n * suc k + k in
      let range =
        down_checks regions base j size permission small (omega arith)
          (rw (some_elements, last_index (suc n), product_down (suc n) k j (omega arith)) at e) in
      let bounds = down_bounds base k (suc n) i size small h (omega (arith, range.0)) in
      has_permission-sub regions (base - suc j) (suc j + size) _ size permission apart
        (omega (arith, bounds.2)) (omega (arith, bounds.1, range.0)) nonempty range.2

  range-elements :
      (n i : ℕ) (stride : ℤ)
      → i ≤ n
      → extent n stride size < 2 ^ 32
      → has_range_permission regions base stride (pos (suc n)) size permission ≡ true
      → has_permission regions (strided_address base stride i) size permission ≡ true
  range-elements n i (pos k) h l e = up_elements n k i h l e
  range-elements n i (negsuc k) h l e = down_elements n k i h l e

pub validate_allowed :
    (masks : Option (ℕ → ℕ)) (validator : ℕ → Verdict) (left i : ℕ)
    → ((j : ℕ) → i ≤ j → j < i + left → validator j ≡ allowed)
    → validate_vector_access masks validator left i ≡ allowed
unfolding validate_vector_access
validate_allowed masks validator zero i h = refl
validate_allowed masks validator (suc left) i h =
    let rest =
      validate_allowed masks validator left (i + 1) (λ j p q. h j (omega arith) (omega arith)) in
    elim (Bool-cases (is_active masks i)) [
      | inl c ↦ rw (c, h i (omega arith) (omega arith), rest) refl
      | inr c ↦ rw (c, rest) refl
    ]

uint32-sum_pos : (x : ℤ) (y : ℕ) → uint32_of (pos (uint32_of x) +ℤ pos y) ≡ uint32_of (x +ℤ pos y)
unfolding ◌+ℤ◌
uint32-sum_pos (pos x) y = ground arith
uint32-sum_pos (negsuc x) y = ground arith

uint32-sum_negsuc :
    (x : ℤ) (y : ℕ) → uint32_of (pos (uint32_of x) +ℤ negsuc y) ≡ uint32_of (x +ℤ negsuc y)
unfolding ◌+ℤ◌
uint32-sum_negsuc (pos x) y = ground arith
uint32-sum_negsuc (negsuc x) y = ground arith

uint32-sum : (x y : ℤ) → uint32_of (pos (uint32_of x) +ℤ y) ≡ uint32_of (x +ℤ y)
uint32-sum x (pos y) = uint32-sum_pos x y
uint32-sum x (negsuc y) = uint32-sum_negsuc x y

sum_products :
    (base start i : ℕ) (stride : ℤ)
    → pos base +ℤ pos start *ℤ stride +ℤ pos i *ℤ stride ≡ pos base +ℤ pos (start + i) *ℤ stride
unfolding ◌+ℤ◌ ◌*ℤ◌
sum_products base start i (pos k) = ground arith
sum_products base start i (negsuc k) = ground arith

-- Element `i` after element `start`.
element_after :
    (base start i : ℕ) (stride : ℤ)
    → strided_address (strided_address base stride start) stride i
      ≡ strided_address base stride (start + i)
unfolding strided_address
element_after base start i stride =
    uint32-sum (pos base +ℤ pos start *ℤ stride) (pos i *ℤ stride)
    ∙ ap uint32_of (sum_products base start i stride)

strided_address-lt : (base i : ℕ) (stride : ℤ) → strided_address base stride i < 2 ^ 32
unfolding strided_address
strided_address-lt base i stride = ground arith

-- The validation with its fast path ends as the validation element by element does, for every
-- validator that allows what is permitted.
pub validate_strided_vector_access-eq :
    (regions : List MemoryRegion) (masks : Option (ℕ → ℕ))
    (start element_count base element_size permission : ℕ) (stride : ℤ) (validator : ℕ → Verdict)
    → disjoint regions ≡ true
    → 0 < element_size
    → extent (element_count - start - 1) stride element_size < 2 ^ 32
    → ((j : ℕ)
        → has_permission regions (strided_address base stride j) element_size permission ≡ true
        → validator j ≡ allowed)
    → validate_strided_vector_access regions masks start element_count base stride element_size
        permission validator
      ≡ validate_vector_access masks validator (element_count - start) start
unfolding validate_strided_vector_access
validate_strided_vector_access-eq regions masks start count base size permission stride validator d
      z l allows =
    elim (Bool-cases (ltb start count)) [
      | inl h ↦
          (let counted : count - start ≡ suc (count - start - 1) = ground arith in
            elim (Bool-cases (fast (count - start))) [
              | inl c ↦
                  rw (h, c)
                    (sym (
                      validate_allowed masks validator (count - start) start (λ j p q.
                        allows j
                          (permitted j (count - start - 1) p (omega arith) l (rw counted at c)))))
              | inr c ↦ rw (h, c) refl
            ])
      | inr h ↦ rw h refl
    ]
  where
    fast : ℕ → Bool
    fast n =
        has_range_permission regions (strided_address base stride start) stride (pos n) size
          permission

    permitted :
        (j n : ℕ)
        → start ≤ j
        → j ≤ start + n
        → extent n stride size < 2 ^ 32
        → fast (suc n) ≡ true
        → has_permission regions (strided_address base stride j) size permission ≡ true
    permitted j n p q l c =
        let there : start + (j - start) ≡ j = omega arith in
        let element =
          range-elements regions d (strided_address base stride start) size permission
            (strided_address-lt base start stride) z n (j - start) stride (omega arith) l c in
        rw there at (rw (element_after base start (j - start) stride) at element)

-- Over disjoint regions, for elements of at least one byte whose strides from the first to the last
-- one span fewer than 2 ^ 32 bytes: the validation of a strided access with its fast path ends as
-- the validation element by element does, at the same address if it traps.
pub validate_strided_vector_access_lem :
    (regions : List MemoryRegion) (masks : Option (ℕ → ℕ))
    (start element_count base element_size permission : ℕ) (stride : ℤ)
    → disjoint regions ≡ true
    → 0 < element_size
    → extent (element_count - start - 1) stride element_size < 2 ^ 32
    → (let validator = strided_validator regions base stride element_size permission in
        validate_strided_vector_access regions masks start element_count base stride element_size
          permission validator
        ≡ validate_vector_access masks validator (element_count - start) start)
unfolding strided_validator check_vector_access
validate_strided_vector_access_lem regions masks start count base size permission stride d z l =
    validate_strided_vector_access-eq regions masks start count base size permission stride _ d z l
      (λ j h. rw h refl)
