-- ===== src/Access/Permitted.antt =====
-- What the checks of the vector loads and stores promise: an access that executes touches permitted
-- memory alone.
use mathlib.Core.Bool.{false≢true}
use native.Mathlib.Nat.{mul-le-mul}
use coralnpu_mpact.Prelude.{
  ℕ, zero, suc, ◌+◌, ◌-◌, ◌*◌, ◌/◌, ◌%◌, ◌^◌, ◌≤◌, ◌<◌, ◌≡◌, refl, sym, ◌∙◌,
}
use coralnpu_mpact.Prelude.{arith, ltb, leb, ◌==◌, ◌||◌, ◌&&◌, Bool, true, Bool-cases, inl, inr}
use coralnpu_mpact.Prelude.{none, List, [], ◌∷◌, ℤ}
use coralnpu_mpact.Access.{
  MemoryRegion, contains, has_permission, Verdict, allowed, trapped, check_vector_access, is_active,
  validate_vector_access, strided_address, strided_validator,
}
use coralnpu_mpact.Access.Regions.{disjoint, has_permission-sub}
use coralnpu_mpact.Access.Fast.{
  extent, validate_allowed, validate_strided_vector_access-eq, validate_strided_vector_access_lem,
}
use coralnpu_mpact.Access.Vectors.{
  VectorState, executes, illegal_instruction, if_success, check_fields, strided, indexed,
  segment_strided, indexed_validator, segment_validator, get_index_value,
}
use coralnpu_mpact.Access.Elements.{validate_vector_access-allowed}

if_success-executes : (v : Verdict) → if_success v ≡ executes → v ≡ allowed
unfolding if_success
if_success-executes allowed h = refl
if_success-executes (trapped a) h = cc

check_vector_access-allowed :
    (regions : List MemoryRegion) (permission size address : ℕ)
    → check_vector_access regions permission size address ≡ allowed
    → has_permission regions address size permission ≡ true
unfolding check_vector_access
check_vector_access-allowed regions permission size address h =
    elim (Bool-cases (has_permission regions address size permission)) [
      | inl c ↦ c
      | inr c ↦ absurd (not_trapped (rw c at h))
    ]
  where
    not_trapped : trapped address ≡ allowed → ⊥
    not_trapped e = cc

-- No region passes the end of the address space.
unfoldable pub in_space : List MemoryRegion → Bool
in_space [] = true
in_space (r ∷ rs) = let rest = in_space rs in leb (r.start_address + r.length) (2 ^ 32) && rest

has_permission-in_space :
    (rs : List MemoryRegion) (a s p : ℕ)
    → in_space rs ≡ true
    → has_permission rs a s p ≡ true
    → a + s ≤ 2 ^ 32
unfolding in_space has_permission contains
has_permission-in_space [] a s p d h = absurd (false≢true h)
has_permission-in_space (r ∷ rs) a s p d h = ground (arith, has_permission-in_space rs a s p)

field_check : List MemoryRegion → ℕ → ℕ → ℕ → ℕ → Verdict
field_check regions permission width address f =
    check_vector_access regions permission width ((address + f * width) % 2 ^ 32)

-- The fields of a segment are validated like the elements of an access without a mask.
check_fields-validate :
    (regions : List MemoryRegion) (permission width address left field : ℕ)
    → check_fields regions permission width address left field
      ≡ validate_vector_access none (field_check regions permission width address) left field
unfolding check_fields validate_vector_access is_active field_check
check_fields-validate regions permission width address zero field = refl
check_fields-validate regions permission width address (suc left) field =
    rw (check_fields-validate regions permission width address left (field + 1)) refl

check_fields-allowed :
    (regions : List MemoryRegion) (permission width address left f : ℕ)
    → check_fields regions permission width address left 0 ≡ allowed
    → f < left
    → has_permission regions ((address + f * width) % 2 ^ 32) width permission ≡ true
unfolding is_active field_check
check_fields-allowed regions permission width address left f h q =
    check_vector_access-allowed regions permission width _ (
      validate_vector_access-allowed none (field_check regions permission width address) left 0 f
        (sym (check_fields-validate regions permission width address left 0) ∙ h) (omega arith)
        (omega arith) refl)

-- Over regions that are disjoint and in the address space, a permitted segment has permitted fields.
fields_of_segment :
    (regions : List MemoryRegion) (permission width address total : ℕ)
    → disjoint regions ≡ true
    → in_space regions ≡ true
    → 0 < width
    → has_permission regions address (total * width) permission ≡ true
    → check_fields regions permission width address total 0 ≡ allowed
unfolding field_check check_vector_access
fields_of_segment regions permission width address total d b z h =
    check_fields-validate regions permission width address total 0
    ∙ validate_allowed none _ total 0 (λ f p q.
      (let last : (f + 1) * width ≤ total * width = mul-le-mul (omega arith) (omega arith) in
        let top = has_permission-in_space regions address (total * width) permission b h in
        let here : (address + f * width) % 2 ^ 32 ≡ address + f * width = omega arith in
        rw
          (rw (sym here) at (
            has_permission-sub regions address (total * width) (address + f * width) width
              permission d (omega arith) (omega arith) z h))
          refl))

module _ (regions : List MemoryRegion) (permission : ℕ) (v : VectorState) where
  -- The elements that an instruction touches: the active ones from `vstart` to `vl`.
  pub record Touched (j : ℕ) : Type 0 where
    pub from : v.vstart ≤ j
    pub below : j < v.vector_length
    pub active : is_active v.masks j ≡ true

  -- The bytes from the first to the last element of a strided access.
  abbrev pub SpanFits : ℤ → ℕ → Type 0
  SpanFits stride size = extent (v.vector_length - v.vstart - 1) stride size < 2 ^ 32

  Touched-allowed :
      (validator : ℕ → Verdict) (j : ℕ)
      → if_success (validate_vector_access v.masks validator (v.vector_length - v.vstart) v.vstart)
        ≡ executes
      → Touched j
      → validator j ≡ allowed
  Touched-allowed validator j h t =
      validate_vector_access-allowed v.masks validator (v.vector_length - v.vstart) v.vstart j
        (if_success-executes _ h) t.from (omega (arith, t.from, t.below)) t.active

  -- Over disjoint regions, where a strided load or store of elements of at least one byte, whose span
  -- is fewer than 2 ^ 32 bytes, executes, every element that it touches is permitted.
  strided_permitted :
      (element_width base : ℕ) (stride : ℤ) (j : ℕ)
      → disjoint regions ≡ true
      → 0 < element_width
      → SpanFits stride element_width
      → strided regions permission v element_width base stride ≡ executes
      → Touched j
      → has_permission regions (strided_address base stride j) element_width permission ≡ true
  unfolding strided strided_validator
  strided_permitted width base stride j d z l h t =
      let emul = width * v.vector_length_multiplier / v.selected_element_width in
      let validator = strided_validator regions base stride width permission in
      elim (Bool-cases (ltb 64 emul || emul == 0)) [
        | inl c ↦ absurd (not_illegal (rw c at h))
        | inr c ↦ check_vector_access-allowed regions permission width _ (
            Touched-allowed validator j
              (rw
                (validate_strided_vector_access_lem regions v.masks v.vstart v.vector_length base
                  width permission stride d z l)
                at (rw c at h))
              t)
      ]
    where
      not_illegal : illegal_instruction ≡ executes → ⊥
      not_illegal e = cc

  -- Over regions that are disjoint and in the address space, where a strided load or store of
  -- segments, whose fields have at least one byte and whose span is fewer than 2 ^ 32 bytes, executes,
  -- every field of every segment that it touches is permitted.
  pub segment_strided_permitted :
      (element_width nf base : ℕ) (segment_stride : ℤ) (j field : ℕ)
      → disjoint regions ≡ true
      → in_space regions ≡ true
      → 0 < element_width
      → SpanFits segment_stride ((nf + 1) * element_width)
      → segment_strided regions permission v element_width nf base segment_stride ≡ executes
      → Touched j
      → field < nf + 1
      → has_permission regions
          ((strided_address base segment_stride j + field * element_width) % 2 ^ 32)
          element_width
          permission
        ≡ true
  unfolding segment_strided segment_validator
  segment_strided_permitted width nf base stride j f d b z l h t k =
      let validator = segment_validator regions permission v width (nf + 1) base stride in
      let one : 1 * 1 ≤ (nf + 1) * width = mul-le-mul {n₁ = 1} (omega arith) z in
      let whole : 0 < (nf + 1) * width = omega arith in
      check_fields-allowed regions permission width (strided_address base stride j) (nf + 1) f
        (Touched-allowed validator j
          (rw
            (validate_strided_vector_access-eq regions v.masks v.vstart v.vector_length base
              ((nf + 1) * width) permission stride validator d whole l
              (λ i p.
                fields_of_segment regions permission width (strided_address base stride i) (nf + 1)
                  d b z p))
            at h)
          t)
        k

  -- Where an indexed load or store executes, every element that it touches is permitted.
  indexed_permitted :
      (register : ℕ → ℕ → ℕ) (index_width base j : ℕ)
      → indexed regions permission v register index_width base ≡ executes
      → Touched j
      → (let index =
            get_index_value register j index_width (v.vector_register_byte_length / index_width) in
          has_permission regions
            ((base + index % 2 ^ 32) % 2 ^ 32)
            v.selected_element_width
            permission
          ≡ true)
  unfolding indexed indexed_validator
  indexed_permitted register index_width base j h t =
      check_vector_access-allowed regions permission v.selected_element_width _
        (Touched-allowed (indexed_validator regions permission v register index_width base) j h t)
