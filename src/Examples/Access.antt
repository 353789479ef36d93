-- ===== src/Examples/Access.antt =====
-- The theorems on the access checks, at the default regions.
use coralnpu_mpact.Prelude.{
  ℕ, ◌+◌, ◌-◌, ◌*◌, ◌/◌, ◌%◌, ◌^◌, ◌==◌, ◌≡◌, refl, arith, true, if◌then◌else◌,
}
use coralnpu_mpact.Prelude.{Option, none, some, List, [], ◌∷◌, pos, negsuc, ◌*ℤ◌, ◌+ℤ◌}
use coralnpu_mpact.Access.{
  MemoryRegion, validate_strided_vector_access, validate_vector_access, strided_validator, trapped,
  strided_address, has_permission, has_range_permission, contains, is_active, check_vector_access,
  has_span_permission, too_far, wrapped_around, check_vector_mask,
}
use coralnpu_mpact.Access.Regions.{disjoint, apart_all, apart}
use coralnpu_mpact.Access.Fast.{validate_strided_vector_access_lem}
use coralnpu_mpact.Access.Elements.{FirstTrap, validate_vector_access-FirstTrap}
use coralnpu_mpact.Access.Vectors.{
  VectorState, executes, if_success, strided, segment_strided, segment_validator, check_fields,
  indexed, indexed_validator, get_index_value, index_bytes_from,
}
use coralnpu_mpact.Access.Permitted.{Touched, in_space, segment_strided_permitted}

-- Code that may be read and run, and data that may be read and written.
abbrev regions : List MemoryRegion
regions =
    record { start_address = 0x10000; length = 0x8000; permissions = 3 }
    ∷ record { start_address = 0; length = 0x2000; permissions = 5 }
    ∷ []

-- Every second element is masked.
abbrev masks : Option (ℕ → ℕ)
masks = some (λ i. 0x55)

validate_strided_vector_access_lem_example :
    validate_strided_vector_access regions masks 1 16 0x10040
      (negsuc 7)
      4
      2
      (strided_validator regions 0x10040 (negsuc 7) 4 2)
    ≡ validate_vector_access masks (strided_validator regions 0x10040 (negsuc 7) 4 2) (16 - 1) 1
unfolding disjoint apart_all apart
validate_strided_vector_access_lem_example =
    validate_strided_vector_access_lem regions masks 1 16 0x10040 4 2 (negsuc 7) refl (omega arith)
      (omega arith)

-- Sixteen elements of 4 bytes, the first one skipped.
abbrev vector_state : VectorState
vector_state = record {
  vstart = 1;
  vector_length = 8;
  vector_length_multiplier = 8;
  selected_element_width = 4;
  vector_register_byte_length = 32;
  masks = masks;
}

touched : Touched regions 1 vector_state 2
unfolding is_active check_vector_mask
touched = record { from = omega arith; below = omega arith; active = refl }

strided_runs : strided regions 1 vector_state 4 0x10040 (negsuc 7) ≡ executes
unfolding strided validate_strided_vector_access validate_vector_access strided_validator
    check_vector_access has_permission contains has_range_permission if_success is_active
    has_span_permission too_far ◌*ℤ◌ ◌+ℤ◌ wrapped_around strided_address check_vector_mask
strided_runs = refl

segments_run : segment_strided regions 1 vector_state 4 1 0x10040 (pos 16) ≡ executes
unfolding segment_strided validate_strided_vector_access validate_vector_access segment_validator
    check_fields check_vector_access has_permission contains has_range_permission if_success
    is_active has_span_permission too_far ◌*ℤ◌ ◌+ℤ◌ wrapped_around strided_address check_vector_mask
segments_run = refl

segment_strided_permitted_example :
    has_permission regions ((strided_address 0x10040 (pos 16) 2 + 1 * 4) % 2 ^ 32) 4 1 ≡ true
unfolding disjoint apart_all apart in_space
segment_strided_permitted_example =
    segment_strided_permitted regions 1 vector_state 4 1 0x10040 (pos 16) 2 1 refl refl
      (omega arith) (omega arith) segments_run touched (omega arith)

-- The bytes of the index registers: each index is 0x100 times its number.
abbrev index_bytes : ℕ → ℕ → ℕ
index_bytes r b = if b % 2 == 1 then b / 2 else 0

indexed_runs : indexed regions 1 vector_state index_bytes 2 0x10000 ≡ executes
unfolding indexed validate_vector_access indexed_validator check_vector_access has_permission
    contains if_success is_active get_index_value index_bytes_from has_span_permission too_far ◌*ℤ◌
    ◌+ℤ◌ wrapped_around strided_address check_vector_mask
indexed_runs = refl

-- The data end at 0x18000.
last_traps :
    validate_vector_access none (strided_validator regions 0x17FF8 (pos 4) 4 2) 5 0
    ≡ trapped 0x18000
unfolding validate_vector_access strided_validator check_vector_access has_permission contains
    is_active has_span_permission too_far ◌*ℤ◌ ◌+ℤ◌ wrapped_around strided_address check_vector_mask
last_traps = refl

validate_vector_access-FirstTrap_example :
    FirstTrap none (strided_validator regions 0x17FF8 (pos 4) 4 2) 5 0 0x18000
validate_vector_access-FirstTrap_example =
    validate_vector_access-FirstTrap none (strided_validator regions 0x17FF8 (pos 4) 4 2) 5 0
      0x18000 last_traps
