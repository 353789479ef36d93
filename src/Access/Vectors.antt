-- ===== src/Access/Vectors.antt =====
-- The vector loads and stores of sim/coralnpu_v2_instructions.cc: what each of them checks before
-- it calls the framework's function.
use coralnpu_mpact.Prelude.{ℕ, zero, suc, ◌+◌, ◌-◌, ◌*◌, ◌/◌, ◌%◌, ◌^◌, ◌==◌, ltb, ◌||◌}
use coralnpu_mpact.Prelude.{if◌then◌else◌, min, bit_or, Option, none, List, ℤ, pos}
use coralnpu_mpact.Access.{
  MemoryRegion, has_permission, Verdict, allowed, trapped, check_vector_access,
  validate_vector_access, strided_address, strided_validator, validate_strided_vector_access,
}

-- What an instruction reads of the vector state; widths are in bytes. `masks` is the mask operand.
pub record VectorState : Type 0 where
  pub vstart : ℕ
  pub vector_length : ℕ
  pub vector_length_multiplier : ℕ
  pub selected_element_width : ℕ
  pub vector_register_byte_length : ℕ
  pub masks : Option (ℕ → ℕ)

-- What an instruction does: it calls the framework's function, or traps with an access fault at an
-- address, or as an illegal instruction.
pub data Outcome : Type 0 where
  executes : Outcome
  access_fault : ℕ → Outcome
  illegal_instruction : Outcome

-- `if (success) ...`
unfoldable pub if_success : Verdict → Outcome
if_success allowed = executes
if_success (trapped address) = access_fault address

-- `kRead` and `kWrite`
abbrev pub k_read : ℕ
k_read = 1

abbrev pub k_write : ℕ
k_write = 2

-- `GetIndexValue`: bytes `b` on of an index, in little-endian order; `register r b` is byte `b` of
-- register `r` of the index operand.
unfoldable pub index_bytes_from : (ℕ → ℕ) → ℕ → ℕ → ℕ
index_bytes_from byte zero b = 0
index_bytes_from byte (suc left) b =
    bit_or (byte b * 2 ^ (b * 8)) (index_bytes_from byte left (b + 1))

unfoldable pub get_index_value : (ℕ → ℕ → ℕ) → ℕ → ℕ → ℕ → ℕ
get_index_value register i index_bytes indices_per_reg =
    let byte_offset = i % indices_per_reg * index_bytes in
    index_bytes_from (λ b. register (i / indices_per_reg) (byte_offset + b)) index_bytes 0

-- The fields of a segment from `field` on.
unfoldable pub check_fields : List MemoryRegion → ℕ → ℕ → ℕ → ℕ → ℕ → Verdict
check_fields regions permission element_width segment_address zero field = allowed
check_fields regions permission element_width segment_address (suc left) field =
    let rest = check_fields regions permission element_width segment_address left (field + 1) in
    elim (check_vector_access regions permission element_width
      ((segment_address + field * element_width) % 2 ^ 32)) [
        | allowed ↦ rest
        | trapped address ↦ trapped address
      ]

module _ (regions : List MemoryRegion) (permission : ℕ) (v : VectorState) where
  -- `CoralNPUV2VlStrided` and `CoralNPUV2VsStrided`
  unfoldable pub strided : ℕ → ℕ → ℤ → Outcome
  strided element_width base stride =
      let emul = element_width * v.vector_length_multiplier / v.selected_element_width in
      if ltb 64 emul || emul == 0
      then illegal_instruction
      else if_success (
          validate_strided_vector_access regions v.masks v.vstart v.vector_length base stride
            element_width permission
            (strided_validator regions base stride element_width permission))

  -- The instructions without a mask, which ignore `vstart`: elements that lie side by side.
  unfoldable pub unmasked : ℕ → ℕ → ℕ → Outcome
  unmasked count element_width base = if_success (
      validate_strided_vector_access regions none 0 count base (pos element_width) element_width
        permission (strided_validator regions base (pos element_width) element_width permission))

  -- `CoralNPUV2VlIndexed` and `CoralNPUV2VsIndexed`
  unfoldable pub indexed_validator : (ℕ → ℕ → ℕ) → ℕ → ℕ → ℕ → Verdict
  indexed_validator register index_width base i =
      let indices_per_reg = v.vector_register_byte_length / index_width in
      let index_val = get_index_value register i index_width indices_per_reg % 2 ^ 32 in
      check_vector_access regions permission v.selected_element_width ((base + index_val) % 2 ^ 32)

  unfoldable pub indexed : (ℕ → ℕ → ℕ) → ℕ → ℕ → Outcome
  indexed register index_width base = if_success (
      validate_vector_access v.masks (indexed_validator register index_width base)
        (v.vector_length - v.vstart) v.vstart)

  -- `CoralNPUV2VlSegment` and `CoralNPUV2VsSegment`
  unfoldable pub segment : ℕ → ℕ → ℕ → Outcome
  segment element_width nf base =
      let segment_byte_size = (nf + 1) * element_width in
      if_success (
        validate_strided_vector_access regions v.masks v.vstart v.vector_length base
          (pos segment_byte_size) segment_byte_size permission
          (strided_validator regions base (pos segment_byte_size) segment_byte_size permission))

  -- `CoralNPUV2VlSegmentStrided` and `CoralNPUV2VsSegmentStrided`
  unfoldable pub segment_validator : ℕ → ℕ → ℕ → ℤ → ℕ → Verdict
  segment_validator element_width num_fields base segment_stride i =
      check_fields regions permission element_width (strided_address base segment_stride i)
        num_fields 0

  unfoldable pub segment_strided : ℕ → ℕ → ℕ → ℤ → Outcome
  segment_strided element_width nf base segment_stride =
      let num_fields = nf + 1 in
      if_success (
        validate_strided_vector_access regions v.masks v.vstart v.vector_length base segment_stride
          (num_fields * element_width) permission
          (segment_validator element_width num_fields base segment_stride))

  -- `CoralNPUV2VlSegmentIndexed` and `CoralNPUV2VsSegmentIndexed`
  unfoldable pub segment_indexed_validator : (ℕ → ℕ → ℕ) → ℕ → ℕ → ℕ → ℕ → Verdict
  segment_indexed_validator register index_width nf base i =
      let indices_per_reg = v.vector_register_byte_length / index_width in
      let index_val = get_index_value register i index_width indices_per_reg % 2 ^ 32 in
      check_fields regions permission v.selected_element_width ((base + index_val) % 2 ^ 32)
        (nf + 1) 0

  unfoldable pub segment_indexed : (ℕ → ℕ → ℕ) → ℕ → ℕ → ℕ → Outcome
  segment_indexed register index_width nf base = if_success (
      validate_vector_access v.masks (segment_indexed_validator register index_width nf base)
        (v.vector_length - v.vstart) v.vstart)

-- The instructions by their names. The mask loads and stores move the bytes of the mask.
module _ (regions : List MemoryRegion) (v : VectorState) where
  unfoldable pub vl_strided : ℕ → ℕ → ℤ → Outcome
  vl_strided = strided regions k_read v

  unfoldable pub vs_strided : ℕ → ℕ → ℤ → Outcome
  vs_strided = strided regions k_write v

  unfoldable pub vlm : ℕ → Outcome
  vlm = unmasked regions k_read v ((v.vector_length + 7) / 8) 1

  unfoldable pub vsm : ℕ → Outcome
  vsm = unmasked regions k_write v ((v.vector_length + 7) / 8) 1

  unfoldable pub vl_register : ℕ → ℕ → ℕ → Outcome
  vl_register num_regs element_width_bytes =
      unmasked regions k_read v (v.vector_register_byte_length * num_regs / element_width_bytes)
        element_width_bytes

  -- Whole registers are stored by 8 bytes.
  unfoldable pub vs_register : ℕ → ℕ → Outcome
  vs_register num_regs = unmasked regions k_write v (v.vector_register_byte_length * num_regs / 8) 8

  unfoldable pub vl_indexed : (ℕ → ℕ → ℕ) → ℕ → ℕ → Outcome
  vl_indexed = indexed regions k_read v

  unfoldable pub vs_indexed : (ℕ → ℕ → ℕ) → ℕ → ℕ → Outcome
  vs_indexed = indexed regions k_write v

  unfoldable pub vl_segment : ℕ → ℕ → ℕ → Outcome
  vl_segment = segment regions k_read v

  unfoldable pub vs_segment : ℕ → ℕ → ℕ → Outcome
  vs_segment = segment regions k_write v

  unfoldable pub vl_segment_strided : ℕ → ℕ → ℕ → ℤ → Outcome
  vl_segment_strided = segment_strided regions k_read v

  unfoldable pub vs_segment_strided : ℕ → ℕ → ℕ → ℤ → Outcome
  vs_segment_strided = segment_strided regions k_write v

  unfoldable pub vl_segment_indexed : (ℕ → ℕ → ℕ) → ℕ → ℕ → ℕ → Outcome
  vl_segment_indexed = segment_indexed regions k_read v

  unfoldable pub vs_segment_indexed : (ℕ → ℕ → ℕ) → ℕ → ℕ → ℕ → Outcome
  vs_segment_indexed = segment_indexed regions k_write v

-- sim/coralnpu_m4_instructions.cc: `TileSubsetCount`, and the checks of the tile loads and stores.
unfoldable pub tile_subset_count : ℕ → ℕ → ℕ → ℕ
tile_subset_count tile_elements vector_length tile_element_width =
    min vector_length (if ltb tile_element_width 64 then tile_elements else tile_elements / 2)

unfoldable pub tile_access : List MemoryRegion → ℕ → ℕ → ℕ → ℕ → ℕ → Outcome
tile_access regions permission tile_elements vector_length eew_bits base =
    let size = tile_subset_count tile_elements vector_length eew_bits * (eew_bits / 8) in
    if has_permission regions (base % 2 ^ 32) size permission then executes else access_fault base

unfoldable pub m4_vtle : List MemoryRegion → ℕ → ℕ → ℕ → ℕ → Outcome
m4_vtle regions = tile_access regions k_read

unfoldable pub m4_vtse : List MemoryRegion → ℕ → ℕ → ℕ → ℕ → Outcome
m4_vtse regions = tile_access regions k_write
