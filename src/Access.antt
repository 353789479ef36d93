-- ===== src/Access.antt =====
-- sim/coralnpu_v2_state.cc and the access checks of sim/coralnpu_v2_instructions.cc: which memory
-- accesses and jumps of the V2 core are allowed, and what traps.
pub mod Regions
pub mod Span
pub mod Fast
pub mod Vectors
pub mod Elements
pub mod Permitted
use coralnpu_mpact.Prelude.{ℕ, zero, suc, ◌+◌, ◌-◌, ◌*◌, ◌/◌, ◌%◌, ◌^◌, ◌==◌, leb, ltb, bit_and}
use coralnpu_mpact.Prelude.{Bool, true, false, not, ◌&&◌, ◌||◌, if◌then◌else◌, Option, none, some}
use coralnpu_mpact.Prelude.{List, [], ◌∷◌, ℤ, pos, negsuc, ◌+ℤ◌, ◌*ℤ◌, ltb_ℤ, leb_ℤ, pos_part}
use coralnpu_mpact.Scalar.{residue}

-- A region's permissions are a set of bits.
pub record MemoryRegion : Type 0 where
  pub start_address : ℕ
  pub length : ℕ
  pub permissions : ℕ

-- The request is inside the region.
unfoldable pub contains : MemoryRegion → ℕ → ℕ → Bool
contains region address size =
    leb region.start_address address && leb (address + size) (region.start_address + region.length)

-- The first region that contains the request decides.
unfoldable pub has_permission : List MemoryRegion → ℕ → ℕ → ℕ → Bool
has_permission [] address size permissions = false
has_permission (region ∷ regions) address size permissions =
    let rest = has_permission regions address size permissions in
    if contains region address size
    then bit_and region.permissions permissions == permissions
    else rest

-- `static_cast<uint32_t>(z)`
abbrev pub uint32_of : ℤ → ℕ
uint32_of z = residue (2 ^ 32) z

-- What `HasRangePermission` checks before the regions: the span leaves the address space, or the
-- last address wrapped around.
unfoldable pub too_far : ℤ → Bool
too_far span = ltb_ℤ span (negsuc 4294967294) || ltb_ℤ (pos 4294967295) span

unfoldable pub wrapped_around : ℕ → ℕ → ℤ → Bool
wrapped_around start_addr end_addr span =
    ltb_ℤ (pos 0) span && ltb end_addr start_addr || ltb_ℤ span (pos 0) && ltb start_addr end_addr

-- The check of a whole range, after its span is known.
unfoldable pub has_span_permission : List MemoryRegion → ℕ → ℤ → ℕ → ℕ → Bool
has_span_permission regions base span element_size permission =
    let end_addr = uint32_of (pos base +ℤ span) in
    let min_addr = if leb_ℤ (pos 0) span then base else end_addr in
    let max_addr = if leb_ℤ (pos 0) span then end_addr else base in
    let range_end = max_addr + element_size in
    if too_far span
    then false
    else if wrapped_around base end_addr span
    then false
    else if ltb 0x100000000 range_end
    then false
    else has_permission regions min_addr ((range_end - min_addr) % 2 ^ 32) permission

-- `span` is computed in 64 bits, which hold the product of an `int` and a 32-bit stride.
unfoldable pub has_range_permission : List MemoryRegion → ℕ → ℤ → ℤ → ℕ → ℕ → Bool
has_range_permission regions base stride element_count element_size permission =
    if leb_ℤ element_count (pos 0)
    then true
    else has_span_permission regions base ((element_count +ℤ negsuc 0) *ℤ stride) element_size
        permission

-- What validating an access ends with: it is allowed, or it trapped at an address.
pub data Verdict : Type 0 where
  allowed : Verdict
  trapped : ℕ → Verdict

-- `CheckVectorAccess` on one element: the trap's value is the address.
unfoldable pub check_vector_access : List MemoryRegion → ℕ → ℕ → ℕ → Verdict
check_vector_access regions permission size address =
    if has_permission regions address size permission then allowed else trapped address

-- `CheckVectorMask` on a mask's bytes.
unfoldable pub check_vector_mask : (ℕ → ℕ) → ℕ → Bool
check_vector_mask src_masks i = not (src_masks (i / 8) / 2 ^ (i % 8) % 2 == 0)

-- The elements that are left out: those whose mask bit is clear, if there is a mask.
unfoldable pub is_active : Option (ℕ → ℕ) → ℕ → Bool
is_active none i = true
is_active (some src_masks) i = check_vector_mask src_masks i

-- `ValidateVectorAccess`: `left` elements from `i` on, up to the first that traps.
unfoldable pub validate_vector_access : Option (ℕ → ℕ) → (ℕ → Verdict) → ℕ → ℕ → Verdict
validate_vector_access masks validator zero i = allowed
validate_vector_access masks validator (suc left) i =
    let rest = validate_vector_access masks validator left (i + 1) in
    if not (is_active masks i)
    then rest
    else elim (validator i) [ allowed ↦ rest | trapped address ↦ trapped address ]

-- The address of element `i` of a strided access, in 32 bits.
unfoldable pub strided_address : ℕ → ℤ → ℕ → ℕ
strided_address base stride i = uint32_of (pos base +ℤ pos i *ℤ stride)

-- The validator that `CoralNPUV2VlStrided` and `CoralNPUV2VsStrided` pass on.
unfoldable pub strided_validator : List MemoryRegion → ℕ → ℤ → ℕ → ℕ → ℕ → Verdict
strided_validator regions base stride element_size permission i =
    check_vector_access regions permission element_size (strided_address base stride i)

-- `ValidateStridedVectorAccess`, from element `start` to `element_count`.
unfoldable pub validate_strided_vector_access :
    List MemoryRegion → Option (ℕ → ℕ) → ℕ → ℕ → ℕ → ℤ → ℕ → ℕ → (ℕ → Verdict) → Verdict
validate_strided_vector_access regions masks start element_count base stride element_size permission
      validator =
    if ltb start element_count
      && has_range_permission regions (strided_address base stride start) stride
          (pos (element_count - start)) element_size permission
    then allowed
    else validate_vector_access masks validator (element_count - start) start

-- `AccessCheck` of a 32-bit register: what a load reads needs bit 0, what a store writes bit 1.
unfoldable pub access_check : List MemoryRegion → Bool → ℕ → ℕ → ℕ → Verdict
access_check regions is_load size base offset =
    let address = (base + offset) % 2 ^ 32 in
    if has_permission regions address size (if is_load then 1 else 2)
    then allowed
    else trapped address

-- `IsJumpAllowed`: `HasPermission` takes the address in 32 bits.
unfoldable pub is_jump_allowed : List MemoryRegion → ℕ → Verdict
is_jump_allowed regions address =
    if has_permission regions (address % 2 ^ 32) 4 4 then allowed else trapped address

-- The instructions on a state `S`. `go` is the framework's function, `trap` its `Trap` with the
-- trap value. The offsets are 32-bit patterns.
module _ {S : Type 0} (regions : List MemoryRegion) (trap : ℕ → S → S) (go : S → S) where
  unfoldable pub guarded : Verdict → S → S
  guarded allowed s = go s
  guarded (trapped address) s = trap address s

  unfoldable pub v2_lw : ℕ → ℕ → S → S
  v2_lw base offset = guarded (access_check regions true 4 base offset)

  unfoldable pub v2_lh : ℕ → ℕ → S → S
  v2_lh base offset = guarded (access_check regions true 2 base offset)

  unfoldable pub v2_lhu : ℕ → ℕ → S → S
  v2_lhu base offset = guarded (access_check regions true 2 base offset)

  unfoldable pub v2_lb : ℕ → ℕ → S → S
  v2_lb base offset = guarded (access_check regions true 1 base offset)

  unfoldable pub v2_lbu : ℕ → ℕ → S → S
  v2_lbu base offset = guarded (access_check regions true 1 base offset)

  unfoldable pub v2_sw : ℕ → ℕ → S → S
  v2_sw base offset = guarded (access_check regions false 4 base offset)

  unfoldable pub v2_sh : ℕ → ℕ → S → S
  v2_sh base offset = guarded (access_check regions false 2 base offset)

  unfoldable pub v2_sb : ℕ → ℕ → S → S
  v2_sb base offset = guarded (access_check regions false 1 base offset)

  unfoldable pub v2_jal : ℕ → ℕ → S → S
  v2_jal pc offset = guarded (is_jump_allowed regions ((pc + offset) % 2 ^ 32))

  -- `write_link` writes the address of the next instruction to the destination register, which a
  -- jump that is not allowed does after its trap.
  unfoldable pub v2_jalr : (S → S) → ℕ → ℕ → S → S
  v2_jalr write_link base offset s = elim (is_jump_allowed regions ((base + offset) % 2 ^ 32)) [
    | allowed ↦ go s
    | trapped address ↦ write_link (trap address s)
  ]
