-- ===== src/Access/Span.antt =====
-- What the checks of `HasRangePermission` say of the ends of a range.
use native.Mathlib.Nat.{mul-le-mul}
use mathlib.Core.Bool.{false≢true}
use coralnpu_mpact.Prelude.{ℕ, suc, ◌+◌, ◌-◌, ◌*◌, ◌%◌, ◌^◌, ◌≤◌, ◌<◌, ◌≡◌, refl, arith}
use coralnpu_mpact.Prelude.{ltb, if◌then◌else◌, Bool, true, false}
use coralnpu_mpact.Prelude.{List, pos, negsuc, ◌+ℤ◌, ◌*ℤ◌, leb_ℤ}
use coralnpu_mpact.Access.{
  MemoryRegion, has_permission, has_span_permission, too_far, wrapped_around, uint32_of,
}

-- The two ends of a strided range and of its element `i`, for a stride up and a stride down.
pub up_bounds :
    (base stride n i size : ℕ)
    → base < 2 ^ 32
    → i ≤ n
    → base + n * stride < 2 ^ 32
    → (uint32_of (pos base +ℤ pos n *ℤ pos stride) ≡ base + n * stride)
      × (base ≤ uint32_of (pos base +ℤ pos i *ℤ pos stride))
      × (uint32_of (pos base +ℤ pos i *ℤ pos stride) ≤ base + n * stride)
unfolding ◌+ℤ◌ ◌*ℤ◌
up_bounds base stride n i size h k l =
    let part : i * stride ≤ n * stride = mul-le-mul k (omega arith) in ground arith

pub down_bounds :
    (base stride n i size : ℕ)
    → base < 2 ^ 32
    → i ≤ n
    → n * suc stride ≤ base
    → (uint32_of (pos base +ℤ pos n *ℤ negsuc stride) ≡ base - n * suc stride)
      × (uint32_of (pos base +ℤ pos i *ℤ negsuc stride) ≤ base)
      × (base - n * suc stride ≤ uint32_of (pos base +ℤ pos i *ℤ negsuc stride))
unfolding ◌+ℤ◌ ◌*ℤ◌
down_bounds base stride n i size h k l =
    let part : i * suc stride ≤ n * suc stride = mul-le-mul k (omega arith) in ground arith

up_end :
    (base span size : ℕ)
    → base < 2 ^ 32
    → span + size < 2 ^ 32
    → wrapped_around base (uint32_of (pos base +ℤ pos span)) (pos span) ≡ false
    → ltb 4294967296 (uint32_of (pos base +ℤ pos span) + size) ≡ false
    → (base + span + size ≤ 2 ^ 32)
      × ((uint32_of (pos base +ℤ pos span) + size - base) % 2 ^ 32 ≡ span + size)
unfolding ◌+ℤ◌ wrapped_around
up_end base span size h k w l = ground arith

down_end :
    (base span size : ℕ)
    → base < 2 ^ 32
    → suc span + size < 2 ^ 32
    → wrapped_around base (uint32_of (pos base +ℤ negsuc span)) (negsuc span) ≡ false
    → ltb 4294967296 (base + size) ≡ false
    → (suc span ≤ base)
      × (base + size ≤ 2 ^ 32)
      × (uint32_of (pos base +ℤ negsuc span) ≡ base - suc span)
      × ((base + size - (base - suc span)) % 2 ^ 32 ≡ suc span + size)
unfolding ◌+ℤ◌ wrapped_around
down_end base span size h k w l = ground arith

three_false :
    (b c d e : Bool)
    → (if b then false else if c then false else if d then false else e) ≡ true
    → (b ≡ false) × (c ≡ false) × (d ≡ false) × (e ≡ true)
three_false true c d e h = absurd (false≢true h)
three_false false true d e h = absurd (false≢true h)
three_false false false true e h = absurd (false≢true h)
three_false false false false e h = (refl, refl, refl, h)

-- What the checks of a span up say, and of a span down.
pub up_checks :
    (regions : List MemoryRegion) (base span size permission : ℕ)
    → base < 2 ^ 32
    → span + size < 2 ^ 32
    → has_span_permission regions base (pos span) size permission ≡ true
    → (base + span + size ≤ 2 ^ 32) × (has_permission regions base (span + size) permission ≡ true)
unfolding has_span_permission
up_checks regions base span size permission h k e =
    let end = uint32_of (pos base +ℤ pos span) in
    let up : leb_ℤ (pos 0) (pos span) ≡ true = ground arith in
    let checks : (too_far (pos span) ≡ false)
        × (wrapped_around base end (pos span) ≡ false)
        × (ltb 4294967296 (end + size) ≡ false)
        × (has_permission regions base ((end + size - base) % 2 ^ 32) permission ≡ true) =
      three_false _ _ _ _ (rw up at e) in
    let ends = up_end base span size h k checks.1 checks.2 in (ends.0, rw ends.1 at checks.3)

pub down_checks :
    (regions : List MemoryRegion) (base span size permission : ℕ)
    → base < 2 ^ 32
    → suc span + size < 2 ^ 32
    → has_span_permission regions base (negsuc span) size permission ≡ true
    → (suc span ≤ base)
      × (base + size ≤ 2 ^ 32)
      × (has_permission regions (base - suc span) (suc span + size) permission ≡ true)
unfolding has_span_permission
down_checks regions base span size permission h k e =
    let end = uint32_of (pos base +ℤ negsuc span) in
    let down : leb_ℤ (pos 0) (negsuc span) ≡ false = ground arith in
    let checks : (too_far (negsuc span) ≡ false)
        × (wrapped_around base end (negsuc span) ≡ false)
        × (ltb 4294967296 (base + size) ≡ false)
        × (has_permission regions end ((base + size - end) % 2 ^ 32) permission ≡ true) =
      three_false _ _ _ _ (rw down at e) in
    let ends = down_end base span size h k checks.1 checks.2 in
    (ends.0, ends.1, rw (ends.3) at (rw ends.2 at checks.3))
