-- ===== src/Vector/Shift.antt =====
-- The lane functions of the shifts of sim/coralnpu_vector_instructions.cc.
pub mod Bounds
pub mod Narrowing
pub mod Left
pub mod Right
pub mod Steps
pub mod Saturating
pub mod Least
use coralnpu_mpact.Prelude.{ℕ, ◌-◌, ◌*◌, ◌^◌, ◌==◌, leb, ltb, Bool, true, false, not, ◌&&◌, ◌||◌}
use coralnpu_mpact.Prelude.{Option, none, some, if◌then◌else◌, ℤ, pos, negsuc, pos_part}
use coralnpu_mpact.Prelude.{◌-ℤ◌, ltb_ℤ, leb_ℤ, shr_ℤ}
use coralnpu_mpact.Scalar.{CType, int32, make_signed, make_unsigned, wide, max_limit, min_limit}
use coralnpu_mpact.Scalar.{eqb_ℤ, of_bool, residue, cast, plus, shl}

-- `vs2 & (sizeof(T) * 8 - 1)`
abbrev pub shift_amount : CType → ℤ → ℕ
shift_amount t vs2 = residue t.bits vs2

pub vsll_lane : CType → ℤ → ℤ → ℤ
vsll_lane t vs1 vs2 = cast t (shl t vs1 (shift_amount t vs2))

pub vsra_lane : CType → ℤ → ℤ → ℤ
vsra_lane t vs1 vs2 = cast t (shr_ℤ vs1 (shift_amount t vs2))

pub vsrl_lane : CType → ℤ → ℤ → ℤ
vsrl_lane t vs1 vs2 = cast t (shr_ℤ vs1 (shift_amount t vs2))

-- The rounding term of a shift right by `shamt`: `1ll << (shamt - 1)` in the wide type.
abbrev pub rounding_bit : CType → Bool → ℕ → ℤ
rounding_bit wt round shamt = if round then cast wt (pos (2 ^ (shamt - 1))) else pos 0

-- `-shamt` in `int`, which has no value for the least `int`: the behaviour is undefined there.
unfoldable pub negate_int : ℤ → Option ℤ
negate_int z = if eqb_ℤ z (negsuc (2 ^ 31 - 1)) then none else some (pos 0 -ℤ z)

-- `ushamt`: the magnitude of a left shift, at most the lane's width.
unfoldable pub left_amount : CType → ℤ → Option ℕ
left_amount t shamt = elim (negate_int shamt) [
  | none ↦ none
  | some k ↦
      some (pos_part (cast (make_unsigned t) (if leb_ℤ k (pos t.bits) then k else pos t.bits)))
]

-- The signed half of `CoralNPUVShiftHelper`: the shifted value in the wide type. `none` is a
-- failed `CHECK_LE`, or undefined behaviour.
unfoldable pub signed_shift : CType → Bool → ℤ → ℤ → Option ℤ
signed_shift t round vs1 shamt =
    let wt = wide t in
    let k_max_shift_bit = pos t.bits in
    if ltb_ℤ vs1 (pos 0) && leb_ℤ k_max_shift_bit shamt
    then some (cast wt (plus int32 (negsuc 0) (of_bool round)))
    else if ltb_ℤ (pos 0) vs1 && leb_ℤ k_max_shift_bit shamt
    then some (pos 0)
    else if ltb_ℤ (pos 0) shamt
    then some (
        cast wt
          (shr_ℤ (plus wt (cast wt vs1) (rounding_bit wt round (pos_part shamt))) (pos_part shamt)))
    else elim (left_amount t shamt) [
      | none ↦ none
      | some ushamt ↦
          if leb ushamt t.bits
          then (let uwt = wide (make_unsigned t) in some (cast wt (shl uwt (cast uwt vs1) ushamt)))
          else none
    ]

-- The unsigned half.
unfoldable pub unsigned_shift : CType → Bool → ℤ → ℤ → Option ℤ
unsigned_shift t round vs1 shamt =
    let wt = wide t in
    if ltb_ℤ (pos t.bits) shamt
    then some (pos 0)
    else if ltb_ℤ (pos 0) shamt
    then some (
        cast wt
          (shr_ℤ (plus wt (cast wt vs1) (rounding_bit wt round (pos_part shamt))) (pos_part shamt)))
    else elim (left_amount t shamt) [
      | none ↦ none
      | some ushamt ↦ some (cast wt (shl wt (cast wt vs1) ushamt))
    ]

-- The saturation at the end of the signed half, and of the unsigned half.
unfoldable pub saturate_signed : CType → ℤ → ℤ → ℤ → ℤ
saturate_signed t vs1 shamt shift =
    let left_out = leb_ℤ shamt (pos 0 -ℤ pos t.bits) in
    if ltb_ℤ vs1 (pos 0) && (left_out || ltb_ℤ shift (min_limit t))
    then min_limit t
    else if ltb_ℤ (pos 0) vs1 && (left_out || ltb_ℤ (max_limit t) shift)
    then max_limit t
    else cast t shift

unfoldable pub saturate_unsigned : CType → ℤ → ℤ → ℤ → ℤ
saturate_unsigned t vs1 shamt shift =
    if not (eqb_ℤ vs1 (pos 0)) && (ltb_ℤ shamt (pos 0 -ℤ pos t.bits) || ltb_ℤ (max_limit t) shift)
    then max_limit t
    else cast t shift

-- What follows a shift that has a value.
abbrev pub saturated : Option ℤ → (ℤ → ℤ) → Option ℤ
saturated none end = none
saturated (some shift) end = some (end shift)

-- Logical and arithmetic shift, left for a negative amount, with saturation.
unfoldable pub vshift_helper : CType → Bool → ℤ → ℤ → Option ℤ
vshift_helper t round vs1 vs2 =
    if t.is_signed
    then (let shamt = cast int32 vs2 in
        if eqb_ℤ vs1 (pos 0)
        then some (pos 0)
        else saturated (signed_shift t round vs1 shamt) (saturate_signed t vs1 shamt))
    else (let shamt = cast int32 (cast (make_signed t) vs2) in
        if eqb_ℤ vs1 (pos 0)
        then some (pos 0)
        else saturated (unsigned_shift t round vs1 shamt) (saturate_unsigned t vs1 shamt))

-- Arithmetic right shift with rounding and saturation, narrowing from `ts` to `td`.
unfoldable pub vsrans_helper : CType → CType → Bool → ℤ → ℤ → ℤ
vsrans_helper td ts round vs1 vs2 =
    let wts = wide ts in
    let shamt = pos_part (cast td (pos (residue ts.bits vs2))) in
    let rounding = rounding_bit wts (not (shamt == 0) && round) shamt in
    let res = cast wts (shr_ℤ (plus wts (cast wts vs1) rounding) shamt) in
    if ltb_ℤ res (min_limit td)
    then min_limit td
    else if ltb_ℤ (max_limit td) res
    then max_limit td
    else if eqb_ℤ vs1 (pos 0)
    then pos 0
    else cast td res
