-- ===== src/Bfloat/Vectors.antt =====
-- The vector conversions Vfwcvtbf16ffv and Vfncvtbf16ffw of sim/coralnpu_vector_instructions.cc, with the
-- checks of their operands. The vector and the floating point state are there.
pub mod Lanes
use coralnpu_mpact.Prelude.{
  ℕ, zero, suc, ◌+◌, ◌*◌, ◌/◌, ◌%◌, ◌^◌, ◌==◌, ltb, leb, ◌||◌, ◌&&◌, not, Bool, true, false,
}
use coralnpu_mpact.Prelude.{if◌then◌else◌, Option, none, some, List, [], ◌∷◌, ℤ, pos, negsuc, ltb_ℤ}
use coralnpu_mpact.Bfloat.{
  Flags, FpState, no_flags, or_flags, invalid_if, is_nan16, is_quiet16, k_canonical_nan32,
  convert_f32_to_bf16,
}

-- Whether a test holds at one of `n` indices from `i` on.
unfoldable pub any_from : ℕ → ℕ → (ℕ → Bool) → Bool
any_from zero i test = false
any_from (suc n) i test = let later = any_from n (i + 1) test in if test i then true else later

-- Whether the registers at the positions `i` and `j` may not be the same.
unfoldable pub is_conflict : Bool → ℕ → ℕ → ℕ → ℕ → Bool
is_conflict is_widening num_regs_dst num_regs_src i j =
    if is_widening then leb num_regs_dst num_regs_src || not (i == j) else not (i == j)

-- `CheckOverlap`, on the registers of the operands by position.
unfoldable pub check_overlap : ℕ → ℕ → Bool → (ℕ → ℕ) → (ℕ → ℕ) → Bool
check_overlap num_regs_dst num_regs_src is_widening dest_reg src_reg = any_from num_regs_dst 0 (λ i.
    any_from num_regs_src 0
      (λ j. dest_reg i == src_reg j && is_conflict is_widening num_regs_dst num_regs_src i j))

-- `CheckMaskOverlap`
unfoldable pub check_mask_overlap : ℕ → ℕ → (ℕ → ℕ) → Bool
check_mask_overlap num_regs_dst v0_reg dest_reg =
    any_from num_regs_dst 0 (λ i. dest_reg i == v0_reg)

-- The characters before the first dot.
unfoldable pub before_dot : List ℕ → List ℕ
before_dot [] = []
before_dot (c ∷ cs) = if c == 0x2E then [] else c ∷ before_dot cs

-- `GetRegisterNumber`, on the characters of a name; absl's SimpleAtoi is an argument.
unfoldable pub get_register_number : (List ℕ → Option ℤ) → List ℕ → ℤ
get_register_number simple_atoi [] = negsuc 0
get_register_number simple_atoi (c ∷ cs) =
    if not (c == 0x76)
    then negsuc 0
    else elim (simple_atoi (before_dot cs)) [ none ↦ negsuc 0 | some reg_num ↦ reg_num ]

-- A register number that is there and even.
unfoldable pub is_even_register : ℤ → Bool
is_even_register (pos n) = n % 2 == 0
is_even_register (negsuc n) = false

-- The operands: their registers by position, the name of a register, what Source(1) is called where it
-- is there, and the vector state's vtype.
pub record Operands : Type 0 where
  pub num_regs_dst : ℕ
  pub num_regs_src : ℕ
  pub dest_reg : ℕ → ℕ
  pub src_reg : ℕ → ℕ
  pub name : ℕ → List ℕ
  pub vm_op : Option (List ℕ)
  pub v0_reg : ℕ
  pub vtype : ℕ

unfoldable pub is_masked : Option (List ℕ) → Bool
is_masked none = false
is_masked (some []) = false
is_masked (some (c ∷ cs)) = true

-- What an instruction does: it traps as an illegal instruction, or writes its lanes and the flags.
pub data VectorConverted : Type 0 where
  vector_illegal : VectorConverted
  vector_written : List ℕ → Flags → VectorConverted

-- The lane of `Vfwcvtbf16ffv`, and the flags that it raises.
unfoldable pub widen_lane : ℕ → ℕ × Flags
widen_lane src_bits =
    if is_nan16 src_bits
    then (k_canonical_nan32, invalid_if (not (is_quiet16 src_bits)))
    else (src_bits * 2 ^ 16, no_flags)

unfoldable pub widen_loop : ℕ → ℕ → (ℕ → ℕ) → Flags → List ℕ × Flags
widen_loop zero i src fflags = ([], fflags)
widen_loop (suc n) i src fflags =
    let lane = widen_lane (src i) in
    let rest = widen_loop n (i + 1) src (or_flags fflags lane.1) in (lane.0 ∷ rest.0, rest.1)

unfoldable pub narrow_loop : ℕ → ℕ → (ℕ → ℕ) → Option ℕ → Flags → List ℕ × Flags
narrow_loop zero i src frm fflags = ([], fflags)
narrow_loop (suc n) i src frm fflags =
    let lane = convert_f32_to_bf16 (src i) frm fflags in
    let rest = narrow_loop n (i + 1) src frm lane.1 in (lane.0 ∷ rest.0, rest.1)

module _ (simple_atoi : List ℕ → Option ℤ) where
  -- `CheckZvfbfminVectorOpConstraints`; `frm` is the register where the rounding is checked.
  unfoldable pub check_zvfbfmin_vector_op_constraints : Operands → Option ℕ → Bool
  check_zvfbfmin_vector_op_constraints ops frm =
      if ops.vtype / 2 ^ 31 % 2 == 1
      then false
      else if not (ops.vtype % 2 ^ 3 == 0)
      then false
      else if elim frm [ none ↦ false | some mode ↦ ltb 4 mode ]
      then false
      else is_even_register (get_register_number simple_atoi (ops.name (ops.dest_reg 0)))
        && is_even_register (get_register_number simple_atoi (ops.name (ops.src_reg 0)))

  -- Whether an instruction goes on.
  unfoldable pub is_allowed : Bool → Operands → Option ℕ → Bool
  is_allowed is_widening ops frm =
      let overlap =
        check_overlap ops.num_regs_dst ops.num_regs_src is_widening ops.dest_reg ops.src_reg in
      let mask =
        is_masked ops.vm_op && check_mask_overlap ops.num_regs_dst ops.v0_reg ops.dest_reg in
      not (overlap || mask || not (check_zvfbfmin_vector_op_constraints ops frm))

  -- `Vfwcvtbf16ffv`, from the lanes at the source to `n` lanes.
  unfoldable pub vfwcvtbf16ffv : Operands → FpState → ℕ → (ℕ → ℕ) → VectorConverted
  vfwcvtbf16ffv ops fp n src =
      if is_allowed true ops none
      then (let result = widen_loop n 0 src fp.fflags in vector_written result.0 result.1)
      else vector_illegal

  -- `Vfncvtbf16ffw`
  unfoldable pub vfncvtbf16ffw : Operands → FpState → ℕ → ℕ → (ℕ → ℕ) → VectorConverted
  vfncvtbf16ffw ops fp frm n src =
      if is_allowed false ops (some frm)
      then (let result = narrow_loop n 0 src (some fp.rounding_mode) no_flags in
          vector_written result.0 (or_flags fp.fflags result.1))
      else vector_illegal
