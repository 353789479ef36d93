-- ===== src/M3/Vectors.antt =====
-- Vfwcvtbf16ffv and Vfncvtbf16ffw of sim/coralnpu_m3_instructions.cc. The framework's operands are by
-- position, its registers functions of register and lane. CopyDataBuffer opens a buffer with what the
-- register holds, and Submit writes the buffer back.
use coralnpu_mpact.Prelude.{ℕ, ◌-◌, ◌/◌, ◌%◌, ◌^◌, ◌==◌, ◌||◌, ◌&&◌, not, Bool, true, false}
use coralnpu_mpact.Prelude.{if◌then◌else◌, Option, none, some, List, [], codes, text_eq, for_loop}
use coralnpu_mpact.Bfloat.{Flags, FpState, no_flags, or_flags}
use coralnpu_mpact.Bfloat.Vectors.{any_from}
use coralnpu_mpact.M3.{m3_convert_f32_to_bf16, convert_bf16_to_f32_precise}

-- The operands: whether the first ones are there, their registers, what Source(1) is called where it
-- is there, and the bytes of its first register.
pub record VectorOperands : Type 0 where
  pub has_operands : Bool
  pub vd_size : ℕ
  pub vs2_size : ℕ
  pub dest_reg : ℕ → ℕ
  pub src_reg : ℕ → ℕ
  pub vm_name : Option (List ℕ)
  pub mask_span : ℕ → ℕ

-- What the instructions read of the state, and what they change.
pub record CoreState : Type 0 where
  pub fs : ℕ
  pub vs : ℕ
  pub fp : FpState
  pub vector_length : ℕ
  pub vstart : ℕ
  pub vector_register_byte_length : ℕ
  pub vd : ℕ → ℕ → ℕ

-- The search for a register that is a destination and a source.
unfoldable pub overlaps : VectorOperands → Bool
overlaps ops = any_from ops.vd_size 0 (λ dest_reg_idx.
    any_from ops.vs2_size 0 (λ src_reg_idx. ops.dest_reg dest_reg_idx == ops.src_reg src_reg_idx))

unfoldable pub has_mask : Option (List ℕ) → Bool
has_mask none = false
has_mask (some name) = not (text_eq name []) && not (text_eq name (codes "__VectorTrue__"))

unfoldable pub mask_value : VectorOperands → ℕ → Bool
mask_value ops vector_index =
    if has_mask ops.vm_name
    then not (ops.mask_span (vector_index / 8) / 2 ^ (vector_index % 8) % 2 == 0)
    else true

-- The variables of the loop; without a register, `dest_db` is null.
pub record Walk : Type 0 where
  pub last_reg : Option ℕ
  pub dest_span : ℕ → ℕ
  pub registers : ℕ → ℕ → ℕ
  pub fflags : Flags

-- `dest_db->Submit()`, where there is a buffer.
unfoldable pub submit_open : Walk → ℕ → ℕ → ℕ
submit_open w = elim w.last_reg [
  | none ↦ w.registers
  | some reg ↦ (λ r i. if r == reg then w.dest_span i else w.registers r i)
]

-- `if (reg != last_reg)`
unfoldable pub open_register : ℕ → Walk → Walk
open_register reg w =
    if elim w.last_reg [ none ↦ false | some last ↦ reg == last ]
    then w
    else record w { last_reg = some reg; dest_span = submit_open w reg; registers = submit_open w }

-- One index of the loop, by what converts a lane.
unfoldable pub convert_lane : VectorOperands → ℕ → (ℕ → ℕ × Flags) → ℕ → Walk → Walk
convert_lane ops elements_per_vector conv vector_index w =
    let reg = vector_index / elements_per_vector in
    let i = vector_index % elements_per_vector in
    let open_w = open_register reg w in
    if mask_value ops vector_index
    then record open_w {
      dest_span = λ j. if j == i then (conv vector_index).0 else open_w.dest_span j;
      fflags = or_flags open_w.fflags (conv vector_index).1;
    }
    else open_w

-- The loop and the Submit behind it: the registers and the flags.
unfoldable pub convert_loop : VectorOperands → CoreState → ℕ → (ℕ → ℕ × Flags) → (ℕ → ℕ → ℕ) × Flags
convert_loop ops s elements_per_vector conv =
    let w =
      for_loop (s.vector_length - s.vstart) s.vstart (convert_lane ops elements_per_vector conv)
        (record { last_reg = none; dest_span = λ i. 0; registers = s.vd; fflags = no_flags }) in
    (submit_open w, w.fflags)

-- `vstart` is cleared, and the flags are added.
unfoldable pub finish_convert : CoreState → (ℕ → ℕ → ℕ) × Flags → CoreState
finish_convert s result = record s {
  vd = result.0;
  vstart = 0;
  fp = record s.fp { fflags = or_flags s.fp.fflags result.1 };
}

-- `Vfwcvtbf16ffv`, from the lanes at `vs2`; `none` is an illegal instruction.
unfoldable pub m3_vfwcvtbf16ffv : VectorOperands → CoreState → (ℕ → ℕ) → Option CoreState
m3_vfwcvtbf16ffv ops s vs2 =
    if s.fs == 0 || s.vs == 0
    then none
    else if not ops.has_operands
    then none
    else if overlaps ops
    then none
    else some (
        finish_convert s (
          convert_loop ops s (s.vector_register_byte_length / 4)
            (λ k. convert_bf16_to_f32_precise (vs2 k))))

-- `Vfncvtbf16ffw`
unfoldable pub m3_vfncvtbf16ffw : VectorOperands → CoreState → (ℕ → ℕ) → Option CoreState
m3_vfncvtbf16ffw ops s vs2 =
    if s.fs == 0 || s.vs == 0
    then none
    else if not ops.has_operands
    then none
    else if not s.fp.rounding_mode_valid
    then none
    else if overlaps ops
    then none
    else some (
        finish_convert s (
          convert_loop ops s (s.vector_register_byte_length / 2)
            (λ k. m3_convert_f32_to_bf16 (vs2 k) s.fp.rounding_mode (some s.fp.rounding_mode))))
