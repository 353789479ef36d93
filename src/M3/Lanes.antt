-- ===== src/M3/Lanes.antt =====
-- What the vector conversions of sim/coralnpu_m3_instructions.cc leave in the registers.
use native.Mathlib.Decide.{ℕ_discrete}
use native.Mathlib.Nat.{div-add-mod'}
use coralnpu_mpact.Prelude.{
  ℕ, zero, suc, ◌+◌, ◌-◌, ◌*◌, ◌/◌, ◌%◌, ◌==◌, ◌<◌, ◌≡◌, ◌≢◌, refl, sym, ap, ap₂, ◌∙◌, arith, ltb,
  leb, ◌||◌, ◌&&◌,
}
use coralnpu_mpact.Prelude.{
  Bool, true, false, Bool-cases, inl, inr, if◌then◌else◌, Option, none, some, for_loop,
  for_loop_maps,
}
use coralnpu_mpact.Bfloat.{Flags, no_flags, or_flags}
use coralnpu_mpact.M3.{m3_convert_f32_to_bf16, convert_bf16_to_f32_precise}
use coralnpu_mpact.M3.Vectors.{
  VectorOperands, CoreState, overlaps, mask_value, Walk, submit_open, open_register, convert_lane,
  convert_loop, finish_convert, m3_vfwcvtbf16ffv, m3_vfncvtbf16ffw,
}

opened :
    (l : Option ℕ) (d : ℕ → ℕ) (v : ℕ → ℕ → ℕ) (f : Flags) (reg r i : ℕ)
    → (let w : Walk = record { last_reg = l; dest_span = d; registers = v; fflags = f } in
        submit_open (open_register reg w) r i ≡ submit_open w r i)
unfolding submit_open open_register
opened none d v f reg r i = ground arith
opened (some last) d v f reg r i = ground arith

-- Opening a register changes nothing that a Submit leaves.
submit_open-open_register :
    (reg r i : ℕ) (w : Walk) → submit_open (open_register reg w) r i ≡ submit_open w r i
unfolding submit_open open_register
submit_open-open_register reg r i w = opened w.last_reg w.dest_span w.registers w.fflags reg r i

place_lem : (n r i k : ℕ) → i < n → ((k / n == r) && (k % n == i)) ≡ (k == r * n + i)
place_lem n r i k h = elim (ℕ_discrete k (r * n + i)) [
  | yes e ↦ rw (e, above, below) (ground arith)
  | no e ↦ ground (arith, e, apart e)
]
  where
    above : (r * n + i) / n ≡ r
    above = grind arith

    below : (r * n + i) % n ≡ i
    below = grind arith

    apart : k ≢ r * n + i → k / n ≡ r → k % n ≢ i
    apart e a b = e (sym (div-add-mod' k n) ∙ ap₂ (λ x y. x * n + y) a b)

opened_last : (reg : ℕ) (w : Walk) → (open_register reg w).last_reg ≡ some reg
unfolding open_register
opened_last reg w = last_of w.last_reg w.dest_span w.registers w.fflags
  where
    last_of :
        (l : Option ℕ) (d : ℕ → ℕ) (v : ℕ → ℕ → ℕ) (f : Flags)
        → (open_register reg
            (record { last_reg = l; dest_span = d; registers = v; fflags = f })).last_reg
          ≡ some reg
    last_of none d v f = refl
    last_of (some last) d v f = ground arith

-- A lane that is written into the open buffer.
put_lane :
    (l : Option ℕ) (d : ℕ → ℕ) (v : ℕ → ℕ → ℕ) (f g : Flags) (reg i x r j : ℕ)
    → l ≡ some reg
    → (let before : Walk = record { last_reg = l; dest_span = d; registers = v; fflags = f } in
        let after : Walk = record before {
          dest_span = λ m. if m == i then x else d m;
          fflags = g;
        } in
        submit_open after r j ≡ (if reg == r && i == j then x else submit_open before r j))
unfolding submit_open
put_lane none d v f g reg i x r j h = cc
put_lane (some last) d v f g reg i x r j h = ground (arith, h)

convert_lane_lem :
    (ops : VectorOperands) (n : ℕ) (conv : ℕ → ℕ × Flags) (k r i : ℕ) (w : Walk)
    → i < n
    → submit_open (convert_lane ops n conv k w) r i
      ≡ (if mask_value ops k && k == r * n + i then (conv k).0 else submit_open w r i)
unfolding convert_lane
convert_lane_lem ops n conv k r i w h =
    let o = open_register (k / n) w in
    elim (Bool-cases (mask_value ops k)) [
      | inr m ↦ rw m (submit_open-open_register (k / n) r i w)
      | inl m ↦ rw m (
          put_lane o.last_reg o.dest_span o.registers o.fflags (or_flags o.fflags (conv k).1)
            (k / n) (k % n) (conv k).0 r i (opened_last (k / n) w)
          ∙ rw (place_lem n r i k h, submit_open-open_register (k / n) r i w) refl)
    ]

module _ (on : ℕ → Bool) (value : ℕ → ℕ) (t : ℕ) where
  -- A loop whose pass at `t` alone writes a value, where it is on.
  one_lane : ℕ → ℕ → ℕ
  one_lane k v = if on k && k == t then value k else v

  one_lane_here : (v : ℕ) → one_lane t v ≡ (if on t then value t else v)
  unfolding one_lane
  one_lane_here v = ground arith

  one_lane_other : (k v : ℕ) → k ≢ t → one_lane k v ≡ v
  unfolding one_lane
  one_lane_other k v n = ground (arith, n)

  one_lane_loop :
      (n a v : ℕ)
      → for_loop n a one_lane v ≡ (if on t && (leb a t && ltb t (a + n)) then value t else v)
  unfolding for_loop
  one_lane_loop zero a v = ground arith
  one_lane_loop (suc n) a v = one_lane_loop n (a + 1) (one_lane a v) ∙ elim (ℕ_discrete a t) [
    | yes e ↦ rw (e, one_lane_here v) (ground arith)
    | no e ↦ rw (one_lane_other a v e) (ground (arith, e))
  ]

window_lem : (a l t : ℕ) → (leb a t && ltb t (a + (l - a))) ≡ (leb a t && ltb t l)
window_lem a l t = ground arith

convert_loop_lem :
    (ops : VectorOperands) (s : CoreState) (n : ℕ) (conv : ℕ → ℕ × Flags) (r i : ℕ)
    → i < n
    → (convert_loop ops s n conv).0 r i ≡ (
        if mask_value ops (r * n + i)
          && (leb s.vstart (r * n + i) && ltb (r * n + i) s.vector_length)
        then (conv (r * n + i)).0
        else s.vd r i)
unfolding convert_loop one_lane submit_open
convert_loop_lem ops s n conv r i h =
    let t = r * n + i in
    let on = mask_value ops in
    let value : ℕ → ℕ = λ k. (conv k).0 in
    let start : Walk = record {
      last_reg = none;
      dest_span = λ j. 0;
      registers = s.vd;
      fflags = no_flags;
    } in
    for_loop_maps (λ w. submit_open w r i) (s.vector_length - s.vstart) s.vstart
      (convert_lane ops n conv) (one_lane on value t) start
      (λ k w _ _. convert_lane_lem ops n conv k r i w h)
    ∙ one_lane_loop on value t (s.vector_length - s.vstart) s.vstart (submit_open start r i)
    ∙ ap (λ c. if on t && c then value t else s.vd r i) (window_lem s.vstart s.vector_length t)

-- Whether a lane is one that a conversion writes.
abbrev pub is_active : VectorOperands → CoreState → ℕ → Bool
is_active ops s t = mask_value ops t && (leb s.vstart t && ltb t s.vector_length)

-- Where neither traps, because the units are on, the operands are there, no register is a source and a
-- destination, and the rounding mode is legal, the vector conversions end with `vstart` cleared and in
-- each lane of each register the converted source lane, where the lane is between `vstart` and the
-- vector length and its mask bit is set, and every other lane as it was.
pub conversions_written :
    (ops : VectorOperands) (s : CoreState) (vs2 : ℕ → ℕ) (r i j : ℕ)
    → s.fs ≢ 0
    → s.vs ≢ 0
    → ops.has_operands ≡ true
    → s.fp.rounding_mode_valid ≡ true
    → overlaps ops ≡ false
    → i < s.vector_register_byte_length / 4
    → j < s.vector_register_byte_length / 2
    → (let t = r * (s.vector_register_byte_length / 4) + i in
        (w : CoreState) × (m3_vfwcvtbf16ffv ops s vs2 ≡ some w)
        × (w.vstart ≡ 0)
        × (w.vd r i
            ≡ (if is_active ops s t then (convert_bf16_to_f32_precise (vs2 t)).0 else s.vd r i)))
      × (let t = r * (s.vector_register_byte_length / 2) + j in
          let mode = s.fp.rounding_mode in
          (w : CoreState) × (m3_vfncvtbf16ffw ops s vs2 ≡ some w)
          × (w.vstart ≡ 0)
          × (w.vd r j ≡ (
              if is_active ops s t
              then (m3_convert_f32_to_bf16 (vs2 t) mode (some mode)).0
              else s.vd r j)))
unfolding m3_vfwcvtbf16ffv m3_vfncvtbf16ffw finish_convert
conversions_written ops s vs2 r i j a b c d e h k =
    let on : (s.fs == 0 || s.vs == 0) ≡ false = ground (arith, a, b) in
    let wide = s.vector_register_byte_length / 4 in
    let narrow = s.vector_register_byte_length / 2 in
    let widen : ℕ → ℕ × Flags = λ t. convert_bf16_to_f32_precise (vs2 t) in
    let narrowed : ℕ → ℕ × Flags =
      λ t. m3_convert_f32_to_bf16 (vs2 t) s.fp.rounding_mode (some s.fp.rounding_mode) in
    (
      (
        finish_convert s (convert_loop ops s wide widen),
        simp (on, c, e),
        refl,
        convert_loop_lem ops s wide widen r i h,
      ),
      (
        finish_convert s (convert_loop ops s narrow narrowed),
        simp (on, c, e, d),
        refl,
        convert_loop_lem ops s narrow narrowed r j k,
      ),
    )
