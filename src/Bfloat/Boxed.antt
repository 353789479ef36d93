-- ===== src/Bfloat/Boxed.antt =====
-- Fcvtsbf16 and Fcvtbf16s of sim/coralnpu_instructions.cc, one after the other.
use coralnpu_mpact.Prelude.{
  ℕ, ◌+◌, ◌*◌, ◌/◌, ◌%◌, ◌^◌, ◌==◌, ◌<◌, ◌≡◌, refl, sym, ap, ap₂, ◌∙◌, arith, ◌||◌, ◌&&◌, not,
}
use coralnpu_mpact.Prelude.{Bool, true, false, Bool-cases, inl, inr, if◌then◌else◌, Option, some}
use coralnpu_mpact.Bfloat.{
  Flags, FpState, no_flags, or_flags, invalid_if, Converted, written, with_mode, increment,
  round_bfloat16, is_nan16, is_nan32, is_quiet16, unboxed, fcvtsbf16, fcvtbf16s, k_box16, k_box32,
  k_canonical_nan32,
}

-- A boxed pattern of 16 bits.
abbrev pub box16 : ℕ → ℕ
box16 x = k_box16 * 2 ^ 16 + x

-- What the conversion to float makes of a pattern.
abbrev pub widened : ℕ → ℕ
widened x = if is_nan16 x then k_canonical_nan32 else x * 2 ^ 16

abbrev pub canonical16 : ℕ → ℕ
canonical16 x = if is_nan16 x then 0x7FC0 else x

-- The flags that a pattern raises.
abbrev pub raised : ℕ → Flags
raised x = invalid_if (is_nan16 x && not (is_quiet16 x))

-- A rounding mode that does not trap.
abbrev pub is_legal : FpState → ℕ → Bool
is_legal fp rm = not (rm == 5 || rm == 6) && not (rm == 7 && not fp.rounding_mode_valid)

pub widened_exact :
    (x rm : ℕ) (frm : Option ℕ)
    → x < 2 ^ 16
    → (round_bfloat16 (widened x) rm frm no_flags).0 ≡ canonical16 x
unfolding round_bfloat16 is_nan16 increment
widened_exact x rm frm h = ground arith

pub widened_flags :
    (x rm : ℕ) (frm : Option ℕ) → (round_bfloat16 (widened x) rm frm no_flags).1 ≡ no_flags
unfolding round_bfloat16 is_nan16
widened_flags x rm frm =
    let guard : (widened x / 2 ^ 15 % 2 == 1) ≡ false = ground arith in
    let sticky : not (widened x % 2 ^ 15 == 0) ≡ false = ground arith in rw (guard, sticky) refl

-- The registers that Fcvtsbf16 writes and Fcvtbf16s reads.
abbrev pub box32 : ℕ → ℕ
box32 bits = k_box32 * 2 ^ 32 + bits

pub with_mode-legal :
    (fp : FpState) (rm : ℕ) (converts : FpState → Converted)
    → is_legal fp rm ≡ true
    → with_mode (some fp) rm converts ≡ converts fp
unfolding with_mode
with_mode-legal fp rm converts h = elim (Bool-cases (rm == 5 || rm == 6)) [
  | inl e ↦ absurd (not_legal (rw e at h))
  | inr e ↦ elim (Bool-cases (rm == 7 && not fp.rounding_mode_valid)) [
    | inl e' ↦ absurd (not_legal (rw (e, e') at h))
    | inr e' ↦ rw (e, e') refl
  ]
]
  where
    not_legal : false ≡ true → ⊥
    not_legal c = cc

or_false : (b : Bool) → (b || false) ≡ b
or_false true = refl
or_false false = refl

pub or_flags_none : (a : Flags) → or_flags a no_flags ≡ a
or_flags_none a =
    rw (or_false a.invalid_op, or_false a.overflow, or_false a.underflow, or_false a.inexact) refl

fcvtsbf16-box16 :
    (fp : FpState) (rm x : ℕ)
    → x < 2 ^ 16
    → is_legal fp rm ≡ true
    → fcvtsbf16 (some fp) rm (box16 x) ≡ written (box32 (widened x)) (or_flags fp.fflags (raised x))
unfolding fcvtsbf16
fcvtsbf16-box16 fp rm x h l =
    let low : box16 x % 2 ^ 16 ≡ x = omega arith in
    let high : (box16 x / 2 ^ 16 == k_box16) ≡ true = ground arith in
    with_mode-legal fp rm _ l
    ∙ rw (low, high)
        elim (Bool-cases (is_nan16 x)) [
          | inl e ↦ rw e refl
          | inr e ↦ rw e (ap (written (box32 (x * 2 ^ 16))) (sym (or_flags_none fp.fflags)))
        ]

unboxed-quiet :
    (bits : ℕ) → bits < 2 ^ 32 → is_nan32 bits ≡ false → unboxed (box32 bits) ≡ (bits, no_flags)
unfolding unboxed
unboxed-quiet bits h n =
    let low : box32 bits % 2 ^ 32 ≡ bits = omega arith in
    let high : (box32 bits / 2 ^ 32 == k_box32) ≡ true = ground arith in rw (low, high, n) refl

pub widened-is_nan32 : (x : ℕ) → x < 2 ^ 16 → is_nan16 x ≡ false → is_nan32 (x * 2 ^ 16) ≡ false
unfolding is_nan16 is_nan32
widened-is_nan32 x h n = ground arith

canonical : unboxed (box32 k_canonical_nan32) ≡ (k_canonical_nan32, no_flags)
unfolding unboxed is_nan32
canonical = refl

unboxed-box32 : (x : ℕ) → x < 2 ^ 16 → unboxed (box32 (widened x)) ≡ (widened x, no_flags)
unboxed-box32 x h = elim (Bool-cases (is_nan16 x)) [
  | inl e ↦ rw e canonical
  | inr e ↦ rw e (unboxed-quiet (x * 2 ^ 16) (omega arith) (widened-is_nan32 x h e))
]

-- Under a legal rounding mode, a boxed bfloat16 is converted to the boxed float of its value, and back
-- to itself without a flag, whatever the mode; a NaN becomes the canonical one, and raises the
-- invalid flag where it is signaling.
fcvtbf16s-fcvtsbf16 :
    (fp : FpState) (rm x : ℕ)
    → x < 2 ^ 16
    → is_legal fp rm ≡ true
    → (fcvtsbf16 (some fp) rm (box16 x)
        ≡ written (box32 (widened x)) (or_flags fp.fflags (raised x)))
      × (fcvtbf16s (some fp) rm (box32 (widened x)) ≡ written (box16 (canonical16 x)) fp.fflags)
unfolding fcvtbf16s
fcvtbf16s-fcvtsbf16 fp rm x h l = (
  fcvtsbf16-box16 fp rm x h l,
  with_mode-legal fp rm _ l
      ∙ rw (unboxed-box32 x h) (
          ap₂ (λ r f. written (box16 r) f) (widened_exact x rm (some fp.rounding_mode) h)
            (ap (or_flags fp.fflags) (widened_flags x rm (some fp.rounding_mode))
              ∙ or_flags_none fp.fflags)),
)
