-- ===== src/Vector/Shift/Saturating.antt =====
-- VSHIFT: the shift by a signed amount saturates the exact rounded result.
use native.Mathlib.Nat.{pow-le-pow_right, mul-le-mul}
use native.Mathlib.Decide.{dec_lt, dec_le}
use coralnpu_mpact.Prelude.{
  ℕ, zero, suc, ◌+◌, ◌-◌, ◌*◌, ◌^◌, ◌≤◌, ◌<◌, ◌≡◌, ap, sym, refl, arith, min,
}
use coralnpu_mpact.Prelude.{
  Bool, true, false, Option, none, some, if◌then◌else◌, Bool-cases, inl, inr,
}
use coralnpu_mpact.Prelude.{ℤ, pos, negsuc, pos_part, neg_part, ◌*ℤ◌, ◌-ℤ◌, eq_of_parts}
use coralnpu_mpact.Scalar.{
  eqb_ℤ, Lane, i8, i16, i32, u8, u16, u32, ctype, make_signed, int32, modulus, cast, InRange,
  saturate,
}
use coralnpu_mpact.Scalar.Range.{saturate_self}
use coralnpu_mpact.Vector.Shift.{
  vshift_helper, signed_shift, unsigned_shift, saturate_signed, saturate_unsigned, saturated,
}
use coralnpu_mpact.Vector.Shift.Right.{right_bounds}
use coralnpu_mpact.Vector.Shift.Left
use coralnpu_mpact.Vector.Shift.Steps.{
  bits_positive, exact_shift, Nonzero, quotient, signed_right, unsigned_right, signed_left,
  unsigned_left,
}

-- A value in range is not changed by the end of either half after a shift right.
signed_right_end :
    (t : Lane) (a v : ℤ) (k : ℕ)
    → (ctype t).is_signed ≡ true
    → InRange (ctype t) v
    → saturate_signed (ctype t) a (pos (suc k)) v ≡ saturate (ctype t) v
unfolding saturate_signed saturate cast ◌-ℤ◌
signed_right_end i8 a v k g h = ground arith
signed_right_end i16 a v k g h = ground arith
signed_right_end i32 a v k g h = ground arith
signed_right_end _ a v k g h = cc

unsigned_right_end :
    (t : Lane) (a v : ℤ) (k : ℕ)
    → (ctype t).is_signed ≡ false
    → InRange (ctype t) v
    → saturate_unsigned (ctype t) a (pos (suc k)) v ≡ saturate (ctype t) v
unfolding saturate_unsigned saturate cast ◌-ℤ◌
unsigned_right_end u8 a v k g h = ground arith
unsigned_right_end u16 a v k g h = ground arith
unsigned_right_end u32 a v k g h = ground arith
unsigned_right_end _ a v k g h = cc

saturated_lem :
    (o : Option ℤ) (v : ℤ) (end : ℤ → ℤ) {w : ℤ} → o ≡ some v → end v ≡ w → saturated o end ≡ some w
saturated_lem o v end p q = rw p (ap some q)

module _ (t : Lane) (round : Bool) (a : ℤ) (h : InRange (ctype t) a) (nonzero : Nonzero a) where
  large : (k : ℕ) → (ctype t).bits ≤ k → modulus (ctype t) ≤ (pos_part a + neg_part a) * 2 ^ k
  large k u = omega (
    arith,
    mul-le-mul nonzero (pow-le-pow_right {n = 2} (omega arith) {i = (ctype t).bits} {j = k} u),
  )

  signed_left_end :
      (s : ℤ)
      → (ctype t).is_signed ≡ true
      → pos_part s ≡ 0
      → saturate_signed (ctype t) a s (a *ℤ pos (2 ^ min (neg_part s) (ctype t).bits))
        ≡ saturate (ctype t) (a *ℤ pos (2 ^ neg_part s))
  signed_left_end s g z = elim (dec_lt (neg_part s) (ctype t).bits) [
    | yes u ↦
        let all : min (neg_part s) (ctype t).bits ≡ neg_part s = omega arith in
        rw all (Left.signed_left_small t a s _ g h z u)
    | no u ↦ Left.signed_left_large t a s _ _ g h z (omega arith) (large (neg_part s) (omega arith))
  ]

  unsigned_left_end :
      (s : ℤ)
      → (ctype t).is_signed ≡ false
      → pos_part s ≡ 0
      → saturate_unsigned (ctype t) a s (a *ℤ pos (2 ^ min (neg_part s) (ctype t).bits))
        ≡ saturate (ctype t) (a *ℤ pos (2 ^ neg_part s))
  unsigned_left_end s g z = elim (dec_le (neg_part s) (ctype t).bits) [
    | yes u ↦
        let all : min (neg_part s) (ctype t).bits ≡ neg_part s = omega arith in
        rw all (Left.unsigned_left_small t a s _ g h z u)
    | no u ↦
        Left.unsigned_left_large t a s _ _ g h z (omega arith) (large (neg_part s) (omega arith))
  ]

  quotient-InRange : (k : ℕ) → InRange (ctype t) (quotient t round a k h nonzero)
  quotient-InRange k = omega (arith, right_bounds k round a)

  signed_whole :
      (s : ℤ)
      → (ctype t).is_signed ≡ true
      → neg_part s < 2 ^ 31
      → saturated (signed_shift (ctype t) round a s) (saturate_signed (ctype t) a s)
        ≡ some (saturate (ctype t) (exact_shift round a s))
  signed_whole (pos (suc k)) g l =
      saturated_lem _ _ _ (signed_right t round a k h nonzero g)
        (signed_right_end t a _ k g (quotient-InRange k))
  signed_whole (pos zero) g l =
      saturated_lem _ _ _ (signed_left t round a (pos 0) h nonzero refl l g)
        (signed_left_end (pos 0) g refl)
  signed_whole (negsuc k) g l =
      saturated_lem _ _ _ (signed_left t round a (negsuc k) h nonzero refl l g)
        (signed_left_end (negsuc k) g refl)

  unsigned_whole :
      (s : ℤ)
      → (ctype t).is_signed ≡ false
      → neg_part s < 2 ^ 31
      → saturated (unsigned_shift (ctype t) round a s) (saturate_unsigned (ctype t) a s)
        ≡ some (saturate (ctype t) (exact_shift round a s))
  unsigned_whole (pos (suc k)) g l =
      saturated_lem _ _ _ (unsigned_right t round a k h nonzero g)
        (unsigned_right_end t a _ k g (quotient-InRange k))
  unsigned_whole (pos zero) g l =
      saturated_lem _ _ _ (unsigned_left t round a (pos 0) h nonzero refl l g)
        (unsigned_left_end (pos 0) g refl)
  unsigned_whole (negsuc k) g l =
      saturated_lem _ _ _ (unsigned_left t round a (negsuc k) h nonzero refl l g)
        (unsigned_left_end (negsuc k) g refl)

-- The shift amount that `vs2` stands for: the unsigned lanes' is read as signed.
abbrev pub signed_amount : Lane → ℤ → ℤ
signed_amount t b = if (ctype t).is_signed then b else cast (make_signed (ctype t)) b

pub amount_int :
    (t : Lane) (b : ℤ)
    → InRange (ctype t) b
    → (cast int32 (signed_amount t b) ≡ signed_amount t b) × (neg_part (signed_amount t b) ≤ 2 ^ 31)
unfolding cast
amount_int i8 b h = ground arith
amount_int _ b h = ground arith

zero_of_parts : (z : ℤ) → pos_part z ≤ 0 → neg_part z ≤ 0 → z ≡ pos 0
zero_of_parts z p q = ground arith

exact_zero : (round : Bool) (s : ℤ) → exact_shift round (pos 0) s ≡ pos 0
exact_zero round (pos zero) = unfold ◌*ℤ◌ in refl
exact_zero round (pos (suc k)) =
    zero_of_parts _ (right_bounds k round (pos 0)).0 (right_bounds k round (pos 0)).1
exact_zero round (negsuc k) = unfold ◌*ℤ◌ in ground arith

-- A lane of zero is returned before the amount is looked at.
pub zero_lane :
    (t : Lane) (round : Bool) (a s : ℤ)
    → eqb_ℤ a (pos 0) ≡ true
    → pos 0 ≡ saturate (ctype t) (exact_shift round a s)
zero_lane t round a s e =
    let zero_a : a ≡ pos 0 = ground (arith, eq_of_parts a (pos 0)) in
    rw (zero_a, exact_zero round s) (sym (saturate_self t (pos 0) (omega arith)))

Nonzero-of : (a : ℤ) → eqb_ℤ a (pos 0) ≡ false → Nonzero a
Nonzero-of a e = ground arith

-- On lanes in range VSHIFT returns the exact rounded shift saturated to the lane type, unless the lane is nonzero and
-- its amount is the least `int`.
pub vshift_helper_lem :
    (t : Lane) (round : Bool) (a b : ℤ)
    → InRange (ctype t) a
    → InRange (ctype t) b
    → neg_part (signed_amount t b) < 2 ^ 31
    → vshift_helper (ctype t) round a b
      ≡ some (saturate (ctype t) (exact_shift round a (signed_amount t b)))
unfolding vshift_helper
vshift_helper_lem t round a b h k l = elim (Bool-cases (ctype t).is_signed) [
  | inl g ↦ rw g (elim (Bool-cases (eqb_ℤ a (pos 0))) [
    | inl z ↦ rw z (ap some (zero_lane t round a b z))
    | inr z ↦
        rw (z, rw g at (amount_int t b k).0)
          (signed_whole t round a h (Nonzero-of a z) b g (rw g at l))
  ])
  | inr g ↦ rw g (elim (Bool-cases (eqb_ℤ a (pos 0))) [
    | inl z ↦ rw z (ap some (zero_lane t round a _ z))
    | inr z ↦
        rw (z, rw g at (amount_int t b k).0)
          (unsigned_whole t round a h (Nonzero-of a z) _ g (rw g at l))
  ])
]

signed_least :
    (t : Lane) (round : Bool) (a : ℤ) → signed_shift (ctype t) round a (negsuc (2 ^ 31 - 1)) ≡ none
unfolding signed_shift
signed_least t round a = ground (arith, Left.left_amount_least (ctype t), bits_positive t)

unsigned_least :
    (t : Lane) (round : Bool) (a : ℤ)
    → unsigned_shift (ctype t) round a (negsuc (2 ^ 31 - 1)) ≡ none
unfolding unsigned_shift
unsigned_least t round a = ground (arith, Left.left_amount_least (ctype t))
