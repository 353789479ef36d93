-- ===== src/Vector/Shift/Least.antt =====
-- VSHIFT by the least `int`, whose negation overflows.
use coralnpu_mpact.Prelude.{◌-◌, ◌^◌, ◌≤◌, ◌<◌, ◌≡◌, ap, ◌∙◌, arith, not, ◌&&◌}
use coralnpu_mpact.Prelude.{Bool, true, false, none, some, if◌then◌else◌, Bool-cases, inl, inr}
use coralnpu_mpact.Prelude.{ℤ, pos, negsuc, neg_part, eq_of_parts}
use coralnpu_mpact.Scalar.{eqb_ℤ, Lane, ctype, int32, cast, InRange, saturate}
use coralnpu_mpact.Vector.Shift.{
  vshift_helper, signed_shift, unsigned_shift, saturate_signed, saturate_unsigned, saturated,
}
use coralnpu_mpact.Vector.Shift.Left
use coralnpu_mpact.Vector.Shift.Steps.{bits_positive, exact_shift}
use coralnpu_mpact.Vector.Shift.Saturating.{signed_amount, amount_int, zero_lane, vshift_helper_lem}

vshift_helper_zero :
    (t : Lane) (round : Bool) (a b : ℤ)
    → eqb_ℤ a (pos 0) ≡ true
    → vshift_helper (ctype t) round a b
      ≡ some (saturate (ctype t) (exact_shift round a (signed_amount t b)))
unfolding vshift_helper
vshift_helper_zero t round a b z = elim (Bool-cases (ctype t).is_signed) [
  | inl g ↦ rw (g, z) (ap some (zero_lane t round a b z))
  | inr g ↦ rw (g, z) (ap some (zero_lane t round a _ z))
]

eqb_ℤ-eq : (a b : ℤ) → eqb_ℤ a b ≡ true → a ≡ b
eqb_ℤ-eq a b e = ground (arith, eq_of_parts a b)

signed_least :
    (t : Lane) (round : Bool) (a : ℤ) → signed_shift (ctype t) round a (negsuc (2 ^ 31 - 1)) ≡ none
unfolding signed_shift
signed_least t round a = ground (arith, Left.left_amount_least (ctype t), bits_positive t)

unsigned_least :
    (t : Lane) (round : Bool) (a : ℤ)
    → unsigned_shift (ctype t) round a (negsuc (2 ^ 31 - 1)) ≡ none
unfolding unsigned_shift
unsigned_least t round a = ground (arith, Left.left_amount_least (ctype t))

vshift_helper_least :
    (t : Lane) (round : Bool) (a b : ℤ)
    → eqb_ℤ a (pos 0) ≡ false
    → cast int32 (signed_amount t b) ≡ negsuc (2 ^ 31 - 1)
    → vshift_helper (ctype t) round a b ≡ none
unfolding vshift_helper
vshift_helper_least t round a b z e = elim (Bool-cases (ctype t).is_signed) [
  | inl g ↦
      rw (g, z, rw g at e)
        (ap (λ o. saturated o (saturate_signed (ctype t) a (negsuc (2 ^ 31 - 1))))
          (signed_least t round a))
  | inr g ↦
      rw (g, z, rw g at e)
        (ap (λ o. saturated o (saturate_unsigned (ctype t) a (negsuc (2 ^ 31 - 1))))
          (unsigned_least t round a))
]

least_excluded :
    (s : ℤ) → neg_part s ≤ 2 ^ 31 → eqb_ℤ s (negsuc (2 ^ 31 - 1)) ≡ false → neg_part s < 2 ^ 31
least_excluded s u e = ground arith

-- On lanes in range VSHIFT has no result, as the negation of its amount overflows, exactly where the
-- lane is nonzero and its amount is the least `int`; everywhere else, the lane of zero with the least
-- amount included, it returns the exact rounded shift saturated to the lane type.
pub vshift_helper-none :
    (t : Lane) (round : Bool) (a b : ℤ)
    → InRange (ctype t) a
    → InRange (ctype t) b
    → vshift_helper (ctype t) round a b ≡ (
        if not (eqb_ℤ a (pos 0)) && eqb_ℤ (signed_amount t b) (negsuc (2 ^ 31 - 1))
        then none
        else some (saturate (ctype t) (exact_shift round a (signed_amount t b))))
vshift_helper-none t round a b h k = elim (Bool-cases (eqb_ℤ a (pos 0))) [
  | inl z ↦ rw z (vshift_helper_zero t round a b z)
  | inr z ↦ elim (Bool-cases (eqb_ℤ (signed_amount t b) (negsuc (2 ^ 31 - 1)))) [
    | inl e ↦
        rw (z, e)
          (vshift_helper_least t round a b z
            ((amount_int t b k).0 ∙ eqb_ℤ-eq (signed_amount t b) (negsuc (2 ^ 31 - 1)) e))
    | inr e ↦
        rw (z, e) (vshift_helper_lem t round a b h k (least_excluded _ (amount_int t b k).1 e))
  ]
]
