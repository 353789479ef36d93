-- ===== src/Vector/Arithmetic/Halving.antt =====
-- Halving and widening operations compute in a type that holds the exact result.
use coralnpu_mpact.Prelude.{
  ℕ, ◌<◌, ◌^◌, ◌≤◌, ◌≡◌, arith, Bool, ℤ, pos, negsuc, ◌+ℤ◌, ◌-ℤ◌, shr_ℤ, refl,
}
use coralnpu_mpact.Scalar.Range.{cast_self, cast_self_wide, InRange-wide, cast_self_promote-wide}
use coralnpu_mpact.Scalar.{
  Lane, i8, i16, i32, u8, u16, u32, ctype, uint16, uint32, wide, promote, of_bool, cast, plus,
  minus, InRange,
}
use coralnpu_mpact.Vector.Arithmetic.{vhadd_helper, vhsub_helper, vaddw_lane, vsubw_lane, vacc_lane}

sum_fits :
    (t : Lane) (r : Bool) (a b : ℤ)
    → InRange (ctype t) a
    → InRange (ctype t) b
    → InRange (promote (wide (ctype t))) (a +ℤ b)
      × InRange (promote (wide (ctype t))) (a +ℤ b +ℤ of_bool r)
unfolding ◌+ℤ◌
sum_fits i8 r a b h k = ground arith
sum_fits _ r a b h k = ground arith

half_fits :
    (t : Lane) (r : Bool) (a b : ℤ)
    → InRange (ctype t) a
    → InRange (ctype t) b
    → InRange (ctype t) (shr_ℤ (a +ℤ b +ℤ of_bool r) 1)
unfolding ◌+ℤ◌ shr_ℤ
half_fits i8 r a b h k = ground arith
half_fits _ r a b h k = ground arith

-- On lanes in range VHADD returns half of the exact sum, plus one where it rounds, rounded down.
pub vhadd_helper_lem :
    (t : Lane) (round : Bool) (a b : ℤ)
    → InRange (ctype t) a
    → InRange (ctype t) b
    → vhadd_helper (ctype t) round a b ≡ shr_ℤ (a +ℤ b +ℤ of_bool round) 1
unfolding vhadd_helper plus
vhadd_helper_lem t round a b h k =
    let fits = sum_fits t round a b h k in
    rw
      (
        cast_self_wide t a (InRange-wide t a h),
        cast_self_wide t b (InRange-wide t b k),
        cast_self_promote-wide t (a +ℤ b) fits.0,
        cast_self_promote-wide t (a +ℤ b +ℤ of_bool round) fits.1,
        cast_self t _ (half_fits t round a b h k),
      )
      refl

-- The half of a difference, in the types that the helper computes it in.
abbrev computed_half : Lane → Bool → ℤ → ℤ → ℤ
computed_half t r a b =
    let pt = promote (wide (ctype t)) in
    cast (ctype t) (shr_ℤ (cast pt (cast pt (a -ℤ b) +ℤ of_bool r)) 1)

difference_fits :
    (t : Lane) (r : Bool) (a b : ℤ)
    → InRange (promote (wide (ctype t))) (a -ℤ b)
      × InRange (promote (wide (ctype t))) (a -ℤ b +ℤ of_bool r)
    → computed_half t r a b ≡ cast (ctype t) (shr_ℤ (a -ℤ b +ℤ of_bool r) 1)
difference_fits t r a b fits =
    rw
      (
        cast_self_promote-wide t (a -ℤ b) fits.0,
        cast_self_promote-wide t (a -ℤ b +ℤ of_bool r) fits.1,
      )
      refl

-- The unsigned lanes whose difference wraps in the wide type.
unsigned_half :
    (a b : ℕ) (r : Bool)
    → a < 2 ^ 32
    → b < 2 ^ 32
    → computed_half u32 r (pos a) (pos b) ≡ cast uint32 (shr_ℤ (pos a -ℤ pos b +ℤ of_bool r) 1)
unfolding cast ◌+ℤ◌ ◌-ℤ◌ shr_ℤ
unsigned_half a b r h k = ground arith

unsigned_half_short :
    (a b : ℕ) (r : Bool)
    → a < 2 ^ 16
    → b < 2 ^ 16
    → computed_half u16 r (pos a) (pos b) ≡ cast uint16 (shr_ℤ (pos a -ℤ pos b +ℤ of_bool r) 1)
unfolding cast ◌+ℤ◌ ◌-ℤ◌ shr_ℤ
unsigned_half_short a b r h k = ground arith

wrapped_half :
    (t : Lane) (r : Bool) (a b : ℤ)
    → InRange (ctype t) a
    → InRange (ctype t) b
    → computed_half t r a b ≡ cast (ctype t) (shr_ℤ (a -ℤ b +ℤ of_bool r) 1)
unfolding ◌+ℤ◌ ◌-ℤ◌
wrapped_half i8 r a b h k = difference_fits i8 r a b (ground arith)
wrapped_half i16 r a b h k = difference_fits i16 r a b (ground arith)
wrapped_half i32 r a b h k = difference_fits i32 r a b (ground arith)
wrapped_half u8 r a b h k = difference_fits u8 r a b (ground arith)
wrapped_half u16 r (pos a) (pos b) h k = unsigned_half_short a b r (omega arith) (omega arith)
wrapped_half u16 r (negsuc a) b h k = absurd (omega arith)
wrapped_half u16 r (pos a) (negsuc b) h k = absurd (omega arith)
wrapped_half u32 r (pos a) (pos b) h k = unsigned_half a b r (omega arith) (omega arith)
wrapped_half u32 r (negsuc a) b h k = absurd (omega arith)
wrapped_half u32 r (pos a) (negsuc b) h k = absurd (omega arith)

-- On lanes in range VHSUB returns half of the exact difference, plus one where it rounds, rounded
-- down and wrapped to the lane type.
pub vhsub_helper_lem :
    (t : Lane) (round : Bool) (a b : ℤ)
    → InRange (ctype t) a
    → InRange (ctype t) b
    → vhsub_helper (ctype t) round a b ≡ cast (ctype t) (shr_ℤ (a -ℤ b +ℤ of_bool round) 1)
unfolding vhsub_helper plus minus
vhsub_helper_lem t round a b h k =
    rw (cast_self_wide t a (InRange-wide t a h), cast_self_wide t b (InRange-wide t b k))
      (wrapped_half t round a b h k)

-- A lane type that has a destination type of twice its width.
abbrev pub IsNarrow : Lane → Type 0
IsNarrow t = (ctype t).bits ≤ 16

-- On operands in range, at the lane types up to 16 bits VADDW returns the exact sum, VSUBW the exact difference wrapped to
-- the wide type, and VACC the sum of a wide and a narrow operand wrapped to the wide type.
widening_exact :
    (t : Lane) (w a b : ℤ)
    → IsNarrow t
    → InRange (wide (ctype t)) w
    → InRange (ctype t) a
    → InRange (ctype t) b
    → (vaddw_lane (wide (ctype t)) a b ≡ a +ℤ b)
      × (vsubw_lane (wide (ctype t)) a b ≡ cast (wide (ctype t)) (a -ℤ b))
      × (vacc_lane (wide (ctype t)) w b ≡ cast (wide (ctype t)) (w +ℤ b))
unfolding vaddw_lane vsubw_lane vacc_lane plus minus cast ◌+ℤ◌ ◌-ℤ◌
widening_exact i8 w a b n g h k = (ground arith, ground arith, ground arith)
widening_exact _ w a b n g h k = (ground arith, ground arith, ground arith)

-- On lanes in range VHADD returns half of the exact sum, plus one where it rounds, rounded down, and
-- VHSUB half of the exact difference, plus one where it rounds, rounded down and wrapped to the lane
-- type.
halving_exact :
    (t : Lane) (round : Bool) (a b : ℤ)
    → InRange (ctype t) a
    → InRange (ctype t) b
    → (vhadd_helper (ctype t) round a b ≡ shr_ℤ (a +ℤ b +ℤ of_bool round) 1)
      × (vhsub_helper (ctype t) round a b ≡ cast (ctype t) (shr_ℤ (a -ℤ b +ℤ of_bool round) 1))
halving_exact t round a b h k = (vhadd_helper_lem t round a b h k, vhsub_helper_lem t round a b h k)
