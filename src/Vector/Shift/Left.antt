-- ===== src/Vector/Shift/Left.antt =====
-- Shifts left of a lane in the wide type are exact, and saturate where the exact value does.
use native.Mathlib.Nat.{mod-eq_of_lt}
use coralnpu_mpact.Prelude.{ℕ, suc, ◌+◌, ◌-◌, ◌*◌, ◌%◌, ◌^◌, ◌≤◌, ◌<◌, ◌≡◌, ap, refl, arith}
use coralnpu_mpact.Prelude.{true, false, none, some, min}
use coralnpu_mpact.Prelude.{ℤ, pos, negsuc, pos_part, neg_part, ◌*ℤ◌, ◌-ℤ◌}
use coralnpu_mpact.Scalar.{
  CType, Lane, i8, i16, i32, u8, u16, u32, ctype, wide, make_unsigned, promote, max_value,
  min_magnitude, modulus, cast, InRange, saturate,
}
use coralnpu_mpact.Vector.Shift.{left_amount, negate_int, saturate_signed, saturate_unsigned}

-- A negative value's pattern at modulus `w`, times `p`.
complement : (w n p : ℕ) → suc n ≤ w → (w - 1 - n % w) * p + suc n * p ≡ w * p
complement w n p h =
    let small : n % w ≡ n = mod-eq_of_lt h in
    let whole : w - 1 - n % w + suc n ≡ w = omega arith in
    omega (arith, ap (λ (t : ℕ). t * p) whole)

-- The exact left shift in the wide type, by a factor `p`.
pub left_factor :
    (t : Lane) (a : ℤ) (p : ℕ)
    → InRange (ctype t) a
    → pos_part a * p ≤ max_value (ctype t) * modulus (ctype t)
    → neg_part a * p ≤ min_magnitude (ctype t) * modulus (ctype t)
    → (let wt = wide (ctype t) in
        let uwt = wide (make_unsigned (ctype t)) in
        cast wt (cast (promote uwt) (cast uwt a *ℤ pos p)))
      ≡ a *ℤ pos p
unfolding cast ◌*ℤ◌
left_factor i8 (pos n) p h u v = ground arith
left_factor i8 (negsuc n) p h u v = ground (arith, complement (2 ^ 16) n p)
left_factor i16 (pos n) p h u v = ground arith
left_factor i16 (negsuc n) p h u v = ground (arith, complement (2 ^ 32) n p)
left_factor i32 (pos n) p h u v = ground arith
left_factor i32 (negsuc n) p h u v = ground (arith, complement (2 ^ 64) n p)
left_factor _ (pos n) p h u v = ground arith
left_factor _ (negsuc n) p h u v = absurd (omega arith)

-- A shift by less than the lane's width saturates the value that it has.
pub signed_left_small :
    (t : Lane) (a s : ℤ) (p : ℕ)
    → (ctype t).is_signed ≡ true
    → InRange (ctype t) a
    → pos_part s ≡ 0
    → neg_part s < (ctype t).bits
    → saturate_signed (ctype t) a s (a *ℤ pos p) ≡ saturate (ctype t) (a *ℤ pos p)
unfolding saturate_signed saturate cast ◌*ℤ◌ ◌-ℤ◌
signed_left_small i8 a s p g h u v = ground arith
signed_left_small i16 a s p g h u v = ground arith
signed_left_small i32 a s p g h u v = ground arith
signed_left_small _ a s p g h u v = cc

-- A shift by the width or more leaves the range, whatever the code's value `w` is.
pub signed_left_large :
    (t : Lane) (a s w : ℤ) (p : ℕ)
    → (ctype t).is_signed ≡ true
    → InRange (ctype t) a
    → pos_part s ≡ 0
    → (ctype t).bits ≤ neg_part s
    → modulus (ctype t) ≤ (pos_part a + neg_part a) * p
    → saturate_signed (ctype t) a s w ≡ saturate (ctype t) (a *ℤ pos p)
unfolding saturate_signed saturate cast ◌*ℤ◌ ◌-ℤ◌
signed_left_large i8 (pos n) s w p g h u v x = ground arith
signed_left_large i8 (negsuc n) s w p g h u v x = ground arith
signed_left_large i16 (pos n) s w p g h u v x = ground arith
signed_left_large i16 (negsuc n) s w p g h u v x = ground arith
signed_left_large i32 (pos n) s w p g h u v x = ground arith
signed_left_large i32 (negsuc n) s w p g h u v x = ground arith
signed_left_large _ a s w p g h u v x = cc

pub unsigned_left_small :
    (t : Lane) (a s : ℤ) (p : ℕ)
    → (ctype t).is_signed ≡ false
    → InRange (ctype t) a
    → pos_part s ≡ 0
    → neg_part s ≤ (ctype t).bits
    → saturate_unsigned (ctype t) a s (a *ℤ pos p) ≡ saturate (ctype t) (a *ℤ pos p)
unfolding saturate_unsigned saturate cast ◌*ℤ◌ ◌-ℤ◌
unsigned_left_small u8 a s p g h u v = ground arith
unsigned_left_small u16 a s p g h u v = ground arith
unsigned_left_small u32 a s p g h u v = ground arith
unsigned_left_small _ a s p g h u v = cc

pub unsigned_left_large :
    (t : Lane) (a s w : ℤ) (p : ℕ)
    → (ctype t).is_signed ≡ false
    → InRange (ctype t) a
    → pos_part s ≡ 0
    → (ctype t).bits < neg_part s
    → modulus (ctype t) ≤ (pos_part a + neg_part a) * p
    → saturate_unsigned (ctype t) a s w ≡ saturate (ctype t) (a *ℤ pos p)
unfolding saturate_unsigned saturate cast ◌*ℤ◌ ◌-ℤ◌
unsigned_left_large u8 (pos n) s w p g h u v x = ground arith
unsigned_left_large u8 (negsuc n) s w p g h u v x = absurd (omega arith)
unsigned_left_large u16 (pos n) s w p g h u v x = ground arith
unsigned_left_large u16 (negsuc n) s w p g h u v x = absurd (omega arith)
unsigned_left_large u32 (pos n) s w p g h u v x = ground arith
unsigned_left_large u32 (negsuc n) s w p g h u v x = absurd (omega arith)
unsigned_left_large _ a s w p g h u v x = cc

-- The amount of a left shift by `k` that the code uses.
pub left_amount_lem :
    (t : Lane) (s : ℤ)
    → pos_part s ≡ 0
    → neg_part s < 2 ^ 31
    → left_amount (ctype t) s ≡ some (min (neg_part s) (ctype t).bits)
unfolding left_amount negate_int cast ◌-ℤ◌
left_amount_lem i8 s h k = ground arith
left_amount_lem _ s h k = ground arith

-- At the least `int` there is no amount.
pub left_amount_least : (t : CType) → left_amount t (negsuc (2 ^ 31 - 1)) ≡ none
unfolding left_amount negate_int
left_amount_least t = refl
