-- ===== src/Vector/Shift/Narrowing.antt =====
-- VSRANS: the narrowing shift saturates the exact rounded quotient.
use coralnpu_mpact.Prelude.{ℕ, zero, suc, ◌-◌, ◌/◌, ◌^◌, ◌≤◌, ◌<◌, ◌==◌, ◌≡◌, arith}
use coralnpu_mpact.Prelude.{
  Bool, true, false, not, ◌&&◌, if◌then◌else◌, ℤ, pos, pos_part, ◌+ℤ◌, ltb_ℤ, shr_ℤ, eq_of_parts,
}
use native.Mathlib.Nat.{pow-suc, one-le-pow, div-eq_of_lt}
use coralnpu_mpact.Scalar.{
  Lane, i8, i16, i32, u8, u16, u32, ctype, cast, residue, InRange, saturate,
}
use coralnpu_mpact.Scalar.{eqb_ℤ, min_limit, max_limit}
use coralnpu_mpact.Vector.Shift.{vsrans_helper}
use coralnpu_mpact.Vector.Shift.Bounds.{rounding, rounding-le, wide_right, rounding_bit_lem}

-- The six pairs of types at which `CoralNPUVSrans` is instantiated.
pub data Narrowing : Type 0 where
  i8_i16 i16_i32 u8_u16 u16_u32 i8_i32 u8_u32 : Narrowing

abbrev pub narrow : Narrowing → Lane
narrow i8_i16 = i8
narrow i16_i32 = i16
narrow u8_u16 = u8
narrow u16_u32 = u16
narrow i8_i32 = i8
narrow u8_u32 = u8

abbrev pub broad : Narrowing → Lane
broad i8_i16 = i16
broad i16_i32 = i32
broad u8_u16 = u16
broad u16_u32 = u32
broad i8_i32 = i32
broad u8_u32 = u32

amount-lt : (p : Narrowing) (b : ℤ) → residue (ctype (broad p)).bits b < (ctype (broad p)).bits
amount-lt i8_i16 b = ground arith
amount-lt _ b = ground arith

amount_cast :
    (p : Narrowing) (k : ℕ)
    → k < (ctype (broad p)).bits
    → pos_part (cast (ctype (narrow p)) (pos k)) ≡ k
unfolding cast
amount_cast i8_i16 k h = ground arith
amount_cast _ k h = ground arith

-- The rounding term, which a shift by nothing does not add.
abbrev pub narrowing_rounding : Bool → ℕ → ℕ
narrowing_rounding round k = rounding (not (k == 0) && round) k

zero_quotient : (round : Bool) (k : ℕ) → narrowing_rounding round k / 2 ^ k ≡ 0
zero_quotient round zero = ground arith
zero_quotient false (suc k) = grind arith
zero_quotient true (suc k) =
    let index : suc k - 1 ≡ k = omega arith in
    let some_shift : (suc k == 0) ≡ false = ground arith in
    rw (some_shift, pow-suc 2 k, index) (div-eq_of_lt (omega (arith, one-le-pow k 2 (omega arith))))

zero_sum : (r k : ℕ) → r / 2 ^ k ≡ 0 → shr_ℤ (pos 0 +ℤ pos r) k ≡ pos 0
unfolding shr_ℤ ◌+ℤ◌
zero_sum r k h = ground arith

zero_shift :
    (a : ℤ) (round : Bool) (k : ℕ)
    → eqb_ℤ a (pos 0) ≡ true
    → shr_ℤ (a +ℤ pos (narrowing_rounding round k)) k ≡ pos 0
zero_shift a round k h =
    let zero_a : a ≡ pos 0 = ground (arith, eq_of_parts a (pos 0)) in
    rw zero_a (zero_sum _ k (zero_quotient round k))

-- The end of the helper is saturation.
finish :
    (t : Lane) (a res : ℤ)
    → (eqb_ℤ a (pos 0) ≡ true → res ≡ pos 0)
    → (if ltb_ℤ res (min_limit (ctype t))
        then min_limit (ctype t)
        else if ltb_ℤ (max_limit (ctype t)) res
        then max_limit (ctype t)
        else if eqb_ℤ a (pos 0)
        then pos 0
        else cast (ctype t) res)
      ≡ saturate (ctype t) res
unfolding cast saturate
finish i8 a res h = ground arith
finish _ a res h = ground arith

-- At its six pairs of types, on a first operand in range, VSRANS returns the exact sum of the
-- operand and the rounding term, shifted right by the low bits of the second operand and saturated
-- to the narrow type.
vsrans_helper_lem :
    (p : Narrowing) (round : Bool) (a b : ℤ)
    → InRange (ctype (broad p)) a
    → (let k = residue (ctype (broad p)).bits b in
        vsrans_helper (ctype (narrow p)) (ctype (broad p)) round a b
        ≡ saturate (ctype (narrow p)) (shr_ℤ (a +ℤ pos (narrowing_rounding round k)) k))
unfolding vsrans_helper
vsrans_helper_lem p round a b h =
    rw
      (
        amount_cast p _ (amount-lt p b),
        rounding_bit_lem (broad p) (not (k == 0) && round) k,
        wide_right (broad p) a (narrowing_rounding round k) k h small,
      )
      (finish (narrow p) a _ (zero_shift a round k))
  where
    k : ℕ
    k = residue (ctype (broad p)).bits b

    small : narrowing_rounding round k ≤ 2 ^ ((ctype (broad p)).bits - 1)
    small = rounding-le (not (k == 0) && round) k _ (omega (arith, amount-lt p b))
