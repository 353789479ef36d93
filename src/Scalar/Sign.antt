-- ===== src/Scalar/Sign.antt =====
-- The sign of an exclusive or tells whether the operands' signs differ.
use coralnpu_mpact.Prelude.{◌≡◌, arith, Bool, true, false}
use coralnpu_mpact.Prelude.{ℤ, pos, negsuc}
use coralnpu_mpact.Prelude.Bits.{xor_low_low, xor_high_high, xor_low_high, xor_high_low}
use coralnpu_mpact.Scalar.{Lane, i8, i16, i32, int32, ctype, bitwise_xor, pattern_of, InRange}

abbrev pub negative : ℤ → Bool
negative (pos n) = false
negative (negsuc n) = true

abbrev pub differs : Bool → Bool → Bool
differs true b = elim b [ true ↦ false | false ↦ true ]
differs false b = b

negative-xor :
    (a b : ℤ)
    → InRange int32 a
    → InRange int32 b
    → negative (bitwise_xor int32 a b) ≡ differs (negative a) (negative b)
unfolding bitwise_xor
negative-xor (pos a) (pos b) ha hb = ground (arith, xor_low_low a b)
negative-xor (pos a) (negsuc b) ha hb = ground (arith, xor_low_high a (pattern_of int32 (negsuc b)))
negative-xor (negsuc a) (pos b) ha hb = ground (arith, xor_high_low (pattern_of int32 (negsuc a)) b)
negative-xor (negsuc a) (negsuc b) ha hb =
    ground (arith, xor_high_high (pattern_of int32 (negsuc a)) (pattern_of int32 (negsuc b)))

-- The same at every signed lane type, whose operands are promoted to `int`.
pub negative-bitwise_xor :
    (t : Lane) (a b : ℤ)
    → (ctype t).is_signed ≡ true
    → InRange (ctype t) a
    → InRange (ctype t) b
    → negative (bitwise_xor (ctype t) a b) ≡ differs (negative a) (negative b)
unfolding bitwise_xor
negative-bitwise_xor i8 a b s ha hb = negative-xor a b (omega arith) (omega arith)
negative-bitwise_xor i16 a b s ha hb = negative-xor a b (omega arith) (omega arith)
negative-bitwise_xor i32 a b s ha hb = negative-xor a b (omega arith) (omega arith)
negative-bitwise_xor _ a b s ha hb = cc
