-- ===== src/Scalar.antt =====
-- The C++ arithmetic types that the instruction templates compute in: conversions between them,
-- the integer promotions, `std::make_unsigned` and the simulator framework's `WideType`.
-- A value of a type is the integer that it stands for.
pub mod Range
pub mod Sign
pub mod Congruence
use coralnpu_mpact.Prelude.{ℕ, suc, ◌+◌, ◌-◌, ◌*◌, ◌/◌, ◌%◌, ◌^◌, ◌≤◌, ltb, if◌then◌else◌, ◌==◌}
use coralnpu_mpact.Prelude.{ℤ, pos, negsuc, pos_part, neg_part, ◌+ℤ◌, ◌-ℤ◌, ◌*ℤ◌, shr_ℤ, ltb_ℤ}
use coralnpu_mpact.Prelude.{Bool, true, false, bit_and, bit_or, bit_xor}

pub record CType : Type 0 where
  pub is_signed : Bool
  pub bits : ℕ

abbrev pub int8 : CType
int8 = record { is_signed = true; bits = 8 }

abbrev pub int16 : CType
int16 = record { is_signed = true; bits = 16 }

abbrev pub int32 : CType
int32 = record { is_signed = true; bits = 32 }

abbrev pub int64 : CType
int64 = record { is_signed = true; bits = 64 }

abbrev pub uint8 : CType
uint8 = record { is_signed = false; bits = 8 }

abbrev pub uint16 : CType
uint16 = record { is_signed = false; bits = 16 }

abbrev pub uint32 : CType
uint32 = record { is_signed = false; bits = 32 }

abbrev pub uint64 : CType
uint64 = record { is_signed = false; bits = 64 }

-- The six lane types at which the templates are instantiated.
pub data Lane : Type 0 where
  i8 i16 i32 u8 u16 u32 : Lane

abbrev pub ctype : Lane → CType
ctype i8 = int8
ctype i16 = int16
ctype i32 = int32
ctype u8 = uint8
ctype u16 = uint16
ctype u32 = uint32

-- `std::make_unsigned<T>::type` and `std::make_signed<T>::type`.
abbrev pub make_unsigned : CType → CType
make_unsigned t = record t { is_signed = false }

abbrev pub make_signed : CType → CType
make_signed t = record t { is_signed = true }

-- `WideType<T>::type`: twice as wide, of the same signedness.
abbrev pub wide : CType → CType
wide t = record t { bits = 2 * t.bits }

-- What an operand of type `t` is computed in: `int` for what is narrower than `int`.
abbrev pub promote : CType → CType
promote t = if ltb t.bits 32 then int32 else t

abbrev pub size_of : CType → ℕ
size_of t = t.bits / 8

abbrev pub modulus : CType → ℕ
modulus t = 2 ^ t.bits

-- `std::numeric_limits<T>::max()`, and the magnitude of `std::numeric_limits<T>::min()`.
abbrev pub max_value : CType → ℕ
max_value t = if t.is_signed then modulus t / 2 - 1 else modulus t - 1

abbrev pub min_magnitude : CType → ℕ
min_magnitude t = if t.is_signed then modulus t / 2 else 0

abbrev pub max_limit : CType → ℤ
max_limit t = pos (max_value t)

abbrev pub min_limit : CType → ℤ
min_limit t = if t.is_signed then negsuc (modulus t / 2 - 1) else pos 0

-- The bit pattern of a value, as a number below the modulus `m`.
abbrev pub residue : ℕ → ℤ → ℕ
residue m (pos n) = n % m
residue m (negsuc n) = m - 1 - n % m

abbrev pub pattern_of : CType → ℤ → ℕ
pattern_of t z = residue (modulus t) z

-- The value of type `t` that a bit pattern stands for.
abbrev pub from_pattern : CType → ℕ → ℤ
from_pattern t p =
    if t.is_signed
    then (if ltb p (modulus t / 2) then pos p else negsuc (modulus t - 1 - p))
    else pos p

-- `static_cast<T>(z)`: the value of type `t` with the low bits of `z`.
unfoldable pub cast : CType → ℤ → ℤ
cast t z = from_pattern t (pattern_of t z)

-- A `bool` where a number is expected.
abbrev pub of_bool : Bool → ℤ
of_bool b = if b then pos 1 else pos 0

-- `a + b`, `a - b` and `a * b` on operands of type `t`, after the integer promotions.
unfoldable pub plus : CType → ℤ → ℤ → ℤ
plus t a b = cast (promote t) (a +ℤ b)

unfoldable pub minus : CType → ℤ → ℤ → ℤ
minus t a b = cast (promote t) (a -ℤ b)

unfoldable pub times : CType → ℤ → ℤ → ℤ
times t a b = cast (promote t) (a *ℤ b)

-- `a << k`, which keeps the low bits.
unfoldable pub shl : CType → ℤ → ℕ → ℤ
shl t a k = cast (promote t) (a *ℤ pos (2 ^ k))

-- The values that type `t` holds.
abbrev pub InRange : CType → ℤ → Type 0
InRange t z = (neg_part z ≤ min_magnitude t) × (pos_part z ≤ max_value t)

-- The value of type `t` that is nearest to `z`: what a saturating operation promises.
unfoldable pub saturate : CType → ℤ → ℤ
saturate t z =
    if ltb_ℤ z (min_limit t) then min_limit t else if ltb_ℤ (max_limit t) z then max_limit t else z

abbrev pub eqb_ℤ : ℤ → ℤ → Bool
eqb_ℤ a b = pos_part a + neg_part b == pos_part b + neg_part a

-- `a ^ b`, `a & b` and `a | b` on operands of type `t`, after the integer promotions.
unfoldable pub bitwise_xor : CType → ℤ → ℤ → ℤ
bitwise_xor t a b =
    from_pattern (promote t) (bit_xor (pattern_of (promote t) a) (pattern_of (promote t) b))

unfoldable pub bitwise_and : CType → ℤ → ℤ → ℤ
bitwise_and t a b =
    from_pattern (promote t) (bit_and (pattern_of (promote t) a) (pattern_of (promote t) b))

unfoldable pub bitwise_or : CType → ℤ → ℤ → ℤ
bitwise_or t a b =
    from_pattern (promote t) (bit_or (pattern_of (promote t) a) (pattern_of (promote t) b))

-- `std::max` and `std::min`.
unfoldable pub std_max : ℤ → ℤ → ℤ
std_max a b = if ltb_ℤ a b then b else a

unfoldable pub std_min : ℤ → ℤ → ℤ
std_min a b = if ltb_ℤ b a then b else a
