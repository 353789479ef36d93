-- ===== src/Scalar/Congruence.antt =====
-- Conversions before an operation do not change the low bits of its result.
use coralnpu_mpact.Prelude.{◌≡◌, arith, ℤ, ◌+ℤ◌, ◌-ℤ◌, ◌∙◌, ap}
use coralnpu_mpact.Scalar.{Lane, i8, ctype, cast, make_unsigned, promote, plus, minus}

+ℤ_comm : (a b : ℤ) → a +ℤ b ≡ b +ℤ a
unfolding ◌+ℤ◌
+ℤ_comm a b = ground arith

pub cast-cast_unsigned :
    (t : Lane) (z : ℤ) → cast (ctype t) (cast (make_unsigned (ctype t)) z) ≡ cast (ctype t) z
unfolding cast
cast-cast_unsigned i8 z = ground arith
cast-cast_unsigned _ z = ground arith

pub cast-cast-promote_unsigned :
    (t : Lane) (z : ℤ)
    → cast (ctype t) (cast (promote (make_unsigned (ctype t))) z) ≡ cast (ctype t) z
unfolding cast
cast-cast-promote_unsigned i8 z = ground arith
cast-cast-promote_unsigned _ z = ground arith

pub cast-add_left :
    (t : Lane) (a b : ℤ)
    → cast (ctype t) (cast (make_unsigned (ctype t)) a +ℤ b) ≡ cast (ctype t) (a +ℤ b)
unfolding cast ◌+ℤ◌
cast-add_left i8 a b = ground arith
cast-add_left _ a b = ground arith

pub cast-add_right :
    (t : Lane) (a b : ℤ)
    → cast (ctype t) (a +ℤ cast (make_unsigned (ctype t)) b) ≡ cast (ctype t) (a +ℤ b)
cast-add_right t a b =
    ap (cast (ctype t)) (+ℤ_comm a _) ∙ cast-add_left t b a ∙ ap (cast (ctype t)) (+ℤ_comm b a)

pub cast-sub_left :
    (t : Lane) (a b : ℤ)
    → cast (ctype t) (cast (make_unsigned (ctype t)) a -ℤ b) ≡ cast (ctype t) (a -ℤ b)
unfolding cast ◌-ℤ◌
cast-sub_left i8 a b = ground arith
cast-sub_left _ a b = ground arith

pub cast-sub_right :
    (t : Lane) (a b : ℤ)
    → cast (ctype t) (a -ℤ cast (make_unsigned (ctype t)) b) ≡ cast (ctype t) (a -ℤ b)
unfolding cast ◌-ℤ◌
cast-sub_right i8 a b = ground arith
cast-sub_right _ a b = ground arith

-- The whole pattern `static_cast<T>(static_cast<UT>(a) + static_cast<UT>(b))`.
pub cast-plus_unsigned :
    (t : Lane) (a b : ℤ)
    → (let ut = make_unsigned (ctype t) in cast (ctype t) (plus ut (cast ut a) (cast ut b)))
      ≡ cast (ctype t) (a +ℤ b)
unfolding plus
cast-plus_unsigned t a b =
    cast-cast-promote_unsigned t _ ∙ cast-add_left t a _ ∙ cast-add_right t a b

pub cast-minus_unsigned :
    (t : Lane) (a b : ℤ)
    → (let ut = make_unsigned (ctype t) in cast (ctype t) (minus ut (cast ut a) (cast ut b)))
      ≡ cast (ctype t) (a -ℤ b)
unfolding minus
cast-minus_unsigned t a b =
    cast-cast-promote_unsigned t _ ∙ cast-sub_left t a _ ∙ cast-sub_right t a b

pub cast-add_promote_left :
    (t : Lane) (a b : ℤ)
    → cast (ctype t) (cast (promote (make_unsigned (ctype t))) a +ℤ b) ≡ cast (ctype t) (a +ℤ b)
unfolding cast ◌+ℤ◌
cast-add_promote_left i8 a b = ground arith
cast-add_promote_left _ a b = ground arith

pub cast_unsigned-add :
    (t : Lane) (a b : ℤ)
    → (let ut = make_unsigned (ctype t) in cast ut (cast ut a +ℤ cast ut b) ≡ cast ut (a +ℤ b))
unfolding cast ◌+ℤ◌
cast_unsigned-add i8 a b = ground arith
cast_unsigned-add _ a b = ground arith
