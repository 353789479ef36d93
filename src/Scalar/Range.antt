-- ===== src/Scalar/Range.antt =====
-- Conversions keep what fits, and their results fit.
use coralnpu_mpact.Prelude.{◌≡◌, arith, ℤ}
use coralnpu_mpact.Scalar.{Lane, i8, ctype, cast, InRange, saturate, promote, wide}

pub cast-InRange : (t : Lane) (z : ℤ) → InRange (ctype t) (cast (ctype t) z)
unfolding cast
cast-InRange i8 z = ground arith
cast-InRange _ z = ground arith

pub cast_self : (t : Lane) (z : ℤ) → InRange (ctype t) z → cast (ctype t) z ≡ z
unfolding cast
cast_self i8 z h = ground arith
cast_self _ z h = ground arith

-- At the type that a lane is promoted to, and at the promoted wide type.
pub cast_self_promote :
    (t : Lane) (z : ℤ) → InRange (promote (ctype t)) z → cast (promote (ctype t)) z ≡ z
unfolding cast
cast_self_promote i8 z h = ground arith
cast_self_promote _ z h = ground arith

pub cast_self_promote-wide :
    (t : Lane) (z : ℤ)
    → InRange (promote (wide (ctype t))) z
    → cast (promote (wide (ctype t))) z ≡ z
unfolding cast
cast_self_promote-wide i8 z h = ground arith
cast_self_promote-wide _ z h = ground arith

pub saturate-InRange : (t : Lane) (z : ℤ) → InRange (ctype t) (saturate (ctype t) z)
unfolding saturate
saturate-InRange i8 z = ground arith
saturate-InRange _ z = ground arith

pub saturate_self : (t : Lane) (z : ℤ) → InRange (ctype t) z → saturate (ctype t) z ≡ z
unfolding saturate
saturate_self i8 z h = ground arith
saturate_self _ z h = ground arith

pub cast-cast-promote :
    (t : Lane) (z : ℤ) → cast (ctype t) (cast (promote (ctype t)) z) ≡ cast (ctype t) z
unfolding cast
cast-cast-promote i8 z = ground arith
cast-cast-promote _ z = ground arith

pub cast-cast-wide :
    (t : Lane) (z : ℤ) → cast (ctype t) (cast (promote (wide (ctype t))) z) ≡ cast (ctype t) z
unfolding cast
cast-cast-wide i8 z = ground arith
cast-cast-wide _ z = ground arith

pub cast_self_wide : (t : Lane) (z : ℤ) → InRange (wide (ctype t)) z → cast (wide (ctype t)) z ≡ z
unfolding cast
cast_self_wide i8 z h = ground arith
cast_self_wide _ z h = ground arith

pub InRange-wide : (t : Lane) (z : ℤ) → InRange (ctype t) z → InRange (wide (ctype t)) z
InRange-wide i8 z h = ground arith
InRange-wide _ z h = ground arith
