-- ===== src/Vector/Multiply/Doubling.antt =====
-- The saturating doubling multiply.
use mathlib.Core.Bool.{false≢true}
use coralnpu_mpact.Prelude.{
  ◌≡◌, ◌∙◌, sym, ap₂, arith, ◌≤◌, ◌*◌, ◌-◌, ◌^◌, Bool, true, false, ◌&&◌, if◌then◌else◌, Bool-cases,
  inl, inr, ◌⊎◌,
}
use coralnpu_mpact.Prelude.{
  ℤ, pos, negsuc, pos_part, neg_part, ◌+ℤ◌, ◌*ℤ◌, shr_ℤ, ltb_ℤ, eq_of_parts,
}
use coralnpu_mpact.Scalar.{Lane, i8, i16, i32, ctype, wide, InRange, cast, plus}
use coralnpu_mpact.Scalar.{max_value, min_magnitude, saturate, max_limit, min_limit, eqb_ℤ}
use coralnpu_mpact.Vector.Multiply.{vdmulh_helper, vdmulh_rounding}
use coralnpu_mpact.Vector.Multiply.Exact.{product_exact, *ℤ_bound}

-- A quarter of the doubled product's unit, with the sign that the rounding mode asks for.
abbrev pub quarter_unit : Lane → Bool → Bool → ℤ → ℤ
quarter_unit t round round_neg z =
    if round
    then (if ltb_ℤ z (pos 0) && round_neg
        then negsuc (2 ^ ((ctype t).bits - 2) - 1)
        else pos (2 ^ ((ctype t).bits - 2)))
    else pos 0

-- The bounds of a product whose factors are not both the least value.
abbrev IsSmallProduct : Lane → ℤ → Type 0
IsSmallProduct t z =
    let k = min_magnitude (ctype t) * max_value (ctype t) in (pos_part z ≤ k) × (neg_part z ≤ k)

abbrev doubled : Lane → Bool → Bool → ℤ → ℤ
doubled t round round_neg z =
    let wt = wide (ctype t) in
    shr_ℤ (if round then cast wt (plus wt z (vdmulh_rounding (ctype t) round_neg z)) else z)
      ((ctype t).bits - 1)

abbrev pub promised : Lane → Bool → Bool → ℤ → ℤ
promised t round round_neg z =
    saturate (ctype t) (shr_ℤ (z +ℤ quarter_unit t round round_neg z) ((ctype t).bits - 1))

doubled_small :
    (t : Lane) (round round_neg : Bool) (z : ℤ)
    → (ctype t).is_signed ≡ true
    → IsSmallProduct t z
    → cast (ctype t) (doubled t round round_neg z) ≡ promised t round round_neg z
unfolding cast plus ◌+ℤ◌ shr_ℤ vdmulh_rounding saturate
doubled_small i8 round round_neg z s h = ground arith
doubled_small i16 round round_neg z s h = ground arith
doubled_small i32 round round_neg z s h = ground arith
doubled_small _ round round_neg z s h = cc

-- Two factors in range, one of which is above the least value.
small_product :
    (t : Lane) (a b : ℤ)
    → (ctype t).is_signed ≡ true
    → InRange (ctype t) a
    → InRange (ctype t) b
    → (neg_part a ≤ max_value (ctype t)) ⊎ (neg_part b ≤ max_value (ctype t))
    → IsSmallProduct t (a *ℤ b)
small_product i8 a b s ha hb (inl h) =
    *ℤ_bound a b _ _ ha.1 h hb.1 hb.0 (omega arith) (omega arith) (omega arith) (omega arith)
small_product i8 a b s ha hb (inr h) =
    *ℤ_bound a b _ _ ha.1 ha.0 hb.1 h (omega arith) (omega arith) (omega arith) (omega arith)
small_product i16 a b s ha hb (inl h) =
    *ℤ_bound a b _ _ ha.1 h hb.1 hb.0 (omega arith) (omega arith) (omega arith) (omega arith)
small_product i16 a b s ha hb (inr h) =
    *ℤ_bound a b _ _ ha.1 ha.0 hb.1 h (omega arith) (omega arith) (omega arith) (omega arith)
small_product i32 a b s ha hb (inl h) =
    *ℤ_bound a b _ _ ha.1 h hb.1 hb.0 (omega arith) (omega arith) (omega arith) (omega arith)
small_product i32 a b s ha hb (inr h) =
    *ℤ_bound a b _ _ ha.1 ha.0 hb.1 h (omega arith) (omega arith) (omega arith) (omega arith)
small_product _ a b s ha hb h = cc

above_min :
    (t : Lane) (a b : ℤ)
    → (ctype t).is_signed ≡ true
    → InRange (ctype t) a
    → InRange (ctype t) b
    → (eqb_ℤ a (min_limit (ctype t)) && eqb_ℤ b (min_limit (ctype t))) ≡ false
    → (neg_part a ≤ max_value (ctype t)) ⊎ (neg_part b ≤ max_value (ctype t))
above_min i8 a b s ha hb e = grind arith
above_min _ a b s ha hb e = grind arith

eqb_ℤ-eq : (a b : ℤ) → eqb_ℤ a b ≡ true → a ≡ b
eqb_ℤ-eq a b h = ground (arith, eq_of_parts a b)

least_squared :
    (t : Lane) (round round_neg : Bool)
    → (ctype t).is_signed ≡ true
    → cast (ctype t) (max_limit (ctype t))
      ≡ promised t round round_neg (min_limit (ctype t) *ℤ min_limit (ctype t))
unfolding cast ◌+ℤ◌ ◌*ℤ◌ shr_ℤ saturate
least_squared i8 round round_neg s = ground arith
least_squared i16 round round_neg s = ground arith
least_squared i32 round round_neg s = ground arith
least_squared _ round round_neg s = cc

-- On signed lanes in range VDMULH returns the exact product, plus a quarter of the doubled unit in
-- the direction that the rounding mode asks for, shifted down by one bit less than the lane's width
-- and saturated to the lane type.
vdmulh_helper_lem :
    (t : Lane) (round round_neg : Bool) (a b : ℤ)
    → (ctype t).is_signed ≡ true
    → InRange (ctype t) a
    → InRange (ctype t) b
    → vdmulh_helper (ctype t) round round_neg a b ≡ promised t round round_neg (a *ℤ b)
unfolding vdmulh_helper
vdmulh_helper_lem t round round_neg a b s ha hb =
    rw (product_exact t a b ha hb) (elim (Bool-cases (eqb_ℤ a least && eqb_ℤ b least)) [
      | inl e ↦ rw e (
          least_squared t round round_neg s
          ∙ sym (
              ap₂ (λ x y. promised t round round_neg (x *ℤ y)) (both_least a b e).0
                (both_least a b e).1))
      | inr e ↦ rw e (
          doubled_small t round round_neg (a *ℤ b) s
            (small_product t a b s ha hb (above_min t a b s ha hb e)))
    ])
  where
    least : ℤ
    least = min_limit (ctype t)

    both_least : (x y : ℤ) → (eqb_ℤ x least && eqb_ℤ y least) ≡ true → (x ≡ least) × (y ≡ least)
    both_least x y h = elim (Bool-cases (eqb_ℤ x least)) [
      | inl e ↦ (eqb_ℤ-eq x least e, eqb_ℤ-eq y least (rw e at h))
      | inr e ↦ absurd (false≢true (rw e at h))
    ]
