-- ===== src/Access/Elements.antt =====
-- The validation of a vector access, element by element.
use mathlib.Core.Bool.{false≢true}
use native.Mathlib.Decide.{ℕ_discrete}
use coralnpu_mpact.Prelude.{ℕ, zero, suc, ◌⊎◌, ◌+◌, ◌≤◌, ◌<◌, ◌≡◌, refl, sym, ◌∙◌}
use coralnpu_mpact.Prelude.{arith, true, Bool-cases, inl, inr}
use coralnpu_mpact.Prelude.{Option}
use coralnpu_mpact.Access.{Verdict, allowed, trapped, is_active, validate_vector_access}
use coralnpu_mpact.Access.Vectors.{}

pub Verdict-cases : (v : Verdict) → (v ≡ allowed) ⊎ ((a : ℕ) × (v ≡ trapped a))
Verdict-cases allowed = inl refl
Verdict-cases (trapped a) = inr (a, refl)

-- The first element, from `i` on, of `left` elements that is active and not allowed.
pub record FirstTrap (masks : Option (ℕ → ℕ)) (validator : ℕ → Verdict) (left i address : ℕ)
    : Type 0 where
  pub element : ℕ
  pub from : i ≤ element
  pub below : element < i + left
  pub active : is_active masks element ≡ true
  pub traps : validator element ≡ trapped address
  pub before : (j : ℕ) → i ≤ j → j < element → is_active masks j ≡ true → validator j ≡ allowed

later_trap :
    (masks : Option (ℕ → ℕ)) (validator : ℕ → Verdict) (left i address : ℕ)
    → (is_active masks i ≡ true → validator i ≡ allowed)
    → FirstTrap masks validator left (i + 1) address
    → FirstTrap masks validator (suc left) i address
later_trap masks validator left i address first t = record {
  element = t.element;
  from = omega (arith, t.from);
  below = omega (arith, t.below);
  active = t.active;
  traps = t.traps;
  before = λ j p q c. elim (ℕ_discrete i j) [
    | yes e ↦ rw e at (first (rw (sym e) at c))
    | no n ↦ t.before j (omega arith) q c
  ];
}

-- Where the validation of a vector access traps, it traps at the address of the first active element
-- that its validator does not allow.
pub validate_vector_access-FirstTrap :
    (masks : Option (ℕ → ℕ)) (validator : ℕ → Verdict) (left i address : ℕ)
    → validate_vector_access masks validator left i ≡ trapped address
    → FirstTrap masks validator left i address
unfolding validate_vector_access
validate_vector_access-FirstTrap masks validator zero i address h = cc
validate_vector_access-FirstTrap masks validator (suc left) i address h =
    let later = validate_vector_access-FirstTrap masks validator left (i + 1) address in
    elim (Bool-cases (is_active masks i)) [
      | inl c ↦ elim (Verdict-cases (validator i)) [
        | inl a ↦ later_trap masks validator left i address (λ _. a) (later (rw (c, a) at h))
        | inr (x, e) ↦ record {
          element = i;
          from = omega arith;
          below = omega arith;
          active = c;
          traps = e ∙ (rw (c, e) at h);
          before = λ j p q _. absurd (omega arith);
        }
      ]
      | inr c ↦
          later_trap masks validator left i address (λ y. absurd (false≢true (sym c ∙ y)))
            (later (rw c at h))
    ]

allowed_step :
    (masks : Option (ℕ → ℕ)) (validator : ℕ → Verdict) (left i : ℕ)
    → validate_vector_access masks validator (suc left) i ≡ allowed
    → (validate_vector_access masks validator left (i + 1) ≡ allowed)
      × (is_active masks i ≡ true → validator i ≡ allowed)
unfolding validate_vector_access
allowed_step masks validator left i h = elim (Bool-cases (is_active masks i)) [
  | inl c ↦ elim (Verdict-cases (validator i)) [
    | inl a ↦ (rw (c, a) at h, λ _. a)
    | inr (x, t) ↦ absurd (not_trapped x (rw (c, t) at h))
  ]
  | inr c ↦ (rw c at h, λ y. absurd (false≢true (sym c ∙ y)))
]
  where
    not_trapped : (x : ℕ) → trapped x ≡ allowed → ⊥
    not_trapped x e = cc

-- An access is allowed only if every active element is.
pub validate_vector_access-allowed :
    (masks : Option (ℕ → ℕ)) (validator : ℕ → Verdict) (left i j : ℕ)
    → validate_vector_access masks validator left i ≡ allowed
    → i ≤ j
    → j < i + left
    → is_active masks j ≡ true
    → validator j ≡ allowed
validate_vector_access-allowed masks validator zero i j h p q c = absurd (omega arith)
validate_vector_access-allowed masks validator (suc left) i j h p q c =
    let step = allowed_step masks validator left i h in
    elim (ℕ_discrete i j) [
      | yes e ↦ rw e at (step.1 (rw (sym e) at c))
      | no n ↦
          validate_vector_access-allowed masks validator left (i + 1) j step.0 (omega arith)
            (omega arith) c
    ]
