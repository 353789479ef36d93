-- ===== src/Access/Regions.antt =====
-- `HasPermission` over disjoint regions.
use mathlib.Core.Bool.{false≢true}
use coralnpu_mpact.Prelude.{ℕ, ◌+◌, ◌≤◌, ◌<◌, ◌≡◌, arith, leb}
use coralnpu_mpact.Prelude.{Bool, true, false, ◌&&◌, ◌||◌, Bool-cases, inl, inr, List, [], ◌∷◌}
use coralnpu_mpact.Access.{MemoryRegion, contains, has_permission}

-- No address is in both regions.
unfoldable pub apart : MemoryRegion → MemoryRegion → Bool
apart q r =
    leb (q.start_address + q.length) r.start_address
    || leb (r.start_address + r.length) q.start_address

unfoldable pub apart_all : MemoryRegion → List MemoryRegion → Bool
apart_all q [] = true
apart_all q (r ∷ rs) = let rest = apart_all q rs in apart q r && rest

-- The regions are pairwise apart.
unfoldable pub disjoint : List MemoryRegion → Bool
disjoint [] = true
disjoint (r ∷ rs) = let rest = disjoint rs in apart_all r rs && rest

and_parts : (x y : Bool) → (x && y) ≡ true → (x ≡ true) × (y ≡ true)
and_parts true true h = (h, h)
and_parts true false h = absurd (false≢true h)
and_parts false y h = absurd (false≢true h)

contains-sub :
    (q : MemoryRegion) (a s b u : ℕ)
    → a ≤ b
    → b + u ≤ a + s
    → contains q a s ≡ true
    → contains q b u ≡ true
unfolding contains
contains-sub q a s b u h k c = ground arith

contains-apart :
    (q r : MemoryRegion) (a s b u : ℕ)
    → a ≤ b
    → b + u ≤ a + s
    → 0 < u
    → apart q r ≡ true
    → contains r a s ≡ true
    → contains q b u ≡ false
unfolding contains apart
contains-apart q r a s b u h k p d c = ground arith

-- A region that is apart from the one that holds a request holds no part of it.
outside :
    (q : MemoryRegion) (rs : List MemoryRegion) (a s b u p : ℕ)
    → a ≤ b
    → b + u ≤ a + s
    → 0 < u
    → apart_all q rs ≡ true
    → has_permission rs a s p ≡ true
    → contains q b u ≡ false
unfolding has_permission apart_all
outside q [] a s b u p h k l d e = absurd (false≢true e)
outside q (r ∷ rs) a s b u p h k l d e = elim (Bool-cases (contains r a s)) [
  | inl c ↦ contains-apart q r a s b u h k l (and_parts (apart q r) (apart_all q rs) d).0 c
  | inr c ↦ outside q rs a s b u p h k l (and_parts (apart q r) (apart_all q rs) d).1 (rw c at e)
]

-- Over disjoint regions, a nonempty part of a permitted request is permitted.
pub has_permission-sub :
    (rs : List MemoryRegion) (a s b u p : ℕ)
    → disjoint rs ≡ true
    → a ≤ b
    → b + u ≤ a + s
    → 0 < u
    → has_permission rs a s p ≡ true
    → has_permission rs b u p ≡ true
unfolding has_permission disjoint
has_permission-sub [] a s b u p d h k l e = e
has_permission-sub (r ∷ rs) a s b u p d h k l e = elim (Bool-cases (contains r a s)) [
  | inl c ↦ rw (contains-sub r a s b u h k c) (rw c at e)
  | inr c ↦
      rw (outside r rs a s b u p h k l (and_parts (apart_all r rs) (disjoint rs) d).0 (rw c at e)) (
        has_permission-sub rs a s b u p (and_parts (apart_all r rs) (disjoint rs) d).1 h k l
          (rw c at e))
]
