-- ===== src/Fuzzer/Sorting.antt =====
-- The sorted detectors of ExtractDescriptor in sim/behavioral_archive.cc.
use coralnpu_mpact.Prelude.{ℕ, ◌≡◌, refl, ap, ◌∙◌, arith, Bool, true, false, ◌&&◌, ◌||◌}
use coralnpu_mpact.Prelude.{List, [], ◌∷◌, text_eq, text_eq-true}
use coralnpu_mpact.Fuzzer.Archive.{text_leb, insert_sorted, sort}

unfoldable pub among : List ℕ → List (List ℕ) → Bool
among e [] = false
among e (k ∷ ks) = text_eq k e || among e ks

-- No text of the list comes before `k`.
unfoldable pub all_after : List ℕ → List (List ℕ) → Bool
all_after k [] = true
all_after k (j ∷ ks) = text_leb k j && all_after k ks

unfoldable pub is_sorted : List (List ℕ) → Bool
is_sorted [] = true
is_sorted (k ∷ ks) = all_after k ks && is_sorted ks

text_leb_total : (s t : List ℕ) → text_leb s t ≡ false → text_leb t s ≡ true
unfolding text_leb
text_leb_total [] t h = cc
text_leb_total (c ∷ s) [] h = refl
text_leb_total (c ∷ s) (d ∷ t) h = ground (arith, text_leb_total s t)

text_leb_self : (s : List ℕ) → text_leb s s ≡ true
unfolding text_leb
text_leb_self [] = refl
text_leb_self (c ∷ s) = ground (arith, text_leb_self s)

text_leb_trans : (s t u : List ℕ) → text_leb s t ≡ true → text_leb t u ≡ true → text_leb s u ≡ true
unfolding text_leb
text_leb_trans [] t u h k = refl
text_leb_trans (c ∷ s) [] u h k = cc
text_leb_trans (c ∷ s) (d ∷ t) [] h k = cc
text_leb_trans (c ∷ s) (d ∷ t) (e ∷ u) h k = ground (arith, text_leb_trans s t u)

pub text_leb_empty : (s : List ℕ) → text_leb s [] ≡ true → s ≡ []
unfolding text_leb
text_leb_empty [] h = refl
text_leb_empty (c ∷ s) h = cc

among-insert_sorted :
    (e j : List ℕ) (js : List (List ℕ)) → among e (insert_sorted j js) ≡ (text_eq j e || among e js)
unfolding among insert_sorted
among-insert_sorted e j [] = refl
among-insert_sorted e j (i ∷ js) = ground (arith, among-insert_sorted e j js)

pub among-sort : (e : List ℕ) (ks : List (List ℕ)) → among e (sort ks) ≡ among e ks
unfolding among sort
among-sort e [] = refl
among-sort e (k ∷ ks) =
    among-insert_sorted e k (sort ks) ∙ ap (λ b. text_eq k e || b) (among-sort e ks)

all_after-insert_sorted :
    (k j : List ℕ) (ks : List (List ℕ))
    → text_leb k j ≡ true
    → all_after k ks ≡ true
    → all_after k (insert_sorted j ks) ≡ true
unfolding all_after insert_sorted
all_after-insert_sorted k j [] h a = rw h refl
all_after-insert_sorted k j (i ∷ ks) h a = ground (arith, all_after-insert_sorted k j ks)

all_after_trans :
    (j k : List ℕ) (ks : List (List ℕ))
    → text_leb j k ≡ true
    → all_after k ks ≡ true
    → all_after j ks ≡ true
unfolding all_after
all_after_trans j k [] h a = refl
all_after_trans j k (i ∷ ks) h a = ground (arith, all_after_trans j k ks, text_leb_trans j k i)

is_sorted-insert_sorted :
    (k : List ℕ) (ks : List (List ℕ)) → is_sorted ks ≡ true → is_sorted (insert_sorted k ks) ≡ true
unfolding is_sorted insert_sorted all_after
is_sorted-insert_sorted k [] h = refl
is_sorted-insert_sorted k (j ∷ ks) h = ground (
  arith,
  is_sorted-insert_sorted k ks,
  all_after_trans k j ks,
  text_leb_total k j,
  all_after-insert_sorted j k ks,
)

pub is_sorted-sort : (ks : List (List ℕ)) → is_sorted (sort ks) ≡ true
unfolding sort is_sorted
is_sorted-sort [] = refl
is_sorted-sort (k ∷ ks) = is_sorted-insert_sorted k (sort ks) (is_sorted-sort ks)

all_after-among :
    (k e : List ℕ) (ks : List (List ℕ))
    → all_after k ks ≡ true
    → among e ks ≡ true
    → text_leb k e ≡ true
unfolding all_after among
all_after-among k e [] a m = cc
all_after-among k e (j ∷ ks) a m = ground (arith, text_eq-true j e, all_after-among k e ks)

-- The first of a sorted list comes before the others.
pub head_first :
    (k e : List ℕ) (ks : List (List ℕ))
    → is_sorted (k ∷ ks) ≡ true
    → among e (k ∷ ks) ≡ true
    → text_leb k e ≡ true
unfolding is_sorted among all_after
head_first k e [] s m = ground (arith, text_eq-true k e, text_leb_self k)
head_first k e (j ∷ ks) s m =
    ground (arith, text_eq-true k e, text_leb_self k, all_after-among k e (j ∷ ks))
