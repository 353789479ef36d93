-- ===== src/Vector/Machine/Submit.antt =====
-- What submitting the buffers of one operation changes, and what the loops rely on.
use coralnpu_mpact.Prelude.{ℕ, zero, suc, ◌+◌, ◌*◌, ◌≤◌, ◌<◌, ◌≡◌, ◌≢◌, refl, ap, ◌∙◌, arith}
use coralnpu_mpact.Prelude.{Bool, true, false, Option, some, List, [], ◌∷◌, length, get_or}
use coralnpu_mpact.Prelude.{tabulate, ℤ, pos}
use coralnpu_mpact.Scalar.{CType}
use coralnpu_mpact.Vector.Machine.{Machine, collect, num_ops, submit_all}

-- What the theorems rely on of the framework's registers: a submitted buffer is what its register
-- holds, other registers are left alone, and no register that is written is a source.
pub record Isolated {S : Type 0} (m : Machine S) : Type 0 where
  pub dest_lane-submit_self :
      (s : S) (t : CType) (r e : ℕ) (v : List ℤ)
      → m.dest_lane (m.submit s t r v) t r e ≡ get_or v e (pos 0)
  pub dest_lane-submit_ne :
      (s : S) (t : CType) (r r' e : ℕ) (v : List ℤ)
      → r ≢ r'
      → m.dest_lane (m.submit s t r v) t r' e ≡ m.dest_lane s t r' e
  pub source-submit :
      (s : S) (t t' : CType) (r i e : ℕ) (v : List ℤ)
      → m.source (m.submit s t r v) t' i e ≡ m.source s t' i e

collect_cons {ℓ} :
    {A : Type ℓ} (n i : ℕ) (round : ℕ → Option A) {v : A} {vs : List A}
    → round i ≡ some v
    → collect n (i + 1) round ≡ some vs
    → collect (suc n) i round ≡ some (v ∷ vs)
unfolding collect
collect_cons n i round p q = rw (p, collect) (rw (q, collect))

pub collect-total {ℓ} :
    {A : Type ℓ} (n i : ℕ) (round : ℕ → Option A) (value : ℕ → A)
    → ((j : ℕ) → i ≤ j → j < i + n → round j ≡ some (value j))
    → collect n i round ≡ some (tabulate n i value)
unfolding tabulate
collect-total zero i round value h = unfold collect in refl
collect-total (suc n) i round value h =
    collect_cons n i round (h i (omega arith) (omega arith))
      (collect-total n (i + 1) round value (λ j p q. h j (omega arith) (omega arith)))

-- The registers of one round are apart from those of another.
pub register_injective :
    (strip_mine : Bool) (o i o' i' : ℕ)
    → o < num_ops strip_mine
    → o' < num_ops strip_mine
    → o + i * num_ops strip_mine ≡ o' + i' * num_ops strip_mine
    → (o ≡ o') × (i ≡ i')
register_injective true o i o' i' p q h = omega arith
register_injective false o i o' i' p q h = omega arith

module _ {S : Type 0} (m : Machine S) (law : Isolated m) (t : CType) (strip_mine : Bool) where
  abbrev n : ℕ
  n = num_ops strip_mine

  pub submit_all-source :
      (t' : CType) (o i j e : ℕ) (bs : List (List ℤ)) (s : S)
      → m.source (submit_all m t n o i bs s) t' j e ≡ m.source s t' j e
  unfolding submit_all
  submit_all-source t' o i j e [] s = refl
  submit_all-source t' o i j e (b ∷ bs) s =
      submit_all-source t' o (i + 1) j e bs _ ∙ law.source-submit s t t' (o + i * n) j e b

  pub submit_all-other :
      (o i r e : ℕ) (bs : List (List ℤ)) (s : S)
      → ((k : ℕ) → i ≤ k → k < i + length bs → o + k * n ≢ r)
      → m.dest_lane (submit_all m t n o i bs s) t r e ≡ m.dest_lane s t r e
  unfolding submit_all
  submit_all-other o i r e [] s h = refl
  submit_all-other o i r e (b ∷ bs) s h =
      submit_all-other o (i + 1) r e bs _ (λ k p q. h k (omega arith) (omega arith))
      ∙ law.dest_lane-submit_ne s t (o + i * n) r e b (h i (omega arith) (omega arith))

  pub submit_all_self :
      (o i j k e : ℕ) (bs : List (List ℤ)) (s : S)
      → o < n
      → k < length bs
      → j ≡ i + k
      → m.dest_lane (submit_all m t n o i bs s) t (o + j * n) e ≡ get_or (get_or bs k []) e (pos 0)
  unfolding submit_all
  submit_all_self o i j k e [] s p q h = absurd (omega arith)
  submit_all_self o i j zero e (b ∷ bs) s p q h =
      submit_all-other o (i + 1) (o + j * n) e bs _
        (λ k a c d. absurd (later k a (register_injective strip_mine o k o j p p d).1))
      ∙ ap (λ r. m.dest_lane (m.submit s t (o + i * n) b) t (o + r * n) e) same
      ∙ law.dest_lane-submit_self s t (o + i * n) e b
    where
      same : j ≡ i
      same = omega arith

      later : (k : ℕ) → i + 1 ≤ k → k ≡ j → ⊥
      later k a d = omega arith
  submit_all_self o i j (suc k) e (b ∷ bs) s p q h =
      submit_all_self o (i + 1) j k e bs _ p (omega arith) (omega arith)
