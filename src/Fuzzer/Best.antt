-- ===== src/Fuzzer/Best.antt =====
-- What the archive of sim/behavioral_archive.cc holds after a run of offers.
use coralnpu_mpact.Prelude.{
  ℕ, ◌≡◌, refl, sym, ap, ◌∙◌, arith, ltb, true, false, Bool-cases, inl, inr, if◌then◌else◌, length,
}
use coralnpu_mpact.Prelude.{Option, none, some, List, [], ◌∷◌, text_eq, text_eq-true}
use coralnpu_mpact.Fuzzer.Dict.{
  lookup, insert, lookup-insert_self, lookup-insert_other, count_of, has_key,
}
use coralnpu_mpact.Fuzzer.Archive.{
  BehavioralArchive, populate, store_seq, fitness_read, add_if_novel,
}

-- The arguments of one call of AddIfNovel.
pub record Offer {ℓ} (S : Type ℓ) : Type ℓ where
  pub descriptor : List ℕ
  pub sequence : S
  pub summary : List (List ℕ × ℕ)
  pub populate_fn : Option (S → S)

module _ {ℓ} {S : Type ℓ} where
  unfoldable pub offer : Offer S → BehavioralArchive S → BehavioralArchive S
  offer o a = (add_if_novel o.descriptor o.sequence o.summary o.populate_fn a).1

  unfoldable pub offer_all : List (Offer S) → BehavioralArchive S → BehavioralArchive S
  offer_all [] a = a
  offer_all (o ∷ os) a = offer_all os (offer o a)

  unfoldable pub empty_archive : BehavioralArchive S
  empty_archive = record { archive = []; fitness_map = [] }

  -- What an offer would store.
  unfoldable pub offered : Offer S → S × ℕ
  offered o = (populate o.populate_fn o.sequence, length o.summary)

  -- Of the two, the one with more states; of equals, the first.
  unfoldable pub better : S × ℕ → Option (S × ℕ) → S × ℕ
  better x none = x
  better (s, n) (some (t, m)) = if ltb n m then (t, m) else (s, n)

  -- The first of the best offers for a bin.
  unfoldable pub best : List ℕ → List (Offer S) → Option (S × ℕ)
  best k [] = none
  best k (o ∷ os) =
      if text_eq o.descriptor k then some (better (offered o) (best k os)) else best k os

  unfoldable pub sequence_of : Option (S × ℕ) → Option S
  sequence_of none = none
  sequence_of (some (s, n)) = some s

  unfoldable pub fitness_of : Option (S × ℕ) → Option ℕ
  fitness_of none = none
  fitness_of (some (s, n)) = some n

  -- The bin `k` of the archive holds `h`.
  unfoldable pub Holds : List ℕ → BehavioralArchive S → Option (S × ℕ) → Type ℓ
  Holds k a h = (lookup k a.archive ≡ sequence_of h) × (lookup k a.fitness_map ≡ fitness_of h)

  -- What a bin holds after an offer.
  unfoldable after_offer : List ℕ → Offer S → Option (S × ℕ) → Option (S × ℕ)
  after_offer k o none = if text_eq o.descriptor k then some (offered o) else none
  after_offer k o (some x) =
      if text_eq o.descriptor k then some (better x (some (offered o))) else some x

  offer_new :
      (o : Offer S) (a : BehavioralArchive S)
      → has_key o.descriptor a.archive ≡ false
      → offer o a ≡ store_seq o.descriptor o.sequence (length o.summary) o.populate_fn a
  unfolding offer add_if_novel
  offer_new o a e = rw (e, offer) refl

  offer_declined :
      (o : Offer S) (a : BehavioralArchive S)
      → has_key o.descriptor a.archive ≡ true
      → ltb (count_of o.descriptor a.fitness_map) (length o.summary) ≡ false
      → offer o a ≡ fitness_read o.descriptor a
  unfolding offer add_if_novel
  offer_declined o a e l = rw (e, l, offer) refl

  offer_taken :
      (o : Offer S) (a : BehavioralArchive S)
      → has_key o.descriptor a.archive ≡ true
      → ltb (count_of o.descriptor a.fitness_map) (length o.summary) ≡ true
      → offer o a
        ≡ store_seq o.descriptor o.sequence
            (length o.summary)
            o.populate_fn
            (fitness_read o.descriptor a)
  unfolding offer add_if_novel
  offer_taken o a e l = rw (e, l, offer) refl

  offer_other :
      (k : List ℕ) (o : Offer S) (a : BehavioralArchive S)
      → text_eq o.descriptor k ≡ false
      → (lookup k (offer o a).archive ≡ lookup k a.archive)
        × (lookup k (offer o a).fitness_map ≡ lookup k a.fitness_map)
  unfolding store_seq fitness_read
  offer_other k o a n =
      let n1 = lookup-insert_other o.descriptor k (populate o.populate_fn o.sequence) a.archive n in
      let f = count_of o.descriptor a.fitness_map in
      let read = insert o.descriptor f a.fitness_map in
      let n2 = lookup-insert_other o.descriptor k f a.fitness_map n in
      let n3 = lookup-insert_other o.descriptor k (length o.summary) a.fitness_map n in
      let n4 = lookup-insert_other o.descriptor k (length o.summary) read n in
      elim (Bool-cases (has_key o.descriptor a.archive)) [
        | inl e ↦ elim (Bool-cases (ltb f (length o.summary))) [
          | inl l ↦ rw (offer_taken o a e l) (n1, n4 ∙ n2)
          | inr l ↦ rw (offer_declined o a e l) (refl, n2)
        ]
        | inr e ↦ rw (offer_new o a e) (n1, n3)
      ]

  offer_first :
      (o : Offer S) (a : BehavioralArchive S)
      → lookup o.descriptor a.archive ≡ none
      → Holds o.descriptor (offer o a) (some (offered o))
  unfolding Holds offered sequence_of fitness_of has_key store_seq
  offer_first o a h = rw (offer_new o a (rw (h, has_key) refl)) (
    lookup-insert_self o.descriptor (populate o.populate_fn o.sequence) a.archive,
    lookup-insert_self o.descriptor (length o.summary) a.fitness_map,
  )

  offer_again :
      (o : Offer S) (a : BehavioralArchive S) (s : S) (n : ℕ)
      → Holds o.descriptor a (some (s, n))
      → Holds o.descriptor (offer o a) (some (better (s, n) (some (offered o))))
  unfolding Holds offered sequence_of fitness_of has_key count_of better store_seq fitness_read
  offer_again o a s n (p, q) =
      let known : has_key o.descriptor a.archive ≡ true = rw (p, has_key) refl in
      let count : count_of o.descriptor a.fitness_map ≡ n = rw (q, count_of) refl in
      let read = insert o.descriptor (count_of o.descriptor a.fitness_map) a.fitness_map in
      elim (Bool-cases (ltb n (length o.summary))) [
        | inl l ↦
            rw (offer_taken o a known (rw count l), l)
              (
                lookup-insert_self o.descriptor (populate o.populate_fn o.sequence) a.archive,
                lookup-insert_self o.descriptor (length o.summary) read,
              )
        | inr l ↦
            rw (offer_declined o a known (rw count l), l)
              (
                p,
                lookup-insert_self o.descriptor (count_of o.descriptor a.fitness_map) a.fitness_map
                    ∙ ap some count,
              )
      ]

  offer_kept :
      (k : List ℕ) (o : Offer S) (a : BehavioralArchive S) (h : Option (S × ℕ))
      → Holds k a h
      → Holds k (offer o a) (after_offer k o h)
  unfolding Holds after_offer sequence_of fitness_of
  offer_kept k o a none (p, q) = elim (Bool-cases (text_eq o.descriptor k)) [
    | inl e ↦
        let same = text_eq-true o.descriptor k e in
        rw (e, sym same) (offer_first o a (ap (λ i. lookup i a.archive) same ∙ p))
    | inr e ↦ let other = offer_other k o a e in rw e (other.0 ∙ p, other.1 ∙ q)
  ]
  offer_kept k o a (some (s, n)) (p, q) = elim (Bool-cases (text_eq o.descriptor k)) [
    | inl e ↦
        let same = text_eq-true o.descriptor k e in
        rw (e, sym same)
          (offer_again o a s n
            (ap (λ i. lookup i a.archive) same ∙ p, ap (λ i. lookup i a.fitness_map) same ∙ q))
    | inr e ↦ let other = offer_other k o a e in rw e (other.0 ∙ p, other.1 ∙ q)
  ]

  better_assoc :
      (x y : S × ℕ) (z : Option (S × ℕ))
      → better (better x (some y)) z ≡ better x (some (better y z))
  unfolding better
  better_assoc (s, n) (t, m) none = refl
  better_assoc (s, n) (t, m) (some (u, l)) = ground arith

  -- What a run of offers makes of a bin.
  unfoldable outcome : List ℕ → Option (S × ℕ) → List (Offer S) → Option (S × ℕ)
  outcome k none os = best k os
  outcome k (some x) os = some (better x (best k os))

  outcome-offer :
      (k : List ℕ) (h : Option (S × ℕ)) (o : Offer S) (os : List (Offer S))
      → outcome k (after_offer k o h) os ≡ outcome k h (o ∷ os)
  unfolding outcome after_offer best
  outcome-offer k none o os = elim (Bool-cases (text_eq o.descriptor k)) [
    | inl e ↦ rw e refl
    | inr e ↦ rw e refl
  ]
  outcome-offer k (some x) o os = elim (Bool-cases (text_eq o.descriptor k)) [
    | inl e ↦ rw e (ap some (better_assoc x (offered o) (best k os)))
    | inr e ↦ rw e refl
  ]

  offers_kept :
      (k : List ℕ) (os : List (Offer S)) (a : BehavioralArchive S) (h : Option (S × ℕ))
      → Holds k a h
      → Holds k (offer_all os a) (outcome k h os)
  unfolding offer_all outcome best better
  offers_kept k [] a none p = p
  offers_kept k [] a (some x) p = p
  offers_kept k (o ∷ os) a h p =
      rw (sym (outcome-offer k h o os))
        (offers_kept k os (offer o a) (after_offer k o h) (offer_kept k o a h p))

  -- After any offers to an empty archive, a bin holds the first of the best that were offered for
  -- it, populated, with the number of the states it reached, and it holds nothing if none were.
  pub best_offers_kept :
      (k : List ℕ) (os : List (Offer S)) → Holds k (offer_all os empty_archive) (best k os)
  unfolding Holds outcome empty_archive sequence_of fitness_of lookup
  best_offers_kept k os = offers_kept k os empty_archive none (refl, refl)
