-- ===== src/Fuzzer/Overwriting.antt =====
-- What PerformPhase2Finalize of sim/orchestrator.cc overwrites.
use coralnpu_mpact.Prelude.{ℕ, zero, suc, ◌+◌, ◌<◌, ◌≤◌, ◌≡◌, ◌⊎◌, refl, ap, ◌∙◌, arith, ltb, leb}
use coralnpu_mpact.Prelude.{
  Bool, true, false, Bool-cases, Option-cases, inl, inr, if◌then◌else◌, length, get_or, List, [],
  ◌∷◌,
}
use coralnpu_mpact.Fuzzer.Dict.{lookup}
use coralnpu_mpact.Fuzzer.Finalize.{
  reg_name, image_word, is_filler, nop_start, put_byte, Cursor, emit_inst, emit_all, assert_equal,
  assert_x, extract_f, assert_f, extract_v, assert_v, perform_phase2_finalize,
}

pub length-put_byte : (i v : ℕ) (b : List ℕ) → length (put_byte i v b) ≡ length b
unfolding put_byte
length-put_byte i v [] = refl
length-put_byte zero v (x ∷ b) = refl
length-put_byte (suc i) v (x ∷ b) = ap suc (length-put_byte i v b)

get_or-put_byte : (i j v : ℕ) (b : List ℕ) → i < j → get_or (put_byte j v b) i 0 ≡ get_or b i 0
unfolding put_byte
get_or-put_byte i j v [] h = refl
get_or-put_byte i zero v (x ∷ b) h = absurd (omega (arith, h))
get_or-put_byte zero (suc j) v (x ∷ b) h = refl
get_or-put_byte (suc i) (suc j) v (x ∷ b) h = get_or-put_byte i j v b (omega arith)

-- The image keeps its size and what lies before the place to write, which only moves on.
unfoldable pub IsAfter : Cursor → Cursor → Type 0
IsAfter c d =
    (length d.binary ≡ length c.binary)
    × (c.current_pc ≤ d.current_pc)
    × ((i : ℕ) → i < c.current_pc → get_or d.binary i 0 ≡ get_or c.binary i 0)

IsAfter-self : (c : Cursor) → IsAfter c c
unfolding IsAfter
IsAfter-self c = (refl, omega arith, λ i h. refl)

IsAfter-trans : (c d e : Cursor) → IsAfter c d → IsAfter d e → IsAfter c e
unfolding IsAfter
IsAfter-trans c d e (l, p, f) (m, q, g) = (m ∙ l, omega arith, λ i h. g i (omega arith) ∙ f i h)

IsAfter-if :
    (b : Bool) (c d e : Cursor) → IsAfter c d → IsAfter c e → IsAfter c (if b then d else e)
IsAfter-if true c d e p q = p
IsAfter-if false c d e p q = q

pub IsAfter-emit_inst : (inst : ℕ) (c : Cursor) → IsAfter c (emit_inst inst c)
unfolding emit_inst IsAfter
IsAfter-emit_inst inst c =
    IsAfter-if (leb (c.current_pc + 4) (length c.binary)) c _ c
      (
        length-put_byte _ _ _
            ∙ length-put_byte _ _ _
            ∙ length-put_byte _ _ _
            ∙ length-put_byte _ _ c.binary,
        omega arith,
        λ i h.
            get_or-put_byte i _ _ _ (omega arith)
            ∙ get_or-put_byte i _ _ _ (omega arith)
            ∙ get_or-put_byte i _ _ _ (omega arith)
            ∙ get_or-put_byte i _ _ c.binary h,
      )
      (refl, omega arith, λ i h. refl)

pub IsAfter-emit_all : (insts : List ℕ) (c : Cursor) → IsAfter c (emit_all insts c)
unfolding emit_all
IsAfter-emit_all [] c = IsAfter-self c
IsAfter-emit_all (inst ∷ insts) c =
    IsAfter-trans c (emit_inst inst c) _ (IsAfter-emit_inst inst c)
      (IsAfter-emit_all insts (emit_inst inst c))

IsAfter-assert_x :
    (str_cat : ℕ → List ℕ) (n i : ℕ) (registers : List (List ℕ × ℕ)) (c : Cursor)
    → IsAfter c (assert_x str_cat n i registers c)
unfolding assert_x
IsAfter-assert_x str_cat zero i registers c = IsAfter-self c
IsAfter-assert_x str_cat (suc n) i registers c =
    elim (Option-cases (lookup (reg_name str_cat 0x78 i) registers)) [
      | inl e ↦ rw (e, assert_x) (IsAfter-assert_x str_cat n (i + 1) registers c)
      | inr (golden, e) ↦
          let d = emit_all (assert_equal 31 i golden) c in
          rw (e, assert_x)
            (IsAfter-if (ltb (length c.binary) (c.current_pc + 16)) c c _ (IsAfter-self c) (
              IsAfter-trans c d _ (IsAfter-emit_all _ c)
                (IsAfter-assert_x str_cat n (i + 1) registers d)))
    ]

IsAfter-assert_f :
    (str_cat : ℕ → List ℕ) (n i : ℕ) (registers : List (List ℕ × ℕ)) (c : Cursor)
    → IsAfter c (assert_f str_cat n i registers c)
unfolding assert_f
IsAfter-assert_f str_cat zero i registers c = IsAfter-self c
IsAfter-assert_f str_cat (suc n) i registers c =
    elim (Option-cases (lookup (reg_name str_cat 0x66 i) registers)) [
      | inl e ↦ rw (e, assert_f) (IsAfter-assert_f str_cat n (i + 1) registers c)
      | inr (golden, e) ↦
          let d = emit_all (extract_f i ∷ assert_equal 30 31 golden) c in
          rw (e, assert_f)
            (IsAfter-if (ltb (length c.binary) (c.current_pc + 20)) c c _ (IsAfter-self c) (
              IsAfter-trans c d _ (IsAfter-emit_all _ c)
                (IsAfter-assert_f str_cat n (i + 1) registers d)))
    ]

IsAfter-assert_v :
    (str_cat : ℕ → List ℕ) (n i : ℕ) (registers : List (List ℕ × List ℕ)) (c : Cursor)
    → IsAfter c (assert_v str_cat n i registers c)
unfolding assert_v
IsAfter-assert_v str_cat zero i registers c = IsAfter-self c
IsAfter-assert_v str_cat (suc n) i registers c =
    elim (Option-cases (lookup (reg_name str_cat 0x76 i) registers)) [
      | inl e ↦ rw (e, assert_v) (IsAfter-assert_v str_cat n (i + 1) registers c)
      | inr (bytes, e) ↦
          let d = emit_all (extract_v i ∷ assert_equal 30 31 (image_word 0 bytes)) c in
          rw (e, assert_v)
            (IsAfter-if (leb 4 (length bytes)) c _ _
              (IsAfter-if (ltb (length c.binary) (c.current_pc + 20)) c c _ (IsAfter-self c) (
                IsAfter-trans c d _ (IsAfter-emit_all _ c)
                  (IsAfter-assert_v str_cat n (i + 1) registers d)))
              (IsAfter-assert_v str_cat n (i + 1) registers c))
    ]

-- A byte from the place on where the search ended is one of a word that was skipped.
skipped_fillers :
    (b : List ℕ) (n i : ℕ)
    → nop_start b n ≤ i
    → i < n
    → (w : ℕ) × (w ≤ i) × (i < w + 4) × (is_filler (image_word w b) ≡ true)
unfolding nop_start
skipped_fillers b (suc (suc (suc (suc n)))) i h l = elim (Bool-cases (is_filler (image_word n b))) [
  | inl e ↦ elim (Bool-cases (ltb i n)) [
    | inl f ↦ skipped_fillers b n i (rw e at h) (ground arith)
    | inr f ↦ (n, ground arith, omega arith, e)
  ]
  | inr e ↦ (let far : n + 4 ≤ i = rw e at h in absurd (omega (arith, far, l)))
]
skipped_fillers b (suc (suc (suc zero))) i h l = absurd (omega (arith, h))
skipped_fillers b (suc (suc zero)) i h l = absurd (omega (arith, h))
skipped_fillers b (suc zero) i h l = absurd (omega (arith, h))
skipped_fillers b zero i h l = absurd (omega (arith, l))

-- Finalizing keeps the size of the image, and a byte that changes is one of a word that held a nop or
-- an mpause.
pub code_kept :
    (str_cat : ℕ → List ℕ) (registers : List (List ℕ × ℕ))
    (vector_registers : List (List ℕ × List ℕ)) (b : List ℕ) (i : ℕ)
    → i < length b
    → (length (perform_phase2_finalize str_cat registers vector_registers b) ≡ length b)
      × ((get_or (perform_phase2_finalize str_cat registers vector_registers b) i 0 ≡ get_or b i 0)
          ⊎ ((w : ℕ) × (w ≤ i) × (i < w + 4) × (is_filler (image_word w b) ≡ true)))
unfolding perform_phase2_finalize IsAfter
code_kept str_cat registers vector_registers b i h =
    let start : Cursor = record { current_pc = nop_start b (length b); binary = b } in
    let x = assert_x str_cat 29 1 registers start in
    let f = assert_f str_cat 32 0 registers x in
    let v = assert_v str_cat 32 0 vector_registers f in
    let after : IsAfter start (emit_inst 0x08000073 v) =
      IsAfter-trans start x _ (IsAfter-assert_x str_cat 29 1 registers start) (
        IsAfter-trans x f _ (IsAfter-assert_f str_cat 32 0 registers x) (
          IsAfter-trans f v _ (IsAfter-assert_v str_cat 32 0 vector_registers f)
            (IsAfter-emit_inst 0x08000073 v))) in
    (
      after.0,
      elim (Bool-cases (ltb i (nop_start b (length b)))) [
        | inl e ↦ inl (after.2 i (ground arith))
        | inr e ↦ inr (skipped_fillers b (length b) i (ground arith) h)
      ],
    )
