-- ===== src/Assembler/Fences.antt =====
-- The sets of a fence that sim/coralnpu_m3_bin_encoder_interface.cc reads.
use coralnpu_mpact.Prelude.{ℕ, ◌+◌, ◌≡◌, refl, ap, ◌∙◌, ◌||◌, Bool, true, false}
use coralnpu_mpact.Prelude.{if◌then◌else◌, some, List, [], ◌++◌, codes, text_eq, starts_with}
use coralnpu_mpact.Assembler.Words.{find_word, fence_words}
use coralnpu_mpact.Assembler.{
  Absl, encoded, SourceOp, operand_text_bare, parse_text, parse_reg, get_pred_op_encoding,
}

-- The letters of a set: input, output, read, write.
abbrev pub letters : Bool → Bool → Bool → Bool → List ℕ
letters i o r w =
    (if i then codes "i" else [])
    ++ ((if o then codes "o" else [])
        ++ ((if r then codes "r" else []) ++ (if w then codes "w" else [])))

abbrev pub bits_of : Bool → Bool → Bool → Bool → ℕ
bits_of i o r w =
    (if i then 8 else 0) + (if o then 4 else 0) + (if r then 2 else 0) + (if w then 1 else 0)

letters_found :
    (i o r w : Bool)
    → (i || o || r || w) ≡ true
    → (find_word (letters i o r w) fence_words ≡ some (bits_of i o r w))
      × (text_eq (letters i o r w) [] ≡ false)
      × (starts_with (letters i o r w) (codes ",") ≡ false)
unfolding find_word fence_words text_eq starts_with
letters_found false false false false h = cc
letters_found true true true true h = (refl, refl, refl)
letters_found true true true false h = (refl, refl, refl)
letters_found true true false true h = (refl, refl, refl)
letters_found true true false false h = (refl, refl, refl)
letters_found true false true true h = (refl, refl, refl)
letters_found true false true false h = (refl, refl, refl)
letters_found true false false true h = (refl, refl, refl)
letters_found true false false false h = (refl, refl, refl)
letters_found false true true true h = (refl, refl, refl)
letters_found false true true false h = (refl, refl, refl)
letters_found false true false true h = (refl, refl, refl)
letters_found false true false false h = (refl, refl, refl)
letters_found false false true true h = (refl, refl, refl)
letters_found false false true false h = (refl, refl, refl)
letters_found false false false true h = (refl, refl, refl)

-- Both ParseReg and GetPredOpEncoding read the letters of a set that is not empty, in their order, as its
-- four bits: 8 for input, 4 for output, 2 for reads and 1 for writes.
pub fences_parsed :
    (a : Absl) (i o r w : Bool) (src_op : SourceOp)
    → (i || o || r || w) ≡ true
    → a.strip_ascii_whitespace (letters i o r w) ≡ letters i o r w
    → (parse_reg a (letters i o r w) src_op ≡ encoded (bits_of i o r w))
      × (get_pred_op_encoding a (letters i o r w) ≡ encoded (bits_of i o r w))
unfolding parse_reg parse_text get_pred_op_encoding
fences_parsed a i o r w src_op h strip =
    let found = letters_found i o r w h in
    let text = operand_text_bare a (letters i o r w) strip found.2 in
    (
      ap (λ t. parse_text a t src_op) text ∙ rw (found.1, found.0) refl,
      rw (get_pred_op_encoding, text, found.0) refl,
    )
