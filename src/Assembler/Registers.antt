-- ===== src/Assembler/Registers.antt =====
-- The names of registers that ParseReg of sim/coralnpu_m3_bin_encoder_interface.cc reads.
use coralnpu_mpact.Prelude.{
  ℕ, zero, suc, ◌+◌, ◌-◌, ◌/◌, ◌%◌, ◌==◌, ◌<◌, ◌≡◌, refl, ap, ◌∙◌, arith, ltb, ◌&&◌, not,
}
use coralnpu_mpact.Prelude.{
  Bool, true, false, if◌then◌else◌, Option, none, some, List, [], ◌∷◌, ◌++◌, codes, text_eq,
  starts_with, ends_with,
}
use coralnpu_mpact.Assembler.Words.{
  find_word, fence_words, operand_words, k_regs, x_registers, x_aliases, f_registers, f_aliases,
  v_registers, csr_aliases,
}
use coralnpu_mpact.Assembler.{
  Absl, encoded, SourceOp, find_char, part_of, operand_text_bare, parse_text, parse_rest, parse_reg,
}

-- A number below 100 in decimal.
abbrev pub digits : ℕ → List ℕ
digits n = if ltb n 10 then (0x30 + n) ∷ [] else (0x30 + n / 10) ∷ (0x30 + n % 10) ∷ []

-- The names of register `n` in the calling convention.
unfoldable pub abi_name : ℕ → List ℕ
abi_name n =
    if n == 0
    then codes "zero"
    else if n == 1
    then codes "ra"
    else if n == 2
    then codes "sp"
    else if n == 3
    then codes "gp"
    else if n == 4
    then codes "tp"
    else if ltb n 8
    then codes "t" ++ digits (n - 5)
    else if ltb n 10
    then codes "s" ++ digits (n - 8)
    else if ltb n 18
    then codes "a" ++ digits (n - 10)
    else if ltb n 28
    then codes "s" ++ digits (n - 16)
    else codes "t" ++ digits (n - 25)

unfoldable pub abi_f_name : ℕ → List ℕ
abi_f_name n =
    if ltb n 8
    then codes "ft" ++ digits n
    else if ltb n 10
    then codes "fs" ++ digits (n - 8)
    else if ltb n 18
    then codes "fa" ++ digits (n - 10)
    else if ltb n 28
    then codes "fs" ++ digits (n - 16)
    else codes "ft" ++ digits (n - 20)

-- The ways to name a register.
pub data Spelling : Type 0 where
  x_name f_name v_name abi abi_f : Spelling

unfoldable pub spelled : Spelling → ℕ → List ℕ
spelled x_name n = codes "x" ++ digits n
spelled f_name n = codes "f" ++ digits n
spelled v_name n = codes "v" ++ digits n
spelled abi n = abi_name n
spelled abi_f n = abi_f_name n

abbrev is_none : Option ℕ → Bool
is_none none = true
is_none (some n) = false

abbrev holds : ℕ → Option ℕ → Bool
holds n none = false
holds n (some m) = m == n

-- That a text passes by all that ParseReg looks for before the registers, and names register `n`.
names_register : List ℕ → ℕ → Bool
names_register s n =
    not (text_eq s [])
    && not (starts_with s (codes ","))
    && is_none (find_word s fence_words)
    && not (ends_with s (codes ".t"))
    && is_none (find_word s operand_words)
    && is_none (find_char 0x28 s)
    && holds n (find_word s k_regs)

-- A test of the registers from the last of `k` down to the first.
every_register : (ℕ → Bool) → ℕ → Bool
every_register test zero = true
every_register test (suc k) = every_register test k && test k

register_tested : (test : ℕ → Bool) (k r : ℕ) → r < k → every_register test k ≡ true → test r ≡ true
unfolding every_register
register_tested test zero r b e = elim b [ ]
register_tested test (suc k) r b e = ground (arith, register_tested test k r)

all_named : (k : Spelling) → every_register (λ n. names_register (spelled k n) n) 32 ≡ true
unfolding every_register names_register spelled abi_name abi_f_name find_word find_char fence_words
    operand_words k_regs x_registers x_aliases f_registers f_aliases v_registers csr_aliases text_eq
    starts_with ends_with
all_named x_name = refl
all_named f_name = refl
all_named v_name = refl
all_named abi = refl
all_named abi_f = refl

none_of : (o : Option ℕ) → is_none o ≡ true → o ≡ none
none_of none h = refl
none_of (some n) h = cc

some_of : (n : ℕ) (o : Option ℕ) → holds n o ≡ true → o ≡ some n
some_of n none h = cc
some_of n (some m) h = ground (arith, h)

seven :
    (a b c d e f g : Bool)
    → (not a && not b && c && not d && e && f && g) ≡ true
    → (a ≡ false) × (b ≡ false) × (c ≡ true) × (d ≡ false) × (e ≡ true) × (f ≡ true) × (g ≡ true)
seven a b c d e f g h = ground (arith, h)

part_of_plain : (s : List ℕ) (src_op : SourceOp) → find_char 0x28 s ≡ none → part_of src_op s ≡ s
unfolding part_of
part_of_plain s src_op h = rw (part_of, h) refl

register_rest :
    (a : Absl) (s : List ℕ) (n : ℕ) (src_op : SourceOp)
    → find_char 0x28 s ≡ none
    → find_word s k_regs ≡ some n
    → parse_rest a s src_op ≡ encoded n
unfolding parse_rest
register_rest a s n src_op h k = rw (parse_rest, part_of_plain s src_op h, k) refl

names_register-parse_reg :
    (a : Absl) (s : List ℕ) (n : ℕ) (src_op : SourceOp)
    → names_register s n ≡ true
    → a.strip_ascii_whitespace s ≡ s
    → parse_reg a s src_op ≡ encoded n
unfolding names_register parse_reg parse_text
names_register-parse_reg a s n src_op h strip =
    let p =
      seven (text_eq s []) (starts_with s (codes ",")) (is_none (find_word s fence_words))
        (ends_with s (codes ".t")) (is_none (find_word s operand_words))
        (is_none (find_char 0x28 s)) (holds n (find_word s k_regs)) h in
    ap (λ t. parse_text a t src_op) (operand_text_bare a s strip p.1)
    ∙ rw (p.0, none_of (find_word s fence_words) p.2, p.3, none_of (find_word s operand_words) p.4)
        (register_rest a s n src_op (none_of (find_char 0x28 s) p.5)
          (some_of n (find_word s k_regs) p.6))

-- Where no white space is to be stripped, ParseReg reads every name of a register, `x`, `f` or `v` with a
-- number below 32, or the name of an integer or a floating point register in the calling convention,
-- as the number of that register, for every kind of operand.
pub registers_parsed :
    (a : Absl) (spelling : Spelling) (n : ℕ) (src_op : SourceOp)
    → n < 32
    → a.strip_ascii_whitespace (spelled spelling n) ≡ spelled spelling n
    → parse_reg a (spelled spelling n) src_op ≡ encoded n
registers_parsed a spelling n src_op h strip =
    names_register-parse_reg a (spelled spelling n) n src_op
      (register_tested (λ m. names_register (spelled spelling m) m) 32 n h (all_named spelling))
      strip
