-- ===== src/Examples/Logging.antt =====
-- The theorems on the log instructions, at a string in memory and at a format.
use coralnpu_mpact.Prelude.{
  ℕ, ◌+◌, ◌<◌, ◌==◌, ◌≡◌, ◌≢◌, refl, arith, if◌then◌else◌, some, List, [], ◌∷◌, tabulate,
}
use coralnpu_mpact.Prelude.{ℤ, pos, negsuc}
use coralnpu_mpact.Logging.{integer, string_load_helper, print_log}
use coralnpu_mpact.Logging.Strings.{word_at, string_load_helper_lem}
use coralnpu_mpact.Logging.Formats.{
  Segment, signed, string, format_of, args_of, output_of, print_log_lem,
}

-- Five letters at the address 100, and a zero.
abbrev letters : ℕ → ℕ
letters a = if a == 105 then 0 else 0x41

letters_small : (a : ℕ) → letters a < 256
letters_small a = ground arith

letters_set : (i : ℕ) → i < 5 → letters (100 + i) ≢ 0
letters_set i l = ground (arith, l)

string_load_helper_lem_example :
    string_load_helper 2 0x10000 (word_at letters) 100 ≡ some (tabulate 5 100 letters)
string_load_helper_lem_example =
    string_load_helper_lem letters letters_small 2 5 100 0x10000 (omega arith) (omega arith)
      (omega arith) letters_set refl

-- `n=%d, %s!` with a negative number and a string, and a number that no specifier is for.
abbrev segments : List Segment
segments =
    record { literal = 0x6E ∷ 0x3D ∷ []; item = signed (negsuc 6) }
    ∷ record { literal = 0x2C ∷ 0x20 ∷ []; item = string (0x61 ∷ []) }
    ∷ []

abbrev digit : ℕ → List ℕ
digit n = (0x30 + n) ∷ []

abbrev signed_digit : ℤ → List ℕ
signed_digit (pos n) = digit n
signed_digit (negsuc n) = 0x2D ∷ digit (n + 1)

print_log_lem_example :
    print_log digit signed_digit digit
      (format_of segments (0x21 ∷ 0 ∷ 0x25 ∷ []))
      (record { clog_string = []; log_args = args_of segments (integer 3 ∷ []) })
    ≡ some (
      record { clog_string = []; log_args = [] },
      output_of digit signed_digit digit segments (0x21 ∷ []),
    )
print_log_lem_example =
    print_log_lem digit signed_digit digit segments (0x21 ∷ []) (0x25 ∷ []) (integer 3 ∷ []) [] refl
      refl
