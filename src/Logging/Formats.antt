-- ===== src/Logging/Formats.antt =====
-- PrintLog of sim/coralnpu_state.cc on a format with its arguments.
use mathlib.Core.List.{append-nil}
use coralnpu_mpact.Prelude.{both}
use coralnpu_mpact.Prelude.{
  ℕ, ◌-◌, ◌^◌, ◌<◌, ◌==◌, ltb, ◌≡◌, refl, ap, sym, ◌∙◌, ◌&&◌, not, Bool, true, false, arith, tests,
}
use coralnpu_mpact.Prelude.{ℤ, pos, negsuc}
use coralnpu_mpact.Scalar.{cast, int32}
use coralnpu_mpact.Prelude.{some, List, [], ◌∷◌, ◌++◌}
use coralnpu_mpact.Logging.{
  option_cons, LogArg, integer, text, formatted, print_arg, print_loop, print_log,
}

-- What is logged: an unsigned number by `%u`, a signed one by `%d`, one in hexadecimal by `%x`, a string
-- by `%s`, or a number or a string under a specifier that is not for it.
pub data Item : Type 0 where
  unsigned : ℕ → Item
  signed : ℤ → Item
  hexadecimal : ℕ → Item
  string : List ℕ → Item
  wrong_integer : ℕ → ℕ → Item
  wrong_text : List ℕ → ℕ → Item

-- Signed numbers have 32 bits, and a wrong specifier is wrong.
abbrev pub is_fit : Item → Bool
is_fit (signed (pos n)) = ltb n (2 ^ 31)
is_fit (signed (negsuc n)) = ltb n (2 ^ 31)
is_fit (wrong_integer n specifier) =
    not (specifier == 0x75) && (not (specifier == 0x64) && not (specifier == 0x78))
is_fit (wrong_text s specifier) = not (specifier == 0x73)
is_fit _ = true

abbrev pub specifier_of : Item → ℕ
specifier_of (unsigned n) = 0x75
specifier_of (signed z) = 0x64
specifier_of (hexadecimal n) = 0x78
specifier_of (string s) = 0x73
specifier_of (wrong_integer n specifier) = specifier
specifier_of (wrong_text s specifier) = specifier

-- The argument: a signed number by its pattern of 32 bits.
abbrev pub arg_of : Item → LogArg
arg_of (unsigned n) = integer n
arg_of (signed (pos n)) = integer n
arg_of (signed (negsuc n)) = integer (2 ^ 32 - 1 - n)
arg_of (hexadecimal n) = integer n
arg_of (string s) = text s
arg_of (wrong_integer n specifier) = integer n
arg_of (wrong_text s specifier) = text s

-- A part of a format: characters, and what is logged behind them.
pub record Segment : Type 0 where
  pub literal : List ℕ
  pub item : Item

abbrev pub is_literal : List ℕ → Bool
is_literal [] = true
is_literal (c ∷ cs) = (not (c == 0) && not (c == 0x25)) && is_literal cs

abbrev pub are_fit : List Segment → Bool
are_fit [] = true
are_fit (s ∷ ss) = (is_literal s.literal && is_fit s.item) && are_fit ss

abbrev pub format_of : List Segment → List ℕ → List ℕ
format_of [] end = end
format_of (s ∷ ss) end = s.literal ++ (0x25 ∷ specifier_of s.item ∷ format_of ss end)

abbrev pub args_of : List Segment → List LogArg → List LogArg
args_of [] extra = extra
args_of (s ∷ ss) extra = arg_of s.item ∷ args_of ss extra

module _ (u : ℕ → List ℕ) (d : ℤ → List ℕ) (x : ℕ → List ℕ) where
  abbrev pub printed : Item → List ℕ
  printed (unsigned n) = u n
  printed (signed z) = d z
  printed (hexadecimal n) = x n
  printed (string s) = s
  printed _ = []

  abbrev pub output_of : List Segment → List ℕ → List ℕ
  output_of [] end = end
  output_of (s ∷ ss) end = s.literal ++ (printed s.item ++ output_of ss end)

not-true : (a : Bool) → not a ≡ true → a ≡ false
not-true false h = refl
not-true true h = cc

signed_argument : (n : ℕ) → n < 2 ^ 31 → cast int32 (pos n) ≡ pos n
unfolding cast
signed_argument n h = ground arith

negative_argument : (n : ℕ) → n < 2 ^ 31 → cast int32 (pos (2 ^ 32 - 1 - n)) ≡ negsuc n
unfolding cast
negative_argument n h = ground arith

module _ (u : ℕ → List ℕ) (d : ℤ → List ℕ) (x : ℕ → List ℕ) where
  formatted-printed :
      (i : Item) → is_fit i ≡ true → formatted u d x (arg_of i) (specifier_of i) ≡ printed u d x i
  unfolding formatted
  formatted-printed (unsigned n) h = refl
  formatted-printed (signed (pos n)) h = ap d (signed_argument n (omega tests))
  formatted-printed (signed (negsuc n)) h = ap d (negative_argument n (omega tests))
  formatted-printed (hexadecimal n) h = refl
  formatted-printed (string s) h = refl
  formatted-printed (wrong_integer n specifier) h = ground arith
  formatted-printed (wrong_text s specifier) h = ground arith

  print_character :
      (c : ℕ) (cs : List ℕ) (args : List LogArg)
      → (not (c == 0) && not (c == 0x25)) ≡ true
      → print_loop u d x (c ∷ cs) args ≡ option_cons c (print_loop u d x cs args)
  unfolding print_loop option_cons
  print_character c [] args n =
      let (p, q) = both (not (c == 0)) (not (c == 0x25)) n in
      rw (not-true (c == 0) p, not-true (c == 0x25) q) refl
  print_character c (e ∷ cs) args n =
      let (p, q) = both (not (c == 0)) (not (c == 0x25)) n in
      rw (not-true (c == 0) p, not-true (c == 0x25) q) refl

  print_literal :
      (cs rest out : List ℕ) (args : List LogArg)
      → is_literal cs ≡ true
      → print_loop u d x rest args ≡ some out
      → print_loop u d x (cs ++ rest) args ≡ some (cs ++ out)
  unfolding option_cons
  print_literal [] rest out args h e = e
  print_literal (c ∷ cs) rest out args h e =
      let (p, q) = both (not (c == 0) && not (c == 0x25)) (is_literal cs) h in
      print_character c (cs ++ rest) args p
      ∙ ap (option_cons c) (print_literal cs rest out args q e)

  print_end :
      (cs : List ℕ) (args : List LogArg) → is_literal cs ≡ true → print_loop u d x cs args ≡ some cs
  unfolding print_loop option_cons
  print_end [] args h = refl
  print_end (c ∷ cs) args h =
      let (p, q) = both (not (c == 0) && not (c == 0x25)) (is_literal cs) h in
      print_character c cs args p ∙ ap (option_cons c) (print_end cs args q)

  -- What stands behind a zero is not read.
  print_zero : (rest : List ℕ) (args : List LogArg) → print_loop u d x (0 ∷ rest) args ≡ some []
  unfolding print_loop
  print_zero [] args = refl
  print_zero (c ∷ rest) args = refl

  specified :
      (specifier : ℕ) (cs : List ℕ) (arg : LogArg) (args : List LogArg) (out : List ℕ)
      → print_loop u d x cs args ≡ some out
      → print_loop u d x (0x25 ∷ specifier ∷ cs) (arg ∷ args)
        ≡ some (formatted u d x arg specifier ++ out)
  unfolding print_arg print_loop
  specified specifier cs arg args out e = rw (print_arg, e) refl

  print_loop_lem :
      (ss : List Segment) (rest end : List ℕ) (extra : List LogArg)
      → are_fit ss ≡ true
      → print_loop u d x rest extra ≡ some end
      → print_loop u d x (format_of ss rest) (args_of ss extra) ≡ some (output_of u d x ss end)
  print_loop_lem [] rest end extra h l = l
  print_loop_lem (s ∷ ss) rest end extra h l =
      let (p, q) = both (is_literal s.literal && is_fit s.item) (are_fit ss) h in
      let (literal, fit) = both (is_literal s.literal) (is_fit s.item) p in
      print_literal s.literal (0x25 ∷ specifier_of s.item ∷ format_of ss rest) _
        (args_of (s ∷ ss) extra) literal
        (rw (sym (formatted-printed s.item fit)) (
          specified (specifier_of s.item) (format_of ss rest) (arg_of s.item) (args_of ss extra) _
            (print_loop_lem ss rest end extra q l)))

  -- PrintLog prints a format of literal parts without `%` and zero, and of specifiers that have their
  -- arguments in order, as its literal parts with the arguments in between: a number below 2 ^ 31 and
  -- not below -2 ^ 31, logged by its pattern of 32 bits, under `%d` as that number, any number under
  -- `%u` and `%x`, a string under `%s`, and nothing under a specifier that is not for the argument. A
  -- zero and what follows it are not printed. All arguments are cleared, those left over too.
  pub print_log_lem :
      (ss : List Segment) (end behind : List ℕ) (extra : List LogArg) (clog_string : List ℕ)
      → are_fit ss ≡ true
      → is_literal end ≡ true
      → print_log u d x
          (format_of ss (end ++ (0 ∷ behind)))
          (record { clog_string = clog_string; log_args = args_of ss extra })
        ≡ some (record { clog_string = clog_string; log_args = [] }, output_of u d x ss end)
  unfolding print_log
  print_log_lem ss end behind extra clog_string h l =
      let ended = print_literal end (0 ∷ behind) [] extra l (print_zero behind extra) in
      rw (print_log, print_loop_lem ss (end ++ (0 ∷ behind)) (end ++ []) extra h ended)
        (rw (append-nil end) refl)
