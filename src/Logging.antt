-- ===== src/Logging.antt =====
-- The log instructions of sim/coralnpu_instructions.cc, and PrintLog of sim/coralnpu_state.cc.
-- A string is the list of its characters.
pub mod Strings
pub mod Formats
use coralnpu_mpact.Prelude.{
  ℕ, zero, suc, ◌+◌, ◌*◌, ◌/◌, ◌%◌, ◌^◌, ◌==◌, ltb, ◌||◌, ◌&&◌, not, Bool, true, false,
}
use coralnpu_mpact.Prelude.{if◌then◌else◌, Option, none, some, List, [], ◌∷◌, ◌++◌, ℤ, pos}
use coralnpu_mpact.Scalar.{cast, int32}

-- `WordHasZero`
unfoldable pub word_has_zero : ℕ → Bool
word_has_zero data_word =
    data_word / 2 ^ 24 % 2 ^ 8 == 0
    || data_word / 2 ^ 16 % 2 ^ 8 == 0
    || data_word / 2 ^ 8 % 2 ^ 8 == 0
    || data_word % 2 ^ 8 == 0

-- The four characters of a word, from its lowest byte on.
abbrev pub word_bytes : ℕ → List ℕ
word_bytes data_word =
    data_word % 2 ^ 8
    ∷ data_word / 2 ^ 8 % 2 ^ 8
    ∷ data_word / 2 ^ 16 % 2 ^ 8
    ∷ data_word / 2 ^ 24 % 2 ^ 8
    ∷ []

unfoldable pub option_cons : ℕ → Option (List ℕ) → Option (List ℕ)
option_cons c none = none
option_cons c (some cs) = some (c ∷ cs)

-- `s.resize(s.find('\0'))`; `none` is the exception of a string without a zero.
unfoldable pub trimmed : List ℕ → Option (List ℕ)
trimmed [] = none
trimmed (c ∷ cs) = if c == 0 then some [] else option_cons c (trimmed cs)

-- `none` is a loop that has run out of fuel.
unfoldable pub string_load_loop : ℕ → ℕ → (ℕ → ℕ) → ℕ → List ℕ → Option (List ℕ)
string_load_loop zero max_physical_address load_memory addr out_string = none
string_load_loop (suc fuel) max_physical_address load_memory addr out_string =
    let data_word = load_memory addr in
    let out = out_string ++ word_bytes data_word in
    let next = (addr + 4) % 2 ^ 32 in
    let later = string_load_loop fuel max_physical_address load_memory next out in
    if not (word_has_zero data_word) && ltb next max_physical_address then later else some out

-- `CoralNPUStringLoadHelper`, where words of memory are loaded by their address.
unfoldable pub string_load_helper : ℕ → ℕ → (ℕ → ℕ) → ℕ → Option (List ℕ)
string_load_helper fuel max_physical_address load_memory addr =
    elim (string_load_loop fuel max_physical_address load_memory addr []) [
      | none ↦ none
      | some out_string ↦ trimmed out_string
    ]

-- An argument of a log: `std::any` that holds a `uint32_t` or a string.
pub data LogArg : Type 0 where
  integer : ℕ → LogArg
  text : List ℕ → LogArg

pub record LogState : Type 0 where
  pub clog_string : List ℕ
  pub log_args : List LogArg

-- absl's StrFormat for `%u` and `%x` of a `uint32_t`, and for `%d` of an `int32_t`.
module _ (format_u : ℕ → List ℕ) (format_d : ℤ → List ℕ) (format_x : ℕ → List ℕ) where
  -- What an argument prints under a specifier; a wrong one prints nothing here.
  unfoldable pub formatted : LogArg → ℕ → List ℕ
  formatted (integer n) specifier =
      if specifier == 0x75
      then format_u n
      else if specifier == 0x64
      then format_d (cast int32 (pos n))
      else if specifier == 0x78
      then format_x n
      else []
  formatted (text s) specifier = if specifier == 0x73 then s else []

  -- The arguments left, and what is printed of the first one.
  unfoldable pub print_arg : List LogArg → ℕ → (List LogArg → Option (List ℕ)) → Option (List ℕ)
  print_arg [] specifier later = none
  print_arg (arg ∷ args) specifier later = elim (later args) [
    | none ↦ none
    | some rest ↦ some (formatted arg specifier ++ rest)
  ]

  -- The loop of `PrintLog`, which ends at a zero; `none` is a failed CHECK, or a `%` at the end, after
  -- which the code reads on behind the string.
  unfoldable pub print_loop : List ℕ → List LogArg → Option (List ℕ)
  print_loop [] args = some []
  print_loop (c ∷ []) args = if c == 0 then some [] else if c == 0x25 then none else some (c ∷ [])
  print_loop (c ∷ d ∷ cs) args =
      let after = print_loop (d ∷ cs) args in
      let specified = print_arg args d (print_loop cs) in
      if c == 0 then some [] else if c == 0x25 then specified else option_cons c after

  -- `PrintLog`: the state, and what it prints.
  unfoldable pub print_log : List ℕ → LogState → Option (LogState × List ℕ)
  print_log format_string s = elim (print_loop format_string s.log_args) [
    | none ↦ none
    | some log_string ↦ some (record s { log_args = [] }, log_string)
  ]

  -- `SetLogArgs`
  unfoldable pub set_log_args : LogArg → LogState → LogState
  set_log_args data_value s = record s { log_args = s.log_args ++ (data_value ∷ []) }

  -- A CLOG: the word is added to the string, which becomes an argument when it ends.
  unfoldable pub clog : ℕ → LogState → Option LogState
  clog data_word s =
      let clog_string = s.clog_string ++ word_bytes data_word in
      if word_has_zero data_word
      then elim (trimmed clog_string) [
        | none ↦ none
        | some arg ↦ some (record (set_log_args (text arg) s) { clog_string = [] })
      ]
      else some (record s { clog_string = clog_string })

  -- `CoralNPULogInstruction`, with the source operand; the state, and what is printed.
  unfoldable pub log_instruction : ℕ → ℕ → (ℕ → ℕ) → ℕ → ℕ → LogState → Option (LogState × List ℕ)
  log_instruction fuel max_physical_address load_memory log_mode source s =
      if log_mode == 0
      then elim (string_load_helper fuel max_physical_address load_memory source) [
        | none ↦ none
        | some format_string ↦ print_log format_string s
      ]
      else if log_mode == 1
      then some (set_log_args (integer source) s, [])
      else if log_mode == 2
      then elim (clog source s) [ none ↦ none | some s' ↦ some (s', []) ]
      else if log_mode == 3
      then elim (string_load_helper fuel max_physical_address load_memory source) [
        | none ↦ none
        | some str_arg ↦ some (set_log_args (text str_arg) s, [])
      ]
      else some (s, [])
