-- ===== src/Handlers/Transfer/Amount.antt =====
-- `_parse_and_validate_amount` of bot/handlers/transfer.py, on the characters of the text.
use mathlib.Core.List.{reverse}
use telegram_bot_new_version.Prelude.{
  ltb, ◌==◌, if◌then◌else◌, length, ℕ, ◌+◌, ◌*◌, ◌⊎◌, inl, inr, Bool, true, false, not, Option,
  none, some, List, [], ◌∷◌,
}

-- What `translate(_DIGIT_TRANS)` leaves of a character: a decimal digit with its value, of the three
-- alphabets or of one that `int` reads; a character that `isdigit` takes and `int` does not, such as a
-- superscript; white space; anything else.
pub data Sign : Type 0 where
  digit : ℕ → Sign
  superscript space other : Sign

pub data AmountError : Type 0 where
  empty not_a_number too_long not_valid not_positive too_much : AmountError

-- _MAX_TRANSFER
abbrev pub max_transfer : ℕ
max_transfer = 1000

-- `lstrip`, and `strip` with it.
unfoldable pub skip_spaces : List Sign → List Sign
skip_spaces [] = []
skip_spaces (space ∷ cs) = skip_spaces cs
skip_spaces (c ∷ cs) = c ∷ cs

unfoldable pub strip : List Sign → List Sign
unfolding skip_spaces
strip cs = reverse (skip_spaces (reverse (skip_spaces cs)))

unfoldable pub is_digits : List Sign → Bool
is_digits [] = true
is_digits (digit v ∷ cs) = is_digits cs
is_digits (superscript ∷ cs) = is_digits cs
is_digits (c ∷ cs) = false

-- `int`, read from the left; `none` is its ValueError.
unfoldable pub read_number : (value : ℕ) → List Sign → Option ℕ
read_number value [] = some value
read_number value (digit v ∷ cs) = read_number (value * 10 + v) cs
read_number value (c ∷ cs) = none

-- The checks on a text that is not empty.
unfoldable pub validate_amount : List Sign → ℕ ⊎ AmountError
unfolding is_digits read_number
validate_amount normalized =
    if not (is_digits normalized)
    then inr not_a_number
    else if ltb 15 (length normalized)
    then inr too_long
    else elim (read_number 0 normalized) [
      | none ↦ inr not_valid
      | some amount ↦
          if amount == 0
          then inr not_positive
          else if ltb max_transfer amount
          then inr too_much
          else inl amount
    ]

abbrev pub is_empty : List Sign → Bool
is_empty [] = true
is_empty (c ∷ cs) = false

unfoldable pub parse_and_validate_amount : List Sign → ℕ ⊎ AmountError
unfolding strip validate_amount
parse_and_validate_amount text =
    if is_empty (strip text) then inr empty else validate_amount (strip text)
