-- ===== src/Printk/Directive.antt =====
-- A format as a list of directives, and what it prints.
use vmwos.Prelude.{
  ℕ, ◌+◌, ◌-◌, ◌%◌, ◌^◌, ◌<◌, ◌≡◌, Bool, true, false, ◌&&◌, List, [], ◌∷◌, ◌++◌, leb, ◌==◌,
  if◌then◌else◌, length, replicate,
}
use vmwos.Printk.{Arg, word, text, percent, minus, is_digit}
use vmwos.Printk.Digits.{value_from, number_from}

-- A character, a number in decimal or in hexadecimal with the digits of its padding, a character
-- from an argument, a percent sign, and a string.
pub data Directive : Type 0 where
  literal : ℕ → Directive
  decimal : List ℕ → ℕ → Directive
  hexadecimal : List ℕ → ℕ → Directive
  character : ℕ → Directive
  percent_sign : Directive
  string : List ℕ → Directive

-- The directive in the format: its first character and the others.
unfoldable pub first : Directive → ℕ
first (literal c) = c
first (decimal pad x) = percent
first (hexadecimal pad x) = percent
first (character c) = percent
first percent_sign = percent
first (string s) = percent

unfoldable pub others : Directive → List ℕ
others (literal c) = []
others (decimal pad x) = pad ++ (0x64 ∷ [])
others (hexadecimal pad x) = pad ++ (0x78 ∷ [])
others (character c) = 0x63 ∷ []
others percent_sign = percent ∷ []
others (string s) = 0x73 ∷ []

unfoldable pub args_of : Directive → List Arg
args_of (literal c) = []
args_of (decimal pad x) = word x ∷ []
args_of (hexadecimal pad x) = word x ∷ []
args_of (character c) = word c ∷ []
args_of percent_sign = []
args_of (string s) = text s ∷ []

-- Padding before a number: up to its width, with `0` if its digits begin with one.
unfoldable pub pad_char : List ℕ → ℕ
pad_char [] = 0x20
pad_char (c ∷ rest) = if c == 0x30 then 0x30 else 0x20

unfoldable pub padded : List ℕ → ℕ → List ℕ → List ℕ
padded pad signs digits =
    replicate (value_from 10 0 pad - (signs + length digits)) (pad_char pad) ++ digits

-- What a directive prints; the padding stands behind a minus.
unfoldable pub printed : Directive → List ℕ
printed (literal c) = c ∷ []
printed (decimal pad x) =
    if leb (2 ^ 31) x
    then minus ∷ padded pad 1 (number_from 10 10 (2 ^ 32 - x))
    else padded pad 0 (number_from 10 10 x)
printed (hexadecimal pad x) = padded pad 0 (number_from 10 16 x)
printed (character c) = c % 2 ^ 8 ∷ []
printed percent_sign = percent ∷ []
printed (string s) = s

unfoldable pub all_digits : List ℕ → Bool
all_digits [] = true
all_digits (c ∷ rest) = is_digit c && all_digits rest

-- Widths are below 256, and numbers are words.
unfoldable pub IsFit : Directive → Type 0
IsFit (literal c) = (c == percent) ≡ false
IsFit (decimal pad x) = (all_digits pad ≡ true) × (value_from 10 0 pad < 2 ^ 8) × (x < 2 ^ 32)
IsFit (hexadecimal pad x) = (all_digits pad ≡ true) × (value_from 10 0 pad < 2 ^ 8) × (x < 2 ^ 32)
IsFit (character c) = Unit
IsFit percent_sign = Unit
IsFit (string s) = Unit

-- The format, the arguments and the output of a list of directives.
unfoldable pub format_of : List Directive → List ℕ
format_of [] = []
format_of (d ∷ rest) = first d ∷ (others d ++ format_of rest)

unfoldable pub all_args : List Directive → List Arg
all_args [] = []
all_args (d ∷ rest) = args_of d ++ all_args rest

unfoldable pub all_printed : List Directive → List ℕ
all_printed [] = []
all_printed (d ∷ rest) = printed d ++ all_printed rest

unfoldable pub AllFit : List Directive → Type 0
AllFit [] = Unit
AllFit (d ∷ rest) = IsFit d × AllFit rest
