-- ===== src/Printk/Tests.antt =====
-- Prints by kernel/lib/printk.c.
use vmwos.Prelude.{ℕ, ◌≡◌, refl, none, some, List, [], ◌∷◌, arith, replicate, length}
use vmwos.Printk.{digit_char, is_digit, word, text, vsnprintf, percent}
use vmwos.Printk.Digits.{digit_value, value_from, number_from, value_from-number_from}
use vmwos.Printk.Directive.{
  Directive, literal, decimal, hexadecimal, character, percent_sign, string, AllFit, IsFit,
  format_of, all_args, all_printed, printed, padded, pad_char, first, others, args_of, all_digits,
}
use vmwos.Printk.Format.{vsnprintf-all_printed}
use vmwos.Printk.Decimal.{read_decimal, vsnprintf-read_decimal}
use vmwos.Printk.Overrun.{vsnprintf-none}

-- `a%3d%04x%%%c%s` for -7, 0x2f, `!` and `ok`
abbrev directives : List Directive
directives =
    literal 97
    ∷ decimal (0x33 ∷ []) 0xfffffff9
    ∷ hexadecimal (0x30 ∷ 0x34 ∷ []) 0x2f
    ∷ percent_sign
    ∷ character 33
    ∷ string (111 ∷ 107 ∷ [])
    ∷ []

vsnprintf-all_printed_example :
    vsnprintf 64
      (97 ∷ 0x25 ∷ 0x33 ∷ 0x64 ∷ 0x25 ∷ 0x30 ∷ 0x34 ∷ 0x78 ∷ 0x25 ∷ 0x25 ∷ 0x25 ∷ 0x63 ∷ 0x25 ∷ 0x73
        ∷ [])
      (word 0xfffffff9 ∷ word 0x2f ∷ word 33 ∷ text (111 ∷ 107 ∷ []) ∷ [])
    ≡ some (12, 97 ∷ 0x2d ∷ 0x20 ∷ 0x37 ∷ 0x30 ∷ 0x30 ∷ 0x32 ∷ 0x66 ∷ 0x25 ∷ 33 ∷ 111 ∷ 107 ∷ [])
unfolding AllFit IsFit format_of all_args all_printed printed padded pad_char first others args_of
    all_digits value_from number_from digit_char is_digit digit_value
vsnprintf-all_printed_example =
    vsnprintf-all_printed directives 64
      (
        refl,
        (
          (refl, omega arith, omega arith),
          ((refl, omega arith, omega arith), (tt, (tt, (tt, tt)))),
        ),
      )
      (omega arith)

vsnprintf-none_example : vsnprintf 4 (0x25 ∷ 0x73 ∷ 10 ∷ []) (text (replicate 5 97) ∷ []) ≡ none
vsnprintf-none_example = vsnprintf-none 4 (replicate 5 97) 10 [] [] (omega arith) (omega arith) refl

value_from-number_from_test : value_from 10 0 (number_from 10 10 4294967295) ≡ 4294967295
value_from-number_from_test =
    value_from-number_from 10 10 4294967295 (omega arith) (omega arith) (omega arith)

vsnprintf-read_decimal_example :
    (out : List ℕ) × (vsnprintf 32 (percent ∷ 0x64 ∷ []) (word 0xffffff85 ∷ [])
      ≡ some (length out, out))
    × (read_decimal out ≡ 0xffffff85)
vsnprintf-read_decimal_example = vsnprintf-read_decimal 0xffffff85 32 (omega arith) (omega arith)
