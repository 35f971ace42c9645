-- ===== src/Printk/Format.antt =====
-- The output of `vsnprintf` for a format that is given as a list of directives.
use vmwos.Prelude.{
  ℕ, zero, suc, ◌+◌, ◌-◌, ◌%◌, ◌^◌, ◌≤◌, ◌<◌, ◌≡◌, ◌≢◌, refl, true, false, some, List, [], ◌∷◌,
  ◌++◌, leb, ◌==◌, ◌>>=◌, length, length-append, append_assoc, append-nil, arith, ap, ◌∙◌, sym,
  subst, Bool-cases, inl, inr, lt→ltb, lt→leb, ne→==,
}
use vmwos.Printk.{
  Arg, word, goes, percent, minus, is_digit, emit, padding, skip_point, to_digits, put_number,
  put_decimal, put_hex, with_word, put_string, convert, print_round, checked, print_from,
  terminated, vsnprintf,
}
use vmwos.Printk.Digits.{value_from, number_from, to_digits-number_from}
use vmwos.Printk.Directive.{
  Directive, literal, decimal, hexadecimal, character, percent_sign, string, first, others, args_of,
  pad_char, padded, printed, IsFit, format_of, all_args, all_printed, AllFit,
}
use vmwos.Printk.Padding.{put_all-append, put_one-append, put_number-padded, parsed}

-- A negative number, in both the code and the reference.
negative-printed :
    (size x : ℕ) (pad : List ℕ) (format : List ℕ) (args : List Arg) (buffer : List ℕ)
    → x < 2 ^ 32
    → leb (2 ^ 31) x ≡ true
    → let text' = minus ∷ padded pad 1 (number_from 10 10 (2 ^ 32 - x)) in
      length buffer + length text' + 1 < size
      → put_decimal size (pad_char pad) (value_from 10 0 pad) x format args buffer
        ≡ some (goes format args (buffer ++ text'))
unfolding put_decimal emit
negative-printed size x pad format args buffer small negative lt =
    let digits : List ℕ = number_from 10 10 (2 ^ 32 - x) in
    let count = length-append buffer (minus ∷ []) in
    let not_full : (length (buffer ++ (minus ∷ [])) == size) ≡ false =
      ne→== (length (buffer ++ (minus ∷ []))) size (λ e. omega (arith, e, count, lt)) in
    let filled : to_digits 10 10 (2 ^ 32 - x) [] ≡ some digits =
      to_digits-number_from 10 10 (2 ^ 32 - x) [] (omega arith) (omega arith)
        (ground (arith, negative))
      ∙ ap some (append-nil digits) in
    let put : put_number size (pad_char pad) (value_from 10 0 pad) 1 digits (buffer ++ (minus ∷ []))
        ≡ some (buffer ++ (minus ∷ padded pad 1 digits)) =
      put_number-padded size 1 pad digits (buffer ++ (minus ∷ [])) (omega (arith, count, lt))
      ∙ ap some (append_assoc buffer (minus ∷ []) (padded pad 1 digits)) in
    rw (negative, lt→ltb (length buffer) size (omega (arith, lt)), not_full, filled, put) refl

put_decimal-printed :
    (size x : ℕ) (pad : List ℕ) (format : List ℕ) (args : List Arg) (buffer : List ℕ)
    → x < 2 ^ 32
    → length buffer + length (printed (decimal pad x)) + 1 < size
    → put_decimal size (pad_char pad) (value_from 10 0 pad) x format args buffer
      ≡ some (goes format args (buffer ++ printed (decimal pad x)))
unfolding printed put_decimal padded
put_decimal-printed size x pad format args buffer small lt = elim (Bool-cases (leb (2 ^ 31) x)) [
  | inl negative ↦
      let same : printed (decimal pad x) ≡ minus ∷ padded pad 1 (number_from 10 10 (2 ^ 32 - x)) =
        rw negative refl in
      negative-printed size x pad format args buffer small negative
        (subst (λ t. length buffer + length t + 1 < size) same lt)
      ∙ ap (λ t. some (goes format args (buffer ++ t))) (sym same)
  | inr natural ↦
      let digits : List ℕ = number_from 10 10 x in
      let same : printed (decimal pad x) ≡ padded pad 0 digits = rw natural refl in
      let filled : to_digits 10 10 x [] ≡ some digits =
        to_digits-number_from 10 10 x [] (omega arith) (omega arith) (omega (arith, small))
        ∙ ap some (append-nil digits) in
      let put : put_number size (pad_char pad) (value_from 10 0 pad) 0 digits buffer
          ≡ some (buffer ++ padded pad 0 digits) =
        put_number-padded size 0 pad digits buffer
          (omega (arith, subst (λ t. length buffer + length t + 1 < size) same lt)) in
      rw (natural, filled, put) refl
]

put_hex-printed :
    (size x : ℕ) (pad : List ℕ) (format : List ℕ) (args : List Arg) (buffer : List ℕ)
    → x < 2 ^ 32
    → length buffer + length (printed (hexadecimal pad x)) + 1 < size
    → put_hex size (pad_char pad) (value_from 10 0 pad) x format args buffer
      ≡ some (goes format args (buffer ++ printed (hexadecimal pad x)))
unfolding put_hex printed
put_hex-printed size x pad format args buffer small lt =
    let digits : List ℕ = number_from 10 16 x in
    let filled : to_digits 10 16 x [] ≡ some digits =
      to_digits-number_from 10 16 x [] (omega arith) (omega arith) (omega (arith, small))
      ∙ ap some (append-nil digits) in
    rw (filled, put_number-padded size 0 pad digits buffer (omega (arith, lt))) refl

-- A round prints a directive.
print_round-printed :
    (d : Directive) (size : ℕ) (format : List ℕ) (args : List Arg) (buffer : List ℕ)
    → IsFit d
    → length buffer + length (printed d) + 1 < size
    → print_round size (first d) (others d ++ format) (args_of d ++ args) buffer
      ≡ some (goes format args (buffer ++ printed d))
unfolding print_round first others args_of IsFit convert with_word put_string printed is_digit
    padding skip_point
print_round-printed (literal c) size format args buffer fit lt =
    rw fit (put_one-append size c buffer format args (omega (arith, lt)))
print_round-printed (decimal pad x) size format args buffer (digits, narrow, small) lt =
    ap (λ p. convert size p.0 p.1 p.2 (word x ∷ args) buffer)
      (parsed pad 0x64 format digits refl refl narrow)
    ∙ put_decimal-printed size x pad format args buffer small lt
print_round-printed (hexadecimal pad x) size format args buffer (digits, narrow, small) lt =
    ap (λ p. convert size p.0 p.1 p.2 (word x ∷ args) buffer)
      (parsed pad 0x78 format digits refl refl narrow)
    ∙ put_hex-printed size x pad format args buffer small lt
print_round-printed (character c) size format args buffer fit lt =
    put_one-append size (c % 2 ^ 8) buffer format args (omega (arith, lt))
print_round-printed percent_sign size format args buffer fit lt =
    put_one-append size percent buffer format args (omega (arith, lt))
print_round-printed (string s) size format args buffer fit lt =
    rw (put_all-append size s buffer (omega (arith, lt))) refl

pub checked-goes :
    (size : ℕ) (format : List ℕ) (args : List Arg) (buffer : List ℕ)
    → length buffer + 1 ≢ size
    → checked size (goes format args buffer) ≡ goes format args buffer
unfolding checked
checked-goes size format args buffer room = rw (ne→== (length buffer + 1) size room) refl

print_from-all_printed :
    (ds : List Directive) (fuel size : ℕ) (buffer : List ℕ)
    → AllFit ds
    → length ds < fuel
    → length buffer + length (all_printed ds) + 1 < size
    → print_from fuel size (goes (format_of ds) (all_args ds) buffer)
      ≡ some (buffer ++ all_printed ds)
unfolding print_from format_of all_args all_printed AllFit
print_from-all_printed [] zero size buffer fit enough lt = absurd (omega (arith, enough))
print_from-all_printed [] (suc fuel) size buffer fit enough lt = ap some (sym (append-nil buffer))
print_from-all_printed (d ∷ ds) zero size buffer fit enough lt = absurd (omega (arith, enough))
print_from-all_printed (d ∷ ds) (suc fuel) size buffer (fit, fits) enough lt =
    let total = length-append (printed d) (all_printed ds) in
    let total' = length-append buffer (printed d) in
    ap (λ o. o >>= λ flow. print_from fuel size (checked size flow))
      (print_round-printed d size (format_of ds) (all_args ds) buffer fit
        (omega (arith, total, lt)))
    ∙ ap (print_from fuel size) (
        checked-goes size (format_of ds) (all_args ds) (buffer ++ printed d)
          (λ e. omega (arith, e, total, total', lt)))
    ∙ print_from-all_printed ds fuel size (buffer ++ printed d) fits (omega (arith, enough))
        (omega (arith, total, total', lt))
    ∙ ap some (append_assoc buffer (printed d) (all_printed ds))

length-format_of : (ds : List Directive) → length ds ≤ length (format_of ds)
unfolding format_of
length-format_of [] = omega arith
length-format_of (d ∷ ds) =
    omega (arith, length-format_of ds, length-append (others d) (format_of ds))

-- For a format of any directives (characters, %d, %x with padding widths below 256, %c, %%, %s)
-- whose output is more than one byte shorter than the buffer, vsnprintf ends, writes nothing
-- past the buffer, returns the length of the output, and the buffer holds what the directives
-- print, in order.
pub vsnprintf-all_printed :
    (ds : List Directive) (size : ℕ)
    → AllFit ds
    → length (all_printed ds) + 1 < size
    → vsnprintf size (format_of ds) (all_args ds) ≡ some (length (all_printed ds), all_printed ds)
unfolding vsnprintf terminated
vsnprintf-all_printed ds zero fit lt = absurd (omega (arith, lt))
vsnprintf-all_printed ds (suc last) fit lt =
    rw
      (
        print_from-all_printed ds (length (format_of ds) + 1) (suc last) [] fit
            (omega (arith, length-format_of ds)) (omega (arith, lt)),
        lt→leb (suc last) (length (all_printed ds)) (omega (arith, lt)),
      )
      refl
