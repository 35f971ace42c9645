-- ===== src/Printk/Padding.antt =====
-- What the inner loops of `vsnprintf` write, and the padding that it reads.
use vmwos.Prelude.{
  ℕ, ◌+◌, ◌-◌, ◌*◌, ◌%◌, ◌^◌, ◌≤◌, ◌<◌, ◌≡◌, refl, true, false, some, List, [], ◌∷◌, ◌++◌, ◌==◌,
  length, length-append, replicate, append_assoc, append-nil, arith, ap, ◌∙◌, sym, subst, lt→ltb,
  ne→==,
}
use vmwos.Printk.{
  Arg, goes, is_digit, emit, put_all, put_one, more_digits, padding, skip_point, put_number,
}
use vmwos.Printk.Digits.{digit_value, value_from}
use vmwos.Printk.Directive.{pad_char, padded, all_digits}

pub put_all-append :
    (size : ℕ) (cs buffer : List ℕ)
    → length buffer + length cs < size
    → put_all size cs buffer ≡ some (buffer ++ cs)
unfolding put_all emit
put_all-append size [] buffer lt = ap some (sym (append-nil buffer))
put_all-append size (c ∷ cs) buffer lt =
    let count = length-append buffer (c ∷ []) in
    let not_full : (length (buffer ++ (c ∷ [])) == size) ≡ false =
      ne→== (length (buffer ++ (c ∷ []))) size (λ e. omega (arith, e, count, lt)) in
    rw (lt→ltb (length buffer) size (omega (arith, lt)), not_full)
      (put_all-append size cs (buffer ++ (c ∷ [])) (omega (arith, count, lt))
        ∙ ap some (append_assoc buffer (c ∷ []) cs))

pub put_one-append :
    (size c : ℕ) (buffer format : List ℕ) (args : List Arg)
    → length buffer + 1 < size
    → put_one size c buffer format args ≡ some (goes format args (buffer ++ (c ∷ [])))
unfolding put_one emit
put_one-append size c buffer format args lt =
    let not_full : (length (buffer ++ (c ∷ [])) == size) ≡ false =
      ne→== (length (buffer ++ (c ∷ []))) size
        (λ e. omega (arith, e, length-append buffer (c ∷ []), lt)) in
    rw (lt→ltb (length buffer) size (omega (arith, lt)), not_full) refl

value_from-le : (x : ℕ) (digits : List ℕ) → x ≤ value_from 10 x digits
unfolding value_from
value_from-le x [] = omega arith
value_from-le x (c ∷ rest) = omega (arith, value_from-le (x * 10 + digit_value c) rest)

digit_value_lem : (d : ℕ) → is_digit d ≡ true → digit_value d ≡ d - 0x30
unfolding digit_value is_digit
digit_value_lem d digit = ground (arith, digit)

more_digits-value_from :
    (pad_len : ℕ) (pad : List ℕ) (c : ℕ) (rest : List ℕ)
    → all_digits pad ≡ true
    → is_digit c ≡ false
    → value_from 10 pad_len pad < 2 ^ 8
    → more_digits pad_len (pad ++ (c ∷ rest)) ≡ (value_from 10 pad_len pad, c ∷ rest)
unfolding more_digits value_from all_digits
more_digits-value_from pad_len [] c rest digits ends lt = rw (ends, more_digits) refl
more_digits-value_from pad_len (d ∷ pad) c rest digits ends lt =
    let digit : is_digit d ≡ true = ground (arith, digits) in
    let same : (pad_len * 10 % 2 ^ 8 + (d - 0x30)) % 2 ^ 8 ≡ pad_len * 10 + digit_value d =
      omega
        (arith, digit_value_lem d digit, value_from-le (pad_len * 10 + digit_value d) pad, lt) in
    rw (digit, same, more_digits)
      (more_digits-value_from (pad_len * 10 + digit_value d) pad c rest (ground (arith, digits))
        ends lt)

digit-no_point : (d : ℕ) → is_digit d ≡ true → (d == 0x2e) ≡ false
unfolding is_digit
digit-no_point d digit = ground (arith, digit)

padding_lem :
    (pad : List ℕ) (c : ℕ) (rest : List ℕ)
    → all_digits pad ≡ true
    → is_digit c ≡ false
    → (c == 0x2e) ≡ false
    → value_from 10 0 pad < 2 ^ 8
    → padding (skip_point (pad ++ (c ∷ rest))) ≡ (pad_char pad, value_from 10 0 pad, c ∷ rest)
unfolding padding skip_point pad_char value_from all_digits
padding_lem [] c rest digits ends no_point lt = rw (no_point, ends) refl
padding_lem (d ∷ pad) c rest digits ends no_point lt =
    let digit : is_digit d ≡ true = ground (arith, digits) in
    let no_point' : (d == 0x2e) ≡ false = digit-no_point d digit in
    let lt' : value_from 10 (digit_value d) pad < 2 ^ 8 =
      subst (λ n. value_from 10 n pad < 2 ^ 8) (from_zero (digit_value d)) lt in
    rw
      (
        no_point',
        digit,
        sym (digit_value_lem d digit),
        from_zero (digit_value d),
        more_digits-value_from (digit_value d) pad c rest (ground (arith, digits)) ends lt',
      )
      refl
  where
    from_zero : (n : ℕ) → 0 + n ≡ n
    from_zero n = omega arith

pub put_number-padded :
    (size signs : ℕ) (pad digits buffer : List ℕ)
    → length buffer + length (padded pad signs digits) < size
    → put_number size (pad_char pad) (value_from 10 0 pad) signs digits buffer
      ≡ some (buffer ++ padded pad signs digits)
unfolding put_number padded
put_number-padded size signs pad digits buffer lt =
    let blanks : List ℕ =
      replicate (value_from 10 0 pad - (signs + length digits)) (pad_char pad) in
    let total = length-append blanks digits in
    let total' = length-append buffer blanks in
    rw (put_all-append size blanks buffer (omega (arith, lt, total))) (
      put_all-append size digits (buffer ++ blanks) (omega (arith, lt, total, total'))
      ∙ ap some (append_assoc buffer blanks digits))

-- The padding of a directive is read.
pub parsed :
    (pad : List ℕ) (c : ℕ) (format : List ℕ)
    → all_digits pad ≡ true
    → is_digit c ≡ false
    → (c == 0x2e) ≡ false
    → value_from 10 0 pad < 2 ^ 8
    → padding (skip_point ((pad ++ (c ∷ [])) ++ format))
      ≡ (pad_char pad, value_from 10 0 pad, c ∷ format)
parsed pad c format digits ends no_point narrow =
    ap (λ f. padding (skip_point f)) (append_assoc pad (c ∷ []) format)
    ∙ padding_lem pad c format digits ends no_point narrow
