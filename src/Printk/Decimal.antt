-- ===== src/Printk/Decimal.antt =====
-- A number that is printed by `%d`, read back.
use vmwos.Prelude.{
  ℕ, zero, suc, ◌+◌, ◌-◌, ◌/◌, ◌%◌, ◌^◌, ◌≤◌, ◌<◌, ◌≡◌, refl, Bool, true, false, not, some, List,
  [], ◌∷◌, ◌++◌, arith, leb, ◌==◌, if◌then◌else◌, length, length-append, append-nil, ◌∙◌, subst,
  Bool-cases, inl, inr,
}
use vmwos.Printk.{word, minus, percent, digit_char, vsnprintf}
use vmwos.Printk.Digits.{value_from, number_from, value_from-number_from}
use vmwos.Printk.Directive.{
  first, others, args_of, all_digits, decimal, printed, padded, all_printed, AllFit, IsFit,
  format_of, all_args,
}
use vmwos.Printk.Format.{vsnprintf-all_printed}

-- The word that a number in decimal stands for, with a minus before it or not.
pub read_decimal : List ℕ → ℕ
read_decimal [] = 0
read_decimal (c ∷ rest) =
    if c == minus then 2 ^ 32 - value_from 10 0 rest else value_from 10 0 (c ∷ rest)

length-number_from : (room base x : ℕ) → length (number_from room base x) ≤ room
unfolding number_from
length-number_from zero base x = omega arith
length-number_from (suc room) base x =
    let total : (xs : List ℕ)
        → length xs ≤ room
        → length (xs ++ (digit_char (x % base) ∷ [])) ≤ suc room =
      λ xs le. omega (arith, le, length-append xs (digit_char (x % base) ∷ [])) in
    elim (Bool-cases (x / base == 0)) [
      | inl last ↦ rw last (total [] (omega arith))
      | inr more ↦
          rw more
            (total (number_from room base (x / base)) (length-number_from room base (x / base)))
    ]

-- The first character is no minus.
begins_plain : List ℕ → Bool
begins_plain [] = true
begins_plain (c ∷ rest) = not (c == minus)

begins_plain-append :
    (xs : List ℕ) (c : ℕ)
    → begins_plain xs ≡ true
    → (c == minus) ≡ false
    → begins_plain (xs ++ (c ∷ [])) ≡ true
unfolding begins_plain
begins_plain-append [] c plain no_minus = rw no_minus refl
begins_plain-append (x ∷ xs) c plain no_minus = plain

digit_char_lem : (d : ℕ) → (digit_char d == minus) ≡ false
unfolding digit_char
digit_char_lem d = ground arith

begins_plain-number_from : (room base x : ℕ) → begins_plain (number_from room base x) ≡ true
unfolding number_from begins_plain
begins_plain-number_from zero base x = refl
begins_plain-number_from (suc room) base x = elim (Bool-cases (x / base == 0)) [
  | inl last ↦
      rw last (begins_plain-append [] (digit_char (x % base)) refl (digit_char_lem (x % base)))
  | inr more ↦ rw more (
      begins_plain-append (number_from room base (x / base)) (digit_char (x % base))
        (begins_plain-number_from room base (x / base)) (digit_char_lem (x % base)))
]

read_decimal-plain :
    (digits : List ℕ) → begins_plain digits ≡ true → read_decimal digits ≡ value_from 10 0 digits
unfolding read_decimal begins_plain value_from
read_decimal-plain [] plain = refl
read_decimal-plain (c ∷ rest) plain = rw (no_minus) refl
  where
    no_minus : (c == minus) ≡ false
    no_minus = ground (arith, plain)

-- Without padding.
padded-nil : (signs : ℕ) (digits : List ℕ) → padded [] signs digits ≡ digits
unfolding padded value_from
padded-nil signs digits = rw (no_pad (signs + length digits)) refl
  where
    no_pad : (n : ℕ) → 0 - n ≡ 0
    no_pad n = omega arith

decimal-read :
    (x : ℕ)
    → x < 2 ^ 32
    → (length (printed (decimal [] x)) ≤ 11) × (read_decimal (printed (decimal [] x)) ≡ x)
unfolding printed read_decimal
decimal-read x lt = elim (Bool-cases (leb (2 ^ 31) x)) [
  | inl negative ↦
      let digits : List ℕ = number_from 10 10 (2 ^ 32 - x) in
      let value =
        value_from-number_from 10 10 (2 ^ 32 - x) (omega arith) (omega arith)
          (ground (arith, negative)) in
      rw (negative, padded-nil 1 digits)
        (omega (arith, length-number_from 10 10 (2 ^ 32 - x)), omega (arith, value, lt))
  | inr natural ↦
      let digits : List ℕ = number_from 10 10 x in
      rw (natural, padded-nil 0 digits)
        (
          omega (arith, length-number_from 10 10 x),
          read_decimal-plain digits (begins_plain-number_from 10 10 x)
              ∙ value_from-number_from 10 10 x (omega arith) (omega arith) (omega (arith, lt)),
        )
]

-- For any word and a buffer of at least 14 bytes, what vsnprintf prints by %d, read as a decimal
-- number with a sign, is the word again, negative numbers as their pattern.
pub vsnprintf-read_decimal :
    (x size : ℕ)
    → x < 2 ^ 32
    → 14 ≤ size
    → (out : List ℕ) × (vsnprintf size (percent ∷ 0x64 ∷ []) (word x ∷ []) ≡ some (length out, out))
      × (read_decimal out ≡ x)
unfolding AllFit IsFit format_of all_args all_printed first others args_of all_digits value_from
vsnprintf-read_decimal x size lt large =
    let (short, back) = decimal-read x lt in
    let out : List ℕ = printed (decimal [] x) in
    (
      out,
      subst (λ t. vsnprintf size (percent ∷ 0x64 ∷ []) (word x ∷ []) ≡ some (length t, t))
          (append-nil out)
          (vsnprintf-all_printed (decimal [] x ∷ []) size ((refl, omega arith, lt), tt)
            (omega (arith, large, short, length-append out []))),
      back,
    )
