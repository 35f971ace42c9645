-- ===== src/Printk.antt =====
-- `vsnprintf` of kernel/lib/printk.c.
--
-- The buffer is the list of the bytes written so far, so that `buffer_pointer` is its length; a write
-- past `size` bytes has the result `none`. `size` is below 2^31, so that `max_print_size`, an `int`,
-- is the same number. The format is the list of its characters without the final
-- NUL. The arguments are typed: reading one of another type, or past the last, is undefined.
pub mod Digits
pub mod Directive
pub mod Padding
pub mod Format
pub mod Decimal
pub mod Overrun
pub mod Tests
use vmwos.Prelude.{
  ℕ, zero, suc, ◌+◌, ◌-◌, ◌*◌, ◌/◌, ◌%◌, ◌^◌, Bool, true, false, not, ◌&&◌, ◌||◌, Option, none,
  some, List, [], ◌∷◌, ◌++◌, ltb, leb, ◌==◌, if◌then◌else◌, ◌>>=◌, length, take, replicate,
}

-- `unsigned long`, `uint64_t` and `char *` without its NUL.
pub data Arg : Type 0 where
  word : ℕ → Arg
  wide : ℕ → Arg
  text : List ℕ → Arg

-- What a round of the loop comes to: the loop is left, or goes on with the rest of the format, the
-- rest of the arguments and the buffer.
pub data Progress : Type 0 where
  leaves : List ℕ → Progress
  goes : List ℕ → List Arg → List ℕ → Progress

abbrev pub percent : ℕ
percent = 0x25

abbrev pub minus : ℕ
minus = 0x2d

unfoldable pub is_digit : ℕ → Bool
is_digit c = leb 0x30 c && leb c 0x39

-- buffer[buffer_pointer]=c; buffer_pointer++
pub emit : ℕ → ℕ → List ℕ → Option (List ℕ)
emit size c buffer = if ltb (length buffer) size then some (buffer ++ (c ∷ [])) else none

-- The inner loops, which are left when the buffer is full.
pub put_all : ℕ → List ℕ → List ℕ → Option (List ℕ)
put_all size [] buffer = some buffer
put_all size (c ∷ rest) buffer = emit size c buffer >>= λ buffer'.
    if length buffer' == size then some buffer' else put_all size rest buffer'

-- A single character, with which a full buffer leaves the outer loop.
pub put_one : ℕ → ℕ → List ℕ → List ℕ → List Arg → Option Progress
put_one size c buffer format args = emit size c buffer >>= λ buffer'.
    some (if length buffer' == size then leaves buffer' else goes format args buffer')

-- The further digits of the padding; `pad_len` is a `char`.
pub more_digits : ℕ → List ℕ → ℕ × List ℕ
more_digits pad_len [] = (pad_len, [])
more_digits pad_len (c ∷ rest) = elim (is_digit c) [
  | true ↦ more_digits ((pad_len * 10 % 2 ^ 8 + (c - 0x30)) % 2 ^ 8) rest
  | false ↦ (pad_len, c ∷ rest)
]

-- `pad_value`, `pad_len` and the rest of the format.
pub padding : List ℕ → ℕ × ℕ × List ℕ
padding [] = (0x20, 0, [])
padding (c ∷ rest) =
    if is_digit c
    then (let (pad_len, format) = more_digits (c - 0x30) rest in
        (if c == 0x30 then 0x30 else 0x20, pad_len, format))
    else (0x20, 0, c ∷ rest)

-- A precision is skipped.
pub skip_point : List ℕ → List ℕ
skip_point [] = []
skip_point (c ∷ rest) = if c == 0x2e then rest else c ∷ rest

-- A digit from its number.
unfoldable pub digit_char : ℕ → ℕ
digit_char d = if ltb d 10 then d + 0x30 else d - 10 + 0x61

-- The loops over the digits, which fill `int_buffer` downwards; `room` places are left there, and
-- `digits` is what stands behind them.
pub to_digits : ℕ → ℕ → ℕ → List ℕ → Option (List ℕ)
to_digits zero base x digits = none
to_digits (suc room) base x digits =
    let digits' = digit_char (x % base) ∷ digits in
    elim (x / base == 0) [ true ↦ some digits' | false ↦ to_digits room base (x / base) digits' ]

-- The padding and the digits, behind `signs` characters.
pub put_number : ℕ → ℕ → ℕ → ℕ → List ℕ → List ℕ → Option (List ℕ)
put_number size pad_value pad_len signs digits buffer =
    put_all size (replicate (pad_len - (signs + length digits)) pad_value) buffer >>= λ buffer'.
    put_all size digits buffer'

-- `%d` and `%i`
pub put_decimal : ℕ → ℕ → ℕ → ℕ → List ℕ → List Arg → List ℕ → Option Progress
put_decimal size pad_value pad_len x format args buffer =
    if leb (2 ^ 31) x
    then (emit size minus buffer >>= λ buffer₁.
        if length buffer₁ == size
        then some (leaves buffer₁)
        else (to_digits 10 10 (2 ^ 32 - x) [] >>= λ digits.
            put_number size pad_value pad_len 1 digits buffer₁ >>= λ buffer₂.
            some (goes format args buffer₂)))
    else (to_digits 10 10 x [] >>= λ digits.
        put_number size pad_value pad_len 0 digits buffer >>= λ buffer₂.
        some (goes format args buffer₂))

-- `%x`, `%X` and `%p`
pub put_hex : ℕ → ℕ → ℕ → ℕ → List ℕ → List Arg → List ℕ → Option Progress
put_hex size pad_value pad_len x format args buffer = to_digits 10 16 x [] >>= λ digits.
    put_number size pad_value pad_len 0 digits buffer >>= λ buffer'. some (goes format args buffer')

-- `%llx`; whatever stands behind the first `l`, two characters are skipped.
pub put_wide : ℕ → List ℕ → List Arg → List ℕ → Option Progress
put_wide size (_ ∷ _ ∷ format) (wide lx ∷ args) buffer = to_digits 18 16 lx [] >>= λ digits.
    put_all size digits buffer >>= λ buffer'. some (goes format args buffer')
put_wide size _ _ buffer = none

-- A conversion that takes a word.
pub with_word : List Arg → (ℕ → List Arg → Option Progress) → Option Progress
with_word (word x ∷ args) convert = convert x args
with_word _ convert = none

pub put_string : ℕ → List ℕ → List Arg → List ℕ → Option Progress
put_string size format (text s ∷ args) buffer =
    put_all size s buffer >>= λ buffer'. some (goes format args buffer')
put_string size format _ buffer = none

-- The conversion, by its character; an unknown one stays in the format.
pub convert : ℕ → ℕ → ℕ → List ℕ → List Arg → List ℕ → Option Progress
convert size pad_value pad_len [] args buffer = some (goes [] args buffer)
convert size pad_value pad_len (c ∷ format) args buffer =
    if c == 0x64 || c == 0x69
    then with_word args (λ x rest. put_decimal size pad_value pad_len x format rest buffer)
    else if c == 0x6c
    then put_wide size format args buffer
    else if c == 0x78 || c == 0x58 || c == 0x70
    then with_word args (λ x rest. put_hex size pad_value pad_len x format rest buffer)
    else if c == 0x63
    then with_word args (λ x rest. put_one size (x % 2 ^ 8) buffer format rest)
    else if c == percent
    then put_one size percent buffer format args
    else if c == 0x73
    then put_string size format args buffer
    else some (goes (c ∷ format) args buffer)

-- A round of the loop at a character of the format.
pub print_round : ℕ → ℕ → List ℕ → List Arg → List ℕ → Option Progress
print_round size c format args buffer =
    if c == percent
    then (let (pad_value, pad_len, format') = padding (skip_point format) in
        convert size pad_value pad_len format' args buffer)
    else put_one size c buffer format args

-- The test at the end of a round.
pub checked : ℕ → Progress → Progress
checked size (leaves buffer) = leaves buffer
checked size (goes format args buffer) =
    if length buffer + 1 == size then leaves buffer else goes format args buffer

-- The loop.
pub print_from : ℕ → ℕ → Progress → Option (List ℕ)
print_from fuel size (leaves buffer) = some buffer
print_from zero size (goes format args buffer) = none
print_from (suc fuel) size (goes [] args buffer) = some buffer
print_from (suc fuel) size (goes (c ∷ format) args buffer) =
    print_round size c format args buffer >>= λ flow. print_from fuel size (checked size flow)

-- The result, and the text before the NUL that ends it. A buffer of no bytes has no place for it.
pub terminated : ℕ → List ℕ → Option (ℕ × List ℕ)
terminated zero buffer = none
terminated (suc last) buffer =
    if leb (suc last) (length buffer)
    then some (last, take last buffer)
    else some (length buffer, buffer)

-- Each round takes a character off the format.
pub vsnprintf : ℕ → List ℕ → List Arg → Option (ℕ × List ℕ)
vsnprintf size format args =
    print_from (length format + 1) size (goes format args []) >>= λ buffer. terminated size buffer
