-- ===== src/Printk/Overrun.antt =====
-- A string that fills the buffer.
use vmwos.Prelude.{
  ℕ, suc, ◌+◌, ◌≤◌, ◌<◌, ◌≡◌, refl, false, none, some, List, [], ◌∷◌, ◌++◌, arith, ◌==◌, ◌>>=◌,
  length, length-append, ap, ◌∙◌, lt→ltb, le→ltb, ne→==, ==_refl,
}
use native.Mathlib.Decide.{ℕ_discrete}
use vmwos.Printk.{
  is_digit, Arg, text, goes, percent, emit, put_all, put_one, put_string, convert, padding,
  skip_point, print_round, checked, print_from, vsnprintf,
}
use vmwos.Printk.Format.{checked-goes}

-- The loop over a string that is too long stops with a full buffer.
put_all-full :
    (size : ℕ) (cs buffer : List ℕ)
    → length buffer < size
    → size ≤ length buffer + length cs
    → (full : List ℕ) × (put_all size cs buffer ≡ some full) × (length full ≡ size)
unfolding put_all emit
put_all-full size [] buffer lt le = absurd (omega (arith, lt, le))
put_all-full size (c ∷ cs) buffer lt le =
    let count = length-append buffer (c ∷ []) in
    elim (ℕ_discrete (length (buffer ++ (c ∷ []))) size) [
      | yes e ↦ (buffer ++ (c ∷ []), rw (lt→ltb (length buffer) size lt, e, ==_refl size) refl, e)
      | no ne ↦
          let (full, made, same) =
            put_all-full size cs (buffer ++ (c ∷ [])) (omega (arith, lt, count, ne))
              (omega (arith, le, count)) in
          (
            full,
            rw (lt→ltb (length buffer) size lt, ne→== (length (buffer ++ (c ∷ []))) size ne) made,
            same,
          )
    ]

-- The two rounds: the string, and the character behind it.
print_from-none :
    (fuel size : ℕ) (s : List ℕ) (c : ℕ) (format : List ℕ) (args : List Arg)
    → 0 < size
    → size ≤ length s
    → (c == percent) ≡ false
    → print_from (suc (suc fuel)) size (goes (percent ∷ 0x73 ∷ c ∷ format) (text s ∷ args) [])
      ≡ none
unfolding print_from print_round convert padding skip_point put_string put_one emit is_digit
print_from-none fuel size s c format args some_room long plain =
    let (full, made, same) =
      put_all-full size s [] (omega (arith, some_room)) (omega (arith, long)) in
    ap
      (λ o. (o >>= λ buffer. some (goes (c ∷ format) args buffer)) >>= λ flow.
        print_from (suc fuel) size (checked size flow))
      made
    ∙ ap (print_from (suc fuel) size)
        (checked-goes size (c ∷ format) args full (λ e. omega (arith, e, same)))
    ∙ rw (plain, le→ltb (length full) size (omega (arith, same))) refl

-- A string argument that is at least as long as the buffer fills it and leaves only the inner
-- loop: vsnprintf goes on and writes the next character of the format, unless it is a percent
-- sign, past the end of the buffer.
pub vsnprintf-none :
    (size : ℕ) (s : List ℕ) (c : ℕ) (format : List ℕ) (args : List Arg)
    → 0 < size
    → size ≤ length s
    → (c == percent) ≡ false
    → vsnprintf size (percent ∷ 0x73 ∷ c ∷ format) (text s ∷ args) ≡ none
unfolding vsnprintf
vsnprintf-none size s c format args some_room long plain = rw (rounds (length format)) (
    rw (print_from-none (suc (suc (length format))) size s c format args some_room long plain) refl)
  where
    rounds : (n : ℕ) → suc (suc (suc n)) + 1 ≡ suc (suc (suc (suc n)))
    rounds n = omega arith
