-- ===== src/Printk/Digits.antt =====
-- The digits of a number.
use native.Mathlib.Nat.{div-lt_iff_lt-mul, pow-suc, mod-add-div', mod-lt, pow-zero}
use vmwos.Prelude.{
  ℕ, zero, suc, ◌+◌, ◌-◌, ◌*◌, ◌/◌, ◌%◌, ◌^◌, ◌≤◌, ◌<◌, ◌≡◌, refl, false, some, List, [], ◌∷◌, ◌++◌,
  ltb, ◌==◌, if◌then◌else◌, append_assoc, arith, ap, ap₂, ==_iff, ◌∙◌, sym, subst, Bool-cases, inl,
  inr,
}
use vmwos.Printk.{digit_char, to_digits}

-- The number that a digit stands for.
unfoldable pub digit_value : ℕ → ℕ
digit_value c = if ltb c 0x3a then c - 0x30 else c - 0x61 + 10

-- The number that digits stand for, the first counting most, behind `x`.
unfoldable pub value_from : ℕ → ℕ → List ℕ → ℕ
value_from base x [] = x
value_from base x (c ∷ rest) = value_from base (x * base + digit_value c) rest

digit_value-digit_char : (d : ℕ) → d < 16 → digit_value (digit_char d) ≡ d
unfolding digit_value digit_char
digit_value-digit_char d lt = ground arith

value_from-last :
    (base x : ℕ) (digits : List ℕ) (c : ℕ)
    → value_from base x (digits ++ (c ∷ [])) ≡ value_from base x digits * base + digit_value c
unfolding value_from
value_from-last base x [] c = refl
value_from-last base x (d ∷ digits) c = value_from-last base (x * base + digit_value d) digits c

-- The digits of a number, the last one being the remainder.
unfoldable pub number_from : ℕ → ℕ → ℕ → List ℕ
number_from zero base x = []
number_from (suc room) base x =
    (if x / base == 0 then [] else number_from room base (x / base)) ++ (digit_char (x % base) ∷ [])

div-below_pow : (base x n : ℕ) → 0 < base → x < base ^ suc n → x / base < base ^ n
div-below_pow base x n pos lt = (div-lt_iff_lt-mul pos).1 (subst (λ m. x < m) (pow-suc base n) lt)

-- Digits read back as the number.
pub value_from-number_from :
    (room base x : ℕ)
    → 0 < base
    → base ≤ 16
    → x < base ^ room
    → value_from base 0 (number_from room base x) ≡ x
unfolding number_from value_from
value_from-number_from zero base x pos small lt =
    omega (arith, subst (λ m. x < m) (pow-zero base) lt)
value_from-number_from (suc room) base x pos small lt = elim (Bool-cases (x / base == 0)) [
  | inl last ↦ rw last (
      rw (digit_value-digit_char (x % base) (omega (arith, mod-lt x pos, small)))
        (omega (arith, mod-add-div' x base, ap (λ q. q * base) ((==_iff (x / base) 0).0 last))))
  | inr more ↦ rw more (
      value_from-last base 0 (number_from room base (x / base)) (digit_char (x % base))
      ∙ ap₂ (λ q r. q * base + r)
          (value_from-number_from room base (x / base) pos small (div-below_pow base x room pos lt))
          (digit_value-digit_char (x % base) (omega (arith, mod-lt x pos, small)))
      ∙ omega (arith, mod-add-div' x base))
]

-- The loop of the digits fills in the digits of the number, and its room is enough.
pub to_digits-number_from :
    (room base x : ℕ) (digits : List ℕ)
    → 0 < base
    → 0 < room
    → x < base ^ room
    → to_digits room base x digits ≡ some (number_from room base x ++ digits)
unfolding to_digits number_from
to_digits-number_from zero base x digits pos some_room lt = absurd (omega (arith, some_room))
to_digits-number_from (suc room) base x digits pos some_room lt =
    let less : x / base < base ^ room = div-below_pow base x room pos lt in
    elim (Bool-cases (x / base == 0)) [
      | inl last ↦ rw (last, to_digits) refl
      | inr more ↦
          rw (more, to_digits)
            (to_digits-number_from room base (x / base) _ pos (room_left room (x / base) less more)
                less
              ∙ ap some (
                  sym (
                    append_assoc (number_from room base (x / base)) (digit_char (x % base) ∷ [])
                      digits)))
    ]
  where
    room_left : (n y : ℕ) → y < base ^ n → (y == 0) ≡ false → 0 < n
    room_left zero y below more =
        absurd (ground (arith, more, subst (λ m. y < m) (pow-zero base) below))
    room_left (suc n) y below more = omega arith
