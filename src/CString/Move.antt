-- ===== src/CString/Move.antt =====
-- `memmove` of kernel/lib/string.c.
use vmwos.Prelude.{
  put, ℕ, zero, suc, ◌+◌, ◌-◌, ◌*◌, ◌%◌, ◌^◌, ◌≤◌, ◌<◌, ◌≡◌, refl, ◌≢◌, ◌⊎◌, inl, inr, true, ◌&&◌,
  arith, ltb, leb, if◌then◌else◌, ◌∙◌, ap, Bool-cases, ne→==, ==_refl, lt→ltb, le→ltb, sym, le→leb,
  lt→leb,
}
use native.Mathlib.Nat.{mod-eq_of_lt}
use native.Mathlib.Decide.{ℕ_discrete, dec_lt}
use vmwos.CString.{Ram, copy_up, copy_down, apart, memmove}

-- The memory after `n` bytes from `s` are at `d`.
abbrev pub moved : Ram → ℕ → ℕ → ℕ → Ram
moved ram d s n a = if leb d a && ltb a (d + n) then ram (s + (a - d)) else ram a

moved-in : (ram : Ram) (d s n a : ℕ) → d ≤ a → a < d + n → moved ram d s n a ≡ ram (s + (a - d))
moved-in ram d s n a le lt = rw (le→leb d a le, lt→ltb a (d + n) lt) refl

moved-out : (ram : Ram) (d s n a : ℕ) → (a < d) ⊎ (d + n ≤ a) → moved ram d s n a ≡ ram a
moved-out ram d s n a (inl lt) = rw (lt→leb d a lt) refl
moved-out ram d s n a (inr le) = ground (arith, le→ltb a (d + n) le)

-- Where an address stands to a block of at least one byte.
data Place (d n a : ℕ) : Type 0 where
  at_start : a ≡ d → Place d n a
  inside : d < a → a < d + suc n → Place d n a
  outside : (a < d) ⊎ (d + suc n ≤ a) → Place d n a

place : (d n a : ℕ) → Place d n a
place d n a = elim (ℕ_discrete a d) [
  | yes e ↦ at_start e
  | no ne ↦ elim (dec_lt a d) [
    | yes lt ↦ outside (inl lt)
    | no ge ↦ elim (dec_lt a (d + suc n)) [
      | yes lt ↦ inside (omega (arith, ne, ge)) lt
      | no out ↦ outside (inr (omega (arith, out)))
    ]
  ]
]

copy_up_lem :
    (n d s : ℕ) (ram : Ram) (a : ℕ)
    → d + n < 2 ^ 32
    → s + n < 2 ^ 32
    → (d < s) ⊎ (s + n ≤ d)
    → copy_up n d s ram a ≡ moved ram d s n a
unfolding copy_up
copy_up_lem zero d s ram a h h' way = ground arith
copy_up_lem (suc n) d s ram a h h' way =
    rw
      (
        mod-eq_of_lt {n = d + 1} {m = 2 ^ 32} (omega arith),
        mod-eq_of_lt {n = s + 1} {m = 2 ^ 32} (omega arith),
      )
      (copy_up_lem n (d + 1) (s + 1) (put ram d (ram s)) a (omega arith) (omega arith) (further way)
        ∙ settled way (place d n a))
  where
    further : (d < s) ⊎ (s + suc n ≤ d) → (d + 1 < s + 1) ⊎ (s + 1 + n ≤ d + 1)
    further (inl below) = inl (omega (arith, below))
    further (inr above) = inr (omega (arith, above))

    settled :
        (d < s) ⊎ (s + suc n ≤ d)
        → Place d n a
        → moved (put ram d (ram s)) (d + 1) (s + 1) n a ≡ moved ram d s (suc n) a
    settled w (at_start e) =
        moved-out (put ram d (ram s)) (d + 1) (s + 1) n a (inl (omega (arith, e)))
        ∙ rw e (rw (==_refl d) (ap ram (omega arith)))
        ∙ sym (moved-in ram d s (suc n) a (omega (arith, e)) (omega (arith, e)))
    settled w (inside above below) =
        let same : s + 1 + (a - (d + 1)) ≡ s + (a - d) = omega (arith, above) in
        moved-in (put ram d (ram s)) (d + 1) (s + 1) n a (omega (arith, above))
          (omega (arith, below))
        ∙ ap (put ram d (ram s)) same
        ∙ rw
            (ne→== (s + (a - d)) d (λ q. elim w [
              | inl lt ↦ absurd (omega (arith, q, lt, above))
              | inr le ↦ absurd (omega (arith, q, le, above, below))
            ]))
            refl
        ∙ sym (moved-in ram d s (suc n) a (omega (arith, above)) below)
    settled w (outside o) =
        moved-out (put ram d (ram s)) (d + 1) (s + 1) n a
          (elim o [ inl lt ↦ inl (omega (arith, lt)) | inr le ↦ inr (omega (arith, le)) ])
        ∙ rw
            (ne→== a d (λ q. elim o [
              | inl lt ↦ absurd (omega (arith, q, lt))
              | inr le ↦ absurd (omega (arith, q, le))
            ]))
            refl
        ∙ sym (moved-out ram d s (suc n) a o)

copy_down_lem :
    (n d s : ℕ) (ram : Ram) (a : ℕ)
    → d + n < 2 ^ 32
    → s + n < 2 ^ 32
    → s < d
    → copy_down n d s ram a ≡ moved ram d s n a
unfolding copy_down
copy_down_lem zero d s ram a h h' way = ground arith
copy_down_lem (suc i) d s ram a h h' way =
    rw
      (
        mod-eq_of_lt {n = d + i} {m = 2 ^ 32} (omega arith),
        mod-eq_of_lt {n = s + i} {m = 2 ^ 32} (omega arith),
      )
      (copy_down_lem i d s (put ram (d + i) (ram (s + i))) a (omega arith) (omega arith) way
        ∙ settled)
  where
    settled : moved (put ram (d + i) (ram (s + i))) d s i a ≡ moved ram d s (suc i) a
    settled = elim (ℕ_discrete a (d + i)) [
      | yes e ↦
          moved-out (put ram (d + i) (ram (s + i))) d s i a (inr (omega (arith, e)))
          ∙ rw e (rw (==_refl (d + i)) (ap ram (omega arith)))
          ∙ sym (moved-in ram d s (suc i) a (omega (arith, e)) (omega (arith, e)))
      | no ne ↦ elim (dec_lt a d) [
        | yes lt ↦
            moved-out (put ram (d + i) (ram (s + i))) d s i a (inl lt)
            ∙ rw (ne→== a (d + i) ne) refl
            ∙ sym (moved-out ram d s (suc i) a (inl lt))
        | no ge ↦ elim (dec_lt a (d + i)) [
          | yes lt ↦
              moved-in (put ram (d + i) (ram (s + i))) d s i a (omega (arith, ge)) lt
              ∙ rw (ne→== (s + (a - d)) (d + i) (λ q. absurd (omega (arith, q, way, lt)))) refl
              ∙ sym (moved-in ram d s (suc i) a (omega (arith, ge)) (omega (arith, lt)))
          | no out ↦
              moved-out (put ram (d + i) (ram (s + i))) d s i a (inr (omega (arith, out)))
              ∙ rw (ne→== a (d + i) ne) refl
              ∙ sym (moved-out ram d s (suc i) a (inr (omega (arith, out, ne))))
        ]
      ]
    ]

-- The test of `memmove` is passed only by blocks that do not overlap.
apart_lem :
    (d s n : ℕ)
    → d + n < 2 ^ 32
    → s + n < 2 ^ 32
    → n < 2 ^ 31
    → d ≢ s
    → apart d s n ≡ true
    → (d + n ≤ s) ⊎ (s + n ≤ d)
apart_lem d s n h h' small ne pass = elim (dec_lt s d) [
  | yes lt ↦ inr (omega (arith, h, small, lt, le))
  | no ge ↦ inl (omega (arith, h', small, ge, ne, le))
]
  where
    le : (s + 2 ^ 32 - d + (2 ^ 32 - n)) % 2 ^ 32 ≤ (2 ^ 33 - 2 * n) % 2 ^ 32
    le = ground (arith, pass)

moved-same : (ram : Ram) (s n a : ℕ) → moved ram s s n a ≡ ram a
moved-same ram s n a = elim (dec_lt a s) [
  | yes lt ↦ moved-out ram s s n a (inl lt)
  | no ge ↦ elim (dec_lt a (s + n)) [
    | yes lt ↦ moved-in ram s s n a (omega (arith, ge)) lt ∙ ap ram (omega (arith, ge))
    | no out ↦ moved-out ram s s n a (inr (omega (arith, out)))
  ]
]

-- For blocks that end below 2^32 and are shorter than 2^31 bytes, however they overlap, memmove
-- leaves at the destination the bytes that the source held before, and changes no other byte.
pub memmove-moved :
    (ram : Ram) (d s n a : ℕ)
    → d + n < 2 ^ 32
    → s + n < 2 ^ 32
    → n < 2 ^ 31
    → memmove ram d s n a ≡ moved ram d s n a
unfolding memmove
memmove-moved ram d s n a h h' small = elim (ℕ_discrete d s) [
  | yes e ↦ rw (e, ==_refl s) (sym (moved-same ram s n a))
  | no ne ↦ elim (Bool-cases (apart d s n)) [
    | inl pass ↦
        rw (ne→== d s ne, pass)
          (copy_up_lem n d s ram a h h' (elim (apart_lem d s n h h' small ne pass) [
            | inl low ↦ forward low
            | inr high ↦ inr high
          ]))
    | inr fail ↦ elim (dec_lt d s) [
      | yes lt ↦ rw (ne→== d s ne, fail, lt→ltb d s lt) (copy_up_lem n d s ram a h h' (inl lt))
      | no ge ↦
          rw
            (
              ne→== d s ne,
              fail,
              le→ltb d s (omega (arith, ge)),
              le→ltb (2 ^ 31) n (omega (arith, small)),
            )
            (copy_down_lem n d s ram a h h' (omega (arith, ge, ne)))
    ]
  ]
]
  where
    forward : d + n ≤ s → (d < s) ⊎ (s + n ≤ d)
    forward low = elim (dec_lt d s) [ yes lt ↦ inl lt | no ge ↦ inr (omega (arith, low, ge)) ]
