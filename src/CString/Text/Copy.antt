-- ===== src/CString/Text/Copy.antt =====
-- A string that `strncpy` has copied.
use vmwos.Prelude.{
  put, ℕ, zero, suc, ◌+◌, ◌^◌, ◌≤◌, ◌<◌, ◌≡◌, refl, ◌≢◌, ◌⊎◌, inl, arith, ◌∙◌, ap, ne→==, ==_refl,
  sym,
}
use native.Mathlib.Nat.{mod-eq_of_lt}
use native.Mathlib.Decide.{ℕ_discrete}
use vmwos.CString.{Ram}
use vmwos.CString.Text.{next, difference, strncmp, pad, strncpy}

next-lt : (p n : ℕ) → p + suc n < 2 ^ 32 → next p ≡ p + 1
next-lt p n h = mod-eq_of_lt {n = p + 1} {m = 2 ^ 32} (omega arith)

-- Outside of the destination nothing changes.
pad-outside :
    (n d : ℕ) (ram : Ram) (a : ℕ) → d + n < 2 ^ 32 → (a < d) ⊎ (d + n ≤ a) → pad n d ram a ≡ ram a
unfolding pad
pad-outside zero d ram a h out = refl
pad-outside (suc n) d ram a h out = rw (next-lt d n h) (
    pad-outside n (d + 1) (put ram d 0) a (omega arith) (ground arith)
    ∙ rw (ne→== a d (λ e. ground arith)) refl)

strncpy-outside :
    (n d s : ℕ) (ram : Ram) (a : ℕ)
    → d + n < 2 ^ 32
    → s + n < 2 ^ 32
    → (a < d) ⊎ (d + n ≤ a)
    → strncpy ram d s n a ≡ ram a
unfolding strncpy
strncpy-outside zero d s ram a h h' out = refl
strncpy-outside (suc n) d s ram a h h' out = elim (ℕ_discrete (put ram d (ram s) s) 0) [
  | yes e ↦ rw e (pad-outside (suc n) d (put ram d (ram s)) a h out ∙ there)
  | no ne ↦
      rw (ne→== (put ram d (ram s) s) 0 ne, next-lt d n h, next-lt s n h')
        (strncpy-outside n (d + 1) (s + 1) (put ram d (ram s)) a (omega arith) (omega arith)
            (ground arith)
          ∙ there)
]
  where
    there : put ram d (ram s) a ≡ ram a
    there = rw (ne→== a d (λ e. ground arith)) refl

difference_self : (x : ℕ) → difference x x ≡ 0
difference_self x = omega arith

strncmp-ended : (ram : Ram) (s1 s2 n : ℕ) → ram s1 ≡ 0 → ram s2 ≡ 0 → strncmp ram s1 s2 (suc n) ≡ 0
unfolding strncmp
strncmp-ended ram s1 s2 n e e' = rw (e, e') refl

strncmp-goes_on :
    (ram : Ram) (s1 s2 n : ℕ)
    → ram s1 ≡ ram s2
    → ram s2 ≢ 0
    → strncmp ram s1 s2 (suc n) ≡ strncmp ram (next s1) (next s2) n
unfolding strncmp
strncmp-goes_on ram s1 s2 n e ne = rw (e, difference_self (ram s2), ne→== (ram s2) 0 ne) refl

-- The two blocks of `n` bytes do not overlap.
abbrev pub Apart : ℕ → ℕ → ℕ → Type 0
Apart d s n = (d + n ≤ s) ⊎ (s + n ≤ d)

-- What the first byte of the copy is, and the first byte of the source.
copy_start :
    (n d s : ℕ) (ram ram' : Ram) (v : ℕ)
    → d + suc n < 2 ^ 32
    → Apart d s (suc n)
    → ram' d ≡ v
    → ram' s ≡ v
    → ((a : ℕ) → (a < d + 1) ⊎ (d + 1 + n ≤ a) → ram a ≡ ram' a)
    → (ram d ≡ v) × (ram s ≡ v)
copy_start n d s ram ram' v h apart e e' same =
    (same d (inl (omega arith)) ∙ e, same s (ground arith) ∙ e')

-- One step of `strncpy`, at the end of the source and before it.
strncpy-ended :
    (n d s : ℕ) (ram : Ram)
    → d + suc n < 2 ^ 32
    → put ram d (ram s) s ≡ 0
    → strncpy ram d s (suc n) ≡ pad n (d + 1) (put (put ram d (ram s)) d 0)
unfolding strncpy pad
strncpy-ended n d s ram h e = rw (e, next-lt d n h) refl

strncpy-goes_on :
    (n d s : ℕ) (ram : Ram)
    → d + suc n < 2 ^ 32
    → s + suc n < 2 ^ 32
    → put ram d (ram s) s ≢ 0
    → strncpy ram d s (suc n) ≡ strncpy (put ram d (ram s)) (d + 1) (s + 1) n
unfolding strncpy
strncpy-goes_on n d s ram h h' ne =
    rw (ne→== (put ram d (ram s) s) 0 ne, next-lt d n h, next-lt s n h') refl

strncmp_none : (n : ℕ) (ram : Ram) (d s : ℕ) → n ≡ 0 → strncmp ram d s n ≡ 0
unfolding strncmp
strncmp_none zero ram d s e = refl
strncmp_none (suc n) ram d s e = absurd (omega (arith, e))

equal_copy :
    (n d s : ℕ) (ram : Ram)
    → d + n < 2 ^ 32
    → s + n < 2 ^ 32
    → Apart d s n
    → strncmp (strncpy ram d s n) d s n ≡ 0
equal_copy zero d s ram h h' apart = strncmp_none 0 (strncpy ram d s 0) d s refl
equal_copy (suc n) d s ram h h' apart = elim (ℕ_discrete (ram s) 0) [
  | yes e ↦
      let (first, second) =
        copy_start n d s (pad n (d + 1) (put copied d 0)) (put copied d 0) 0 h apart
          (rw (==_refl d) refl) (rw (ne→== s d apart_ne) e)
          (λ a out. pad-outside n (d + 1) (put copied d 0) a (omega arith) out) in
      ap (λ r. strncmp r d s (suc n)) (strncpy-ended n d s ram h (kept ∙ e))
      ∙ strncmp-ended (pad n (d + 1) (put copied d 0)) d s n first second
  | no ne ↦
      let after : Ram = strncpy copied (d + 1) (s + 1) n in
      let (first, second) =
        copy_start n d s after copied (ram s) h apart (rw (==_refl d) refl) kept
          (λ a out. strncpy-outside n (d + 1) (s + 1) copied a (omega arith) (omega arith) out) in
      ap (λ r. strncmp r d s (suc n)) (strncpy-goes_on n d s ram h h' (λ z. ne (sym kept ∙ z)))
      ∙ strncmp-goes_on after d s n (first ∙ sym second) (λ z. ne (sym second ∙ z))
      ∙ ap (λ p. strncmp after p (next s) n) (next-lt d n h)
      ∙ ap (λ p. strncmp after (d + 1) p n) (next-lt s n h')
      ∙ equal_copy n (d + 1) (s + 1) copied (omega arith) (omega arith) (ground arith)
]
  where
    copied : Ram
    copied = put ram d (ram s)

    apart_ne : s ≢ d
    apart_ne = λ e. ground arith

    kept : put ram d (ram s) s ≡ ram s
    kept = rw (ne→== s d apart_ne) refl

-- For two blocks of n bytes that end below 2^32 and do not overlap, strncmp finds no difference
-- in n bytes between what strncpy has copied and its source, and strncpy changes no byte outside
-- of the destination.
pub strncmp-strncpy :
    (n d s : ℕ) (ram : Ram)
    → d + n < 2 ^ 32
    → s + n < 2 ^ 32
    → Apart d s n
    → (strncmp (strncpy ram d s n) d s n ≡ 0)
      × ((a : ℕ) → (a < d) ⊎ (d + n ≤ a) → strncpy ram d s n a ≡ ram a)
strncmp-strncpy n d s ram h h' apart =
    (equal_copy n d s ram h h' apart, λ a. strncpy-outside n d s ram a h h')
