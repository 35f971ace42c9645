-- ===== src/CString/Text/Tests.antt =====
-- Runs of the functions on strings of kernel/lib/string.c.
use vmwos.Prelude.{ℕ, ◌≡◌, ◌<◌, ◌≤◌, ◌-◌, ◌^◌, ◌⊎◌, inr, refl, arith, ◌==◌, if◌then◌else◌}
use vmwos.CString.{Ram}
use vmwos.CString.Text.{strncmp, memcmp, strncpy, strlcpy, copy_ended, pad}
use vmwos.CString.Text.Copy.{strncmp-strncpy}

-- "ab" at 100, and 7 everywhere else but behind it.
abbrev letters : Ram
letters a = if a == 100 then 97 else if a == 101 then 98 else if a == 102 then 0 else 7

strncmp-strncpy_example :
    (strncmp (strncpy letters 200 100 5) 200 100 5 ≡ 0)
    × ((a : ℕ) → (a < 200) ⊎ (205 ≤ a) → strncpy letters 200 100 5 a ≡ letters a)
strncmp-strncpy_example =
    strncmp-strncpy 5 200 100 letters (omega arith) (omega arith) (inr (omega arith))

-- The copy is padded up to its length.
strncpy_test :
    (strncpy letters 200 100 5 201 ≡ 98)
    × (strncpy letters 200 100 5 204 ≡ 0)
    × (strncpy letters 200 100 5 205 ≡ 7)
unfolding strncpy pad
strncpy_test = (refl, refl, refl)

strlcpy_test :
    ((strlcpy letters 200 100 2).0 ≡ 1)
    × ((strlcpy letters 200 100 2).1 201 ≡ 0)
    × (strncmp letters 101 100 2 ≡ 1)
    × (memcmp letters 100 101 2 ≡ 2 ^ 32 - 1)
unfolding strlcpy copy_ended strncmp memcmp
strlcpy_test = (refl, refl, refl, refl)
