-- ===== src/CString/Text.antt =====
-- Strings that end with a 0 byte: kernel/lib/string.c but for `memmove`.
--
-- A pointer is the address of the next byte, which the loops count up; an `int` result is a 32-bit
-- word. A `char` is unsigned, as on ARM.
pub mod Copy
pub mod Tests
use vmwos.Prelude.{
  put, ℕ, zero, suc, ◌+◌, ◌-◌, ◌%◌, ◌^◌, true, false, Option, none, some, ◌==◌, if◌then◌else◌,
  ◌>>=◌,
}
use vmwos.CString.{Ram}

-- p + 1
abbrev pub next : ℕ → ℕ
next p = (p + 1) % 2 ^ 32

-- The difference of two characters.
abbrev pub difference : ℕ → ℕ → ℕ
difference a b = (a + 2 ^ 32 - b) % 2 ^ 32

-- The loop, with `n` bytes left.
pub strncmp : Ram → ℕ → ℕ → ℕ → ℕ
strncmp ram s1 s2 zero = 0
strncmp ram s1 s2 (suc n) =
    let rest = strncmp ram (next s1) (next s2) n in
    if difference (ram s1) (ram s2) == 0
    then (if ram s1 == 0 then 0 else rest)
    else difference (ram s1) (ram s2)

pub memcmp : Ram → ℕ → ℕ → ℕ → ℕ
memcmp ram s1 s2 zero = 0
memcmp ram s1 s2 (suc n) =
    let rest = memcmp ram (next s1) (next s2) n in
    if difference (ram s1) (ram s2) == 0 then rest else difference (ram s1) (ram s2)

-- for(i=i;i<n;i++) dest[i]='\0';
pub pad : ℕ → ℕ → Ram → Ram
pad zero d ram = ram
pad (suc n) d ram = pad n (next d) (put ram d 0)

-- The first loop of `strncpy`, with `n` bytes left; the second one starts where it was left.
pub strncpy : Ram → ℕ → ℕ → ℕ → Ram
strncpy ram d s zero = ram
strncpy ram d s (suc n) =
    let copied = put ram d (ram s) in
    let rest = strncpy copied (next d) (next s) n in
    if copied s == 0 then pad (suc n) d copied else rest

-- A loop that copies up to `left` bytes, and then ends the string: the number of bytes, from `i`
-- on, and the memory.
pub copy_ended : ℕ → ℕ → ℕ → ℕ → Ram → ℕ × Ram
copy_ended zero i d s ram = (i, put ram d 0)
copy_ended (suc left) i d s ram =
    let copied = put ram d (ram s) in
    let rest = copy_ended left (i + 1) (next d) (next s) copied in
    if copied s == 0 then (i, put copied d 0) else rest

-- `n-1` is a word, also for an `n` of 0.
pub strlcpy : Ram → ℕ → ℕ → ℕ → ℕ × Ram
strlcpy ram d s n = copy_ended ((n + 2 ^ 32 - 1) % 2 ^ 32) 0 d s ram

-- The loop of `strlen`; `none` is a count that leaves the range of `int`.
pub strlen_from : ℕ → ℕ → Ram → ℕ → Option ℕ
strlen_from zero i ram s = none
strlen_from (suc fuel) i ram s = elim (ram s == 0) [
  | true ↦ some i
  | false ↦ strlen_from fuel (i + 1) ram (next s)
]

pub strlen : Ram → ℕ → Option ℕ
strlen ram s = strlen_from (2 ^ 31) 0 ram s

pub strncat : Ram → ℕ → ℕ → ℕ → Option Ram
strncat ram d s n =
    strlen ram d >>= λ dest_len. some (copy_ended n 0 ((d + dest_len) % 2 ^ 32) s ram).1
