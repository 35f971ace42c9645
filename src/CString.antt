-- ===== src/CString.antt =====
-- Blocks of bytes: `memmove` of kernel/lib/string.c. CString/Text models the other functions there.
--
-- The memory is a function from addresses to bytes, and an address is a 32-bit word. `memcpy` is the
-- loop of kernel/lib/memcpy.c.
pub mod Tests
pub mod Move
pub mod Text
use vmwos.Prelude.{
  put, ℕ, zero, suc, ◌+◌, ◌-◌, ◌*◌, ◌%◌, ◌^◌, Bool, ltb, leb, ◌==◌, if◌then◌else◌, ◌>>=◌,
}

abbrev pub Ram : Type 0
Ram = ℕ → ℕ

-- for(i=0;i<n;i++) *d++ = *s++;
pub copy_up : ℕ → ℕ → ℕ → Ram → Ram
copy_up zero d s ram = ram
copy_up (suc n) d s ram = copy_up n ((d + 1) % 2 ^ 32) ((s + 1) % 2 ^ 32) (put ram d (ram s))

-- for(i=n-1;i>=0;i--) d[i] = s[i];
pub copy_down : ℕ → ℕ → ℕ → Ram → Ram
copy_down zero d s ram = ram
copy_down (suc i) d s ram = copy_down i d s (put ram ((d + i) % 2 ^ 32) (ram ((s + i) % 2 ^ 32)))

-- `s-d-n <= -2*n` on 32-bit words
abbrev pub apart : ℕ → ℕ → ℕ → Bool
apart d s n = leb ((s + 2 ^ 32 - d + (2 ^ 32 - n)) % 2 ^ 32) ((2 ^ 33 - 2 * n) % 2 ^ 32)

-- `i` is an `int`, so that a count from 2^31 + 1 on starts below 0 on the way down.
pub memmove : Ram → ℕ → ℕ → ℕ → Ram
memmove ram d s n =
    if d == s
    then ram
    else if apart d s n
    then copy_up n d s ram
    else if ltb d s
    then copy_up n d s ram
    else if ltb (2 ^ 31) n
    then ram
    else copy_down n d s ram
