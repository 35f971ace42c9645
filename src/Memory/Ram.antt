-- ===== src/Memory/Ram.antt =====
-- The bytes that `memset` writes.
use vmwos.Prelude.{ℕ, zero, suc, ◌+◌, ◌^◌, ◌≤◌, ◌≡◌, arith, ◌==◌, if◌then◌else◌}
use native.Mathlib.Nat.{mod-eq_of_lt}
use vmwos.Memory.{memset}
use vmwos.Memory.Map.{within}

-- `memset` below 2^32 writes `n` bytes from `s` on, and no other.
pub memset_lem :
    (s c n : ℕ) (ram : ℕ → ℕ) (a : ℕ)
    → s + n ≤ 2 ^ 32
    → memset s c n ram a ≡ (if within s n a then c else ram a)
unfolding memset
memset_lem s c zero ram a h = ground arith
memset_lem s c (suc zero) ram a h = ground arith
memset_lem s c (suc (suc n)) ram a h =
    rw (mod-eq_of_lt {n = s + 1} {m = 2 ^ 32} (omega arith))
      (ground (arith, memset_lem (s + 1) c (suc n) (λ b. if b == s then c else ram b) a))
