-- ===== src/Division.antt =====
-- `__aeabi_uidiv` of kernel/lib/div.arm1176.c, the division that the compiler calls on a processor
-- without one, by repeated addition.
--
-- The loop has no bound in the source; `none` is a loop that goes on after the rounds of the fuel.
-- There are 2^32 rounds for a call, one for each value of `new_d`.
pub mod Quotient
pub mod Tests
use vmwos.Prelude.{
  ℕ, zero, suc, ◌+◌, ◌%◌, ◌^◌, Bool, true, false, Option, none, some, ltb, ◌==◌, if◌then◌else◌,
}

-- The loop, in which `new_d` and `q` are words.
pub divide_from : ℕ → ℕ → ℕ → ℕ → ℕ → Option ℕ
divide_from zero dividend divisor q new_d = none
divide_from (suc fuel) dividend divisor q new_d = elim (ltb dividend new_d) [
  | true ↦ some q
  | false ↦ divide_from fuel dividend divisor ((q + 1) % 2 ^ 32) ((new_d + divisor) % 2 ^ 32)
]

-- A dividend and a divisor are words.
pub aeabi_uidiv : ℕ → ℕ → Option ℕ
aeabi_uidiv dividend divisor =
    if divisor == 0 then some 0 else divide_from (2 ^ 32) dividend divisor 0 divisor
