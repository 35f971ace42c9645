-- ===== src/Division/Quotient.antt =====
-- When the loop of `__aeabi_uidiv` ends, and with which quotient.
use native.Mathlib.Nat.{div-eq_of_lt-le, le-div_iff_mul-le, mul-le-mul_right, le-mul_of_pos_right}
use vmwos.Prelude.{
  ℕ, zero, suc, ◌+◌, ◌-◌, ◌*◌, ◌/◌, ◌%◌, ◌^◌, ◌≤◌, ◌<◌, ◌≡◌, refl, none, some, arith, ◌==◌,
  if◌then◌else◌, ap, sym, lt→ltb, le→ltb, ne→==, subst,
}
use native.Mathlib.Decide.{dec_lt, ℕ_discrete}
use vmwos.Division.{divide_from, aeabi_uidiv}

-- The next multiple.
mul-next : (q divisor : ℕ) → (q + 1) * divisor ≡ q * divisor + divisor
mul-next q divisor = omega arith

-- From `q` with `q * divisor ≤ dividend` on, the loop counts up to the quotient.
divide_from-div :
    (fuel dividend divisor q : ℕ)
    → 0 < divisor
    → dividend / divisor * divisor + divisor < 2 ^ 32
    → q * divisor ≤ dividend
    → dividend / divisor < q + fuel
    → divide_from fuel dividend divisor q (q * divisor + divisor) ≡ some (dividend / divisor)
unfolding divide_from
divide_from-div zero dividend divisor q pos small le enough =
    absurd (omega (arith, enough, (le-div_iff_mul-le pos).1 le))
divide_from-div (suc fuel) dividend divisor q pos small le enough =
    elim (dec_lt dividend (q * divisor + divisor)) [
      | yes over ↦
          rw (lt→ltb dividend (q * divisor + divisor) over, divide_from)
            (ap some (
              sym (
                div-eq_of_lt-le divisor le
                  (subst (λ m. dividend < m) (sym (mul-next q divisor)) over))))
      | no under ↦
          let next : (q + 1) * divisor ≤ dividend = omega (arith, under, mul-next q divisor) in
          let lower : q + 1 ≤ dividend / divisor = (le-div_iff_mul-le pos).1 next in
          let below : (q + 1) * divisor ≤ dividend / divisor * divisor =
            mul-le-mul_right divisor lower in
          let count : (q + 1) % 2 ^ 32 ≡ q + 1 =
            omega (arith, lower, small, le-mul_of_pos_right (dividend / divisor) pos) in
          let word : (q * divisor + divisor + divisor) % 2 ^ 32 ≡ (q + 1) * divisor + divisor =
            omega (arith, below, small, mul-next q divisor) in
          rw
            (
              le→ltb dividend (q * divisor + divisor) (omega (arith, under)),
              divide_from,
              count,
              word,
            )
            (divide_from-div fuel dividend divisor (q + 1) pos small next (omega (arith, enough)))
    ]

-- For a divisor above 0 whose first multiple above the dividend is a word, the loop of
-- __aeabi_uidiv ends and returns the quotient of the two numbers; for the divisor 0 it returns
-- 0.
pub aeabi_uidiv-div :
    (dividend divisor : ℕ)
    → dividend / divisor * divisor + divisor < 2 ^ 32
    → aeabi_uidiv dividend divisor ≡ some (if divisor == 0 then 0 else dividend / divisor)
unfolding aeabi_uidiv
aeabi_uidiv-div dividend divisor small = elim (ℕ_discrete divisor 0) [
  | yes e ↦ rw (e) refl
  | no ne ↦
      let pos : 0 < divisor = omega (arith, ne) in
      rw (ne→== divisor 0 ne) (
        subst (λ d. divide_from (2 ^ 32) dividend divisor 0 d ≡ some (dividend / divisor))
          (from_zero divisor)
          (divide_from-div (2 ^ 32) dividend divisor 0 pos small (omega arith)
            (omega (arith, small, le-mul_of_pos_right (dividend / divisor) pos))))
]
  where
    from_zero : (n : ℕ) → 0 * n + n ≡ n
    from_zero n = omega arith

-- For the largest word as the dividend and a word above 0 as the divisor the loop does not end in any number of rounds.
pub divide_from-none :
    (fuel divisor q new_d : ℕ)
    → new_d < 2 ^ 32
    → divide_from fuel (2 ^ 32 - 1) divisor q new_d ≡ none
unfolding divide_from
divide_from-none zero divisor q new_d word = refl
divide_from-none (suc fuel) divisor q new_d word =
    rw (le→ltb (2 ^ 32 - 1) new_d (omega (arith, word)), divide_from)
      (divide_from-none fuel divisor ((q + 1) % 2 ^ 32) ((new_d + divisor) % 2 ^ 32) (omega arith))
