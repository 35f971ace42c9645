-- ===== src/Bits/Step.antt =====
-- `&` and `|` one binary digit at a time.
--
-- The native operations count down rounds. A number needs no more rounds than it is large, so that
-- the rounds that are left over can be dropped.
use Prim.Native.Nat.{digits, bit_and-bitwise, bit_or-bitwise}
use vmwos.Prelude.{
  ℕ, zero, suc, ◌+◌, ◌*◌, ◌/◌, ◌%◌, ◌≤◌, min, max, bit_and, bit_or, ◌≡◌, refl, arith, ap,
}

-- With `rounds` rounds, which are enough for `x`, the result is that of `x` rounds.
spare_rounds :
    (rest : ℕ → ℕ) (one : ℕ → ℕ → ℕ) (rounds left x y : ℕ)
    → x ≤ rounds
    → x ≤ left
    → digits rest one rounds x y ≡ digits rest one left x y
spare_rounds rest one zero zero zero y h h' = refl
spare_rounds rest one (suc rounds) zero zero y h h' = refl
spare_rounds rest one zero (suc left) zero y h h' = refl
spare_rounds rest one (suc rounds) (suc left) zero y h h' = refl
spare_rounds rest one zero left (suc x) y h h' = absurd (omega (arith, h))
spare_rounds rest one (suc rounds) zero (suc x) y h h' = absurd (omega (arith, h'))
spare_rounds rest one (suc rounds) (suc left) (suc x) y h h' =
    let half : suc x / 2 ≤ x = omega arith in
    let fewer = spare_rounds rest one rounds left (suc x / 2) (y / 2) (omega arith) (omega arith) in
    ap (λ high. high * 2 + one (suc x % 2) (y % 2)) fewer

pub bit_and_step : (w v : ℕ) → bit_and w v ≡ bit_and (w / 2) (v / 2) * 2 + min (w % 2) (v % 2)
bit_and_step zero v = simp bit_and-bitwise (omega arith)
bit_and_step (suc w) v =
    let high =
      spare_rounds (λ _. 0) min w (suc w / 2) (suc w / 2) (v / 2) (omega arith) (omega arith) in
    simp bit_and-bitwise (ap (λ h. h * 2 + min (suc w % 2) (v % 2)) high)

pub bit_or_step : (w v : ℕ) → bit_or w v ≡ bit_or (w / 2) (v / 2) * 2 + max (w % 2) (v % 2)
bit_or_step zero v = simp bit_or-bitwise (omega arith)
bit_or_step (suc w) v =
    let high =
      spare_rounds (λ u. u) max w (suc w / 2) (suc w / 2) (v / 2) (omega arith) (omega arith) in
    simp bit_or-bitwise (ap (λ h. h * 2 + max (suc w % 2) (v % 2)) high)
