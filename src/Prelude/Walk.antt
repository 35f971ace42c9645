-- ===== src/Prelude/Walk.antt =====
-- What stands in a buffer, read step by step.
use Prim.Native.Nat.{ℕ, zero, suc, ◌+◌, ◌≤◌}
use mathlib.Core.Path.{◌≡◌, refl, ap, ◌∙◌}
use mathlib.Core.List.{List, [], ◌∷◌, ◌++◌}
use native.Mathlib.Omega.{arith}
use vmwos.Prelude.Tests.{ne→==, put}
use vmwos.Prelude.Lists.{length, take}

-- `count` characters of a buffer, from `i` on.
unfoldable pub walk : (ℕ → ℕ) → (ℕ → ℕ) → ℕ → ℕ → List ℕ
walk next buffer i zero = []
walk next buffer i (suc count) = buffer i ∷ walk next buffer (next i) count

abbrev pub one_on : ℕ → ℕ
one_on i = i + 1

pub length-walk : (next buffer : ℕ → ℕ) (i count : ℕ) → length (walk next buffer i count) ≡ count
unfolding walk
length-walk next buffer i zero = refl
length-walk next buffer i (suc count) = ap suc (length-walk next buffer (next i) count)

pub walk-one_on :
    (buffer : ℕ → ℕ) (count i : ℕ)
    → walk one_on buffer i (suc count) ≡ walk one_on buffer i count ++ (buffer (i + count) ∷ [])
unfolding walk
walk-one_on buffer zero i = rw (zero_right i) refl
  where
    zero_right : (n : ℕ) → n + 0 ≡ n
    zero_right n = omega arith
walk-one_on buffer (suc count) i =
    ap (λ xs. buffer i ∷ xs)
      (walk-one_on buffer count (i + 1)
        ∙ ap (λ k. walk one_on buffer (i + 1) count ++ (buffer k ∷ [])) (omega arith))

pub walk-put :
    (buffer : ℕ → ℕ) (v count i : ℕ)
    → (j : ℕ) → i + count ≤ j
    → walk one_on (put buffer j v) i count ≡ walk one_on buffer i count
unfolding walk
walk-put buffer v zero i j le = refl
walk-put buffer v (suc count) i j le =
    rw (ne→== i j (λ e. absurd (omega (arith, e, le))))
      (ap (λ xs. buffer i ∷ xs) (walk-put buffer v count (i + 1) j (omega (arith, le))))

pub take-walk :
    (next buffer : ℕ → ℕ) (n count i : ℕ)
    → n ≤ count
    → take n (walk next buffer i count) ≡ walk next buffer i n
unfolding walk
take-walk next buffer zero count i le = refl
take-walk next buffer (suc n) zero i le = absurd (omega arith)
take-walk next buffer (suc n) (suc count) i le =
    ap (λ xs. buffer i ∷ xs) (take-walk next buffer n count (next i) (omega (arith, le)))
