-- ===== src/Prelude/Search.antt =====
-- Search of an array for the first element that passes a test.
use Prim.Native.Nat.{ℕ, zero, suc, ◌+◌, ◌<◌, ◌≤◌}
use mathlib.Core.Path.{◌≡◌, refl}
use mathlib.Core.Bool.{Bool, true}
use mathlib.Core.Option.{Option, none, some}
use native.Mathlib.Omega.{arith}
use native.Mathlib.Decide.{ℕ_discrete}
use vmwos.Prelude.Tests.{if◌then◌else◌, Bool-cases}
use mathlib.Core.Logic.{inl, inr}

-- The first index from `i` on, `left` rounds, that passes a test.
unfoldable pub first_index : (ℕ → Bool) → ℕ → ℕ → Option ℕ
first_index test zero i = none
first_index test (suc left) i =
    let rest = first_index test left (i + 1) in if test i then some i else rest

-- Where some index in range passes, one is found, which is in range and passes.
pub first_index-some :
    (test : ℕ → Bool) (left i j : ℕ)
    → i ≤ j
    → j < i + left
    → test j ≡ true
    → (r : ℕ) × (first_index test left i ≡ some r) × (test r ≡ true) × (r ≤ j)
unfolding first_index
first_index-some test zero i j le lt hit = absurd (omega (arith, le, lt))
first_index-some test (suc left) i j le lt hit = elim (Bool-cases (test i)) [
  | inl now ↦ (i, rw now refl, now, le)
  | inr later ↦ elim (ℕ_discrete i j) [
    | yes e ↦ absurd (cc)
    | no ne ↦
        let (r, e, passes, first) =
          first_index-some test left (i + 1) j (omega (arith, le, ne)) (omega (arith, lt)) hit in
        (r, rw later e, passes, first)
  ]
]
