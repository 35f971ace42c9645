-- ===== src/Memory/Find.antt =====
-- `find_free` of kernel/memory/memory.c: what region it returns, and that it reads inside the map.
use vmwos.Prelude.{
  ℕ, zero, suc, ◌+◌, ◌-◌, ◌≤◌, ◌<◌, ◌≡◌, refl, ◌⊎◌, inl, inr, true, false, some, List, arith,
  Bool-cases, ==_refl, lt→ltb, ne→==, le→ltb,
}
use native.Mathlib.Decide.{dec_lt, ℕ_discrete}
use native.Mathlib.Nat.{add-zero}
use vmwos.Memory.{enomem, memory_test_used, contiguous, find_from, find_free}
use vmwos.Memory.Map.{map_chunks, is_used, within, IsMap, memory_test_used_lem}

-- The `n` chunks from `i` on are free.
abbrev pub AreFree : List ℕ → ℕ → ℕ → Type 0
AreFree words i n = (j : ℕ) → j < n → is_used words (i + j) ≡ false

pub free_within :
    (words : List ℕ) (i n c : ℕ) → AreFree words i n → within i n c ≡ true → is_used words c ≡ false
free_within words i n c free h =
    let e : i + (c - i) ≡ c = ground arith in rw e at (free (c - i) (ground arith))

-- A region that `find_free` accepts: free, and ending below `end`.
abbrev pub Fits : List ℕ → ℕ → ℕ → ℕ → Type 0
Fits words n end i = (i + n < end) × AreFree words i n

-- What `find_free` says: the first region that fits, or that there is none.
pub data Search (words : List ℕ) (n start end : ℕ) (r : ℕ) : Type 0 where
  found :
      start ≤ r
      → Fits words n end r
      → ((k : ℕ) → start ≤ k → k < r → ¬ (Fits words n end k))
      → Search words n start end r
  full : r ≡ enomem → ((k : ℕ) → start ≤ k → ¬ (Fits words n end k)) → Search words n start end r

-- How far the inner loop came: to the end, or to a used chunk.
record Run (words : List ℕ) (i j left : ℕ) : Type 0 where
  stop : ℕ
  returns : contiguous words left i j ≡ some stop
  below : stop ≤ j + left
  free : (k : ℕ) → j ≤ k → k < stop → is_used words (i + k) ≡ false
  used : (stop ≡ j + left) ⊎ (is_used words (i + stop) ≡ true)

module _ {words : List ℕ} (m : IsMap words) where
  contiguous-Run : (left i j : ℕ) → i + j + left ≤ map_chunks → Run words i j left
  unfolding contiguous
  contiguous-Run zero i j h = record {
    stop = j;
    returns = refl;
    below = omega arith;
    free = λ k p q. absurd (omega arith);
    used = inl (omega arith);
  }
  contiguous-Run (suc left) i j h = elim (Bool-cases (is_used words (i + j))) [
    | inl hit ↦ record {
      stop = j;
      returns = rw (read, hit);
      below = omega arith;
      free = λ k p q. absurd (omega arith);
      used = inr hit;
    }
    | inr miss ↦
        let next = contiguous-Run left i (j + 1) (omega arith) in
        record {
          stop = next.stop;
          returns = rw (read, miss) next.returns;
          below = omega (arith, next.below);
          free = λ k p q. elim (ℕ_discrete k j) [
            | yes e ↦ rw e miss
            | no ne ↦ next.free k (omega arith) q
          ];
          used = elim next.used [ inl e ↦ inl (omega arith) | inr u ↦ inr u ];
        }
  ]
    where
      read : memory_test_used words (i + j) ≡ some (is_used words (i + j))
      read = memory_test_used_lem words (i + j) m (omega arith)

  module _ (n : ℕ) (pos : 0 < n) (end : ℕ) (room : end + n ≤ map_chunks) where
    -- The outcome of one round at `i`.
    abbrev Next : ℕ → ℕ → Type 0
    Next left i =
        (r : ℕ) × (find_from words n end left (i + 1) ≡ some r) × Search words n (i + 1) end r

    skip :
        {i : ℕ} {r : ℕ}
        → ¬ (Fits words n end i)
        → Search words n (i + 1) end r
        → Search words n i end r
    skip {i} no_fit (found p fits least) =
        found (omega arith) fits
          λ k q lt. elim (ℕ_discrete k i) [ yes e ↦ rw e no_fit | no ne ↦ least k (omega arith) lt ]
    skip {i} no_fit (full e least) =
        full e λ k q. elim (ℕ_discrete k i) [ yes e ↦ rw e no_fit | no ne ↦ least k (omega arith) ]

    blocked : (i j : ℕ) → j < n → is_used words (i + j) ≡ true → ¬ (Fits words n end i)
    blocked i j h hit (_, free) = cc (free j h)

    -- A round at a free chunk.
    free_round :
        (left i : ℕ)
        → i + suc left ≡ end
        → is_used words i ≡ false
        → Next left i
        → (r : ℕ) × (find_from words n end (suc left) i ≡ some r) × Search words n i end r
    unfolding find_from
    free_round left i h miss (r, e, next) = elim (ℕ_discrete run.stop n) [
      | yes all ↦ elim (dec_lt (i + n) end) [
        | yes fits ↦ (
          i,
          rw (read, miss, run.returns, all, ==_refl n, lt→ltb (i + n) end fits),
          found (omega arith) (fits, λ j lt. run.free j (omega arith) (omega (arith, all)))
              (λ k p q. absurd (omega arith)),
        )
        | no out ↦ (
          r,
          rw (read, miss, run.returns, all, ==_refl n, le→ltb (i + n) end (omega arith)) e,
          skip (λ fits. out fits.0) next,
        )
      ]
      | no ne ↦ (
        r,
        rw (read, miss, run.returns, ne→== run.stop n ne) e,
        skip
            (elim run.used [
              | inl all ↦ absurd (ne (omega (arith, all)))
              | inr hit ↦ blocked i run.stop (omega (arith, run.below)) hit
            ])
            next,
      )
    ]
      where
        read : memory_test_used words i ≡ some (is_used words i)
        read = memory_test_used_lem words i m (omega arith)

        run : Run words i 0 n
        run = contiguous-Run n i 0 (omega arith)

    find_from-Search :
        (left i : ℕ)
        → i + left ≡ end
        → (r : ℕ) × (find_from words n end left i ≡ some r) × Search words n i end r
    unfolding find_from
    find_from-Search zero i h = (enomem, refl, full refl λ k p fits. omega arith)
    find_from-Search (suc left) i h =
        let (r, e, next) = find_from-Search left (i + 1) (omega arith) in
        let read = memory_test_used_lem words i m (omega arith) in
        elim (Bool-cases (is_used words i)) [
          | inl hit ↦ (r, rw (read, hit) e, skip (blocked i 0 pos (rw add-zero hit)) next)
          | inr miss ↦ free_round left i h miss (r, e, next)
        ]

  -- For a search that stays inside a well-formed map, find_free terminates without an access
  -- past the map, and returns the first free run of that many chunks that ends below the end, or
  -- -ENOMEM where there is none.
  pub find_free-Search :
      (n start end : ℕ)
      → 0 < n
      → start ≤ end
      → end + n ≤ map_chunks
      → (r : ℕ) × (find_free words n start end ≡ some r) × Search words n start end r
  unfolding find_free
  find_free-Search n start end pos le room =
      find_from-Search n pos end room (end - start) start (omega arith)
