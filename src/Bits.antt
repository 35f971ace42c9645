-- ===== src/Bits.antt =====
-- Single bits of words: `w & (1 << b)`, `w | (1 << b)` and `w & ~(1 << b)`, read bit by bit.
mod Step
use Step.{bit_or_step, bit_and_step}
use native.Mathlib.Nat.{one-le-pow, two-pow-succ, pow-le-pow_right}
use vmwos.Prelude.{
  ℕ, zero, suc, ◌+◌, ◌-◌, ◌*◌, ◌/◌, ◌%◌, ◌^◌, ◌≤◌, ◌<◌, bit_and, bit_or, ◌≡◌, refl, ap, Bool, ◌||◌,
  not, ◌&&◌, arith, ◌==◌,
}

-- `1 << b`, for a `b` below the width of the word.
abbrev pub bit : ℕ → ℕ
bit b = 2 ^ b

-- `~(1 << b)` in a word of `width` bits.
abbrev pub bit_not : ℕ → ℕ → ℕ
bit_not width b = 2 ^ width - 1 - 2 ^ b

-- Whether bit `b` of `w` is set, by shifting.
abbrev pub test_bit : ℕ → ℕ → Bool
test_bit w zero = w % 2 == 1
test_bit w (suc b) = test_bit (w / 2) b

-- A zero on the right leaves `|` as it is, and makes `&` zero.
zero_mask : (rounds w : ℕ) → w ≤ rounds → (bit_or w 0 ≡ w) × (bit_and w 0 ≡ 0)
zero_mask rounds zero _ = (refl, refl)
zero_mask zero (suc w) le = absurd (omega (arith, le))
zero_mask (suc rounds) (suc w) le =
    let (whole, gone) = zero_mask rounds (suc w / 2) (omega (arith, le)) in
    (omega (arith, bit_or_step (suc w) 0, whole), omega (arith, bit_and_step (suc w) 0, gone))

pub bit_or-zero : (w : ℕ) → bit_or w 0 ≡ w
bit_or-zero w = (zero_mask w w (omega arith)).0

pub bit_and-zero : (w : ℕ) → bit_and w 0 ≡ 0
bit_and-zero w = (zero_mask w w (omega arith)).1

-- The digits of `1 << b` above the lowest.
half_bit : (b : ℕ) → (bit (suc b) / 2 ≡ bit b) × (bit (suc b) % 2 ≡ 0)
half_bit b = omega (arith, two-pow-succ b)

or_bit-suc :
    (w b : ℕ)
    → (bit_or w (bit (suc b)) / 2 ≡ bit_or (w / 2) (bit b)) × (bit_or w (bit (suc b)) % 2 ≡ w % 2)
or_bit-suc w b = (
  omega (arith, bit_or_step w (bit (suc b)), half_bit b, ap (bit_or (w / 2)) (half_bit b).0),
  omega (arith, bit_or_step w (bit (suc b)), half_bit b, ap (bit_or (w / 2)) (half_bit b).0),
)

or_bit-zero : (w : ℕ) → (bit_or w 1 / 2 ≡ w / 2) × (bit_or w 1 % 2 ≡ 1)
or_bit-zero w = omega (arith, bit_or_step w 1, bit_or-zero (w / 2))

and_bit-suc : (w b : ℕ) → bit_and w (bit (suc b)) ≡ bit_and (w / 2) (bit b) * 2
and_bit-suc w b =
    omega (arith, bit_and_step w (bit (suc b)), half_bit b, ap (bit_and (w / 2)) (half_bit b).0)

-- The code's test `w & (1 << b)` is 0 exactly where the bit is clear.
pub bit_and-bit : (w b : ℕ) → (bit_and w (bit b) == 0) ≡ not (test_bit w b)
bit_and-bit w zero = ground (arith, bit_and_step w 1, bit_and-zero (w / 2))
bit_and-bit w (suc b) = ground (arith, and_bit-suc w b, bit_and-bit (w / 2) b)

-- Setting a bit sets that bit and no other.
pub test_bit-or_bit : (w b c : ℕ) → test_bit (bit_or w (bit b)) c ≡ (test_bit w c || b == c)
test_bit-or_bit w zero zero = ground (arith, or_bit-zero w)
test_bit-or_bit w zero (suc c) = rw ((or_bit-zero w).0) (ground arith)
test_bit-or_bit w (suc b) zero = ground (arith, or_bit-suc w b)
test_bit-or_bit w (suc b) (suc c) =
    rw ((or_bit-suc w b).0) (ground (arith, test_bit-or_bit (w / 2) b c))

bit-lt : (k b : ℕ) → b < k → bit b < 2 ^ k
bit-lt k b h =
    omega (arith, two-pow-succ b, pow-le-pow_right {n = 2} (omega arith) h, one-le-pow b 2)

-- In a word of `k` bits, `~(1 << b)` has the lowest digit 0 for `b` 0, and 1 above.
half_not :
    (k b : ℕ)
    → b < k
    → (bit_not (suc k) (suc b) / 2 ≡ bit_not k b) × (bit_not (suc k) (suc b) % 2 ≡ 1)
half_not k b h = omega (arith, two-pow-succ k, two-pow-succ b, bit-lt k b h)

half_ones : (k : ℕ) → ((2 ^ suc k - 1) / 2 ≡ 2 ^ k - 1) × ((2 ^ suc k - 1) % 2 ≡ 1)
half_ones k = omega (arith, two-pow-succ k, one-le-pow k 2)

pub bit_and-ones : (k w : ℕ) → w < 2 ^ k → bit_and w (2 ^ k - 1) ≡ w
bit_and-ones zero w h = omega (arith, bit_and-zero w)
bit_and-ones (suc k) w h = omega (
  arith,
  bit_and_step w (2 ^ suc k - 1),
  half_ones k,
  ap (bit_and (w / 2)) (half_ones k).0,
  bit_and-ones k (w / 2) (omega (arith, two-pow-succ k)),
)

clear_bit-zero :
    (k w : ℕ)
    → w < 2 ^ suc k
    → (bit_and w (bit_not (suc k) 0) / 2 ≡ w / 2) × (bit_and w (bit_not (suc k) 0) % 2 ≡ 0)
clear_bit-zero k w h = omega (arith, step, bit_and-ones k (w / 2) (omega (arith, two-pow-succ k)))
  where
    halves : (bit_not (suc k) 0 / 2 ≡ 2 ^ k - 1) × (bit_not (suc k) 0 % 2 ≡ 0)
    halves = omega (arith, two-pow-succ k, one-le-pow k 2)

    step : bit_and w (bit_not (suc k) 0) ≡ bit_and (w / 2) (2 ^ k - 1) * 2
    step = omega (arith, bit_and_step w (bit_not (suc k) 0), halves, ap (bit_and (w / 2)) halves.0)

clear_bit-suc :
    (k w b : ℕ)
    → b < k
    → (bit_and w (bit_not (suc k) (suc b)) / 2 ≡ bit_and (w / 2) (bit_not k b))
      × (bit_and w (bit_not (suc k) (suc b)) % 2 ≡ w % 2)
clear_bit-suc k w b h = omega (arith, step, half_not k b h)
  where
    step : bit_and w (bit_not (suc k) (suc b)) ≡ bit_and (w / 2) (bit_not k b) * 2 + w % 2
    step = omega (
      arith,
      bit_and_step w (bit_not (suc k) (suc b)),
      half_not k b h,
      ap (bit_and (w / 2)) (half_not k b h).0,
    )

-- Setting the bit above a number adds it.
pub bit_or-bit_add : (w b : ℕ) → w < bit b → bit_or w (bit b) ≡ w + bit b
bit_or-bit_add w zero lt = omega (arith, or_bit-zero w, lt)
bit_or-bit_add w (suc b) lt = omega (
  arith,
  or_bit-suc w b,
  bit_or-bit_add (w / 2) b (omega (arith, lt, two-pow-succ b)),
  two-pow-succ b,
)

-- Clearing a bit of a word of `k` bits clears that bit and no other.
pub test_bit-clear_bit :
    (k w b c : ℕ)
    → b < k
    → w < 2 ^ k
    → test_bit (bit_and w (bit_not k b)) c ≡ (test_bit w c && not (b == c))
test_bit-clear_bit zero w b c hb hw = absurd (omega arith)
test_bit-clear_bit (suc k) w zero zero hb hw = ground (arith, clear_bit-zero k w hw)
test_bit-clear_bit (suc k) w zero (suc c) hb hw = rw ((clear_bit-zero k w hw).0) (ground arith)
test_bit-clear_bit (suc k) w (suc b) zero hb hw = ground (arith, clear_bit-suc k w b (omega arith))
test_bit-clear_bit (suc k) w (suc b) (suc c) hb hw =
    rw ((clear_bit-suc k w b (omega arith)).0) (
      ground
        (arith, test_bit-clear_bit k (w / 2) b c (omega arith) (omega (arith, two-pow-succ k))))

-- Setting and clearing stay within the width.
pub or_bit-lt : (k w b : ℕ) → b < k → w < 2 ^ k → bit_or w (bit b) < 2 ^ k
or_bit-lt zero w b hb hw = absurd (omega arith)
or_bit-lt (suc k) w zero hb hw = omega (arith, or_bit-zero w, two-pow-succ k)
or_bit-lt (suc k) w (suc b) hb hw = omega (
  arith,
  or_bit-suc w b,
  two-pow-succ k,
  or_bit-lt k (w / 2) b (omega arith) (omega (arith, two-pow-succ k)),
)

pub clear_bit-lt : (k w b : ℕ) → b < k → w < 2 ^ k → bit_and w (bit_not k b) < 2 ^ k
clear_bit-lt zero w b hb hw = absurd (omega arith)
clear_bit-lt (suc k) w zero hb hw = omega (arith, clear_bit-zero k w hw)
clear_bit-lt (suc k) w (suc b) hb hw = omega (
  arith,
  clear_bit-suc k w b (omega arith),
  two-pow-succ k,
  clear_bit-lt k (w / 2) b (omega arith) (omega (arith, two-pow-succ k)),
)

lowest_bit : (v w : ℕ) → (v % 2 == 1) ≡ (w % 2 == 1) → v % 2 ≡ w % 2
lowest_bit v w h = ground arith

-- A word of `k` bits is known by its bits.
pub word_ext :
    (k v w : ℕ) → v < 2 ^ k → w < 2 ^ k → ((c : ℕ) → c < k → test_bit v c ≡ test_bit w c) → v ≡ w
word_ext zero v w hv hw h = omega arith
word_ext (suc k) v w hv hw h = omega (
  arith,
  lowest_bit v w (h 0 (omega arith)),
  word_ext k (v / 2) (w / 2) (omega (arith, two-pow-succ k)) (omega (arith, two-pow-succ k))
      (λ c lt. h (suc c) (omega arith)),
)
