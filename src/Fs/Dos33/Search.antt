-- ===== src/Fs/Dos33/Search.antt =====
-- The search of `dos33_allocate_sector` for a free sector.
use vmwos.Prelude.{
  ℕ, zero, suc, ◌+◌, ◌-◌, ◌/◌, ◌%◌, ◌^◌, ◌<◌, ◌≡◌, refl, ◌≢◌, bit_and, true, false, not, none, some,
  arith, ltb, ◌==◌, if◌then◌else◌, ne→==, ◌∙◌, lt→ltb, le→ltb, inl, inr, ◌⊎◌, first_index-some,
}
use native.Mathlib.Nat.{two-pow-succ}
use native.Mathlib.Decide.{ℕ_discrete, dec_lt}
use vmwos.Bits.{bit, test_bit, bit_and-bit}
use vmwos.Fs.Dos33.{
  Bytes, high_at, low_at, vtoc_track, find_first_one, sector_on, next_track, turn_low, turn_high,
}
use vmwos.Fs.Dos33.Bitmap.{is_free, Narrow}

-- Where a bit of a byte is set, one is found, and it is set.
find_first_one-some :
    (byte i : ℕ)
    → i < 8
    → test_bit byte i ≡ true
    → (r : ℕ) × (find_first_one byte ≡ some r) × (test_bit byte r ≡ true) × (r < 8)
unfolding find_first_one
find_first_one-some byte i lt hit =
    let (r, e, found, first) =
      first_index-some (λ j. not (bit_and byte (bit j) == 0)) 8 0 i (omega arith) (omega arith)
        (ground (arith, bit_and-bit byte i)) in
    (r, e, ground (arith, found, bit_and-bit byte r), omega arith)

pub test_bit_zero : (c : ℕ) → test_bit 0 c ≡ false
test_bit_zero zero = refl
test_bit_zero (suc c) = test_bit_zero c

-- A byte that is not 0 has a bit set.
some_bit : (k byte : ℕ) → byte < 2 ^ k → byte ≢ 0 → (i : ℕ) × (i < k) × (test_bit byte i ≡ true)
some_bit zero byte small ne = absurd (omega arith)
some_bit (suc k) byte small ne = elim (ℕ_discrete (byte % 2) 1) [
  | yes odd ↦ (0, omega arith, rw odd refl)
  | no even ↦
      let (i, lt, hit) =
        some_bit k (byte / 2) (omega (arith, two-pow-succ k)) (λ z. ne (omega (arith, z))) in
      (suc i, omega (arith, lt), hit)
]

free_low :
    (vtoc : Bytes) (track s : ℕ) → s < 8 → is_free vtoc track s ≡ test_bit (vtoc (low_at track)) s
free_low vtoc track s lt = rw (lt→ltb s 8 lt) refl

free_high :
    (vtoc : Bytes) (track s : ℕ) → is_free vtoc track (s + 8) ≡ test_bit (vtoc (high_at track)) s
free_high vtoc track s =
    let e : s + 8 - 8 ≡ s = omega arith in rw (le→ltb (s + 8) 8 (omega arith), e) refl

none_free :
    (vtoc : Bytes) (track s : ℕ)
    → vtoc (low_at track) ≡ 0
    → vtoc (high_at track) ≡ 0
    → is_free vtoc track s ≡ false
none_free vtoc track s e e' = elim (dec_lt s 8) [
  | yes low ↦ rw (lt→ltb s 8 low, e) (test_bit_zero s)
  | no high ↦ rw (le→ltb s 8 (omega arith), e') (test_bit_zero (s - 8))
]

-- What `sector_on` finds: a free sector, or that the track has none.
pub sector_on-cases :
    (vtoc : Bytes) (track : ℕ)
    → Narrow vtoc
    → ((s : ℕ) × (sector_on vtoc track ≡ some s) × (s < 16) × (is_free vtoc track s ≡ true))
      ⊎ ((sector_on vtoc track ≡ none) × ((s : ℕ) → is_free vtoc track s ≡ false))
unfolding sector_on
sector_on-cases vtoc track narrow = elim (ℕ_discrete (vtoc (low_at track)) 0) [
  | no ne ↦
      let (i, lt, hit) = some_bit 8 (vtoc (low_at track)) (narrow (low_at track)) ne in
      let (r, e, found, small) = find_first_one-some (vtoc (low_at track)) i lt hit in
      inl (
        r,
        rw (ne→== (vtoc (low_at track)) 0 ne) e,
        omega (arith, small),
        free_low vtoc track r small ∙ found,
      )
  | yes empty ↦ elim (ℕ_discrete (vtoc (high_at track)) 0) [
    | no ne ↦
        let (i, lt, hit) = some_bit 8 (vtoc (high_at track)) (narrow (high_at track)) ne in
        let (r, e, found, small) = find_first_one-some (vtoc (high_at track)) i lt hit in
        inl (
          r + 8,
          rw (empty, ne→== (vtoc (high_at track)) 0 ne, e) refl,
          omega (arith, small),
          free_high vtoc track r ∙ found,
        )
    | yes empty' ↦ inr (rw (empty, empty') refl, λ s. none_free vtoc track s empty empty')
  ]
]

-- A direction of the head: up or down.
pub data Way : Type 0 where
  up : Way
  down : Way

abbrev pub word_of : Way → ℕ
word_of up = 1
word_of down = 2 ^ 32 - 1

-- Where the head goes next.
abbrev pub turned : ℕ → ℕ → Way → ℕ × Way
turned tracks track up = if ltb (track + 1) tracks then (track + 1, up) else (vtoc_track, down)
turned tracks track down = if track == 0 then (vtoc_track, up) else (track - 1, down)

pub next_track-turned :
    (tracks track : ℕ) (way : Way)
    → vtoc_track < tracks
    → tracks < 2 ^ 8
    → track < tracks
    → next_track tracks track (word_of way)
      ≡ ((turned tracks track way).0, word_of (turned tracks track way).1)
unfolding next_track turn_low turn_high
next_track-turned tracks track up wide small lt = ground arith
next_track-turned tracks track down wide small lt = ground arith
