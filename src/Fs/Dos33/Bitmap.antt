-- ===== src/Fs/Dos33/Bitmap.antt =====
-- The map of free sectors in the VTOC, read as one flag for each sector of a track.
use vmwos.Prelude.{
  put, ℕ, ◌-◌, ◌^◌, ◌<◌, ◌≡◌, refl, bit_and, bit_or, Bool, true, false, not, ◌&&◌, ◌||◌, arith, ltb,
  ◌==◌, if◌then◌else◌, ne→==, ==_refl, ◌∙◌, ap, sym, lt→ltb, le→ltb,
}
use native.Mathlib.Decide.{ℕ_discrete, dec_lt}
use vmwos.Bits.{
  bit, bit_not, test_bit, test_bit-or_bit, test_bit-clear_bit, or_bit-lt, clear_bit-lt,
}
use vmwos.Fs.Dos33.{
  Bytes, Volume, high_at, low_at, update_blocks_free, mark_blocks_free, mark_blocks_used,
}

-- The byte that holds the flag of a sector, and the bit in it.
abbrev pub byte_at : ℕ → ℕ → ℕ
byte_at track sector = if ltb sector 8 then low_at track else high_at track

abbrev pub bit_at : ℕ → ℕ
bit_at sector = if ltb sector 8 then sector else sector - 8

abbrev pub is_free : Bytes → ℕ → ℕ → Bool
is_free vtoc track sector = test_bit (vtoc (byte_at track sector)) (bit_at sector)

abbrev pub same_sector : ℕ → ℕ → ℕ → ℕ → Bool
same_sector track sector t s = (t == track) && (s == sector)

-- Every byte is a byte.
abbrev pub Narrow : Bytes → Type 0
Narrow vtoc = (a : ℕ) → vtoc a < 2 ^ 8

-- Two sectors with the flag in one byte and one bit are the same.
same_flag :
    (track sector t s : ℕ)
    → sector < 16
    → s < 16
    → ((byte_at t s == byte_at track sector) && (bit_at sector == bit_at s))
      ≡ same_sector track sector t s
same_flag track sector t s lt lt' = ground arith

pub bit_at-lt : (s : ℕ) → s < 16 → bit_at s < 8
bit_at-lt s lt = ground arith

-- The map with one byte changed.
abbrev pub cleared : Bytes → ℕ → ℕ → Bytes
cleared vtoc track sector =
    put vtoc (byte_at track sector)
      (bit_and (vtoc (byte_at track sector)) (bit_not 8 (bit_at sector)))

abbrev pub raised : Bytes → ℕ → ℕ → Bytes
raised vtoc track sector =
    put vtoc (byte_at track sector) (bit_or (vtoc (byte_at track sector)) (bit (bit_at sector)))

&&-true : (b : Bool) → (b && true) ≡ b
&&-true true = refl
&&-true false = refl

||-false : (b : Bool) → (b || false) ≡ b
||-false true = refl
||-false false = refl

-- One bit of one byte, and what is read at any other.
put-clear :
    (vtoc : Bytes) (a b x c : ℕ)
    → b < 8
    → Narrow vtoc
    → test_bit (put vtoc a (bit_and (vtoc a) (bit_not 8 b)) x) c
      ≡ (test_bit (vtoc x) c && not ((x == a) && (b == c)))
put-clear vtoc a b x c lt narrow = elim (ℕ_discrete x a) [
  | yes e ↦ rw (e, ==_refl a) (test_bit-clear_bit 8 (vtoc a) b c lt (narrow a))
  | no ne ↦ rw (ne→== x a ne) (sym (&&-true (test_bit (vtoc x) c)))
]

put-raise :
    (vtoc : Bytes) (a b x c : ℕ)
    → test_bit (put vtoc a (bit_or (vtoc a) (bit b)) x) c
      ≡ (test_bit (vtoc x) c || ((x == a) && (b == c)))
put-raise vtoc a b x c = elim (ℕ_discrete x a) [
  | yes e ↦ rw (e, ==_refl a) (test_bit-or_bit (vtoc a) b c)
  | no ne ↦ rw (ne→== x a ne) (sym (||-false (test_bit (vtoc x) c)))
]

module _ (vtoc : Bytes) (track sector : ℕ) (narrow : Narrow vtoc) (lt : sector < 16) where
  pub cleared-Narrow : Narrow (cleared vtoc track sector)
  cleared-Narrow a = ground (
    arith,
    narrow a,
    clear_bit-lt 8 (vtoc (byte_at track sector)) (bit_at sector) (bit_at-lt sector lt)
        (narrow (byte_at track sector)),
  )

  pub raised-Narrow : Narrow (raised vtoc track sector)
  raised-Narrow a = ground (
    arith,
    narrow a,
    or_bit-lt 8 (vtoc (byte_at track sector)) (bit_at sector) (bit_at-lt sector lt)
        (narrow (byte_at track sector)),
  )

  -- Clearing the bit of a sector clears its flag, and no other flag changes.
  pub is_free-cleared :
      (t s : ℕ)
      → s < 16
      → is_free (cleared vtoc track sector) t s
        ≡ (is_free vtoc t s && not (same_sector track sector t s))
  is_free-cleared t s lt' =
      put-clear vtoc (byte_at track sector) (bit_at sector) (byte_at t s) (bit_at s)
        (bit_at-lt sector lt) narrow
      ∙ ap (λ (b : Bool). is_free vtoc t s && not b) (same_flag track sector t s lt lt')

  pub is_free-raised :
      (t s : ℕ)
      → s < 16
      → is_free (raised vtoc track sector) t s ≡ (is_free vtoc t s || same_sector track sector t s)
  is_free-raised t s lt' =
      put-raise vtoc (byte_at track sector) (bit_at sector) (byte_at t s) (bit_at s)
      ∙ ap (λ (b : Bool). is_free vtoc t s || b) (same_flag track sector t s lt lt')

module _ {D : Type 0} (v : Volume D) (track sector : ℕ) (lt : sector < 16) where
  pub vtoc-mark_blocks_used : (mark_blocks_used v track sector).vtoc ≡ cleared v.vtoc track sector
  unfolding mark_blocks_used update_blocks_free
  vtoc-mark_blocks_used = elim (dec_lt sector 8) [
    | yes low ↦ rw (lt→ltb sector 8 low) refl
    | no high ↦ rw (le→ltb sector 8 (omega arith), lt→ltb sector 16 lt) refl
  ]

  pub vtoc-mark_blocks_free : (mark_blocks_free v track sector).vtoc ≡ raised v.vtoc track sector
  unfolding mark_blocks_free update_blocks_free
  vtoc-mark_blocks_free = elim (dec_lt sector 8) [
    | yes low ↦ rw (lt→ltb sector 8 low) refl
    | no high ↦ rw (le→ltb sector 8 (omega arith), lt→ltb sector 16 lt) refl
  ]
