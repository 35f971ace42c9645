-- ===== src/Fs/Dos33/Count.antt =====
-- What `dos33_update_blocks_free` counts, and how the count follows the map.
use vmwos.Prelude.{
  one_if, ℕ, zero, suc, ◌+◌, ◌^◌, ◌<◌, ◌≡◌, refl, Bool, true, false, ◌&&◌, arith, ◌==◌, ne→==,
  ==_refl, ==_iff, ap,
}
use vmwos.Prelude.{sum_below, sum_below_same, sum_below_change}
use native.Mathlib.Decide.{ℕ_discrete}
use vmwos.Bits.{test_bit}
use vmwos.Fs.Dos33.{Bytes, high_at, low_at, num_tracks, ones_lookup, count_ones, sectors_free_from}
use vmwos.Fs.Dos33.Bitmap.{is_free, Narrow, cleared, same_sector, is_free-cleared}

-- The sectors of a track that are free, and those of the disk.
abbrev pub free_on : Bytes → ℕ → ℕ
free_on vtoc track = sum_below 16 (λ s. one_if (is_free vtoc track s))

abbrev pub free_sectors : Bytes → ℕ
free_sectors vtoc = sum_below (vtoc num_tracks) (free_on vtoc)

-- A test of every number below a bound.
each_below : ℕ → (ℕ → Bool) → Bool
each_below zero test = true
each_below (suc bound) test = each_below bound test && test bound

each_below-lt :
    (bound : ℕ) (test : ℕ → Bool) (i : ℕ) → i < bound → each_below bound test ≡ true → test i ≡ true
unfolding each_below
each_below-lt zero test i lt all = absurd (omega arith)
each_below-lt (suc bound) test i lt all = elim (ℕ_discrete i bound) [
  | yes e ↦ rw e (ground arith)
  | no ne ↦ each_below-lt bound test i (omega arith) (ground arith)
]

ones_of : ℕ → ℕ
ones_of byte = sum_below 8 (λ c. one_if (test_bit byte c))

ones_table : each_below (2 ^ 8) (λ byte. count_ones byte == ones_of byte) ≡ true
unfolding each_below count_ones ones_lookup ones_of sum_below
ones_table = refl

-- The table counts the ones of a byte.
count_ones-sum_below :
    (byte : ℕ) → byte < 2 ^ 8 → count_ones byte ≡ sum_below 8 (λ c. one_if (test_bit byte c))
unfolding ones_of
count_ones-sum_below byte small =
    (==_iff (count_ones byte) (ones_of byte)).0
      (each_below-lt (2 ^ 8) (λ b. count_ones b == ones_of b) byte small ones_table)

count_ones-free_on :
    (vtoc : Bytes) (track : ℕ)
    → Narrow vtoc
    → count_ones (vtoc (high_at track)) + count_ones (vtoc (low_at track)) ≡ free_on vtoc track
unfolding sum_below
count_ones-free_on vtoc track narrow = omega (
  arith,
  count_ones-sum_below (vtoc (high_at track)) (narrow (high_at track)),
  count_ones-sum_below (vtoc (low_at track)) (narrow (low_at track)),
)

-- The loop adds the free sectors of the tracks that are left.
sectors_free_from_lem :
    (left i : ℕ) (vtoc : Bytes) (sectors_free : ℕ)
    → Narrow vtoc
    → sectors_free_from left i vtoc sectors_free + sum_below i (free_on vtoc)
      ≡ sectors_free + sum_below (i + left) (free_on vtoc)
unfolding sectors_free_from sum_below
sectors_free_from_lem zero i vtoc acc narrow = let e : i + 0 ≡ i = omega arith in rw e refl
sectors_free_from_lem (suc left) i vtoc acc narrow =
    let e : i + suc left ≡ i + 1 + left = omega arith in
    let e' : i + 1 ≡ suc i = omega arith in
    rw e (
      omega (
        arith,
        ap (λ n. sum_below n (free_on vtoc)) e',
        count_ones-free_on vtoc i narrow,
        sectors_free_from_lem left (i + 1) vtoc
            (acc + (count_ones (vtoc (high_at i)) + count_ones (vtoc (low_at i)))) narrow,
      ))

pub sectors_free_from-free_sectors :
    (vtoc : Bytes) → Narrow vtoc → sectors_free_from (vtoc num_tracks) 0 vtoc 0 ≡ free_sectors vtoc
unfolding sum_below
sectors_free_from-free_sectors vtoc narrow =
    let e : 0 + vtoc num_tracks ≡ vtoc num_tracks = omega arith in
    omega (
      arith,
      sectors_free_from_lem (vtoc num_tracks) 0 vtoc 0 narrow,
      ap (λ n. sum_below n (free_on vtoc)) e,
    )

-- One flag changed: the free sectors are as many as before, but for that flag.
one_changed :
    (vtoc vtoc' : Bytes) (track sector : ℕ)
    → track < vtoc num_tracks
    → sector < 16
    → vtoc' num_tracks ≡ vtoc num_tracks
    → ((t s : ℕ)
        → s < 16
        → same_sector track sector t s ≡ false
        → is_free vtoc' t s ≡ is_free vtoc t s)
    → free_sectors vtoc' + one_if (is_free vtoc track sector)
      ≡ free_sectors vtoc + one_if (is_free vtoc' track sector)
one_changed vtoc vtoc' track sector lt small same_tracks same = rw same_tracks (
    omega (
      arith,
      sum_below_change (vtoc num_tracks) track (free_on vtoc) (free_on vtoc') lt (λ t _ ne.
          sum_below_same 16 (λ s. one_if (is_free vtoc t s)) (λ s. one_if (is_free vtoc' t s))
            (λ s lt'. ap one_if (same t s lt' (ground (arith, ne→== t track ne))))),
      sum_below_change 16 sector (λ s. one_if (is_free vtoc track s))
          (λ s. one_if (is_free vtoc' track s)) small
          (λ s lt' ne. ap one_if (same track s lt' (ground (arith, ne→== s sector ne)))),
    ))

module _ (vtoc : Bytes) (track sector : ℕ) (narrow : Narrow vtoc) (lt : track < vtoc num_tracks)
    (small : sector < 16) where
  tracks-cleared : cleared vtoc track sector num_tracks ≡ vtoc num_tracks
  tracks-cleared = ground arith

  taken : is_free (cleared vtoc track sector) track sector ≡ false
  taken = ground (
    arith,
    ==_refl track,
    ==_refl sector,
    is_free-cleared vtoc track sector narrow small track sector small,
  )

  pub free_sectors-cleared :
      is_free vtoc track sector ≡ true
      → free_sectors (cleared vtoc track sector) + 1 ≡ free_sectors vtoc
  free_sectors-cleared free = omega (
    arith,
    one_changed vtoc (cleared vtoc track sector) track sector lt small tracks-cleared
        (λ t s lt' ne. ground (arith, is_free-cleared vtoc track sector narrow small t s lt')),
    ap one_if free,
    ap one_if taken,
  )
