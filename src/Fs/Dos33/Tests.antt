-- ===== src/Fs/Dos33/Tests.antt =====
-- Runs of the sector allocator of kernel/fs/dos33fs/dos33fs.c.
use vmwos.Prelude.{
  ℕ, ◌+◌, ◌-◌, ◌^◌, ◌<◌, ◌≡◌, refl, true, false, not, ◌&&◌, none, some, List, [], ◌∷◌, arith,
  first_index, ◌==◌, if◌then◌else◌, ◌∙◌, ap, inl,
}
use vmwos.Bits.{test_bit}
use vmwos.Fs.Dos33.{
  Bytes, BlockOps, Volume, ts, count_ones, find_first_one, vtoc_size, num_tracks, num_sectors,
  last_track_allocated, alloc_direction, search, allocate_sector, sectors_free_from,
  update_blocks_free, mark_blocks_used, mark_blocks_free, write_superblock, store_position,
  allocate_found, sector_on, no_sector, next_track, turn_low, turn_high, ones_lookup,
}
use vmwos.Fs.Dos33.Bitmap.{is_free, bit_at, same_sector}
use vmwos.Fs.Dos33.Search.{up, word_of, test_bit_zero}
use vmwos.Fs.Dos33.Sweep.{IsDisk}
use vmwos.Fs.Dos33.Count.{free_sectors}
use vmwos.Fs.Dos33.Allocate.{IsReady, is_free-allocate_sector, allocate_sector-IsReady}
use vmwos.Fs.Dos33.Full.{search-none}

-- The places that were written, with what byte 0x38 + 12 of them holds.
abbrev Log : Type 0
Log = List (ℕ × ℕ × ℕ)

abbrev logged : BlockOps Log
logged = record { write = λ place size bytes log. (place, size, bytes 0x44) ∷ log }

-- 35 tracks of 16 sectors, all of them used, and the head on track 20 on its way up.
abbrev full_vtoc : Bytes
full_vtoc a =
    if a == num_tracks
    then 35
    else if a == num_sectors
    then 16
    else if a == last_track_allocated
    then 20
    else if a == alloc_direction
    then 1
    else 0

-- Two sectors of track 3 are free, 13 and 15.
abbrev vtoc : Bytes
vtoc a = if a == 0x44 then 0xa0 else full_vtoc a

full_vtoc-IsDisk : IsDisk full_vtoc
full_vtoc-IsDisk = record { narrow = λ a. ground arith; wide = omega arith; fits = omega arith }

vtoc-IsReady : IsReady vtoc
vtoc-IsReady = record {
  disk = record { narrow = λ a. ground arith; wide = omega arith; fits = omega arith };
  head = omega arith;
  way = inl refl;
}

abbrev volume : Volume Log
volume = record { vtoc = vtoc; blocks = 560; blocks_free = 2; disk = [] }

is_free-allocate_sector_example :
    (track sector : ℕ) × (v' : Volume Log) × (allocate_sector logged volume
      ≡ some (0, track, sector, v'))
    × (track < 35)
    × (sector < 16)
    × (is_free vtoc track sector ≡ true)
    × ((a b : ℕ)
        → b < 16
        → is_free v'.vtoc a b ≡ (is_free vtoc a b && not (same_sector track sector a b)))
is_free-allocate_sector_example =
    is_free-allocate_sector logged volume 3 15 vtoc-IsReady (omega arith) refl

-- The volume with sector 13 of track 3 taken, on the way down
abbrev taken : Volume Log
taken = write_superblock logged (store_position (mark_blocks_used volume 3 13) 3 (2 ^ 32 - 1))

allocate-taken : allocate_sector logged volume ≡ some (0, 3, 13, taken)
unfolding allocate_sector allocate_found search sector_on find_first_one no_sector next_track
    turn_low turn_high first_index
allocate-taken = refl

allocate_sector-IsReady_example :
    IsReady taken.vtoc
    × (taken.blocks_free ≡ free_sectors taken.vtoc)
    × (taken.blocks_free + 1 ≡ free_sectors vtoc)
    × (taken.disk ≡ logged.write (ts 17 0) vtoc_size taken.vtoc [])
allocate_sector-IsReady_example =
    allocate_sector-IsReady logged volume 3 15 0 3 13 taken vtoc-IsReady (omega arith) refl
      allocate-taken

counts_test :
    (taken.blocks ≡ 560)
    × (taken.blocks_free ≡ 1)
    × (taken.disk ≡ (69632, 256, 0x80) ∷ [])
    × ((mark_blocks_free taken 3 13).blocks_free ≡ 2)
unfolding write_superblock store_position mark_blocks_used mark_blocks_free update_blocks_free
    sectors_free_from count_ones ones_lookup ts
counts_test = (refl, refl, refl, refl)

nothing_free : (t s : ℕ) → t < full_vtoc num_tracks → s < 16 → is_free full_vtoc t s ≡ false
nothing_free t s lt small =
    ap (λ b. test_bit b (bit_at s)) {y = 0} (ground arith) ∙ test_bit_zero (bit_at s)

search-none_example : search 1000 full_vtoc 20 20 (word_of up) ≡ none
search-none_example =
    search-none full_vtoc 20 full_vtoc-IsDisk nothing_free 1000 20 up (omega arith)
