-- ===== src/Fs/Dos33.antt =====
-- The DOS 3.3 file system of kernel/fs/dos33fs/dos33fs.c: the map of free sectors in the VTOC.
--
-- `vtoc` is what `sb->private` points to, a byte for each index; a `char` is unsigned, as on ARM. A
-- track and a sector are not negative. `debug` is 0, as in the source.
pub mod Bitmap
pub mod Count
pub mod Search
pub mod Sweep
pub mod Allocate
pub mod Full
pub mod Tests
use vmwos.Prelude.{
  put, ℕ, zero, suc, ◌+◌, ◌-◌, ◌*◌, ◌/◌, ◌%◌, ◌^◌, bit_and, bit_or, Bool, false, not, ◌&&◌, Option,
  none, some, [], ◌∷◌, ltb, leb, ◌==◌, if◌then◌else◌, ◌>>=◌, get_or, first_index,
}
use vmwos.Bits.{bit, bit_not}
use vmwos.Fs.{err}

-- DOS33_BLOCK_SIZE, DOS33_VTOC_SIZE and DOS33_VTOC_TRACK
abbrev pub block_size : ℕ
block_size = 256

abbrev pub vtoc_size : ℕ
vtoc_size = 256

abbrev pub vtoc_track : ℕ
vtoc_track = 17

-- Offsets in the VTOC
abbrev pub last_track_allocated : ℕ
last_track_allocated = 0x30

abbrev pub alloc_direction : ℕ
alloc_direction = 0x31

abbrev pub num_tracks : ℕ
num_tracks = 0x34

abbrev pub num_sectors : ℕ
num_sectors = 0x35

abbrev pub free_bitmaps : ℕ
free_bitmaps = 0x38

abbrev pub enospc : ℕ
enospc = 28

abbrev pub debug : Bool
debug = false

abbrev pub Bytes : Type 0
Bytes = ℕ → ℕ

-- `sb->block->block_ops->write` of some bytes at a location of the disk, whose state is `D`.
pub record BlockOps (D : Type 0) : Type 0 where
  pub write : ℕ → ℕ → Bytes → D → D

-- What the file system keeps of a superblock.
pub record Volume (D : Type 0) : Type 0 where
  pub vtoc : Bytes
  pub blocks : ℕ
  pub blocks_free : ℕ
  pub disk : D

-- The location of a sector
pub ts : ℕ → ℕ → ℕ
ts track sector = (track * 16 + sector) * block_size

pub get_t : ℕ → ℕ
get_t value = value / block_size / 2 ^ 4

pub get_s : ℕ → ℕ
get_s value = value / block_size % 2 ^ 4

pub inode_to_block : ℕ → ℕ
inode_to_block inode_num = ts (inode_num / 2 ^ 16 % 2 ^ 8) (inode_num / 2 ^ 8 % 2 ^ 8)

pub ones_lookup : ℕ → ℕ
ones_lookup nibble =
    get_or (0 ∷ 1 ∷ 1 ∷ 2 ∷ 1 ∷ 2 ∷ 2 ∷ 3 ∷ 1 ∷ 2 ∷ 2 ∷ 3 ∷ 2 ∷ 3 ∷ 3 ∷ 4 ∷ []) nibble 0

-- The two lookups that count the ones of a byte.
pub count_ones : ℕ → ℕ
count_ones byte = ones_lookup (bit_and byte 0xf) + ones_lookup (bit_and (byte / 2 ^ 4) 0xf)

-- The lowest bit that is set; `none` stands for the -1 of a byte that is 0.
pub find_first_one : ℕ → Option ℕ
find_first_one byte = first_index (λ i. not (bit_and byte (bit i) == 0)) 8 0

-- The two bytes of a track, for the sectors 8 to 15 and for the sectors 0 to 7
abbrev pub high_at : ℕ → ℕ
high_at track = free_bitmaps + track * 4

abbrev pub low_at : ℕ → ℕ
low_at track = free_bitmaps + track * 4 + 1

-- The loop of `dos33_update_blocks_free` over the tracks from `i` on, `left` of them.
pub sectors_free_from : ℕ → ℕ → Bytes → ℕ → ℕ
sectors_free_from zero i vtoc sectors_free = sectors_free
sectors_free_from (suc left) i vtoc sectors_free =
    sectors_free_from left (i + 1) vtoc
      (sectors_free + (count_ones (vtoc (high_at i)) + count_ones (vtoc (low_at i))))

-- The first sector that is free on a track: byte 1 comes first.
pub sector_on : Bytes → ℕ → Option ℕ
sector_on vtoc track =
    if not (vtoc (low_at track) == 0)
    then find_first_one (vtoc (low_at track))
    else if not (vtoc (high_at track) == 0)
    then (find_first_one (vtoc (high_at track)) >>= λ found. some (found + 8))
    else none

-- The next track with the direction, a 32-bit word of 1 or -1; the two tests for an overflow.
pub turn_low : ℕ × ℕ → ℕ × ℕ
turn_low (track, direction) = if leb (2 ^ 31) track then (vtoc_track, 1) else (track, direction)

pub turn_high : ℕ → ℕ × ℕ → ℕ × ℕ
turn_high tracks (track, direction) =
    if leb tracks track then (vtoc_track, 2 ^ 32 - 1) else (track, direction)

pub next_track : ℕ → ℕ → ℕ → ℕ × ℕ
next_track tracks track direction =
    turn_high tracks (turn_low ((track + direction) % 2 ^ 32, direction))

-- What the loop of `dos33_allocate_sector` comes to: a sector with the direction, or `-ENOSPC`.
pub data Found : Type 0 where
  sector_at : ℕ → ℕ → ℕ → Found
  no_space : Found

-- The loop, where a track is not free; `rest` is the round for the next one.
pub no_sector : ℕ → ℕ → Option Found → Option Found
no_sector start track rest = if debug && (track == start) then some no_space else rest

pub search : ℕ → Bytes → ℕ → ℕ → ℕ → Option Found
search zero vtoc start track direction = none
search (suc fuel) vtoc start track direction = elim (sector_on vtoc track) [
  | some sector ↦ some (sector_at track sector direction)
  | none ↦
      let (track', direction') = next_track (vtoc num_tracks) track direction in
      no_sector start track' (search fuel vtoc start track' direction')
]

-- Rounds enough to pass every track of a disk in both directions.
abbrev pub search_fuel : ℕ
search_fuel = 1024

-- `0xff` is -1.
abbrev pub direction_of : ℕ → ℕ
direction_of byte = if byte == 0xff then 2 ^ 32 - 1 else byte

module _ {D : Type 0} where
  pub update_blocks_free : Volume D → Volume D
  update_blocks_free v = record v {
    blocks = v.vtoc num_tracks * v.vtoc num_sectors;
    blocks_free = sectors_free_from (v.vtoc num_tracks) 0 v.vtoc 0;
  }

  -- A sector out of range is reported, and nothing is done.
  pub mark_blocks_free : Volume D → ℕ → ℕ → Volume D
  mark_blocks_free v track sector =
      if ltb sector 8
      then update_blocks_free (record v {
        vtoc = put v.vtoc (low_at track) (bit_or (v.vtoc (low_at track)) (bit sector));
      })
      else if ltb sector 16
      then update_blocks_free (record v {
        vtoc = put v.vtoc (high_at track) (bit_or (v.vtoc (high_at track)) (bit (sector - 8)));
      })
      else v

  -- `~(1<<sector)` is cut to a byte.
  pub mark_blocks_used : Volume D → ℕ → ℕ → Volume D
  mark_blocks_used v track sector =
      if ltb sector 8
      then update_blocks_free (record v {
        vtoc = put v.vtoc (low_at track) (bit_and (v.vtoc (low_at track)) (bit_not 8 sector));
      })
      else if ltb sector 16
      then update_blocks_free (record v {
        vtoc =
            put v.vtoc (high_at track) (bit_and (v.vtoc (high_at track)) (bit_not 8 (sector - 8)));
      })
      else v

  -- A `char` of an `int`
  pub store_position : Volume D → ℕ → ℕ → Volume D
  store_position v track direction = record v {
    vtoc =
        put (put v.vtoc last_track_allocated (track % 2 ^ 8)) alloc_direction (direction % 2 ^ 8);
  }

module _ {D : Type 0} (ops : BlockOps D) where
  pub write_superblock : Volume D → Volume D
  write_superblock v = record v { disk = ops.write (ts 17 0) vtoc_size v.vtoc v.disk }

  pub zero_out_sector : Volume D → ℕ → ℕ → Volume D
  zero_out_sector v track sector = record v {
    disk = ops.write (ts track sector) block_size (λ _. 0) v.disk;
  }

  -- The result, the track and the sector, and the volume afterwards.
  pub allocate_found : Volume D → Found → ℕ × ℕ × ℕ × Volume D
  allocate_found v no_space = (err enospc, 0, 0, v)
  allocate_found v (sector_at track sector direction) = (
    0,
    track,
    sector,
    write_superblock (store_position (mark_blocks_used v track sector) track direction),
  )

  pub allocate_sector : Volume D → Option (ℕ × ℕ × ℕ × Volume D)
  allocate_sector v =
      search search_fuel v.vtoc (v.vtoc last_track_allocated) (v.vtoc last_track_allocated)
        (direction_of (v.vtoc alloc_direction))
      >>= λ found. some (allocate_found v found)
