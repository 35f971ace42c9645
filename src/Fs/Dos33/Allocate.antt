-- ===== src/Fs/Dos33/Allocate.antt =====
-- What `dos33_allocate_sector` does to the volume.
use vmwos.Prelude.{
  one_if, put, ℕ, ◌+◌, ◌%◌, ◌^◌, ◌<◌, ◌≡◌, refl, true, not, ◌&&◌, Option, some, arith, ◌∙◌, ap, sym,
  subst, ◌>>=◌, inl, inr, ◌⊎◌, sum_below_same,
}
use vmwos.Bits.{test_bit}
use vmwos.Fs.Dos33.{
  Bytes, BlockOps, Volume, vtoc_size, num_tracks, last_track_allocated, alloc_direction, ts, Found,
  search, search_fuel, direction_of, update_blocks_free, mark_blocks_used, store_position,
  write_superblock, allocate_found, allocate_sector,
}
use vmwos.Fs.Dos33.Bitmap.{
  byte_at, bit_at, is_free, same_sector, cleared, cleared-Narrow, is_free-cleared,
  vtoc-mark_blocks_used,
}
use vmwos.Fs.Dos33.Search.{Way, up, down, word_of}
use vmwos.Fs.Dos33.Sweep.{IsDisk, search-Finds}
use vmwos.Fs.Dos33.Count.{
  free_on, free_sectors, sectors_free_from-free_sectors, free_sectors-cleared,
}

-- The VTOC is that of a disk, the track of the last sector given out is on the disk, and the
-- direction is up or down.
pub record IsReady (vtoc : Bytes) : Type 0 where
  pub disk : IsDisk vtoc
  pub head : vtoc last_track_allocated < vtoc num_tracks
  pub way : (vtoc alloc_direction ≡ 1) ⊎ (vtoc alloc_direction ≡ 0xff)

-- The map after `store_position`.
abbrev stored : Bytes → ℕ → ℕ → Bytes
stored vtoc track direction =
    put (put vtoc last_track_allocated (track % 2 ^ 8)) alloc_direction (direction % 2 ^ 8)

is_free-stored :
    (vtoc : Bytes) (track direction t s : ℕ)
    → is_free (stored vtoc track direction) t s ≡ is_free vtoc t s
is_free-stored vtoc track direction t s =
    ap (λ b. test_bit b (bit_at s)) {y = vtoc (byte_at t s)} (ground arith)

way_of_byte :
    (byte : ℕ) → (byte ≡ 1) ⊎ (byte ≡ 0xff) → (way : Way) × (direction_of byte ≡ word_of way)
way_of_byte byte (inl e) = (up, ground arith)
way_of_byte byte (inr e) = (down, ground arith)

byte_of_way : (way : Way) → (word_of way % 2 ^ 8 ≡ 1) ⊎ (word_of way % 2 ^ 8 ≡ 0xff)
byte_of_way up = inl refl
byte_of_way down = inr refl

module _ (vtoc : Bytes) (track sector : ℕ) (way : Way) where
  abbrev pub after : Bytes
  after = stored (cleared vtoc track sector) track (word_of way)

  module _ (is : IsDisk vtoc) (lt : track < vtoc num_tracks) (small : sector < 16) where
    tracks-after : after num_tracks ≡ vtoc num_tracks
    tracks-after = ground arith

    pub is_free-after :
        (t s : ℕ)
        → s < 16
        → is_free after t s ≡ (is_free vtoc t s && not (same_sector track sector t s))
    is_free-after t s lt' =
        is_free-stored (cleared vtoc track sector) track (word_of way) t s
        ∙ is_free-cleared vtoc track sector is.narrow small t s lt'

    pub after-IsReady : IsReady after
    after-IsReady = record {
      disk = record {
        narrow = λ a. ground (arith, cleared-Narrow vtoc track sector is.narrow small a);
        wide = omega (arith, tracks-after, is.wide);
        fits = omega (arith, tracks-after, is.fits);
      };
      head = ground (arith, tracks-after, is.narrow num_tracks);
      way = byte_of_way way;
    }

    free_sectors-stored : free_sectors after ≡ free_sectors (cleared vtoc track sector)
    free_sectors-stored = rw tracks-after (
        sum_below_same (vtoc num_tracks) (free_on (cleared vtoc track sector)) (free_on after)
          (λ t _.
            sum_below_same 16 (λ s. one_if (is_free (cleared vtoc track sector) t s))
              (λ s. one_if (is_free after t s))
              (λ s _.
                ap one_if (is_free-stored (cleared vtoc track sector) track (word_of way) t s))))

module _ {D : Type 0} (ops : BlockOps D) (v : Volume D) where
  -- The volume after a sector that was found is given out.
  abbrev given : ℕ → ℕ → Way → Volume D
  given track sector way =
      write_superblock ops (store_position (mark_blocks_used v track sector) track (word_of way))

  module _ (track sector : ℕ) (way : Way) (small : sector < 16) where
    vtoc-given : (given track sector way).vtoc ≡ after v.vtoc track sector way
    unfolding write_superblock store_position
    vtoc-given = ap (λ b. stored b track (word_of way)) (vtoc-mark_blocks_used v track sector small)

    blocks_free-given :
        IsDisk v.vtoc
        → (given track sector way).blocks_free ≡ free_sectors (cleared v.vtoc track sector)
    unfolding write_superblock store_position mark_blocks_used update_blocks_free
    blocks_free-given is =
        let counted =
          sectors_free_from-free_sectors (cleared v.vtoc track sector)
            (cleared-Narrow v.vtoc track sector is.narrow small) in
        ground arith

    disk-given :
        (given track sector way).disk
        ≡ ops.write (ts 17 0) vtoc_size (given track sector way).vtoc v.disk
    unfolding write_superblock store_position mark_blocks_used update_blocks_free
    disk-given = ground arith

  -- What the search finds is what is given out.
  allocates :
      (t s : ℕ)
      → IsReady v.vtoc
      → t < v.vtoc num_tracks
      → is_free v.vtoc t s ≡ true
      → (track sector : ℕ) × (way : Way) × (allocate_sector ops v
          ≡ some (0, track, sector, given track sector way))
        × (track < v.vtoc num_tracks)
        × (sector < 16)
        × (is_free v.vtoc track sector ≡ true)
  unfolding allocate_sector allocate_found
  allocates t s is lt free =
      let (w, e) = way_of_byte (v.vtoc alloc_direction) is.way in
      let (track, sector, way, found, on, small, was) =
        search-Finds v.vtoc (v.vtoc last_track_allocated) is.disk search_fuel
          (v.vtoc last_track_allocated) t s w is.head lt free (omega arith) in
      (
        track,
        sector,
        way,
        ap
              (λ d. result (
                search search_fuel v.vtoc (v.vtoc last_track_allocated)
                  (v.vtoc last_track_allocated) d))
              e
            ∙ ap result found,
        on,
        small,
        was,
      )
    where
      result : Option Found → Option (ℕ × ℕ × ℕ × Volume D)
      result o = o >>= λ found. some (allocate_found ops v found)

  -- On a disk with at least one free sector, wherever the last allocation was and in whichever
  -- direction it went, the search of dos33_allocate_sector ends: it returns 0 with a sector of
  -- the disk that was free, and of the flags in the VTOC it clears exactly that of this sector.
  pub is_free-allocate_sector :
      (t s : ℕ)
      → IsReady v.vtoc
      → t < v.vtoc num_tracks
      → is_free v.vtoc t s ≡ true
      → (track sector : ℕ) × (v' : Volume D) × (allocate_sector ops v ≡ some (0, track, sector, v'))
        × (track < v.vtoc num_tracks)
        × (sector < 16)
        × (is_free v.vtoc track sector ≡ true)
        × ((a b : ℕ)
            → b < 16
            → is_free v'.vtoc a b ≡ (is_free v.vtoc a b && not (same_sector track sector a b)))
  is_free-allocate_sector t s is lt free =
      let (track, sector, way, e, on, small, was) = allocates t s is lt free in
      (
        track,
        sector,
        given track sector way,
        e,
        on,
        small,
        was,
        λ a b lt'.
            ap (λ m. is_free m a b) (vtoc-given track sector way small)
            ∙ is_free-after v.vtoc track sector way is.disk on small a b lt',
      )

  given-IsReady :
      (track sector : ℕ) (way : Way)
      → IsReady v.vtoc
      → track < v.vtoc num_tracks
      → sector < 16
      → is_free v.vtoc track sector ≡ true
      → IsReady (given track sector way).vtoc
        × ((given track sector way).blocks_free ≡ free_sectors (given track sector way).vtoc)
        × ((given track sector way).blocks_free + 1 ≡ free_sectors v.vtoc)
  given-IsReady track sector way is on small was =
      let e = vtoc-given track sector way small in
      let ready = after-IsReady v.vtoc track sector way is.disk on small in
      let count = blocks_free-given track sector way small is.disk in
      (
        subst (λ m. IsReady m) (sym e) ready,
        omega (
          arith,
          count,
          ap free_sectors e,
          free_sectors-stored v.vtoc track sector way is.disk on small,
        ),
        omega (arith, count, free_sectors-cleared v.vtoc track sector is.disk.narrow on small was),
      )

  -- When dos33_allocate_sector returns on a disk with a free sector, the VTOC is ready for the
  -- next call, blocks_free is the number of free sectors in it and one less than before, and the
  -- VTOC has been written to track 17.
  pub allocate_sector-IsReady :
      (t s error track sector : ℕ) (v' : Volume D)
      → IsReady v.vtoc
      → t < v.vtoc num_tracks
      → is_free v.vtoc t s ≡ true
      → allocate_sector ops v ≡ some (error, track, sector, v')
      → IsReady v'.vtoc
        × (v'.blocks_free ≡ free_sectors v'.vtoc)
        × (v'.blocks_free + 1 ≡ free_sectors v.vtoc)
        × (v'.disk ≡ ops.write (ts 17 0) vtoc_size v'.vtoc v.disk)
  allocate_sector-IsReady t s error track sector v' is lt free e =
      let (tr, sec, way, e', on, small, was) = allocates t s is lt free in
      let q : given tr sec way ≡ v' = cc in
      let (ready, count, less) = given-IsReady tr sec way is on small was in
      subst
        (λ (u : Volume D).
          IsReady u.vtoc
          × (u.blocks_free ≡ free_sectors u.vtoc)
          × (u.blocks_free + 1 ≡ free_sectors v.vtoc)
          × (u.disk ≡ ops.write (ts 17 0) vtoc_size u.vtoc v.disk))
        q (ready, count, less, disk-given tr sec way small)
