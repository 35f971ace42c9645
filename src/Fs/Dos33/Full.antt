-- ===== src/Fs/Dos33/Full.antt =====
-- `dos33_allocate_sector` on a disk that is full.
use vmwos.Prelude.{ℕ, zero, suc, ◌<◌, ◌≡◌, refl, false, none, arith, ◌∙◌, inl, inr}
use vmwos.Fs.Dos33.{Bytes, vtoc_track, num_tracks, sector_on, search}
use vmwos.Fs.Dos33.Bitmap.{is_free}
use vmwos.Fs.Dos33.Search.{Way, up, down, word_of, turned, sector_on-cases}
use vmwos.Fs.Dos33.Sweep.{IsDisk, search-next}

turned-lt :
    (tracks track : ℕ) (way : Way)
    → vtoc_track < tracks
    → track < tracks
    → (turned tracks track way).0 < tracks
turned-lt tracks track up wide lt = ground arith
turned-lt tracks track down wide lt = ground arith

module _ (vtoc : Bytes) (start : ℕ) (is : IsDisk vtoc)
    (full : (t s : ℕ) → t < vtoc num_tracks → s < 16 → is_free vtoc t s ≡ false) where
  nothing_on : (track : ℕ) → track < vtoc num_tracks → sector_on vtoc track ≡ none
  nothing_on track lt = elim (sector_on-cases vtoc track is.narrow) [
    | inl (s, e, small, free) ↦ absurd (cc (full track s lt small))
    | inr (e, rest) ↦ e
  ]

  -- On a disk without a free sector the search of dos33_allocate_sector goes on for any number
  -- of rounds without a result, from any track and in either direction.
  pub search-none :
      (rounds track : ℕ) (way : Way)
      → track < vtoc num_tracks
      → search rounds vtoc start track (word_of way) ≡ none
  unfolding search
  search-none zero track way lt = refl
  search-none (suc rounds) track way lt =
      search-next vtoc start is rounds track way lt (nothing_on track lt)
      ∙ search-none rounds (turned (vtoc num_tracks) track way).0
          (turned (vtoc num_tracks) track way).1 (turned-lt (vtoc num_tracks) track way is.wide lt)
