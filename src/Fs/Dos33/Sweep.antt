-- ===== src/Fs/Dos33/Sweep.antt =====
-- The search of `dos33_allocate_sector` passes every track: it goes up or down to the end of the
-- disk, and from there to the track of the VTOC and the other way.
use vmwos.Prelude.{
  ℕ, zero, suc, ◌+◌, ◌-◌, ◌^◌, ◌≤◌, ◌<◌, ◌≡◌, refl, true, false, Option, none, some, arith, ne→==,
  ◌∙◌, ap, lt→ltb, le→ltb, inl, inr,
}
use native.Mathlib.Decide.{dec_lt}
use vmwos.Fs.Dos33.{Bytes, vtoc_track, num_tracks, sector_on, Found, sector_at, no_sector, search}
use vmwos.Fs.Dos33.Bitmap.{is_free, Narrow}
use vmwos.Fs.Dos33.Search.{sector_on-cases, Way, up, down, word_of, turned, next_track-turned}

-- The search comes to a free sector of the disk.
abbrev pub Finds : Bytes → Option Found → Type 0
Finds vtoc o =
    (t s : ℕ) × (way : Way) × (o ≡ some (sector_at t s (word_of way)))
    × (t < vtoc num_tracks)
    × (s < 16)
    × (is_free vtoc t s ≡ true)

-- The map is of bytes and fits into the VTOC, and the track of the VTOC is on the disk.
pub record IsDisk (vtoc : Bytes) : Type 0 where
  pub narrow : Narrow vtoc
  pub wide : vtoc_track < vtoc num_tracks
  pub fits : vtoc num_tracks ≤ 50

module _ (vtoc : Bytes) (start : ℕ) (is : IsDisk vtoc) where
  -- A round at a track without a free sector.
  pub search-next :
      (fuel track : ℕ) (way : Way)
      → track < vtoc num_tracks
      → sector_on vtoc track ≡ none
      → search (suc fuel) vtoc start track (word_of way)
        ≡ search fuel vtoc start
            (turned (vtoc num_tracks) track way).0
            (word_of (turned (vtoc num_tracks) track way).1)
  unfolding search no_sector
  search-next fuel track way lt e =
      rw (e, search)
        (ap (λ (p : ℕ × ℕ). search fuel vtoc start p.0 p.1)
          (next_track-turned (vtoc num_tracks) track way is.wide (is.narrow num_tracks) lt))

  search-here :
      (fuel track s : ℕ) (way : Way)
      → sector_on vtoc track ≡ some s
      → search (suc fuel) vtoc start track (word_of way) ≡ some (sector_at track s (word_of way))
  unfolding search
  search-here fuel track s way e = rw (e, search) refl

  -- A round finds a free sector, or goes on.
  one_round :
      (fuel track : ℕ) (way : Way)
      → track < vtoc num_tracks
      → (((s : ℕ) → is_free vtoc track s ≡ false)
          → Finds vtoc (
              search fuel vtoc start
                (turned (vtoc num_tracks) track way).0
                (word_of (turned (vtoc num_tracks) track way).1)))
      → Finds vtoc (search (suc fuel) vtoc start track (word_of way))
  one_round fuel track way lt later = elim (sector_on-cases vtoc track is.narrow) [
    | inl (s, e, small, free) ↦ (track, s, way, search-here fuel track s way e, lt, small, free)
    | inr (e, full) ↦
        let (t, s, w, e', a, b, c) = later full in
        (t, s, w, search-next fuel track way lt e ∙ e', a, b, c)
  ]

  -- Up to a track with a free sector.
  sweep_up :
      (k fuel track t s : ℕ)
      → track + k ≡ t
      → t < vtoc num_tracks
      → is_free vtoc t s ≡ true
      → k < fuel
      → Finds vtoc (search fuel vtoc start track 1)
  sweep_up k zero track t s e lt free h = absurd (omega (arith, h))
  sweep_up zero (suc fuel) track t s e lt free h =
      one_round fuel track up (omega (arith, e, lt))
        (λ full. absurd (cc (full s, ap (λ n. is_free vtoc n s) (e0 e))))
    where
      e0 : track + 0 ≡ t → track ≡ t
      e0 q = omega (arith, q)
  sweep_up (suc k) (suc fuel) track t s e lt free h =
      one_round fuel track up (omega (arith, e, lt)) (λ _.
        rw (lt→ltb (track + 1) (vtoc num_tracks) (omega (arith, e, lt)))
          (sweep_up k fuel (track + 1) t s (omega (arith, e)) lt free (omega (arith, h))))

  -- Down to a track with a free sector.
  sweep_down :
      (k fuel track t s : ℕ)
      → t + k ≡ track
      → track < vtoc num_tracks
      → is_free vtoc t s ≡ true
      → k < fuel
      → Finds vtoc (search fuel vtoc start track (2 ^ 32 - 1))
  sweep_down k zero track t s e lt free h = absurd (omega (arith, h))
  sweep_down zero (suc fuel) track t s e lt free h =
      one_round fuel track down lt (λ full. absurd (cc (full s, ap (λ n. is_free vtoc n s) (e0 e))))
    where
      e0 : t + 0 ≡ track → track ≡ t
      e0 q = omega (arith, q)
  sweep_down (suc k) (suc fuel) track t s e lt free h = one_round fuel track down lt (λ _.
      rw (ne→== track 0 (λ z. absurd (omega (arith, z, e)))) (
        sweep_down k fuel (track - 1) t s (omega (arith, e)) (omega (arith, lt)) free
          (omega (arith, h))))

  -- Up to the end of the disk, and from the VTOC down.
  turn_at_top :
      (k fuel more track : ℕ)
      → track + suc k ≡ vtoc num_tracks
      → more + suc k ≤ fuel
      → ((f : ℕ) → more ≤ f → Finds vtoc (search f vtoc start vtoc_track (2 ^ 32 - 1)))
      → Finds vtoc (search fuel vtoc start track 1)
  turn_at_top k zero more track e h later = absurd (omega (arith, h))
  turn_at_top zero (suc fuel) more track e h later =
      one_round fuel track up (omega (arith, e)) (λ _.
        rw (le→ltb (track + 1) (vtoc num_tracks) (omega (arith, e)))
          (later fuel (omega (arith, h))))
  turn_at_top (suc k) (suc fuel) more track e h later =
      one_round fuel track up (omega (arith, e)) (λ _.
        rw (lt→ltb (track + 1) (vtoc num_tracks) (omega (arith, e)))
          (turn_at_top k fuel more (track + 1) (omega (arith, e)) (omega (arith, h)) later))

  -- Down to track 0, and from the VTOC up.
  turn_at_bottom :
      (track fuel more : ℕ)
      → track < vtoc num_tracks
      → more + suc track ≤ fuel
      → ((f : ℕ) → more ≤ f → Finds vtoc (search f vtoc start vtoc_track 1))
      → Finds vtoc (search fuel vtoc start track (2 ^ 32 - 1))
  turn_at_bottom track zero more lt h later = absurd (omega (arith, h))
  turn_at_bottom zero (suc fuel) more lt h later =
      one_round fuel zero down lt (λ _. later fuel (omega (arith, h)))
  turn_at_bottom (suc track) (suc fuel) more lt h later = one_round fuel (suc track) down lt (λ _.
      rw (ne→== (suc track) 0 (λ z. absurd (omega (arith, z)))) (
        let e : suc track - 1 ≡ track = omega arith in
        rw e (turn_at_bottom track fuel more (omega (arith, lt)) (omega (arith, h)) later)))

  -- Wherever the head stands, and whichever way it goes, a free sector of the disk is found.
  pub search-Finds :
      (fuel track t s : ℕ) (way : Way)
      → track < vtoc num_tracks
      → t < vtoc num_tracks
      → is_free vtoc t s ≡ true
      → 600 ≤ fuel
      → Finds vtoc (search fuel vtoc start track (word_of way))
  search-Finds fuel track t s up lt lt' free h = elim (dec_lt t track) [
    | no above ↦
        sweep_up (t - track) fuel track t s (omega (arith, above)) lt' free
          (omega (arith, h, lt', is.narrow num_tracks))
    | yes below ↦
        turn_at_top (vtoc num_tracks - track - 1) fuel 300 track (omega (arith, lt))
          (omega (arith, h, is.narrow num_tracks))
          (λ f h'. elim (dec_lt vtoc_track t) [
            | no low ↦
                sweep_down (vtoc_track - t) f vtoc_track t s (omega (arith, low)) is.wide free
                  (omega (arith, h'))
            | yes high ↦ turn_at_bottom vtoc_track f 256 is.wide (omega (arith, h')) (λ f' h''.
                sweep_up (t - vtoc_track) f' vtoc_track t s (omega (arith, high)) lt' free
                  (omega (arith, h'', lt', is.narrow num_tracks)))
          ])
  ]
  search-Finds fuel track t s down lt lt' free h = elim (dec_lt track t) [
    | no below ↦
        sweep_down (track - t) fuel track t s (omega (arith, below)) lt free
          (omega (arith, h, lt, is.narrow num_tracks))
    | yes above ↦
        turn_at_bottom track fuel 300 lt (omega (arith, h, lt, is.narrow num_tracks)) (λ f h'.
          elim (dec_lt t vtoc_track) [
            | no high ↦
                sweep_up (t - vtoc_track) f vtoc_track t s (omega (arith, high)) lt' free
                  (omega (arith, h', lt', is.narrow num_tracks))
            | yes low ↦
                turn_at_top (vtoc num_tracks - vtoc_track - 1) f 18 vtoc_track
                  (omega (arith, is.wide)) (omega (arith, h', is.narrow num_tracks, is.wide))
                  (λ f' h''.
                    sweep_down (vtoc_track - t) f' vtoc_track t s (omega (arith, low)) is.wide free
                      (omega (arith, h'')))
          ])
  ]
