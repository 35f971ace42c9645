-- ===== src/Memory/Allocate.antt =====
-- `memory_allocate` of kernel/memory/memory.c, on success and on failure.
use vmwos.Prelude.{
  ℕ, zero, suc, ◌+◌, ◌-◌, ◌*◌, ◌/◌, ◌%◌, ◌^◌, ◌≤◌, ◌<◌, ◌≡◌, refl, ◌⊎◌, inl, inr, true, max, none,
  some, List, arith, ◌==◌, if◌then◌else◌, le→ltb,
}
use vmwos.Memory.{
  Memory, reserved_kernel, chunk_size, enomem, memory_kernel, memory_user, memory_mark_used,
  mark_range, find_free, memset, chunks_of, allocate_in, memory_allocate,
}
use vmwos.Memory.Map.{map_chunks, within, IsMap, Marks, mark_used-Marked}
use vmwos.Memory.Find.{Fits, found, full, find_free-Search}
use vmwos.Memory.Ram.{memset_lem}

-- What a successful allocation of `n` chunks between `start` and `end` does.
pub record Allocated (m : Memory) (n start end location : ℕ) (m' : Memory) : Type 0 where
  pub first : ℕ
  pub address : location ≡ first * chunk_size
  pub above : start ≤ first
  pub was_free : Fits m.memory_map n end first
  pub lowest : (k : ℕ) → start ≤ k → k < first → ¬ (Fits m.memory_map n end k)
  pub map : IsMap m'.memory_map
  pub marked : Marks true first n m.memory_map m'.memory_map
  pub cleared : (a : ℕ) → m'.ram a ≡ (if within location (n * chunk_size) a then 0 else m.ram a)
  pub same_total : m'.memory_total ≡ m.memory_total
  pub same_chunks : m'.max_chunk ≡ m.max_chunk

-- `-ENOMEM` is not below 0 as a `uint32_t`, and the first mark shifts by a negative count.
mark_range-negative :
    (n : ℕ) (words : List ℕ) → 0 < n → mark_range memory_mark_used n enomem words ≡ none
unfolding mark_range memory_mark_used
mark_range-negative zero words h = elim h [ ]
mark_range-negative (suc n) words h = refl

module _ (m : Memory) (is : IsMap m.memory_map) (n start end : ℕ) (pos : 0 < n) (le : start ≤ end)
    (room : end + n ≤ map_chunks) where
  allocate_found :
      (r : ℕ)
      → find_free m.memory_map n start end ≡ some r
      → start ≤ r
      → Fits m.memory_map n end r
      → ((k : ℕ) → start ≤ k → k < r → ¬ (Fits m.memory_map n end k))
      → (location : ℕ) × (m' : Memory) × (allocate_in m n start end ≡ some (location, m'))
        × Allocated m n start end location m'
  unfolding allocate_in
  allocate_found r e p fits least =
      let (words, e', is', marks) = mark_used-Marked n r m.memory_map is (omega arith) in
      let small : r * chunk_size % 2 ^ 32 ≡ r * chunk_size = omega arith in
      (
        r * chunk_size,
        record m { memory_map = words; ram = memset (r * chunk_size) 0 (n * chunk_size) m.ram },
        rw (e, le→ltb r 0 (omega arith), e', small),
        record {
          first = r;
          address = refl;
          above = p;
          was_free = fits;
          lowest = least;
          map = is';
          marked = marks;
          cleared = λ a. memset_lem (r * chunk_size) 0 (n * chunk_size) m.ram a (omega arith);
          same_total = refl;
          same_chunks = refl;
        },
      )

  allocate_full :
      find_free m.memory_map n start end ≡ some enomem → allocate_in m n start end ≡ none
  unfolding allocate_in
  allocate_full e = rw (e, mark_range-negative n m.memory_map pos)

  -- The two ways that an allocation in a region can go.
  pub allocate_in_cases :
      ((location : ℕ) × (m' : Memory) × (allocate_in m n start end ≡ some (location, m'))
        × Allocated m n start end location m')
      ⊎ ((allocate_in m n start end ≡ none) × ((k : ℕ) → start ≤ k → ¬ (Fits m.memory_map n end k)))
  allocate_in_cases =
      let (r, e, search) = find_free-Search is n start end pos le room in
      elim search [
        | found p fits least ↦ inl (allocate_found r e p fits least)
        | full q least ↦ inr (allocate_full (rw q at e), least)
      ]

-- How many chunks hold `size` bytes; an allocation of nothing takes one.
abbrev pub chunk_count : ℕ → ℕ
chunk_count size = (max size 1 + (chunk_size - 1)) / chunk_size

-- The chunks that serve a type of request: from `region_start` to below `region_end`.
abbrev pub region_start : ℕ → ℕ
region_start type = if type == memory_kernel then 0 else reserved_kernel / chunk_size

abbrev pub region_end : Memory → ℕ → ℕ
region_end m type = if type == memory_kernel then reserved_kernel / chunk_size else m.max_chunk

-- A request whose search stays inside the map.
pub record IsRequest (m : Memory) (size type : ℕ) : Type 0 where
  pub map : IsMap m.memory_map
  pub word : size < 2 ^ 32
  pub total : reserved_kernel / chunk_size ≤ m.max_chunk
  pub room : m.max_chunk + chunk_count size ≤ map_chunks
  pub kind : (type ≡ memory_kernel) ⊎ (type ≡ memory_user)

pub chunks_of-chunk_count :
    (size : ℕ) → size < 2 ^ 32 → chunks_of (if size == 0 then 1 else size) ≡ chunk_count size
chunks_of-chunk_count size h = ground arith

module _ (m : Memory) (size type : ℕ) (q : IsRequest m size type) where
  pub memory_allocate-in :
      memory_allocate m size type
      ≡ allocate_in m (chunk_count size) (region_start type) (region_end m type)
  unfolding memory_allocate
  memory_allocate-in =
      rw (chunks_of-chunk_count size q.word) (elim q.kind [ inl k ↦ rw k | inr u ↦ rw u ])

  pub allocate_cases :
      ((location : ℕ) × (m' : Memory) × (memory_allocate m size type ≡ some (location, m'))
        × Allocated m (chunk_count size) (region_start type) (region_end m type) location m')
      ⊎ ((memory_allocate m size type ≡ none)
          × ((k : ℕ)
              → region_start type ≤ k
              → ¬ (Fits m.memory_map (chunk_count size) (region_end m type) k)))
  allocate_cases = rw memory_allocate-in (
      allocate_in_cases m q.map (chunk_count size) (region_start type) (region_end m type)
        (omega arith) (ground (arith, q.total)) (ground (arith, q.room, q.total)))

  -- For a request inside the map, where a region of the right kind has a free run that is long
  -- enough and ends below the end of the region, memory_allocate returns the lowest such run: it
  -- was free, its flags are set and no other flag changes, its bytes are zeroed and no other
  -- byte changes.
  pub memory_allocate-Allocated :
      (k : ℕ)
      → region_start type ≤ k
      → Fits m.memory_map (chunk_count size) (region_end m type) k
      → (location : ℕ) × (m' : Memory) × (memory_allocate m size type ≡ some (location, m'))
        × Allocated m (chunk_count size) (region_start type) (region_end m type) location m'
  memory_allocate-Allocated k p fits = elim allocate_cases [
    | inl done ↦ done
    | inr (e, least) ↦ absurd (least k p fits)
  ]

  -- For a request inside the map where no run of chunks fits, memory_allocate does not return
  -- NULL: its test for the error compares an unsigned number with 0, and it goes on to mark
  -- chunks that do not exist, which is undefined.
  pub memory_allocate_undefined :
      ((k : ℕ)
        → region_start type ≤ k
        → ¬ (Fits m.memory_map (chunk_count size) (region_end m type) k))
      → memory_allocate m size type ≡ none
  memory_allocate_undefined least = elim allocate_cases [
    | inl (location, m', e, done) ↦ absurd (least done.first done.above done.was_free)
    | inr (e, _) ↦ e
  ]
