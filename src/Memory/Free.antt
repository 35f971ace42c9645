-- ===== src/Memory/Free.antt =====
-- `memory_free` of kernel/memory/memory.c.
use vmwos.Prelude.{
  ℕ, ◌+◌, ◌*◌, ◌/◌, ◌^◌, ◌≤◌, ◌<◌, ◌≡◌, refl, inl, inr, false, some, arith, if◌then◌else◌, lt→ltb,
  subst₂, ap, ◌∙◌,
}
use vmwos.Memory.{Memory, chunk_size, memset, chunks_of, memory_allocate, memory_free}
use vmwos.Memory.Map.{map_chunks, within, IsMap, Marks, mark_free-Marked, map_ext}
use vmwos.Memory.Find.{free_within}
use vmwos.Memory.Allocate.{
  Allocated, chunk_count, region_start, region_end, IsRequest, allocate_cases,
}
use vmwos.Memory.Ram.{memset_lem}

-- What giving back the `size` bytes at chunk `first` does.
pub record Freed (m : Memory) (first size : ℕ) (m' : Memory) : Type 0 where
  pub map : IsMap m'.memory_map
  pub marked : Marks false first (chunk_count size) m.memory_map m'.memory_map
  pub poisoned : (a : ℕ) → m'.ram a ≡ (if within (first * chunk_size) size a then b'V' else m.ram a)
  pub same_chunks : m'.max_chunk ≡ m.max_chunk

-- Giving back a chunk-aligned region of the map with a size above 0 clears its flags and no
-- others, and overwrites exactly its bytes with the letter V.
pub memory_free-Freed :
    (m : Memory) (first size : ℕ)
    → IsMap m.memory_map
    → 0 < size
    → size < 2 ^ 32
    → first + chunk_count size ≤ map_chunks
    → (m' : Memory) × (memory_free m (first * chunk_size) size ≡ some m') × Freed m first size m'
unfolding memory_free
memory_free-Freed m first size is pos word room =
    let (words, e, is', marks) = mark_free-Marked (chunk_count size) first m.memory_map is room in
    (
      record m { memory_map = words; ram = memset (first * chunk_size) b'V' size m.ram },
      rw (lt→ltb (first * chunk_size) (2 ^ 31) (omega arith), quotient, count, e),
      record {
        map = is';
        marked = marks;
        poisoned = λ a. memset_lem (first * chunk_size) b'V' size m.ram a (omega arith);
        same_chunks = refl;
      },
    )
  where
    quotient : first * chunk_size / chunk_size ≡ first
    quotient = omega arith

    count : chunks_of size ≡ chunk_count size
    count = omega arith

module _ (m : Memory) (size type : ℕ) (q : IsRequest m size type) where
  -- What the equation of a successful call says.
  pub Allocated-of_eq :
      (location : ℕ) (m' : Memory)
      → memory_allocate m size type ≡ some (location, m')
      → Allocated m (chunk_count size) (region_start type) (region_end m type) location m'
  Allocated-of_eq location m' e = elim (allocate_cases m size type q) [
    | inl (l, n, e', done) ↦
        subst₂ (Allocated m (chunk_count size) (region_start type) (region_end m type)) (cc) (cc)
          done
    | inr (e', _) ↦ cc
  ]

  -- Giving back what memory_allocate returned for a size above 0, with that size, succeeds and
  -- restores the map of chunks exactly.
  pub memory_free-memory_allocate :
      (location : ℕ) (m' : Memory)
      → 0 < size
      → memory_allocate m size type ≡ some (location, m')
      → (m'' : Memory) × (memory_free m' location size ≡ some m'') × (m''.memory_map ≡ m.memory_map)
  memory_free-memory_allocate location m' pos e =
      let done = Allocated-of_eq location m' e in
      let (m'', e', freed) =
        memory_free-Freed m' done.first size done.map pos q.word
          (ground (arith, q.room, q.total, done.was_free.0)) in
      (
        m'',
        ap (λ l. memory_free m' l size) done.address ∙ e',
        map_ext m''.memory_map m.memory_map freed.map q.map λ c. ground (
          arith,
          freed.marked c,
          done.marked c,
          free_within m.memory_map done.first _ c done.was_free.1,
        ),
      )
