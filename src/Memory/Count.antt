-- ===== src/Memory/Count.antt =====
-- `memory_total_free` of kernel/memory/memory.c, and the balance that allocation keeps.
use vmwos.Prelude.{
  ℕ, zero, suc, ◌+◌, ◌-◌, ◌*◌, ◌≤◌, ◌≡◌, refl, true, some, List, arith, if◌then◌else◌, min, ap, ◌∙◌,
}
use native.Mathlib.Numerals.{add-one}
use vmwos.Memory.{Memory, chunk_size, memory_allocate, count_free, memory_total_free}
use vmwos.Memory.Map.{map_chunks, is_used, IsMap, Marks, memory_test_used_lem}
use vmwos.Memory.Find.{AreFree, free_within}
use vmwos.Memory.Allocate.{chunk_count, IsRequest}
use vmwos.Memory.Free.{Allocated-of_eq}

-- How many of the chunks below `n` are free.
pub free_below : List ℕ → ℕ → ℕ
free_below words zero = 0
free_below words (suc n) = free_below words n + (if is_used words n then 0 else 1)

free_below_next :
    (words : List ℕ) (n : ℕ)
    → free_below words (n + 1) ≡ free_below words n + (if is_used words n then 0 else 1)
unfolding free_below
free_below_next words n = rw add-one refl

count_free_lem :
    (words : List ℕ) (left i total j : ℕ)
    → IsMap words
    → i + left ≡ j
    → j ≤ map_chunks
    → (r : ℕ) × (count_free words left i total ≡ some r)
      × (r + free_below words i ≡ total + free_below words j)
unfolding count_free
count_free_lem words zero i total j m e h = (total, refl, ground arith)
count_free_lem words (suc left) i total j m e h =
    let read = memory_test_used_lem words i m (omega arith) in
    let (r, e', balance) =
      count_free_lem words left (i + 1) (if is_used words i then total else total + 1) j m
        (omega arith) h in
    (r, rw read e', ground (arith, balance, free_below_next words i))

free_below-le : (words : List ℕ) (n : ℕ) → free_below words n ≤ n
unfolding free_below
free_below-le words zero = omega arith
free_below-le words (suc n) = ground (arith, free_below-le words n)

-- For a well-formed map, memory_total_free reports the number of free chunks below max_chunk in
-- bytes, without wrapping around.
pub memory_total_free_lem :
    (m : Memory)
    → IsMap m.memory_map
    → m.max_chunk ≤ map_chunks
    → memory_total_free m ≡ some (free_below m.memory_map m.max_chunk * chunk_size)
unfolding memory_total_free
memory_total_free_lem m is h =
    let (r, e, balance) =
      count_free_lem m.memory_map m.max_chunk 0 0 m.max_chunk is (omega arith) h in
    rw e (ap some (omega (arith, balance, none_below, free_below-le m.memory_map m.max_chunk)))
  where
    none_below : free_below m.memory_map 0 ≡ 0
    none_below = unfold free_below in refl

-- Marking free chunks as used takes them off the count.
free_below-Marks :
    (words words' : List ℕ) (first n k : ℕ)
    → AreFree words first n
    → Marks true first n words words'
    → free_below words' k + (min k (first + n) - first) ≡ free_below words k
unfolding free_below
free_below-Marks words words' first n zero free marks = omega arith
free_below-Marks words words' first n (suc k) free marks = ground (
  arith,
  marks k,
  free_within words first n k free,
  free_below-Marks words words' first n k free marks,
)

-- A successful allocation takes exactly the bytes of its chunks off what memory_total_free
-- reports.
pub memory_total_free-memory_allocate :
    (m : Memory) (size type : ℕ)
    → IsRequest m size type
    → (location : ℕ) (m' : Memory) → memory_allocate m size type ≡ some (location, m')
    → (left : ℕ) × (memory_total_free m' ≡ some left)
      × (memory_total_free m ≡ some (left + chunk_count size * chunk_size))
memory_total_free-memory_allocate m size type q location m' e =
    let done = Allocated-of_eq m size type q location m' e in
    (
      free_below m'.memory_map m'.max_chunk * chunk_size,
      memory_total_free_lem m' done.map (omega (arith, q.room, done.same_chunks)),
      memory_total_free_lem m q.map (omega (arith, q.room))
          ∙ ap some (
              ground (
                arith,
                done.same_chunks,
                q.total,
                done.was_free.0,
                free_below-Marks m.memory_map m'.memory_map done.first (chunk_count size)
                    m.max_chunk done.was_free.1 done.marked,
              )),
    )
