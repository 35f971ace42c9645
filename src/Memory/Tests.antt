-- ===== src/Memory/Tests.antt =====
-- Runs of kernel/memory/memory.c on an empty map of 32 megabytes.
use vmwos.Prelude.{
  ℕ, ◌+◌, ◌*◌, ◌/◌, ◌%◌, ◌^◌, ◌≤◌, ◌<◌, ◌≡◌, refl, inr, true, false, ◌||◌, none, some, List, [],
  ◌∷◌, arith, ltb, if◌then◌else◌, replicate, length-replicate, get_or-replicate, ap, ◌∙◌,
}
use vmwos.Memory.{
  Memory, chunk_size, enomem, memory_allocate, memory_free, memory_total_free, memory_init,
  memory_hierarchy_init, find_free,
}
use vmwos.Memory.Map.{is_used, within, IsMap}
use vmwos.Memory.Find.{Fits, Search, find_free-Search}
use vmwos.Memory.Allocate.{
  Allocated, IsRequest, memory_allocate-Allocated, memory_allocate_undefined,
}
use vmwos.Memory.Free.{Freed, memory_free-Freed, memory_free-memory_allocate}
use vmwos.Memory.Count.{free_below, memory_total_free_lem, memory_total_free-memory_allocate}
use vmwos.Memory.Init.{
  test_bit-zero, IsSizes, Ready, PassesFirst, memory_init-Ready, memory_init_refuses,
  memory_hierarchy_init-Ready,
}
use vmwos.Memory.Live.{System, allocate, Reach, here, next, holders, IsSafe, Reach-exclusive}

abbrev empty_map : List ℕ
empty_map = replicate 8192 0

pub empty_map-IsMap : IsMap empty_map
empty_map-IsMap = record {
  size = length-replicate {A = ℕ} 8192 0;
  narrow = λ i. omega (arith, get_or-replicate {A = ℕ} 8192 i 0);
}

empty_map-free : (c : ℕ) → is_used empty_map c ≡ false
empty_map-free c = rw (get_or-replicate {A = ℕ} 8192 (c / 32) 0) (test_bit-zero (c % 32))

abbrev pub board : Memory
board = record {
  memory_total = 2 ^ 25;
  memory_map = empty_map;
  max_chunk = 8192;
  ram = λ a. a % 256;
}

find_free-Search_example :
    (r : ℕ) × (find_free empty_map 3 4096 8192 ≡ some r) × Search empty_map 3 4096 8192 r
find_free-Search_example =
    find_free-Search empty_map-IsMap 3 4096 8192 (omega arith) (omega arith) (omega arith)

request : IsRequest board 5000 1
request = record {
  map = empty_map-IsMap;
  word = omega arith;
  total = omega arith;
  room = omega arith;
  kind = inr refl;
}

free_run : Fits empty_map 2 8192 5000
free_run = (omega arith, λ j h. empty_map-free (5000 + j))

memory_allocate-Allocated_example :
    (location : ℕ) × (m' : Memory) × (memory_allocate board 5000 1 ≡ some (location, m'))
    × Allocated board 2 4096 8192 location m'
memory_allocate-Allocated_example =
    memory_allocate-Allocated board 5000 1 request 5000 (omega arith) free_run

too_large : IsRequest board (2 ^ 24 + 1) 1
too_large = record {
  map = empty_map-IsMap;
  word = omega arith;
  total = omega arith;
  room = omega arith;
  kind = inr refl;
}

memory_allocate_undefined_example : memory_allocate board (2 ^ 24 + 1) 1 ≡ none
memory_allocate_undefined_example =
    memory_allocate_undefined board (2 ^ 24 + 1) 1 too_large
      (λ k le fits. absurd (omega (arith, fits.0)))

memory_free-Freed_test :
    (m' : Memory) × (memory_free board (5000 * chunk_size) 5000 ≡ some m')
    × Freed board 5000 5000 m'
memory_free-Freed_test =
    memory_free-Freed board 5000 5000 empty_map-IsMap (omega arith) (omega arith) (omega arith)

-- The allocation that the other runs go on from.
record Taken : Type 0 where
  first : ℕ
  after : Memory
  returned : memory_allocate board 5000 1 ≡ some (first * chunk_size, after)

taken : Taken
taken =
    let (location, m', e, done) =
      memory_allocate-Allocated board 5000 1 request 5000 (omega arith) free_run in
    record { first = done.first; after = m'; returned = e ∙ ap (λ l. some (l, m')) done.address }

memory_free-memory_allocate_example :
    (m'' : Memory) × (memory_free taken.after (taken.first * chunk_size) 5000 ≡ some m'')
    × (m''.memory_map ≡ empty_map)
memory_free-memory_allocate_example =
    memory_free-memory_allocate board 5000 1 request (taken.first * chunk_size) taken.after
      (omega arith) taken.returned

memory_total_free_lem_test : memory_total_free board ≡ some (free_below empty_map 8192 * chunk_size)
memory_total_free_lem_test = memory_total_free_lem board empty_map-IsMap (omega arith)

memory_total_free-memory_allocate_test :
    (left : ℕ) × (memory_total_free taken.after ≡ some left)
    × (memory_total_free board ≡ some (left + 8192))
memory_total_free-memory_allocate_test =
    memory_total_free-memory_allocate board 5000 1 request (taken.first * chunk_size) taken.after
      taken.returned

sizes : IsSizes (2 ^ 25) (2 ^ 17)
sizes = record { fits = omega arith; small = omega arith; whole = refl; whole_kernel = refl }

memory_init-Ready_test :
    (m' : Memory) × (memory_init board (2 ^ 25) (2 ^ 17) ≡ some (0, m'))
    × Ready (2 ^ 25) (2 ^ 25) (2 ^ 17) m'
memory_init-Ready_test = memory_init-Ready board (2 ^ 25) (2 ^ 17) empty_map-IsMap sizes

memory_init_refuses_test :
    (m' : Memory) × (memory_init board (2 ^ 25 + 1) 0 ≡ some (enomem, m'))
    × (¬ (PassesFirst (2 ^ 25 + 1) 0) → m' ≡ board)
memory_init_refuses_test =
    memory_init_refuses board (2 ^ 25 + 1) 0 (λ s. absurd (omega (arith, s.whole)))

memory_hierarchy_init-Ready_example :
    (m' : Memory) × (memory_hierarchy_init board (2 ^ 25) true (2 ^ 17) ≡ some m')
    × IsMap m'.memory_map
    × (m'.memory_total ≡ 2 ^ 25)
    × (m'.max_chunk ≡ 8192)
    × ((c : ℕ) → c < 8192 → is_used m'.memory_map c ≡ (ltb c 32 || within 4084 12 c))
memory_hierarchy_init-Ready_example =
    memory_hierarchy_init-Ready board (2 ^ 25) true (2 ^ 17) empty_map-IsMap sizes

abbrev start : System
start = record { memory = board; live = [] }

abbrev held : System
held = record { memory = taken.after; live = record { first = taken.first; size = 5000 } ∷ [] }

held_reached : Reach start held
held_reached =
    next here (allocate start 5000 1 taken.first taken.after (omega arith) request taken.returned)

Reach-exclusive_example :
    holders held.live 5000 ≤ (if is_used taken.after.memory_map 5000 then 1 else 0)
Reach-exclusive_example = Reach-exclusive empty_map-IsMap refl held_reached 5000

start-IsSafe : IsSafe start
unfolding holders
start-IsSafe = record { map = empty_map-IsMap; blocks = tt; exclusive = λ c. omega arith }
