-- ===== src/Memory/Live.antt =====
-- Callers of the allocator of kernel/memory/memory.c: blocks that are allocated by requests for at
-- least one byte, and later freed with the size that they were asked for with, never overlap.
use vmwos.Prelude.{
  ℕ, ◌+◌, ◌*◌, ◌^◌, ◌≤◌, ◌<◌, ◌≡◌, refl, Bool, some, List, [], ◌∷◌, ◌++◌, arith, if◌then◌else◌, ap,
  subst,
}
use vmwos.Memory.{Memory, chunk_size, memory_allocate, memory_free}
use vmwos.Memory.Map.{map_chunks, is_used, within, IsMap}
use vmwos.Memory.Find.{free_within}
use vmwos.Memory.Allocate.{Allocated, chunk_count, region_start, region_end, IsRequest}
use vmwos.Memory.Free.{Allocated-of_eq, memory_free-Freed}

-- A block that a caller holds: its first chunk and its size in bytes.
pub record Block : Type 0 where
  pub first : ℕ
  pub size : ℕ

abbrev pub owns : Block → ℕ → Bool
owns b c = within b.first (chunk_count b.size) c

-- How many of the blocks hold the chunk `c`.
unfoldable pub holders : List Block → ℕ → ℕ
holders [] c = 0
holders (b ∷ bs) c = (if owns b c then 1 else 0) + holders bs c

pub record System : Type 0 where
  pub memory : Memory
  pub live : List Block

-- A caller allocates some bytes, or gives back a block that it holds.
pub data Step : System → System → Type 0 where
  allocate :
      (s : System) (size type first : ℕ) (m' : Memory)
      → 0 < size
      → IsRequest s.memory size type
      → memory_allocate s.memory size type ≡ some (first * chunk_size, m')
      → Step s (record { memory = m'; live = record { first = first; size = size } ∷ s.live })
  release :
      (s : System) (before after : List Block) (b : Block) (m' : Memory)
      → s.live ≡ before ++ (b ∷ after)
      → memory_free s.memory (b.first * chunk_size) b.size ≡ some m'
      → Step s (record { memory = m'; live = before ++ after })

pub data Reach (s : System) : System → Type 0 where
  here : Reach s s
  next : {t u : System} → Reach s t → Step t u → Reach s u

-- A block lies inside the map.
abbrev pub IsBlock : Block → Type 0
IsBlock b = (0 < b.size) × (b.size < 2 ^ 32) × (b.first + chunk_count b.size ≤ map_chunks)

abbrev pub AreBlocks : List Block → Type 0
AreBlocks [] = Unit {0}
AreBlocks (b ∷ bs) = IsBlock b × AreBlocks bs

-- Every chunk is held by at most one block, and only if its flag is set.
pub record IsSafe (s : System) : Type 0 where
  pub map : IsMap s.memory.memory_map
  pub blocks : AreBlocks s.live
  pub exclusive : (c : ℕ) → holders s.live c ≤ (if is_used s.memory.memory_map c then 1 else 0)

holders-append :
    (before after : List Block) (b : Block) (c : ℕ)
    → holders (before ++ (b ∷ after)) c ≡ (if owns b c then 1 else 0) + holders (before ++ after) c
unfolding holders
holders-append [] after b c = refl
holders-append (x ∷ before) after b c = omega (arith, holders-append before after b c)

AreBlocks-append :
    (before after : List Block) (b : Block)
    → AreBlocks (before ++ (b ∷ after))
    → IsBlock b × AreBlocks (before ++ after)
AreBlocks-append [] after b h = h
AreBlocks-append (x ∷ before) after b h =
    let (is, rest) = AreBlocks-append before after b h.1 in (is, (h.0, rest))

allocate-IsSafe :
    (s : System) (size type first : ℕ) (m' : Memory)
    → 0 < size
    → IsRequest s.memory size type
    → memory_allocate s.memory size type ≡ some (first * chunk_size, m')
    → IsSafe s
    → IsSafe (record { memory = m'; live = record { first = first; size = size } ∷ s.live })
unfolding holders
allocate-IsSafe s size type first m' pos q e safe = record {
  map = done.map;
  blocks = ((pos, q.word, ground (arith, same, done.was_free.0, q.room, q.total)), safe.blocks);
  exclusive = λ c. ground (
    arith,
    same,
    safe.exclusive c,
    done.marked c,
    free_within s.memory.memory_map done.first (chunk_count size) c done.was_free.1,
  );
}
  where
    done :
        Allocated s.memory
          (chunk_count size)
          (region_start type)
          (region_end s.memory type)
          (first * chunk_size)
          m'
    done = Allocated-of_eq s.memory size type q (first * chunk_size) m' e

    same : done.first ≡ first
    same = omega (arith, done.address)

release-IsSafe :
    (s : System) (before after : List Block) (b : Block) (m' : Memory)
    → s.live ≡ before ++ (b ∷ after)
    → memory_free s.memory (b.first * chunk_size) b.size ≡ some m'
    → IsSafe s
    → IsSafe (record { memory = m'; live = before ++ after })
release-IsSafe s before after b m' split e safe =
    let (is, rest) = AreBlocks-append before after b (subst AreBlocks split safe.blocks) in
    let (n, e', freed) = memory_free-Freed s.memory b.first b.size safe.map is.0 is.1 is.2 in
    let same : n ≡ m' = cc in
    record {
      map = subst (λ (x : Memory). IsMap x.memory_map) same freed.map;
      blocks = rest;
      exclusive = λ c.
          subst
            (λ (x : Memory).
              holders (before ++ after) c ≤ (if is_used x.memory_map c then 1 else 0))
            same
            (ground (
              arith,
              freed.marked c,
              safe.exclusive c,
              holders-append before after b c,
              ap (λ l. holders l c) split,
            ));
    }

-- Every reachable system is safe.
pub Reach-IsSafe : {s t : System} → IsSafe s → Reach s t → IsSafe t
Reach-IsSafe safe here = safe
Reach-IsSafe safe (next r (allocate s size type first m' pos q e)) =
    allocate-IsSafe s size type first m' pos q e (Reach-IsSafe safe r)
Reach-IsSafe safe (next r (release s before after b m' split e)) =
    release-IsSafe s before after b m' split e (Reach-IsSafe safe r)

-- While callers allocate blocks, by requests for at least one byte, of a known kind and inside
-- the map, and give back blocks that they hold with the size that they asked for, starting with
-- none held and a well-formed map: no chunk ever belongs to two blocks, and a chunk of a held
-- block is marked as used.
pub Reach-exclusive :
    {s t : System}
    → IsMap s.memory.memory_map
    → s.live ≡ []
    → Reach s t
    → (c : ℕ) → holders t.live c ≤ (if is_used t.memory.memory_map c then 1 else 0)
unfolding holders
Reach-exclusive {s} {t} is empty r = (Reach-IsSafe start r).exclusive
  where
    start : IsSafe s
    start = record { map = is; blocks = rw empty tt; exclusive = λ c. rw empty (omega arith) }
