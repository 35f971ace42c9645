-- ===== src/Lifecycle/Destroy.antt =====
-- `process_destroy`: the process leaves the list, and its files and its memory are given back.
use vmwos.Prelude.{
  ℕ, ◌+◌, ◌*◌, ◌^◌, ◌≤◌, ◌<◌, ◌≡◌, refl, ◌≢◌, some, List, ◌∷◌, ◌++◌, arith, ◌>>=◌, length, ne→==,
  ==_refl, inl, inr, ◌⊎◌, ◌∙◌, ap, sym,
}
use native.Mathlib.Decide.{ℕ_discrete}
use vmwos.Memory.{Memory, chunk_size, memory_free}
use vmwos.Memory.Map.{IsMap, map_chunks}
use vmwos.Memory.Allocate.{chunk_count}
use vmwos.Memory.Free.{Freed, memory_free-Freed}
use vmwos.Process.{Pcb, Processes, modify, max_procs, list_fuel}
use vmwos.Process.Chain.{IsList, IsList-kept, unlinked}
use vmwos.Process.Remove.{process_remove-append}
use vmwos.Fs.{SbOps, max_fd_per_proc}
use vmwos.Fs.Files.References.{IsCounted}
use vmwos.Lifecycle.{System, kernel_of, free_block, free_from, destroy_rest, process_destroy}
use vmwos.Lifecycle.Files.{free_from-Emptied, forget-IsCounted}

-- A block that a process may hold: none, or whole chunks of the map.
abbrev pub Block : ℕ → ℕ → Type 0
Block location size =
    (location ≡ 0)
    ⊎ ((first : ℕ) × (location ≡ first * chunk_size)
        × (0 < size)
        × (size < 2 ^ 32)
        × (first + chunk_count size ≤ map_chunks))

-- What giving back such a block does.
abbrev pub GivenBack : Memory → ℕ → ℕ → Memory → Type 0
GivenBack m location size m' =
    ((location ≡ 0) × (m' ≡ m))
    ⊎ ((first : ℕ) × (location ≡ first * chunk_size) × Freed m first size m')

free_block-GivenBack :
    (m : Memory) (location size : ℕ)
    → IsMap m.memory_map
    → Block location size
    → (m' : Memory) × (free_block m location size ≡ some m')
      × IsMap m'.memory_map
      × GivenBack m location size m'
unfolding free_block
free_block-GivenBack m location size is block = elim (ℕ_discrete location 0) [
  | yes e ↦ (m, rw e refl, is, inl (e, refl))
  | no ne ↦ elim block [
    | inl e ↦ absurd (ne e)
    | inr (first, at, pos, word, room) ↦
        let (m', made, freed) = memory_free-Freed m first size is pos word room in
        (
          m',
          rw (ne→== location 0 ne) (ap (λ l. memory_free m l size) at ∙ made),
          freed.map,
          inr (first, at, freed),
        )
  ]
]

-- What `process_destroy` leaves of the process `p`, where `r` runs and `xs` are the others on the list.
pub record Destroyed {D : Type 0} (s : System D) (p r : ℕ) (xs : List ℕ) (s' : System D)
    : Type 0 where
  pub list : IsList s'.processes xs
  pub counted : IsCounted (kernel_of s' r)
  pub gone : (s'.processes.procs p).valid ≡ 0
  pub others : (q : ℕ) → q ≢ p → unlinked (s'.processes.procs q) ≡ unlinked (s.processes.procs q)
  pub map : IsMap s'.memory.memory_map
  pub between : Memory
  pub stack : GivenBack s.memory (s.processes.procs p).stack (s.processes.procs p).stacksize between
  pub text : GivenBack between (s.processes.procs p).text (s.processes.procs p).textsize s'.memory

-- The processes with one that is no longer valid.
abbrev invalid : Processes → ℕ → Processes
invalid s p = record s { procs = modify s.procs p (λ c. record c { valid = 0 }) }

-- The links and the flag of the process do not matter there.
destroy_rest-same :
    {D : Type 0} (ops : SbOps D) (s : System D) (c c' : Pcb) (t : Processes)
    → unlinked c ≡ unlinked (record c' { valid = 0 })
    → destroy_rest ops s c t ≡ destroy_rest ops s c' t
unfolding destroy_rest
destroy_rest-same ops s c c' t e = ap (λ u. destroy_rest ops s u t) e

module _ {D : Type 0} (ops : SbOps D) (s : System D) (p r : ℕ) (c : IsCounted (kernel_of s r))
    (small : p < max_procs) (valid : (s.processes.procs p).valid ≢ 0) (ne : p ≢ r) where
  -- The files of the process are given back as if it closed them itself.
  files-IsCounted :
      (procs : ℕ → Pcb)
      → ((q : ℕ) → unlinked (procs q) ≡ unlinked ((invalid s.processes p).procs q))
      → IsCounted (record {
        procs = procs;
        running = r;
        fs = free_from ops max_fd_per_proc 0 (s.processes.procs p).files s.fs;
      })
  files-IsCounted procs same =
      let (k', done) =
        free_from-Emptied ops (s.processes.procs p).files max_fd_per_proc 0 (kernel_of s p)
          (record {
            runs = small;
            valid = valid;
            tables = c.tables;
            files = c.files;
            in_table = c.in_table;
            opened = c.opened;
            inodes = c.inodes;
          })
          refl (λ j _. refl) (λ j lt. absurd (omega (arith, lt))) in
      forget-IsCounted (kernel_of s p) k' _ procs r done c.runs
        (λ z. c.valid (sym (kept_valid r (λ e. ne (sym e))) ∙ z))
        (ap (λ (t : Pcb). t.valid) (same p) ∙ rw (==_refl p) refl)
        (λ q. ap length (kept_files q) ∙ c.tables q) (λ q other. (kept_valid q other, kept_files q))
    where
      kept_files : (q : ℕ) → (procs q).files ≡ (s.processes.procs q).files
      kept_files q = ap (λ (t : Pcb). t.files) (same q) ∙ ground arith

      kept_valid : (q : ℕ) → q ≢ p → (procs q).valid ≡ (s.processes.procs q).valid
      kept_valid q other = ap (λ (t : Pcb). t.valid) (same q) ∙ rw (ne→== q p other) refl

  released :
      (t : Processes) (m m' : Memory)
      → free_block s.memory (s.processes.procs p).stack (s.processes.procs p).stacksize ≡ some m
      → free_block m (s.processes.procs p).text (s.processes.procs p).textsize ≡ some m'
      → destroy_rest ops s (s.processes.procs p) t
        ≡ some (
          0,
          record s {
            processes = t;
            fs = free_from ops max_fd_per_proc 0 (s.processes.procs p).files s.fs;
            memory = m';
          },
        )
  unfolding destroy_rest
  released t m m' made made' = rw (made, made') refl

  -- about
  pub process_destroy-Destroyed :
      (before after : List ℕ)
      → IsList s.processes (before ++ (p ∷ after))
      → length (before ++ (p ∷ after)) < list_fuel
      → IsMap s.memory.memory_map
      → Block (s.processes.procs p).stack (s.processes.procs p).stacksize
      → Block (s.processes.procs p).text (s.processes.procs p).textsize
      → (s' : System D) × (process_destroy ops s p ≡ some (0, s'))
        × Destroyed s p r (before ++ after) s'
  unfolding process_destroy
  process_destroy-Destroyed before after list short map stack text =
      let (t, removed, list', same, _) =
        process_remove-append (invalid s.processes p) p before after
          (IsList-kept s.processes (invalid s.processes p).procs (before ++ (p ∷ after))
            (λ q. ground arith) list)
          short in
      let this : unlinked (t.procs p) ≡ unlinked (record (s.processes.procs p) { valid = 0 }) =
        same p ∙ rw (==_refl p) refl in
      let (m, made, map', back) = free_block-GivenBack s.memory _ _ map stack in
      let (m', made', map'', back') = free_block-GivenBack m _ _ map' text in
      (
        record s {
          processes = t;
          fs = free_from ops max_fd_per_proc 0 (s.processes.procs p).files s.fs;
          memory = m';
        },
        ap (λ o. o >>= λ (_, processes). destroy_rest ops s (processes.procs p) processes) removed
            ∙ destroy_rest-same ops s (t.procs p) (s.processes.procs p) t this
            ∙ released t m m' made made',
        record {
          list = list';
          counted = files-IsCounted t.procs same;
          gone = ap (λ (u : Pcb). u.valid) (same p) ∙ rw (==_refl p) refl;
          others = λ q other. same q ∙ rw (ne→== q p other) refl;
          map = map'';
          between = m;
          stack = back;
          text = back';
        },
      )
