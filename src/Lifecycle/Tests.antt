-- ===== src/Lifecycle/Tests.antt =====
-- Runs of the functions that end a process and copy one.
use vmwos.Prelude.{
  ℕ, zero, suc, ◌*◌, ◌≤◌, ◌<◌, ◌≡◌, refl, ◌≢◌, true, none, some, [], ◌∷◌, arith, length, inl, inr,
  sum_below, ◌>>=◌,
}
use vmwos.Memory.{chunk_size}
use vmwos.Memory.Tests.{board, empty_map-IsMap}
use vmwos.Process.{Pcb}
use vmwos.Process.Chain.{has, find, IsList}
use vmwos.Process.Create.{IsTable}
use vmwos.Process.Scheduler.{schedule}
use vmwos.Fs.Files.References.{occurs, refs, users, IsCounted}
use vmwos.Fs.Files.Tests.{ops, pcb, no_files, inode_table, file_table}
use vmwos.Lifecycle.{System, kernel_of, returns, waitpid, vfork}
use vmwos.Lifecycle.Destroy.{Destroyed}
use vmwos.Lifecycle.Wait.{waitpid-Destroyed}
use vmwos.Lifecycle.Files.{same_refs-IsCounted}
use vmwos.Lifecycle.Fork.{Forked, vfork-Forked}

-- The process 0 runs; behind it a process that has ended has file 0 open, and a stack.
abbrev table : ℕ → Pcb
table zero = record (pcb 1 (none ∷ no_files)) { next = some 1; pid = 0 }
table (suc zero) = record (pcb 1 (some 0 ∷ no_files)) {
  prev = some 0;
  status = 2;
  exit_value = 5;
  stack = 5000 * chunk_size;
  stacksize = 5000;
}
table (suc (suc _)) = pcb 0 (none ∷ no_files)

abbrev system : System (Unit {0})
system = record {
  processes = record { procs = table; proc_first = some 0; current = some 0; avail_pid = 2 };
  waiting = none;
  fs = record { inodes = inode_table; file_objects = file_table; disk = tt };
  memory = board;
}

system-IsCounted : IsCounted (kernel_of system 0)
unfolding sum_below occurs
system-IsCounted = record {
  runs = omega arith;
  valid = omega arith;
  tables = λ (q : ℕ). tables q;
  files = λ f. files f;
  in_table = λ f. in_table f;
  opened = λ f. opened f;
  inodes = λ i. inodes i;
}
  where
    tables : (q : ℕ) → length (table q).files ≡ 8
    tables zero = refl
    tables (suc zero) = refl
    tables (suc (suc _)) = refl

    files : (f : ℕ) → (file_table f).count ≡ refs table f
    files zero = refl
    files (suc f) = ground arith

    in_table : (f : ℕ) → 64 ≤ f → (file_table f).count ≡ 0
    in_table zero h = absurd (omega arith)
    in_table (suc f) h = refl

    opened : (f : ℕ) → (file_table f).count ≢ 0 → (i : ℕ) × ((file_table f).inode ≡ some i)
    opened zero h = (0, refl)
    opened (suc f) h = absurd (h refl)

    inodes : (i : ℕ) → (inode_table i).count ≡ users file_table i
    inodes zero = refl
    inodes (suc i) = ground arith

list : IsList system.processes (0 ∷ 1 ∷ [])
list = (refl, (refl, refl, refl), (refl, (refl, tt)))

-- The parent waits for process 1 without WNOHANG.
waitpid-Destroyed_example :
    (s' : System (Unit {0})) × (waitpid ops system 1 0 0 100 ≡ some (returns 1 (some 5) s'))
    × Destroyed system 1 0 (0 ∷ []) s'
unfolding find
waitpid-Destroyed_example =
    waitpid-Destroyed ops system 1 1 refl refl 0 0 100 (0 ∷ []) [] (omega arith) list (omega arith)
      refl system-IsCounted (omega arith) (omega arith) (omega arith) empty_map-IsMap
      (inr (5000, refl, omega arith, omega arith, omega arith)) (inl refl)

-- Process 1 runs, and makes a copy of itself.
abbrev forking : System (Unit {0})
forking = record system {
  processes = record { procs = table; proc_first = some 0; current = some 1; avail_pid = 2 };
}

forking-IsTable : IsTable forking.processes (0 ∷ 1 ∷ [])
forking-IsTable = record { list = list; valid = valid; numbered = numbered }
  where
    valid : (q : ℕ) → has q (0 ∷ 1 ∷ []) ≡ true → (table q).valid ≢ 0
    valid zero h = omega arith
    valid (suc zero) h = omega arith
    valid (suc (suc q)) h = absurd (ground arith)

    numbered : (q : ℕ) → has q (0 ∷ 1 ∷ []) ≡ true → (table q).pid < 2
    numbered zero h = omega arith
    numbered (suc zero) h = omega arith
    numbered (suc (suc q)) h = absurd (ground arith)

vfork-Forked_example :
    (child : ℕ) × (s' : System (Unit {0})) × (vfork forking 100
      ≡ (schedule s'.processes 100 >>= λ switched. some (2, record s' { processes = switched })))
    × Forked forking 1 child (0 ∷ 1 ∷ []) s'
vfork-Forked_example =
    vfork-Forked forking 100 1 2 (0 ∷ 1 ∷ []) forking-IsTable (omega arith) (omega arith)
      (omega arith) refl refl
      (same_refs-IsCounted (kernel_of system 0) table 1 system-IsCounted (omega arith) (omega arith)
        system-IsCounted.tables (λ f q. refl))
