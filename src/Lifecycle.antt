-- ===== src/Lifecycle.antt =====
-- The life of a process, where processes, open files and memory meet: `vfork` of
-- kernel/processes/vfork.c, `waitpid` of kernel/processes/waitpid.c, and `process_destroy` of
-- kernel/processes/process.c.
pub mod Files
pub mod Destroy
pub mod Share
pub mod Wait
pub mod Fork
pub mod Tests
use vmwos.Prelude.{
  ℕ, zero, suc, ◌+◌, ◌-◌, ◌*◌, ◌%◌, ◌^◌, Option, none, some, List, ◌∷◌, leb, ◌==◌, if◌then◌else◌,
  ◌>>=◌, get_or,
}
use vmwos.Memory.{Memory, memory_free}
use vmwos.Process.{
  Ptr, Pcb, Processes, sleeping, ready, exited, modify, process_lookup, process_lookup_child,
  process_remove,
}
use vmwos.Process.Create.{process_create}
use vmwos.Process.Scheduler.{schedule}
use vmwos.Process.WaitQueue.{wait_queue_add}
use vmwos.Fs.{SbOps, Fs, err, max_fd_per_proc}
use vmwos.Fs.Files.{Kernel, file_object_free, files_increment_count}

abbrev pub echild : ℕ
echild = 10

abbrev pub enodev : ℕ
enodev = 19

abbrev pub wnohang : ℕ
wnohang = 1

-- The processes, the queue of `waitpid`, the files, and the memory.
pub record System (D : Type 0) : Type 0 where
  pub processes : Processes
  pub waiting : Ptr
  pub fs : Fs D
  pub memory : Memory

-- The files as the process in a slot sees them.
abbrev pub kernel_of : {D : Type 0} → System D → ℕ → Kernel D
kernel_of s running = record { procs = s.processes.procs; running = running; fs = s.fs }

-- `if (location) memory_free(location,size)`
pub free_block : Memory → ℕ → ℕ → Option Memory
free_block m location size = if location == 0 then some m else memory_free m location size

module _ {D : Type 0} (ops : SbOps D) where
  pub free_file : Option ℕ → Fs D → Fs D
  free_file none fs = fs
  free_file (some f) fs = (file_object_free ops fs f).1

  -- The loop over the descriptors from `i` on, `left` of them.
  pub free_from : ℕ → ℕ → List (Option ℕ) → Fs D → Fs D
  free_from zero i files fs = fs
  free_from (suc left) i files fs =
      free_from left (i + 1) files (free_file (get_or files i none) fs)

  -- The part of `process_destroy` behind the list of processes, where `c` is what `proc` points to.
  pub destroy_rest : System D → Pcb → Processes → Option (ℕ × System D)
  destroy_rest s c processes = free_block s.memory c.stack c.stacksize >>= λ memory.
      free_block memory c.text c.textsize >>= λ memory'. some (
        0,
        record s {
          processes = processes;
          fs = free_from max_fd_per_proc 0 c.files s.fs;
          memory = memory';
        },
      )

  pub process_destroy : System D → ℕ → Option (ℕ × System D)
  process_destroy s proc =
      let invalid : Processes = record s.processes {
        procs = modify s.processes.procs proc (λ c. record c { valid = 0 });
      } in
      process_remove invalid proc >>= λ (_, processes).
      destroy_rest s (processes.procs proc) processes

  -- What a call of `waitpid` comes to: a result with the value for `wstatus`, or the caller sleeps
  -- until it is woken, and then looks at `proc` again.
  pub data Waited : Type 0 where
    returns : ℕ → Option ℕ → System D → Waited
    sleeps : ℕ → System D → Waited

  pub reap : System D → ℕ → ℕ → Option Waited
  reap s proc result = process_destroy s proc >>= λ (_, s').
      some (returns result (some (s.processes.procs proc).exit_value) s')

  -- A round of the loop that waits for `proc`; `caller` is the process that runs.
  pub wait_for : System D → ℕ → ℕ → ℕ → ℕ → Option Waited
  wait_for s pid proc caller ticks =
      if (s.processes.procs proc).status == exited
      then reap s proc pid
      else (wait_queue_add s.processes s.waiting caller ticks >>= λ (waiting, processes).
          some (sleeps proc (record s { processes = processes; waiting = waiting })))

  pub wait_on : System D → ℕ → ℕ → ℕ → ℕ → ℕ → Option Waited
  wait_on s pid options proc caller ticks =
      if options == wnohang
      then (if (s.processes.procs proc).status == exited
          then reap s proc (s.processes.procs proc).pid
          else some (returns 0 none s))
      else wait_for s pid proc caller ticks

  -- A process that is not found by its number is followed as `NULL`.
  pub waitpid : System D → ℕ → ℕ → ℕ → ℕ → Option Waited
  waitpid s pid options caller ticks =
      if pid == 2 ^ 32 - 1
      then (process_lookup_child s.processes caller >>= λ child. elim child [
        | none ↦ some (returns (err echild) none s)
        | some proc ↦ wait_on s pid options proc caller ticks
      ])
      else if leb (2 ^ 31) pid
      then some (returns (err enodev) none s)
      else (process_lookup s.processes pid >>= λ found.
          found >>= λ proc. wait_on s pid options proc caller ticks)

-- The child in its slot: the copy of the parent, but for what is its own.
pub child_of : ℕ → Pcb → Pcb → Pcb
child_of parent old new = record old {
  pid = new.pid;
  prev = new.prev;
  next = new.next;
  parent = some parent;
  stack = 0;
  text = 0;
  status = ready;
}

module _ {D : Type 0} where
  pub count_file : Option ℕ → Fs D → Option (Fs D)
  count_file none fs = some fs
  count_file (some f) fs = files_increment_count fs f

  pub count_from : ℕ → ℕ → List (Option ℕ) → Fs D → Option (Fs D)
  count_from zero i files fs = some fs
  count_from (suc left) i files fs =
      count_file (get_or files i none) fs >>= λ fs'. count_from left (i + 1) files fs'

  pub fork_into : System D → Processes → ℕ → ℕ → Option (System D)
  fork_into s processes parent child =
      count_from max_fd_per_proc 0 (processes.procs parent).files s.fs >>= λ fs. some (record s {
        fs = fs;
        processes = record processes {
          procs =
              modify
                (modify processes.procs child (λ c. child_of parent (processes.procs parent) c))
                parent (λ c. record c { status = sleeping });
        };
      })

  -- The switch to another process; the parent's result is the number of the child.
  pub switch_from : System D → ℕ → ℕ → Option (ℕ × System D)
  switch_from s child ticks = schedule s.processes ticks >>= λ switched.
      some ((s.processes.procs child).pid, record s { processes = switched })

  -- `vfork` behind `process_create`; -1 where that returned `NULL`.
  pub fork_child : System D → ℕ → ℕ → Ptr × Processes → Option (ℕ × System D)
  fork_child s ticks parent (none, processes) =
      some (2 ^ 32 - 1, record s { processes = processes })
  fork_child s ticks parent (some child, processes) =
      fork_into s processes parent child >>= λ forked. switch_from forked child ticks

  pub vfork : System D → ℕ → Option (ℕ × System D)
  vfork s ticks = s.processes.current >>= λ parent.
      process_create s.processes ticks >>= λ created. fork_child s ticks parent created
