-- ===== src/Process/WaitQueue.antt =====
-- Wait queues of kernel/processes/waitqueue.c, and `exit` of kernel/processes/exit.c.
--
-- A queue is the pointer `first`; it runs through `wait_queue_next`. `waitpid_wait_queue` of
-- kernel/processes/waitpid.c is the queue that `exit` wakes.
pub mod Queue
pub mod Exit
use vmwos.Prelude.{ℕ, zero, suc, Option, none, some, ◌==◌, if◌then◌else◌, ◌>>=◌}
use vmwos.Process.{Ptr, Pcb, Processes, modify, ready, sleeping, exited, list_fuel}
use vmwos.Process.Scheduler.{schedule}

-- The walk of `wait_queue_add`: `proc` goes behind the last process, unless the walk meets it.
pub append_from : ℕ → (ℕ → Pcb) → ℕ → ℕ → Option (ℕ → Pcb)
append_from zero procs next proc = none
append_from (suc fuel) procs next proc =
    if next == proc then some procs else elim (procs next).wait_queue_next [
      | none ↦ some (modify procs next (λ c. record c { wait_queue_next = some proc }))
      | some q ↦ append_from fuel procs q proc
    ]

-- The queue and the processes after `proc` is queued.
pub enqueue : (ℕ → Pcb) → Ptr → ℕ → Option (Ptr × (ℕ → Pcb))
enqueue procs none proc = some (some proc, procs)
enqueue procs (some first) proc =
    append_from list_fuel procs first proc >>= λ procs'. some (some first, procs')

-- The queue, and the state after the switch to the process that runs next.
pub wait_queue_add : Processes → Ptr → ℕ → ℕ → Option (Ptr × Processes)
wait_queue_add s first proc ticks = enqueue s.procs first proc >>= λ (first', procs).
    let asleep : Processes = record s {
      procs = modify procs proc (λ c. record c { status = sleeping });
    } in
    schedule asleep ticks >>= λ s'. some (first', s')

pub wake_from : ℕ → (ℕ → Pcb) → Ptr → Option (ℕ → Pcb)
wake_from zero procs first = none
wake_from (suc fuel) procs none = some procs
wake_from (suc fuel) procs (some p) =
    wake_from fuel (modify procs p (λ c. record c { status = ready; wait_queue_next = none }))
      (procs p).wait_queue_next

-- The queue is empty afterwards.
pub wait_queue_wake : Processes → Ptr → Option (Ptr × Processes)
wait_queue_wake s first =
    wake_from list_fuel s.procs first >>= λ procs. some (none, record s { procs = procs })

-- The part of `exit` behind the changes to the process itself.
abbrev pub leave : ℕ → Option (Ptr × Processes) → Option (Ptr × Processes)
leave ticks none = none
leave ticks (some (first, woken)) = schedule woken ticks >>= λ s'. some (first, s')

-- `exit` of the process `cur`.
abbrev pub exit_as : Processes → Ptr → ℕ → ℕ → Ptr → Option (Ptr × Processes)
exit_as s first status ticks none = none
exit_as s first status ticks (some cur) =
    let gone : Processes = record s {
      procs = modify s.procs cur (λ c. record c { status = exited; exit_value = status });
    } in
    leave ticks (wait_queue_wake gone first)

-- `exit` on the queue of `waitpid`, with the switch to the next process.
pub exit : Processes → Ptr → ℕ → ℕ → Option (Ptr × Processes)
exit s first status ticks = exit_as s first status ticks s.current
