-- ===== src/Process/WaitQueue/Exit.antt =====
-- `exit` of kernel/processes/exit.c.
use vmwos.Prelude.{
  ℕ, ◌<◌, ◌≡◌, refl, ◌≢◌, false, none, some, List, if◌then◌else◌, ◌>>=◌, length, ap, ◌∙◌, ne→==,
  ==_refl,
}
use native.Mathlib.Decide.{ℕ_discrete}
use vmwos.Process.{Ptr, Pcb, Processes, modify, exited, list_fuel}
use vmwos.Process.Chain.{has, Linked}
use vmwos.Process.Scheduler.{schedule}
use vmwos.Process.WaitQueue.{exit, exit_as, leave}
use vmwos.Process.WaitQueue.Queue.{Waits, waiting, awake, Linked-same, wait_queue_wake-awake}

-- A process that ends with a status.
abbrev pub ended : ℕ → Pcb → Pcb
ended status c = record c { status = exited; exit_value = status }

-- exit of a process that does not wait itself marks it as exited with its status, makes every
-- process on the queue of waitpid ready and empties the queue, changes no other process, and
-- then schedules.
pub exit-schedule :
    (s : Processes) (first : Ptr) (xs : List ℕ) (cur status ticks : ℕ)
    → s.current ≡ some cur
    → Waits s.procs first xs
    → length xs < list_fuel
    → has cur xs ≡ false
    → (s' : Processes) × (exit s first status ticks ≡ (schedule s' ticks >>= λ t. some (none, t)))
      × (s'.procs cur ≡ ended status (s.procs cur))
      × ((q : ℕ) → q ≢ cur → s'.procs q ≡ (if has q xs then awake (s.procs q) else s.procs q))
      × (s'.proc_first ≡ s.proc_first)
      × (s'.current ≡ some cur)
unfolding exit
exit-schedule s first xs cur status ticks now (h, d) lt out =
    let (s', e, flags, list, run) = wait_queue_wake-awake gone first xs (kept, d) lt in
    (
      s',
      ap (exit_as s first status ticks) now ∙ ap (leave ticks) e,
      flags cur ∙ rw (out, ==_refl cur) refl,
      λ q ne. flags q ∙ rw (ne→== q cur ne) refl,
      list,
      run ∙ now,
    )
  where
    gone : Processes
    gone = record s { procs = modify s.procs cur (ended status) }

    kept : Linked (waiting gone.procs) first xs
    kept =
        Linked-same (waiting s.procs) (waiting gone.procs) first xs
          (λ q _. elim (ℕ_discrete q cur) [
            | yes e ↦ rw (e, ==_refl cur, waiting) refl
            | no ne ↦ rw (ne→== q cur ne, waiting) refl
          ])
          h
