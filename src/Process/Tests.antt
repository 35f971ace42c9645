-- ===== src/Process/Tests.antt =====
-- Runs of kernel/processes/process.c and scheduler.c on a list of three processes.
use vmwos.Prelude.{ℕ, zero, suc, ◌≡◌, refl, none, some, [], ◌∷◌, arith, ◌==◌, replicate}
use vmwos.Process.{
  Pcb, Processes, Ptr, ready, process_get_totals, process_lookup, process_insert, process_remove,
}
use vmwos.Prelude.{◌<◌, ◌≢◌, ◌>>=◌, if◌then◌else◌, ◌==◌, true}
use vmwos.Process.Create.{process_create, IsTable, Created, process_create-Created}
use vmwos.Process.WaitQueue.{wait_queue_wake, enqueue, exit}
use vmwos.Process.WaitQueue.Queue.{Waits, awake, wait_queue_wake-awake, enqueue-queued}
use vmwos.Process.WaitQueue.Exit.{ended, exit-schedule}
use vmwos.Process.Chain.{
  has, IsList, SameButLinks, find, count, process_lookup-find, process_get_totals-count,
}
use vmwos.Process.Insert.{process_insert-append}
use vmwos.Process.Remove.{process_remove-append}
use vmwos.Process.Scheduler.{switch_to, schedule}
use vmwos.Process.Scheduler.RoundRobin.{pick, Switched, schedule-pick, schedule-pick_idle}

abbrev pcb : Ptr → Ptr → ℕ → ℕ → Pcb
pcb next prev pid status = record {
  user_state = record { r = []; pc = 0x8000; spsr = 0x10 };
  next = next;
  prev = prev;
  wait_queue_next = none;
  valid = 1;
  running = 0;
  status = status;
  start_time = 0;
  user_time = 0;
  kernel_time = 0;
  last_scheduled = 0;
  pid = pid;
  exit_value = 0;
  parent = none;
  stack = 0;
  stacksize = 0;
  text = 0;
  textsize = 0;
  files = replicate 8 none;
  current_dir = b'/' ∷ [];
}

-- The idle process, one that sleeps and one that is ready.
abbrev table : ℕ → Pcb
table zero = pcb (some 1) none 0 1
table (suc zero) = pcb (some 2) (some 0) 7 0
table (suc (suc _)) = pcb none (some 1) 9 1

abbrev pub three : Processes
three = record { procs = table; proc_first = some 0; current = some 1; avail_pid = 10 }

three-IsList : IsList three (0 ∷ 1 ∷ 2 ∷ [])
three-IsList = (refl, (refl, refl, (refl, refl, refl)), (refl, (refl, (refl, tt))))

process_lookup-find_test :
    process_lookup three 9 ≡ some (find (λ p. (table p).pid == 9) (0 ∷ 1 ∷ 2 ∷ []))
process_lookup-find_test = process_lookup-find three (0 ∷ 1 ∷ 2 ∷ []) 9 three-IsList (omega arith)

process_get_totals-count_test :
    process_get_totals three ≡ some (3, count (λ p. (table p).status == ready) (0 ∷ 1 ∷ 2 ∷ []))
process_get_totals-count_test =
    process_get_totals-count three 0 (1 ∷ 2 ∷ []) three-IsList (omega arith)

process_insert-append_example :
    (s' : Processes) × (process_insert three 3 ≡ some s')
    × IsList s' (0 ∷ 1 ∷ 2 ∷ 3 ∷ [])
    × SameButLinks three s'
    × (s'.current ≡ some 1)
    × (s'.avail_pid ≡ 10)
process_insert-append_example =
    process_insert-append three 3 (0 ∷ 1 ∷ 2 ∷ []) three-IsList refl (omega arith)

process_remove-append_example :
    (s' : Processes) × (process_remove three 1 ≡ some (0, s'))
    × IsList s' (0 ∷ 2 ∷ [])
    × SameButLinks three s'
    × (s'.current ≡ some 1)
process_remove-append_example =
    process_remove-append three 1 (0 ∷ []) (2 ∷ []) three-IsList (omega arith)

schedule-pick_example : (s' : Processes) × (schedule three 5 ≡ some s') × Switched three 5 1 2 s'
unfolding pick
schedule-pick_example = schedule-pick three 5 0 1 [] (2 ∷ []) three-IsList (omega arith) refl

abbrev idling : Processes
idling = record three { current = some 0 }

schedule-pick_idle_test : schedule idling 5 ≡ some (switch_to idling 5 0 2)
unfolding pick
schedule-pick_idle_test = schedule-pick_idle idling 5 0 1 (2 ∷ []) three-IsList (omega arith) refl

-- The three processes with the next slots free.
abbrev sparse : Processes
sparse = record three { procs = λ q. record (table q) { valid = if q == 3 then 0 else 1 } }

sparse-IsTable : IsTable sparse (0 ∷ 1 ∷ 2 ∷ [])
sparse-IsTable = record {
  list = three-IsList;
  valid = λ q h. ground (arith, h);
  numbered = numbered;
}
  where
    numbered : (q : ℕ) → has q (0 ∷ 1 ∷ 2 ∷ []) ≡ true → (table q).pid < 10
    numbered zero h = omega arith
    numbered (suc zero) h = omega arith
    numbered (suc (suc q)) h = omega arith

process_create-Created_example :
    (p : ℕ) × (s' : Processes) × (process_create sparse 100 ≡ some (some p, s'))
    × Created sparse 100 p (0 ∷ 1 ∷ 2 ∷ []) s'
process_create-Created_example =
    process_create-Created sparse 100 3 (0 ∷ 1 ∷ 2 ∷ []) sparse-IsTable (omega arith) (omega arith)
      (omega arith) refl

-- The processes 1 and 2 wait in a queue.
abbrev waiting_procs : ℕ → Pcb
waiting_procs zero = pcb (some 1) none 0 1
waiting_procs (suc zero) = record (pcb (some 2) (some 0) 7 0) { wait_queue_next = some 2 }
waiting_procs (suc (suc _)) = pcb none (some 1) 9 0

abbrev queue_of_two : Processes
queue_of_two = record three { procs = waiting_procs; current = some 0 }

two-Waits : Waits waiting_procs (some 1) (1 ∷ 2 ∷ [])
two-Waits = ((refl, (refl, refl)), (refl, (refl, tt)))

wait_queue_wake-awake_test :
    (s' : Processes) × (wait_queue_wake queue_of_two (some 1) ≡ some (none, s'))
    × ((q : ℕ)
        → s'.procs q ≡ (if has q (1 ∷ 2 ∷ []) then awake (waiting_procs q) else waiting_procs q))
    × (s'.proc_first ≡ some 0)
    × (s'.current ≡ some 0)
wait_queue_wake-awake_test =
    wait_queue_wake-awake queue_of_two (some 1) (1 ∷ 2 ∷ []) two-Waits (omega arith)

enqueue-queued_example :
    (first' : Ptr) × (procs' : ℕ → Pcb) × (enqueue waiting_procs (some 1) 5 ≡ some (first', procs'))
    × Waits procs' first' (1 ∷ 2 ∷ 5 ∷ [])
    × ((q : ℕ)
        → record (procs' q) { wait_queue_next = none }
          ≡ record (waiting_procs q) { wait_queue_next = none })
enqueue-queued_example =
    enqueue-queued waiting_procs (some 1) (1 ∷ 2 ∷ []) 5 two-Waits (omega arith) (λ _. refl)

exit-schedule_example :
    (s' : Processes) × (exit queue_of_two (some 1) 42 5 ≡ (schedule s' 5 >>= λ t. some (none, t)))
    × (s'.procs 0 ≡ ended 42 (waiting_procs 0))
    × ((q : ℕ)
        → q ≢ 0
        → s'.procs q ≡ (if has q (1 ∷ 2 ∷ []) then awake (waiting_procs q) else waiting_procs q))
    × (s'.proc_first ≡ some 0)
    × (s'.current ≡ some 0)
exit-schedule_example =
    exit-schedule queue_of_two (some 1) (1 ∷ 2 ∷ []) 0 42 5 refl two-Waits (omega arith) refl
