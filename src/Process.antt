-- ===== src/Process.antt =====
-- Processes: the process control block of kernel/include/processes/process.h, and the list of
-- processes that kernel/processes/process.c keeps.
--
-- A pointer to a process is the number of its slot in `all_processes`, `none` for `NULL`. The table
-- is a function of the slot. A function that follows a `NULL` pointer has the result `none`, and so
-- has a walk that runs out of fuel; no list is longer than the table. Registers that only assembly
-- reads are left out, and so is `stack_padding`.
pub mod Chain
pub mod Insert
pub mod Create
pub mod Remove
pub mod Scheduler
pub mod WaitQueue
pub mod Tests
use vmwos.Prelude.{
  ℕ, zero, suc, ◌+◌, ◌-◌, ◌^◌, Bool, false, Option, none, some, List, ◌==◌, if◌then◌else◌, ◌>>=◌,
}

abbrev pub Ptr : Type 0
Ptr = Option ℕ

-- PROCESS_STATUS_SLEEPING, PROCESS_STATUS_READY and PROCESS_STATUS_EXITED
abbrev pub sleeping : ℕ
sleeping = 0

abbrev pub ready : ℕ
ready = 1

abbrev pub exited : ℕ
exited = 2

-- MAX_PROCS
abbrev pub max_procs : ℕ
max_procs = 16

-- Rounds enough to walk any list of processes.
abbrev pub list_fuel : ℕ
list_fuel = 17

pub record Registers : Type 0 where
  pub r : List ℕ
  pub pc : ℕ
  pub spsr : ℕ

-- `process_control_block_type`
pub record Pcb : Type 0 where
  pub user_state : Registers
  pub next : Ptr
  pub prev : Ptr
  pub wait_queue_next : Ptr
  pub valid : ℕ
  pub running : ℕ
  pub status : ℕ
  pub start_time : ℕ
  pub user_time : ℕ
  pub kernel_time : ℕ
  pub last_scheduled : ℕ
  pub pid : ℕ
  pub exit_value : ℕ
  pub parent : Ptr
  pub stack : ℕ
  pub stacksize : ℕ
  pub text : ℕ
  pub textsize : ℕ
  pub files : List (Option ℕ)
  pub current_dir : List ℕ

-- The globals of process.c; `current` is `current_proc[0]`.
pub record Processes : Type 0 where
  pub procs : ℕ → Pcb
  pub proc_first : Ptr
  pub current : Ptr
  pub avail_pid : ℕ

-- `*p = f(*p)`
abbrev pub modify : (ℕ → Pcb) → ℕ → (Pcb → Pcb) → ℕ → Pcb
modify procs p f q = if q == p then f (procs q) else procs q

abbrev pub ptr_eq : Ptr → ℕ → Bool
ptr_eq none p = false
ptr_eq (some q) p = q == p

-- The count of all processes, and of those that are ready, from `p` on.
pub get_totals_from : ℕ → (ℕ → Pcb) → Ptr → ℕ → ℕ → Option (ℕ × ℕ)
get_totals_from zero procs p total count = none
get_totals_from (suc fuel) procs none total count = none
get_totals_from (suc fuel) procs (some p) total count =
    let count' = if (procs p).status == ready then count + 1 else count in
    let rest = get_totals_from fuel procs (procs p).next (total + 1) count' in
    elim (procs p).next [ none ↦ some (total + 1, count') | some _ ↦ rest ]

pub process_get_totals : Processes → Option (ℕ × ℕ)
process_get_totals s = get_totals_from list_fuel s.procs s.proc_first 0 0

-- The first process from `p` on that passes a test; the inner `none` is `NULL`.
pub lookup_from : (ℕ → Bool) → ℕ → (ℕ → Pcb) → Ptr → Option Ptr
lookup_from test zero procs p = none
lookup_from test (suc fuel) procs none = some none
lookup_from test (suc fuel) procs (some p) =
    let rest = lookup_from test fuel procs (procs p).next in if test p then some (some p) else rest

pub process_lookup : Processes → ℕ → Option Ptr
process_lookup s pid = lookup_from (λ p. (s.procs p).pid == pid) list_fuel s.procs s.proc_first

pub process_lookup_child : Processes → ℕ → Option Ptr
process_lookup_child s caller =
    lookup_from (λ p. if p == caller then false else ptr_eq (s.procs p).parent caller) list_fuel
      s.procs s.proc_first

-- while(last->next!=NULL) last=last->next;
pub last_from : ℕ → (ℕ → Pcb) → ℕ → Option ℕ
last_from zero procs p = none
last_from (suc fuel) procs p = elim (procs p).next [
  | none ↦ some p
  | some q ↦ last_from fuel procs q
]

pub process_insert : Processes → ℕ → Option Processes
process_insert s proc = elim s.proc_first [
  | none ↦ some (record s {
    proc_first = some proc;
    procs = modify s.procs proc (λ c. record c { next = none; prev = none });
  })
  | some first ↦ last_from list_fuel s.procs first >>= λ last.
      let linked = modify s.procs last (λ c. record c { next = some proc }) in
      some
        (record s { procs = modify linked proc (λ c. record c { next = none; prev = some last }) })
]

-- The unlinking of `proc`, when the walk has found it.
pub unlink : Processes → ℕ → Option Processes
unlink s proc = (s.procs proc).prev >>= λ before.
    let procs' = modify s.procs before (λ c. record c { next = (s.procs proc).next }) in
    some (elim (s.procs proc).next [
      | none ↦ record s { procs = procs' }
      | some after ↦ record s {
        procs = modify procs' after (λ c. record c { prev = (procs' proc).prev });
      }
    ])

-- The walk of `process_remove`; a process that is not on the list is left alone.
pub remove_from : ℕ → Processes → ℕ → Ptr → Option Processes
remove_from zero s proc p = none
remove_from (suc fuel) s proc none = some s
remove_from (suc fuel) s proc (some p) =
    let rest = remove_from fuel s proc (s.procs p).next in if p == proc then unlink s proc else rest

-- `process_remove`, where the argument is `proc_first`.
pub remove_with : Processes → ℕ → Ptr → Option (ℕ × Processes)
remove_with s proc none = some (2 ^ 32 - 1, s)
remove_with s proc (some first) =
    if first == proc
    then some (0, record s { proc_first = (s.procs proc).next })
    else (remove_from list_fuel s proc (some first) >>= λ s'. some (0, s'))

-- The new list, and the result: 0, or -1 for an empty list.
pub process_remove : Processes → ℕ → Option (ℕ × Processes)
process_remove s proc = remove_with s proc s.proc_first
