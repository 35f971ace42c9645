-- ===== src/Process/Scheduler.antt =====
-- `schedule` of kernel/processes/scheduler.c: the round robin over the list of processes.
--
-- `ticks` is what `ticks_since_boot` returns. The switch of stacks and registers in
-- `process_switch` is assembly, and is not modelled: what is left of it is `current_proc[0]=new`.
pub mod RoundRobin
use vmwos.Prelude.{ℕ, zero, suc, ◌+◌, ◌-◌, ◌%◌, ◌^◌, Option, none, some, ◌==◌, if◌then◌else◌, ◌>>=◌}
use vmwos.Process.{Ptr, Processes, modify, ptr_eq, ready, list_fuel}

-- `proc->next`, or past the end of the list `proc_first->next`; the outer `none` is a fault.
pub advance : Processes → ℕ → Option Ptr
advance s proc = elim (s.procs proc).next [
  | some q ↦ some (some q)
  | none ↦ s.proc_first >>= λ first. some (s.procs first).next
]

-- The loop of `schedule`: the process to run. `proc_first` is the idle process.
pub next_ready : ℕ → Processes → ℕ → ℕ → Option ℕ
next_ready zero s orig proc = none
next_ready (suc fuel) s orig proc = advance s proc >>= λ p?. elim p? [
  | none ↦ s.proc_first
  | some p ↦
      let rest = next_ready fuel s orig p in
      if (s.procs p).status == ready then some p else if p == orig then s.proc_first else rest
]

-- The accounting and the switch, from `cur` to `proc`.
pub switch_to : Processes → ℕ → ℕ → ℕ → Processes
switch_to s ticks cur proc =
    let charged =
      modify s.procs cur λ c. record c {
        user_time = (c.user_time + (ticks + 2 ^ 32 - c.last_scheduled)) % 2 ^ 32;
      } in
    record s {
      procs = modify charged proc (λ c. record c { last_scheduled = ticks });
      current = some proc;
    }

pub schedule : Processes → ℕ → Option Processes
schedule s ticks = s.current >>= λ cur.
    if ptr_eq s.proc_first cur
    then elim (s.procs cur).next [
      | none ↦ some s
      | some p ↦ next_ready list_fuel s p p >>= λ proc. some (switch_to s ticks cur proc)
    ]
    else (next_ready list_fuel s cur cur >>= λ proc. some (switch_to s ticks cur proc))
