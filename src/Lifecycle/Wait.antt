-- ===== src/Lifecycle/Wait.antt =====
-- `waitpid` for a process that has ended.
use vmwos.Prelude.{
  ℕ, ◌-◌, ◌^◌, ◌<◌, ◌≡◌, refl, ◌≢◌, some, List, ◌∷◌, ◌++◌, arith, ◌==◌, ◌>>=◌, length, ne→==,
  lt→leb, Bool-cases, inl, inr, ◌∙◌, ap,
}
use vmwos.Memory.Map.{IsMap}
use vmwos.Process.{max_procs, list_fuel, exited}
use vmwos.Process.Chain.{IsList, find, process_lookup-find}
use vmwos.Fs.{SbOps}
use vmwos.Fs.Files.References.{IsCounted}
use vmwos.Lifecycle.{System, kernel_of, wnohang, returns, reap, wait_for, wait_on, waitpid}
use vmwos.Lifecycle.Destroy.{Block, Destroyed, process_destroy-Destroyed}

module _ {D : Type 0} (ops : SbOps D) (s : System D) (p pid : ℕ)
    (ended : (s.processes.procs p).status ≡ exited) (number : (s.processes.procs p).pid ≡ pid) where
  -- With and without WNOHANG the process is destroyed at once.
  wait_on-exited :
      (options caller ticks : ℕ) → wait_on ops s pid options p caller ticks ≡ reap ops s p pid
  unfolding wait_on wait_for
  wait_on-exited options caller ticks = elim (Bool-cases (options == wnohang)) [
    | inl q ↦ rw (q, ended, number) refl
    | inr q ↦ rw (q, ended) refl
  ]

  waitpid-wait_on :
      (options caller ticks : ℕ) (xs : List ℕ)
      → pid < 2 ^ 31
      → IsList s.processes xs
      → length xs < list_fuel
      → find (λ q. (s.processes.procs q).pid == pid) xs ≡ some p
      → waitpid ops s pid options caller ticks ≡ wait_on ops s pid options p caller ticks
  unfolding waitpid
  waitpid-wait_on options caller ticks xs small list short found =
      rw (ne→== pid (2 ^ 32 - 1) (λ e. absurd (omega (arith, e, small))), lt→leb (2 ^ 31) pid small)
        (ap (λ o. o >>= λ q. q >>= λ proc. wait_on ops s pid options proc caller ticks)
          (process_lookup-find s.processes xs pid list short ∙ ap some found))

  -- For the number of an exited process on the list that does not run, waitpid with any options
  -- returns that number and the exit value at once; the process is no longer valid and off the
  -- list, which keeps the order of the others, the reference counts of files and inodes stay
  -- right, its stack and its text are given back to the memory, and of other processes only
  -- links change.
  pub waitpid-Destroyed :
      (options caller ticks : ℕ) (before after : List ℕ)
      → pid < 2 ^ 31
      → IsList s.processes (before ++ (p ∷ after))
      → length (before ++ (p ∷ after)) < list_fuel
      → find (λ q. (s.processes.procs q).pid == pid) (before ++ (p ∷ after)) ≡ some p
      → IsCounted (kernel_of s caller)
      → p < max_procs
      → (s.processes.procs p).valid ≢ 0
      → p ≢ caller
      → IsMap s.memory.memory_map
      → Block (s.processes.procs p).stack (s.processes.procs p).stacksize
      → Block (s.processes.procs p).text (s.processes.procs p).textsize
      → (s' : System D) × (waitpid ops s pid options caller ticks
          ≡ some (returns pid (some (s.processes.procs p).exit_value) s'))
        × Destroyed s p caller (before ++ after) s'
  unfolding reap
  waitpid-Destroyed options caller ticks before after small list short found c slot valid ne map
        stack text =
      let (s', made, done) =
        process_destroy-Destroyed ops s p caller c slot valid ne before after list short map stack
          text in
      (
        s',
        waitpid-wait_on options caller ticks (before ++ (p ∷ after)) small list short found
            ∙ wait_on-exited options caller ticks
            ∙ ap (λ o. o >>= λ (_, t). some (returns pid (some (s.processes.procs p).exit_value) t))
                made,
        done,
      )
