-- ===== src/Lifecycle/Files.antt =====
-- The descriptors of a process, when it is destroyed: its file objects are given back one by one.
use vmwos.Prelude.{
  ℕ, zero, suc, ◌+◌, ◌≤◌, ◌<◌, ◌≡◌, refl, ◌≢◌, Option, none, some, List, [], ◌∷◌, arith, ◌==◌,
  if◌then◌else◌, get_or, length, get_or-set_self, get_or-set_ne, ne→==, ==_refl, Option-cases, inl,
  inr, ◌∙◌, sym, subst, sum_below_same,
}
use native.Mathlib.Decide.{ℕ_discrete}
use vmwos.Process.{Pcb, max_procs}
use vmwos.Fs.{SbOps, Fs, max_fd_per_proc}
use vmwos.Fs.Files.{Kernel, fd_slot}
use vmwos.Fs.Files.References.{occurs, occurs_pos, proc_refs, IsCounted}
use vmwos.Fs.Files.Close.{closed, closed-IsCounted, held_in_use}
use vmwos.Lifecycle.{free_file, free_from}

-- The state after a loop over the descriptors of the running process, with the files `fs`: the
-- counts are right, all its descriptors are free, and no other process has changed.
pub record Emptied {D : Type 0} (k : Kernel D) (fs : Fs D) (k' : Kernel D) : Type 0 where
  pub counted : IsCounted k'
  pub files : k'.fs ≡ fs
  pub runs : k'.running ≡ k.running
  pub free : (j : ℕ) → j < max_fd_per_proc → fd_slot k' j ≡ none
  pub others : (q : ℕ) → q ≢ k.running → k'.procs q ≡ k.procs q

module _ {D : Type 0} (ops : SbOps D) (files : List (Option ℕ)) where
  in_use :
      (k : Kernel D) (f i : ℕ)
      → IsCounted k
      → i < max_fd_per_proc
      → fd_slot k i ≡ some f
      → (k.fs.file_objects f).count ≢ 0
  in_use k f i c lt slot =
      (held_in_use k k.running f c c.runs (λ z.
        occurs_pos f i (k.procs k.running).files (omega (arith, c.tables k.running)) slot
          (ground (arith, z, c.valid)))).2

  slot-closed :
      (k : Kernel D) (f i j : ℕ)
      → IsCounted k
      → i < max_fd_per_proc
      → fd_slot (closed ops k f i) j ≡ (if j == i then none else fd_slot k j)
  slot-closed k f i j c lt = elim (ℕ_discrete j i) [
    | yes e ↦
        rw (e, ==_refl i, ==_refl k.running)
          (get_or-set_self (k.procs k.running).files i none none
            (omega (arith, c.tables k.running)))
    | no ne ↦
        rw (ne→== j i ne, ==_refl k.running)
          (get_or-set_ne (k.procs k.running).files i j none none (λ e. ne (sym e)))
  ]

  pub free_from-Emptied :
      (left i : ℕ) (k : Kernel D)
      → IsCounted k
      → i + left ≡ max_fd_per_proc
      → ((j : ℕ) → i ≤ j → fd_slot k j ≡ get_or files j none)
      → ((j : ℕ) → j < i → fd_slot k j ≡ none)
      → (k' : Kernel D) × Emptied k (free_from ops left i files k.fs) k'
  unfolding free_from free_file
  free_from-Emptied zero i k c e same empty = (
    k,
    record {
      counted = c;
      files = refl;
      runs = refl;
      free = λ j lt. empty j (omega (arith, e));
      others = λ q _. refl;
    },
  )
  free_from-Emptied (suc left) i k c e same empty = elim (Option-cases (get_or files i none)) [
    | inl nothing ↦ rw nothing (
        free_from-Emptied left (i + 1) k c (omega (arith, e)) (λ j le. same j (omega arith))
          (λ j lt. elim (ℕ_discrete j i) [
            | yes q ↦ rw q (same i (omega arith) ∙ nothing)
            | no ne ↦ empty j (omega arith)
          ]))
    | inr (f, held) ↦
        let slot : fd_slot k i ≡ some f = same i (omega arith) ∙ held in
        let lt : i < max_fd_per_proc = omega (arith, e) in
        let (k', done) =
          free_from-Emptied left (i + 1) (closed ops k f i)
            (closed-IsCounted ops k f i c lt slot (in_use k f i c lt slot)) (omega (arith, e))
            (λ j le. slot-closed k f i j c lt ∙ ground (arith, same j (omega arith)))
            (λ j le. slot-closed k f i j c lt ∙ elim (ℕ_discrete j i) [
              | yes q ↦ rw (q, ==_refl i) refl
              | no ne ↦ rw (ne→== j i ne) (empty j (omega arith))
            ]) in
        rw held (
          (
            k',
            record {
              counted = done.counted;
              files = done.files;
              runs = done.runs;
              free = done.free;
              others = λ q ne. done.others q ne ∙ rw (ne→== q k.running ne) refl;
            },
          ))
  ]

-- A table of descriptors that are all free points to no file.
pub no_occurs :
    (f : ℕ) (xs : List (Option ℕ))
    → ((j : ℕ) → j < length xs → get_or xs j none ≡ none)
    → occurs f xs ≡ 0
unfolding occurs
no_occurs f [] free = refl
no_occurs f (x ∷ xs) free =
    let first : x ≡ none = free 0 (omega arith) in
    rw first (omega (arith, no_occurs f xs (λ j lt. free (suc j) (omega arith))))

-- The counts depend on the processes only through what each of them holds.
pub same_refs-IsCounted :
    {D : Type 0} (k : Kernel D) (procs : ℕ → Pcb) (running : ℕ)
    → IsCounted k
    → running < max_procs
    → (procs running).valid ≢ 0
    → ((q : ℕ) → length (procs q).files ≡ max_fd_per_proc)
    → ((f q : ℕ) → proc_refs k.procs f q ≡ proc_refs procs f q)
    → IsCounted (record k { procs = procs; running = running })
same_refs-IsCounted k procs running c lt valid tables equal = record {
  runs = lt;
  valid = valid;
  tables = tables;
  files = λ f.
      c.files f
      ∙ sum_below_same max_procs (proc_refs procs f) (proc_refs k.procs f) (λ q _. equal f q);
  in_table = c.in_table;
  opened = c.opened;
  inodes = c.inodes;
}

-- The process that was emptied may be forgotten, and another one run.
pub forget-IsCounted :
    {D : Type 0} (k k' : Kernel D) (fs : Fs D) (procs : ℕ → Pcb) (running : ℕ)
    → Emptied k fs k'
    → running < max_procs
    → (procs running).valid ≢ 0
    → (procs k.running).valid ≡ 0
    → ((q : ℕ) → length (procs q).files ≡ max_fd_per_proc)
    → ((q : ℕ)
        → q ≢ k.running
        → ((procs q).valid ≡ (k.procs q).valid) × ((procs q).files ≡ (k.procs q).files))
    → IsCounted (record { procs = procs; running = running; fs = fs })
forget-IsCounted k k' fs procs running done lt valid gone tables same =
    subst (λ t. IsCounted (record { procs = procs; running = running; fs = t })) done.files
      (same_refs-IsCounted k' procs running done.counted lt valid tables equal)
  where
    equal : (f q : ℕ) → proc_refs k'.procs f q ≡ proc_refs procs f q
    equal f q = elim (ℕ_discrete q k.running) [
      | yes e ↦
          let invalid : (procs q).valid ≡ 0 = rw e gone in
          let e' : q ≡ k'.running = e ∙ sym done.runs in
          let none_held =
            no_occurs f (k'.procs k'.running).files
              (λ j lt'. done.free j (omega (arith, lt', done.counted.tables k'.running))) in
          rw (invalid, e') (ground (arith, none_held))
      | no ne ↦
          let (v, fs') = same q ne in let before = done.others q ne in rw (v, fs', before) refl
    ]
