-- ===== src/Lifecycle/Fork.antt =====
-- `vfork`: the child shares the open files of its parent.
use vmwos.Prelude.{
  ℕ, zero, suc, ◌^◌, ◌≤◌, ◌<◌, ◌≡◌, refl, ◌≢◌, Option, none, some, List, [], ◌∷◌, arith, ◌==◌,
  if◌then◌else◌, ◌>>=◌, get_or, ◌++◌, replicate, get_or-replicate, length, get_or_ext, ne→==,
  ==_refl, ◌∙◌, ap, sym, subst,
}
use native.Mathlib.Decide.{ℕ_discrete, dec_lt}
use vmwos.Process.{Pcb, Processes, modify, max_procs, list_fuel, ready, sleeping}
use vmwos.Process.Chain.{unlinked, IsList, IsList-kept}
use vmwos.Process.Create.{process_create, IsTable, Created, process_create-Created}
use vmwos.Process.Scheduler.{schedule}
use vmwos.Fs.{Fs, max_fd_per_proc}
use vmwos.Fs.Files.{Kernel}
use vmwos.Fs.Files.References.{occurs, proc_refs, IsCounted}
use vmwos.Lifecycle.{System, kernel_of, child_of, fork_into, fork_child, switch_from, vfork}
use vmwos.Lifecycle.Files.{same_refs-IsCounted, no_occurs}
use vmwos.Lifecycle.Share.{Filled, count_from-Filled}

past_end : (xs : List (Option ℕ)) (j : ℕ) → length xs ≤ j → get_or xs j none ≡ none
past_end [] j le = refl
past_end (x ∷ xs) zero le = absurd (omega arith)
past_end (x ∷ xs) (suc j) le = past_end xs j (omega arith)

-- Tables of eight that agree on the eight descriptors are equal.
table_ext :
    (xs ys : List (Option ℕ))
    → length xs ≡ max_fd_per_proc
    → length ys ≡ max_fd_per_proc
    → ((j : ℕ) → j < max_fd_per_proc → get_or xs j none ≡ get_or ys j none)
    → xs ≡ ys
table_ext xs ys e e' same = get_or_ext none xs ys (e ∙ sym e') (λ j.
    elim (dec_lt j max_fd_per_proc) [
      | yes lt ↦ same j lt
      | no out ↦
          past_end xs j (omega (arith, e, out)) ∙ sym (past_end ys j (omega (arith, e', out)))
    ])

-- The processes behind `fork_into`.
abbrev forked : (ℕ → Pcb) → ℕ → ℕ → ℕ → Pcb
forked procs parent child =
    modify (modify procs child (λ c. child_of parent (procs parent) c)) parent
      (λ c. record c { status = sleeping })

module _ (procs : ℕ → Pcb) (parent child : ℕ) (ne : parent ≢ child) where
  forked-child : forked procs parent child child ≡ child_of parent (procs parent) (procs child)
  forked-child = rw (ne→== child parent (λ e. ne (sym e)), ==_refl child) refl

  forked-parent : forked procs parent child parent ≡ record (procs parent) { status = sleeping }
  forked-parent = rw (==_refl parent, ne→== parent child ne) refl

  forked-others : (q : ℕ) → q ≢ parent → q ≢ child → forked procs parent child q ≡ procs q
  forked-others q other other' = rw (ne→== q parent other, ne→== q child other') refl

  -- The child holds what the parent holds, and nothing else changes.
  forked-held :
      (q : ℕ)
      → ((forked procs parent child q).valid
          ≡ (if q == child then (procs parent).valid else (procs q).valid))
        × ((forked procs parent child q).files
            ≡ (if q == child then (procs parent).files else (procs q).files))
        × ((forked procs parent child q).next ≡ (procs q).next)
        × ((forked procs parent child q).prev ≡ (procs q).prev)
  unfolding child_of
  forked-held q = elim (ℕ_discrete q parent) [
    | yes e ↦ rw (e, forked-parent, ne→== parent child ne) ((refl, refl, refl, refl))
    | no other ↦ elim (ℕ_discrete q child) [
      | yes e ↦ rw (e, forked-child, ==_refl child) ((refl, refl, refl, refl))
      | no other' ↦
          rw (forked-others q other other', ne→== q child other') ((refl, refl, refl, refl))
    ]
  ]

-- What a process with this flag and these descriptors holds of a file.
abbrev held_by : ℕ → ℕ → List (Option ℕ) → ℕ
held_by f valid files = if valid == 0 then 0 else occurs f files

both_held :
    (f v v' : ℕ) (xs ys : List (Option ℕ))
    → v ≢ 0
    → v' ≢ 0
    → xs ≡ ys
    → held_by f v xs ≡ held_by f v' ys
both_held f v v' xs ys ne ne' e = rw (ne→== v 0 ne, ne→== v' 0 ne', e) refl

-- What `vfork` makes before the switch, where `xs` is the list before.
pub record Forked {D : Type 0} (s : System D) (parent child : ℕ) (xs : List ℕ) (s' : System D)
    : Type 0 where
  pub other : parent ≢ child
  pub list : IsList s'.processes (xs ++ (child ∷ []))
  pub counted : IsCounted (kernel_of s' parent)
  pub shares : (s'.processes.procs child).files ≡ (s.processes.procs parent).files
  pub pid : (s'.processes.procs child).pid ≡ s.processes.avail_pid
  pub parent_of : (s'.processes.procs child).parent ≡ some parent
  pub awake : (s'.processes.procs child).status ≡ ready
  pub asleep : (s'.processes.procs parent).status ≡ sleeping
  pub owns_no_stack : (s'.processes.procs child).stack ≡ 0
  pub owns_no_text : (s'.processes.procs child).text ≡ 0

module _ {D : Type 0} (s : System D) (ticks parent child : ℕ) (xs : List ℕ) (s1 : Processes)
    (made : Created s.processes ticks child xs s1) (c : IsCounted (kernel_of s parent))
    (ne : parent ≢ child) where
  -- The files seen by the new process.
  fresh-IsCounted : IsCounted (record { procs = s1.procs; running = child; fs = s.fs })
  fresh-IsCounted =
      same_refs-IsCounted (kernel_of s parent) s1.procs child c made.slot
        (λ z. absurd (omega (arith, z, ap (λ (t : Pcb). t.valid) made.fresh)))
        (λ q. elim (ℕ_discrete q child) [
          | yes e ↦ rw e (ap (λ (t : Pcb). length t.files) made.fresh)
          | no other ↦ ap (λ (t : Pcb). length t.files) (made.others q other) ∙ c.tables q
        ])
        (λ f q. elim (ℕ_discrete q child) [
          | yes e ↦
              rw (e, made.empty)
                (sym (
                  ap (λ (t : Pcb). if t.valid == 0 then 0 else occurs f t.files) made.fresh
                  ∙ no_occurs f (replicate 8 none) (λ j _. get_or-replicate 8 j none)))
          | no other ↦
              sym (
                ap (λ (t : Pcb). if t.valid == 0 then 0 else occurs f t.files)
                  (made.others q other))
        ])

  same_parent : unlinked (s1.procs parent) ≡ unlinked (s.processes.procs parent)
  same_parent = made.others parent ne

  valid_parent : (s1.procs parent).valid ≢ 0
  valid_parent = λ z. c.valid (sym (ap (λ (t : Pcb). t.valid) same_parent) ∙ z)

  -- What the processes hold after the loop is what they hold after the changes of `fork_into`.
  forked-refs :
      (fs : Fs D) (k' : Kernel D)
      → Filled
          (record { procs = s1.procs; running = child; fs = s.fs })
          (s1.procs parent).files
          fs
          k'
      → (f q : ℕ) → proc_refs k'.procs f q ≡ proc_refs (forked s1.procs parent child) f q
  forked-refs fs k' filled f q =
      let (v, files, _, _) = forked-held s1.procs parent child ne q in
      elim (ℕ_discrete q child) [
        | yes e ↦
            let e' : q ≡ k'.running = e ∙ sym filled.runs in
            let v' : (forked s1.procs parent child q).valid ≡ (s1.procs parent).valid =
              v ∙ rw (e, ==_refl child) refl in
            let files' : (forked s1.procs parent child q).files ≡ (s1.procs parent).files =
              files ∙ rw (e, ==_refl child) refl in
            both_held f (k'.procs q).valid (forked s1.procs parent child q).valid (k'.procs q).files
              (forked s1.procs parent child q).files (rw e' filled.counted.valid)
              (λ z. valid_parent (sym v' ∙ z))
              (rw e' (
                  table_ext (k'.procs k'.running).files (s1.procs parent).files
                    (filled.counted.tables k'.running) (fresh-IsCounted.tables parent) filled.holds)
                ∙ sym files')
        | no other ↦
            let before = filled.others q other in
            let v' : (forked s1.procs parent child q).valid ≡ (s1.procs q).valid =
              v ∙ rw (ne→== q child other) refl in
            let files' : (forked s1.procs parent child q).files ≡ (s1.procs q).files =
              files ∙ rw (ne→== q child other) refl in
            ap (λ (t : Pcb). held_by f t.valid t.files) before
            ∙ ap (λ n. held_by f n (s1.procs q).files) (sym v')
            ∙ ap (λ t. held_by f (forked s1.procs parent child q).valid t) (sym files')
      ]

  forked-IsCounted :
      (fs : Fs D) (k' : Kernel D)
      → Filled
          (record { procs = s1.procs; running = child; fs = s.fs })
          (s1.procs parent).files
          fs
          k'
      → IsCounted (record { procs = forked s1.procs parent child; running = parent; fs = fs })
  forked-IsCounted fs k' filled =
      subst
        (λ t. IsCounted (record { procs = forked s1.procs parent child; running = parent; fs = t }))
        filled.now
        (same_refs-IsCounted k' (forked s1.procs parent child) parent filled.counted c.runs
          (λ z.
            valid_parent
              (sym (ap (λ (t : Pcb). t.valid) (forked-parent s1.procs parent child ne)) ∙ z))
          (λ q. elim (ℕ_discrete q child) [
            | yes e ↦
                ap length ((forked-held s1.procs parent child ne q).1)
                ∙ rw (e, ==_refl child) (fresh-IsCounted.tables parent)
            | no other ↦
                ap length ((forked-held s1.procs parent child ne q).1)
                ∙ rw (ne→== q child other) (fresh-IsCounted.tables q)
          ])
          (forked-refs fs k' filled))

  -- The copy is made, and its parent put to sleep.
  fork_into-Forked :
      parent < max_procs
      → (s' : System D) × (fork_into s s1 parent child ≡ some s') × Forked s parent child xs s'
  unfolding fork_into child_of
  fork_into-Forked small =
      let (fs, k', counted, filled) =
        count_from-Filled parent (s1.procs parent).files small max_fd_per_proc 0
          (record { procs = s1.procs; running = child; fs = s.fs }) fresh-IsCounted ne valid_parent
          refl refl (λ j lt. absurd (omega (arith, lt)))
          (λ j _. ap (λ (t : Pcb). get_or t.files j none) made.fresh ∙ get_or-replicate 8 j none) in
      let copy = forked-child s1.procs parent child ne in
      (
        record s { fs = fs; processes = record s1 { procs = forked s1.procs parent child } },
        ap
            (λ o. o >>= λ fs'. some (record s {
              fs = fs';
              processes = record s1 { procs = forked s1.procs parent child };
            }))
            counted,
        record {
          other = ne;
          list =
              IsList-kept s1 (forked s1.procs parent child) (xs ++ (child ∷ []))
                (λ q.
                  let (_, _, next, prev) = forked-held s1.procs parent child ne q in (next, prev))
                made.table.list;
          counted = forked-IsCounted fs k' filled;
          shares = ap (λ (t : Pcb). t.files) copy ∙ ap (λ (t : Pcb). t.files) same_parent;
          pid = ap (λ (t : Pcb). t.pid) copy ∙ ap (λ (t : Pcb). t.pid) made.fresh;
          parent_of = ap (λ (t : Pcb). t.parent) copy;
          awake = ap (λ (t : Pcb). t.status) copy;
          asleep = ap (λ (t : Pcb). t.status) (forked-parent s1.procs parent child ne);
          owns_no_stack = ap (λ (t : Pcb). t.stack) copy;
          owns_no_text = ap (λ (t : Pcb). t.text) copy;
        },
      )

-- Where the table of processes is well formed with a free slot, and the reference counts are
-- right, vfork makes a ready child with the next number at the end of the list that shares the
-- open files of its parent but owns neither stack nor text, puts the parent to sleep, keeps the
-- reference counts right, and then schedules.
pub vfork-Forked :
    {D : Type 0} (s : System D) (ticks parent free : ℕ) (xs : List ℕ)
    → IsTable s.processes xs
    → length xs < list_fuel
    → s.processes.avail_pid < 2 ^ 31
    → free < max_procs
    → (s.processes.procs free).valid ≡ 0
    → s.processes.current ≡ some parent
    → IsCounted (kernel_of s parent)
    → (child : ℕ) × (s' : System D) × (vfork s ticks ≡ (
        schedule s'.processes ticks >>= λ switched.
        some (s.processes.avail_pid, record s' { processes = switched })))
      × Forked s parent child xs s'
unfolding vfork fork_child switch_from
vfork-Forked s ticks parent free xs table short small room unused runs c =
    let (child, s1, e, made) =
      process_create-Created s.processes ticks free xs table short small room unused in
    let ne : parent ≢ child = λ q. c.valid (rw q made.empty) in
    let (s', e', done) = fork_into-Forked s ticks parent child xs s1 made c ne c.runs in
    (
      child,
      s',
      ap
            (λ o. o >>= λ p.
              process_create s.processes ticks >>= λ created. fork_child s ticks p created)
            runs
          ∙ ap (λ o. o >>= λ created. fork_child s ticks parent created) e
          ∙ ap (λ o. o >>= λ forked. switch_from forked child ticks) e'
          ∙ ap
              (λ n. schedule s'.processes ticks >>= λ switched.
                some (n, record s' { processes = switched }))
              done.pid,
      done,
    )
