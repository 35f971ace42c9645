-- ===== src/Lifecycle/Share.antt =====
-- The loop of `vfork` that counts the files which the child shares with its parent.
use vmwos.Prelude.{
  ℕ, zero, suc, ◌+◌, ◌≤◌, ◌<◌, ◌≡◌, refl, ◌≢◌, Option, none, some, List, arith, ◌==◌, if◌then◌else◌,
  get_or, get_or-set_self, get_or-set_ne, ne→==, ==_refl, Option-cases, inl, inr, ◌∙◌, ap, sym,
}
use native.Mathlib.Decide.{ℕ_discrete}
use vmwos.Process.{max_procs}
use vmwos.Fs.{Fs, max_fd_per_proc}
use vmwos.Fs.Files.{Kernel, fd_slot, set_fd}
use vmwos.Fs.Files.References.{occurs_pos, IsCounted}
use vmwos.Fs.Files.Close.{held_in_use}
use vmwos.Fs.Files.Dup.Counts.{counted_up, counted_up-IsCounted, files_increment_count-counted_up}
use vmwos.Lifecycle.{count_file, count_from}

-- The state after the loop, with the files `fs`: the running process holds what `files` holds.
pub record Filled {D : Type 0} (k : Kernel D) (files : List (Option ℕ)) (fs : Fs D) (k' : Kernel D)
    : Type 0 where
  pub counted : IsCounted k'
  pub now : k'.fs ≡ fs
  pub runs : k'.running ≡ k.running
  pub holds : (j : ℕ) → j < max_fd_per_proc → fd_slot k' j ≡ get_or files j none
  pub others : (q : ℕ) → q ≢ k.running → k'.procs q ≡ k.procs q

module _ {D : Type 0} (parent : ℕ) (files : List (Option ℕ)) (small : parent < max_procs) where
  -- What the parent holds is in use, with an inode.
  in_use :
      (k : Kernel D) (f i : ℕ)
      → IsCounted k
      → (k.procs parent).valid ≢ 0
      → (k.procs parent).files ≡ files
      → i < max_fd_per_proc
      → get_or files i none ≡ some f
      → (j : ℕ) × ((k.fs.file_objects f).inode ≡ some j) × ((k.fs.file_objects f).count ≢ 0)
  in_use k f i c valid same lt held =
      let (j, e, used, _) = held_in_use k parent f c small (λ z.
        occurs_pos f i (k.procs parent).files (omega (arith, lt, c.tables parent))
          (ap (λ (t : List (Option ℕ)). get_or t i none) same ∙ held) (ground (arith, z, valid))) in
      (j, e, used)

  filled_slot :
      (k : Kernel D) (fs : Fs D) (f i j : ℕ)
      → IsCounted k
      → i < max_fd_per_proc
      → fd_slot (set_fd (record k { fs = fs }) i (some f)) j
        ≡ (if j == i then some f else fd_slot k j)
  filled_slot k fs f i j c lt = elim (ℕ_discrete j i) [
    | yes e ↦
        rw (e, ==_refl i, ==_refl k.running)
          (get_or-set_self (k.procs k.running).files i (some f) none
            (omega (arith, c.tables k.running)))
    | no ne ↦
        rw (ne→== j i ne, ==_refl k.running)
          (get_or-set_ne (k.procs k.running).files i j (some f) none (λ e. ne (sym e)))
  ]

  pub count_from-Filled :
      (left i : ℕ) (k : Kernel D)
      → IsCounted k
      → parent ≢ k.running
      → (k.procs parent).valid ≢ 0
      → (k.procs parent).files ≡ files
      → i + left ≡ max_fd_per_proc
      → ((j : ℕ) → j < i → fd_slot k j ≡ get_or files j none)
      → ((j : ℕ) → i ≤ j → fd_slot k j ≡ none)
      → (fs : Fs D) × (k' : Kernel D) × (count_from left i files k.fs ≡ some fs)
        × Filled k files fs k'
  unfolding count_from count_file
  count_from-Filled zero i k c ne valid same e done free = (
    k.fs,
    k,
    refl,
    record {
      counted = c;
      now = refl;
      runs = refl;
      holds = λ j lt. done j (omega (arith, e));
      others = λ q _. refl;
    },
  )
  count_from-Filled (suc left) i k c ne valid same e done free =
      elim (Option-cases (get_or files i none)) [
        | inl nothing ↦
            let (fs, k', made, filled) =
              count_from-Filled left (i + 1) k c ne valid same (omega (arith, e))
                (λ j lt. elim (ℕ_discrete j i) [
                  | yes q ↦ rw q (free i (omega arith) ∙ sym nothing)
                  | no other ↦ done j (omega arith)
                ])
                (λ j le. free j (omega arith)) in
            (fs, k', rw nothing made, filled)
        | inr (f, held) ↦
            let lt : i < max_fd_per_proc = omega (arith, e) in
            let (n, inode, used) = in_use k f i c valid same lt held in
            let kept : (set_fd (record k { fs = counted_up k f n }) i (some f)).procs parent
                ≡ k.procs parent =
              rw (ne→== parent k.running ne) refl in
            let (fs, k', made, filled) =
              count_from-Filled left (i + 1)
                (set_fd (record k { fs = counted_up k f n }) i (some f))
                (counted_up-IsCounted k f n i c lt (free i (omega arith)) used inode) ne
                (rw kept valid) (rw kept same) (omega (arith, e))
                (λ j le. filled_slot k (counted_up k f n) f i j c lt ∙ elim (ℕ_discrete j i) [
                  | yes q ↦ rw (q, ==_refl i, held) refl
                  | no other ↦ rw (ne→== j i other) (done j (omega arith))
                ])
                (λ j le.
                  filled_slot k (counted_up k f n) f i j c lt
                  ∙ ground (arith, free j (omega arith))) in
            (
              fs,
              k',
              rw (held, files_increment_count-counted_up k f n inode) made,
              record {
                counted = filled.counted;
                now = filled.now;
                runs = filled.runs;
                holds = filled.holds;
                others = λ q other. filled.others q other ∙ rw (ne→== q k.running other) refl;
              },
            )
      ]
