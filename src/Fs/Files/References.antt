-- ===== src/Fs/Files/References.antt =====
-- Reference counts of kernel/fs/files.c: a file object counts the descriptors that point to it, in
-- all processes, and an inode counts the users of its file objects.
use vmwos.Prelude.{
  one_if, sum_below, sum_below_change, ℕ, zero, suc, ◌+◌, ◌≤◌, ◌<◌, ◌≡◌, refl, ◌≢◌, Bool, false,
  Option, none, some, List, [], ◌∷◌, arith, ◌==◌, if◌then◌else◌, length, get_or, set, length-set,
  ne→==,
}
use vmwos.Process.{Pcb, max_procs}
use vmwos.Fs.{FileObject, Fs, max_open_files, max_fd_per_proc}
use vmwos.Fs.Files.{Kernel, fd_slot, set_fd}

abbrev pub points : Option ℕ → ℕ → Bool
points none f = false
points (some g) f = g == f

-- How often a table of descriptors points to the file object `f`.
unfoldable pub occurs : ℕ → List (Option ℕ) → ℕ
occurs f [] = 0
occurs f (x ∷ xs) = one_if (points x f) + occurs f xs

pub occurs-set :
    (f fd : ℕ) (v : Option ℕ) (xs : List (Option ℕ))
    → fd < length xs
    → occurs f (set xs fd v) + one_if (points (get_or xs fd none) f)
      ≡ occurs f xs + one_if (points v f)
unfolding occurs
occurs-set f fd v [] h = absurd (omega arith)
occurs-set f zero v (x ∷ xs) h = omega arith
occurs-set f (suc fd) v (x ∷ xs) h = omega (arith, occurs-set f fd v xs (omega arith))

pub occurs_pos :
    (f fd : ℕ) (xs : List (Option ℕ))
    → fd < length xs
    → get_or xs fd none ≡ some f
    → occurs f xs ≢ 0
unfolding occurs
occurs_pos f fd [] lt e = absurd (omega arith)
occurs_pos f zero (x ∷ xs) lt e = ground (arith, e)
occurs_pos f (suc fd) (x ∷ xs) lt e = λ z. occurs_pos f fd xs (omega arith) e (omega (arith, z))

pub occurs-le : (f : ℕ) (xs : List (Option ℕ)) → occurs f xs ≤ length xs
unfolding occurs
occurs-le f [] = omega arith
occurs-le f (x ∷ xs) = ground (arith, occurs-le f xs)

-- The descriptors of a slot of the process table; a slot that is not valid has none.
abbrev pub proc_refs : (ℕ → Pcb) → ℕ → ℕ → ℕ
proc_refs procs f q = if (procs q).valid == 0 then 0 else occurs f (procs q).files

-- The descriptors that point to `f`.
abbrev pub refs : (ℕ → Pcb) → ℕ → ℕ
refs procs f = sum_below max_procs (proc_refs procs f)

abbrev pub file_users : (ℕ → FileObject) → ℕ → ℕ → ℕ
file_users files i f = if points (files f).inode i then (files f).count else 0

-- The users of the file objects of the inode `i`.
abbrev pub users : (ℕ → FileObject) → ℕ → ℕ
users files i = sum_below max_open_files (file_users files i)

-- The counts are right.
pub record IsCounted {D : Type 0} (k : Kernel D) : Type 0 where
  pub runs : k.running < max_procs
  pub valid : (k.procs k.running).valid ≢ 0
  pub tables : (q : ℕ) → length (k.procs q).files ≡ max_fd_per_proc
  pub files : (f : ℕ) → (k.fs.file_objects f).count ≡ refs k.procs f
  pub in_table : (f : ℕ) → max_open_files ≤ f → (k.fs.file_objects f).count ≡ 0
  pub opened :
      (f : ℕ) → (k.fs.file_objects f).count ≢ 0 → (i : ℕ) × ((k.fs.file_objects f).inode ≡ some i)
  pub inodes : (i : ℕ) → (k.fs.inodes i).count ≡ users k.fs.file_objects i

module _ {D : Type 0} (k : Kernel D) (fs : Fs D) (fd : ℕ) (v : Option ℕ) where
  -- What storing `v` in a descriptor of the running process does to the references.
  pub refs-set_fd :
      (f : ℕ)
      → fd < max_fd_per_proc
      → IsCounted k
      → refs (set_fd (record k { fs = fs }) fd v).procs f + one_if (points (fd_slot k fd) f)
        ≡ refs k.procs f + one_if (points v f)
  refs-set_fd f h c = ground (
    arith,
    c.valid,
    c.tables k.running,
    occurs-set f fd v (k.procs k.running).files,
    sum_below_change max_procs k.running (proc_refs k.procs f)
        (proc_refs (set_fd (record k { fs = fs }) fd v).procs f) c.runs
        (λ j lt ne. rw (ne→== j k.running ne) refl),
  )

  pub length-set_fd :
      (q : ℕ)
      → length ((set_fd (record k { fs = fs }) fd v).procs q).files ≡ length (k.procs q).files
  length-set_fd q = ground (arith, length-set (k.procs k.running).files fd v)
