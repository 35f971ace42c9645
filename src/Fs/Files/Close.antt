-- ===== src/Fs/Files/Close.antt =====
-- `inode_free`, `file_object_free` and `close_syscall` keep the reference counts.
use vmwos.Prelude.{
  put, ℕ, ◌+◌, ◌-◌, ◌≤◌, ◌<◌, ◌≡◌, refl, ◌≢◌, none, some, arith, ◌==◌, if◌then◌else◌, le→leb,
  lt→leb, Option-cases, inl, inr, ne→==, ap, sym, subst, ◌∙◌,
}
use native.Mathlib.Decide.{ℕ_discrete, dec_lt}
use vmwos.Process.{max_procs}
use vmwos.Fs.{err, ebadf, enfile, FileObject, SbOps, Fs, max_open_files, max_fd_per_proc}
use vmwos.Fs.Inodes.Free.{count-inode_free}
use vmwos.Fs.Files.{
  Kernel, fd_slot, set_fd, file_object_free, Mapped, file_at, bad_fd, map_fd_to_file, close_syscall,
}
use vmwos.Prelude.{sum_below_change, summand-le}
use vmwos.Fs.Files.References.{proc_refs, file_users, users, IsCounted, refs-set_fd, length-set_fd}

-- The file objects after `file_object_free`.
abbrev pub less : (ℕ → FileObject) → ℕ → ℕ → FileObject
less files f = put files f (record (files f) { count = (files f).count - 1 })

module _ {D : Type 0} (ops : SbOps D) where
  pub files-file_object_free :
      (s : Fs D) (f : ℕ)
      → (s.file_objects f).count ≢ 0
      → (file_object_free ops s f).1.file_objects ≡ less s.file_objects f
  unfolding file_object_free
  files-file_object_free s f ne = rw (ne→== (s.file_objects f).count 0 ne) refl

  pub inodes-file_object_free :
      (s : Fs D) (f i j : ℕ)
      → (s.file_objects f).inode ≡ some i
      → (s.inodes i).count ≢ 0
      → ((file_object_free ops s f).1.inodes j).count
        ≡ (if j == i then (s.inodes i).count - 1 else (s.inodes j).count)
  unfolding file_object_free
  inodes-file_object_free s f i j e ne = rw e (count-inode_free ops s i j ne)

-- What `map_fd_to_file` accepts.
pub data Maps {D : Type 0} (k : Kernel D) (fd : ℕ) : Mapped → Type 0 where
  rejects : (e : ℕ) → Maps k fd (bad_fd e)
  accepts :
      (f : ℕ)
      → fd < max_fd_per_proc
      → fd_slot k fd ≡ some f
      → (k.fs.file_objects f).count ≢ 0
      → Maps k fd (file_at f)

module _ {D : Type 0} (k : Kernel D) where
  pub map_fd_to_file-Maps : (fd : ℕ) → Maps k fd (map_fd_to_file k fd)
  unfolding map_fd_to_file
  map_fd_to_file-Maps fd = elim (dec_lt fd max_fd_per_proc) [
    | no out ↦ rw (le→leb max_fd_per_proc fd (omega arith)) (rejects (err enfile))
    | yes lt ↦ elim (Option-cases (fd_slot k fd)) [
      | inl e ↦ rw (lt→leb max_fd_per_proc fd lt, e) (rejects (err enfile))
      | inr (f, e) ↦ elim (ℕ_discrete (k.fs.file_objects f).count 0) [
        | yes z ↦ rw (lt→leb max_fd_per_proc fd lt, e, z) (rejects (err ebadf))
        | no ne ↦
            rw (lt→leb max_fd_per_proc fd lt, e, ne→== (k.fs.file_objects f).count 0 ne)
              (accepts f lt e ne)
      ]
    ]
  ]

-- A file object of an open file has an inode, which counts its users.
pub inode_in_use :
    {D : Type 0} (k : Kernel D) (f i : ℕ)
    → IsCounted k
    → (k.fs.file_objects f).count ≢ 0
    → (k.fs.file_objects f).inode ≡ some i
    → (f < max_open_files) × ((k.fs.file_objects f).count ≤ (k.fs.inodes i).count)
inode_in_use k f i c ne e = (below, ground (arith, c.inodes i, part, e))
  where
    below : f < max_open_files
    below = elim (dec_lt f max_open_files) [
      | yes lt ↦ lt
      | no out ↦ absurd (ne (c.in_table f (omega arith)))
    ]

    part : file_users k.fs.file_objects i f ≤ users k.fs.file_objects i
    part = summand-le max_open_files f (file_users k.fs.file_objects i) below

opened_less :
    {D : Type 0} (k : Kernel D) (f g : ℕ)
    → IsCounted k
    → (less k.fs.file_objects f g).count ≢ 0
    → (j : ℕ) × ((less k.fs.file_objects f g).inode ≡ some j)
opened_less k f g c h = let (j, e) = c.opened g (ground arith) in (j, ground arith)

users-less :
    {D : Type 0} (k : Kernel D) (f j : ℕ)
    → f < max_open_files
    → users (less k.fs.file_objects f) j + file_users k.fs.file_objects j f
      ≡ users k.fs.file_objects j + file_users (less k.fs.file_objects f) j f
users-less k f j below =
    sum_below_change max_open_files f (file_users k.fs.file_objects j)
      (file_users (less k.fs.file_objects f) j) below (λ g lt ne. rw (ne→== g f ne) refl)

module _ {D : Type 0} (ops : SbOps D) (k : Kernel D) where
  -- Closing a descriptor that is open.
  abbrev pub closed : (f fd : ℕ) → Kernel D
  closed f fd = set_fd (record k { fs = (file_object_free ops k.fs f).1 }) fd none

  pub closed-IsCounted :
      (f fd : ℕ)
      → IsCounted k
      → fd < max_fd_per_proc
      → fd_slot k fd ≡ some f
      → (k.fs.file_objects f).count ≢ 0
      → IsCounted (closed f fd)
  closed-IsCounted f fd c lt slot ne =
      let (i, e) = c.opened f ne in
      let (below, le) = inode_in_use k f i c ne e in
      let same = files-file_object_free ops k.fs f ne in
      record {
        runs = c.runs;
        valid = ground (arith, c.valid);
        tables = λ q. length-set_fd k (file_object_free ops k.fs f).1 fd none q ∙ c.tables q;
        files = λ g.
            ap (λ (t : ℕ → FileObject). (t g).count) same
            ∙ ground (
              arith,
              c.files g,
              c.files f,
              slot,
              refs-set_fd k (file_object_free ops k.fs f).1 fd none g lt c,
            );
        in_table = λ g out.
            ap (λ (t : ℕ → FileObject). (t g).count) same ∙ ground (arith, c.in_table g out);
        opened = λ g.
            subst (λ (t : ℕ → FileObject). (t g).count ≢ 0 → (j : ℕ) × ((t g).inode ≡ some j))
              (sym same) (λ h. opened_less k f g c h);
        inodes = λ j.
            inodes-file_object_free ops k.fs f i j e (λ z. ne (omega (arith, z)))
            ∙ ground (arith, e, c.inodes j, users-less k f j below)
            ∙ ap (λ (t : ℕ → FileObject). users t j) (sym same);
      }

-- The counts stay right when a descriptor is closed, whether it was open or not.
pub close_syscall-IsCounted :
    {D : Type 0} (ops : SbOps D) (k : Kernel D) (fd : ℕ)
    → IsCounted k
    → IsCounted (close_syscall ops k fd).1
unfolding close_syscall
close_syscall-IsCounted ops k fd c = after (map_fd_to_file k fd) refl (map_fd_to_file-Maps k fd)
  where
    after :
        (m : Mapped) → map_fd_to_file k fd ≡ m → Maps k fd m → IsCounted (close_syscall ops k fd).1
    after (bad_fd e) eq (rejects e') = rw (eq, close_syscall) c
    after (file_at f) eq (accepts f' lt slot ne) =
        rw (eq, close_syscall) (closed-IsCounted ops k f fd c lt slot ne)

-- Where the counts are right, a descriptor that a process holds points to a file object that is in
-- use, and that to an inode that is in use.
pub held_in_use :
    {D : Type 0} (k : Kernel D) (q f : ℕ)
    → IsCounted k
    → q < max_procs
    → proc_refs k.procs f q ≢ 0
    → (i : ℕ) × ((k.fs.file_objects f).inode ≡ some i)
      × ((k.fs.file_objects f).count ≢ 0)
      × ((k.fs.inodes i).count ≢ 0)
held_in_use k q f c lt held =
    let (i, e) = c.opened f used in
    (i, e, used, λ z. used (omega (arith, (inode_in_use k f i c used e).1)))
  where
    used : (k.fs.file_objects f).count ≢ 0
    used = λ z. held (omega (arith, c.files f, summand-le max_procs q (proc_refs k.procs f) lt))

-- Where the reference counts are right, close_syscall on any descriptor keeps them right, and
-- afterwards every descriptor that a valid process holds points to a file object in use whose
-- inode is in use.
pub close_syscall_in_use :
    {D : Type 0} (ops : SbOps D) (k : Kernel D) (fd : ℕ)
    → IsCounted k
    → let k' = (close_syscall ops k fd).1 in
      IsCounted k'
      × ((q f : ℕ)
          → q < max_procs
          → proc_refs k'.procs f q ≢ 0
          → (i : ℕ) × ((k'.fs.file_objects f).inode ≡ some i)
            × ((k'.fs.file_objects f).count ≢ 0)
            × ((k'.fs.inodes i).count ≢ 0))
close_syscall_in_use ops k fd c =
    let c' = close_syscall-IsCounted ops k fd c in
    (c', λ q f. held_in_use (close_syscall ops k fd).1 q f c')
