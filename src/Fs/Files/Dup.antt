-- ===== src/Fs/Files/Dup.antt =====
-- `dup2_syscall` of kernel/fs/files.c: the reference counts, and the calls that break them.
pub mod Slot
pub mod Counts
use vmwos.Prelude.{
  ℕ, ◌+◌, ◌≤◌, ◌<◌, ◌≡◌, refl, ◌≢◌, none, some, ◌∷◌, arith, length, Option-cases, inl, inr, ap, sym,
  subst, ◌∙◌, get_elem?-eq-get_or,
}
use vmwos.Fs.{err, ebadf, FileObject, SbOps, max_fd_per_proc}
use vmwos.Fs.Files.{
  Kernel, fd_slot, set_fd, files_increment_count, file_object_free, Mapped, file_at, bad_fd,
  map_fd_to_file, dup_onto, dup_over, dup2_syscall,
}
use vmwos.Fs.Files.References.{occurs_pos, IsCounted}
use vmwos.Fs.Files.Close.{
  Maps, rejects, accepts, map_fd_to_file-Maps, files-file_object_free, closed, closed-IsCounted,
  held_in_use,
}
use Slot.{
  map_fd_to_file-accepts, map_fd_to_file-closed, set_fd-set_fd, fd_slot-set_fd_self,
  fd_slot-set_fd_ne,
}
use Counts.{counted_up, counted_up-IsCounted}

module _ {D : Type 0} (k : Kernel D) where
  -- Where the reference counts are right, duplicating any descriptor onto a free one in range
  -- never follows a NULL pointer: it returns a result, and the reference counts stay right.
  pub dup_onto-IsCounted :
      (oldfd newfd : ℕ)
      → IsCounted k
      → newfd < max_fd_per_proc
      → fd_slot k newfd ≡ none
      → (r : ℕ) × (k' : Kernel D) × (dup_onto k oldfd newfd ≡ some (r, k')) × IsCounted k'
  unfolding dup_onto files_increment_count
  dup_onto-IsCounted oldfd newfd c lt slot =
      after (map_fd_to_file k oldfd) refl (map_fd_to_file-Maps k oldfd)
    where
      after :
          (m : Mapped)
          → map_fd_to_file k oldfd ≡ m
          → Maps k oldfd m
          → (r : ℕ) × (k' : Kernel D) × (dup_onto k oldfd newfd ≡ some (r, k')) × IsCounted k'
      after (bad_fd e) eq (rejects e') = (e, k, rw (eq, dup_onto), c)
      after (file_at f) eq (accepts f' lt' slot' ne) =
          let (i, e) = c.opened f ne in
          (
            0,
            set_fd (record k { fs = counted_up k f i }) newfd (some f),
            rw (eq, dup_onto) (rw (e, files_increment_count)),
            counted_up-IsCounted k f i newfd c lt slot ne e,
          )

-- An open descriptor of the running process keeps its file in use.
open_in_use :
    {D : Type 0} (k : Kernel D) (fd f : ℕ)
    → IsCounted k
    → fd < max_fd_per_proc
    → fd_slot k fd ≡ some f
    → (i : ℕ) × ((k.fs.file_objects f).inode ≡ some i)
      × ((k.fs.file_objects f).count ≢ 0)
      × ((k.fs.inodes i).count ≢ 0)
open_in_use k fd f c lt slot = held_in_use k k.running f c c.runs (
    ground (
      arith,
      c.valid,
      occurs_pos f fd (k.procs k.running).files (omega (arith, c.tables k.running)) slot,
    ))

dup_onto-rejects :
    {D : Type 0} (k : Kernel D) (oldfd newfd f : ℕ)
    → oldfd < max_fd_per_proc
    → fd_slot k oldfd ≡ some f
    → (k.fs.file_objects f).count ≡ 0
    → dup_onto k oldfd newfd ≡ some (err ebadf, k)
unfolding dup_onto
dup_onto-rejects k oldfd newfd f lt slot z =
    rw (map_fd_to_file-closed k oldfd f lt slot z, dup_onto) refl

-- What `dup_onto` does for an open `oldfd`.
dup_onto-accepts :
    {D : Type 0} (k : Kernel D) (oldfd newfd f i : ℕ)
    → oldfd < max_fd_per_proc
    → fd_slot k oldfd ≡ some f
    → (k.fs.file_objects f).count ≢ 0
    → (k.fs.file_objects f).inode ≡ some i
    → dup_onto k oldfd newfd ≡ some (0, set_fd (record k { fs = counted_up k f i }) newfd (some f))
unfolding dup_onto files_increment_count
dup_onto-accepts k oldfd newfd f i lt slot ne e =
    rw (map_fd_to_file-accepts k oldfd f lt slot ne, dup_onto) (rw (e, files_increment_count) refl)

module _ {D : Type 0} (ops : SbOps D) (k : Kernel D) where
  -- What `dup2_syscall` does for an open `newfd`.
  dup2_syscall-open :
      (oldfd newfd g : ℕ)
      → newfd < length (k.procs k.running).files
      → newfd < max_fd_per_proc
      → fd_slot k newfd ≡ some g
      → (k.fs.file_objects g).count ≢ 0
      → dup2_syscall ops k oldfd newfd
        ≡ dup_onto (record k { fs = (file_object_free ops k.fs g).1 }) oldfd newfd
  unfolding dup2_syscall
  dup2_syscall-open oldfd newfd g size lt taken ne =
      rw (get_elem?-eq-get_or (k.procs k.running).files newfd none size, taken) refl
      ∙ ap (dup_over ops k oldfd newfd) (map_fd_to_file-accepts k newfd g lt taken ne)

  -- What a `dup2_syscall` that returns 0 promises.
  abbrev pub Duplicated : ℕ → ℕ → ℕ → Type 0
  Duplicated oldfd newfd f =
      (k' : Kernel D) × (dup2_syscall ops k oldfd newfd ≡ some (0, k'))
      × (fd_slot k' newfd ≡ some f)
      × (fd_slot k' oldfd ≡ some f)
      × IsCounted k'

  dup2_syscall_free :
      (oldfd newfd f : ℕ)
      → IsCounted k
      → oldfd < max_fd_per_proc
      → newfd < max_fd_per_proc
      → oldfd ≢ newfd
      → fd_slot k oldfd ≡ some f
      → fd_slot k newfd ≡ none
      → Duplicated oldfd newfd f
  unfolding dup2_syscall
  dup2_syscall_free oldfd newfd f c lt lt' ne slot free =
      let (i, e, used, _) = open_in_use k oldfd f c lt slot in
      let files = (k.procs k.running).files in
      let size : newfd < length files = omega (arith, c.tables k.running) in
      (
        set_fd (record k { fs = counted_up k f i }) newfd (some f),
        rw (get_elem?-eq-get_or files newfd none size, free)
            (dup_onto-accepts k oldfd newfd f i lt slot used e),
        fd_slot-set_fd_self k (counted_up k f i) newfd (some f) size,
        fd_slot-set_fd_ne k (counted_up k f i) newfd oldfd (some f) (λ q. ne (sym q)) ∙ slot,
        counted_up-IsCounted k f i newfd c lt' free used e,
      )

  dup2_syscall_open :
      (oldfd newfd f g : ℕ)
      → IsCounted k
      → oldfd < max_fd_per_proc
      → newfd < max_fd_per_proc
      → oldfd ≢ newfd
      → fd_slot k oldfd ≡ some f
      → fd_slot k newfd ≡ some g
      → Duplicated oldfd newfd f
  dup2_syscall_open oldfd newfd f g c lt lt' ne slot taken =
      let (_, _, used', _) = open_in_use k newfd g c lt' taken in
      let files = (k.procs k.running).files in
      let size : newfd < length files = omega (arith, c.tables k.running) in
      let k1 = record k { fs = (file_object_free ops k.fs g).1 } in
      let c1 = closed-IsCounted ops k g newfd c lt' taken used' in
      let (i, e, used, _) = open_in_use (closed ops k g newfd) oldfd f c1 lt (
        fd_slot-set_fd_ne k (file_object_free ops k.fs g).1 newfd oldfd none (λ q. ne (sym q))
        ∙ slot) in
      (
        set_fd (record k1 { fs = counted_up k1 f i }) newfd (some f),
        dup2_syscall-open oldfd newfd g size lt' taken used'
            ∙ dup_onto-accepts k1 oldfd newfd f i lt slot used e,
        fd_slot-set_fd_self k (counted_up k1 f i) newfd (some f) size,
        fd_slot-set_fd_ne k (counted_up k1 f i) newfd oldfd (some f) (λ q. ne (sym q)) ∙ slot,
        subst IsCounted
            (set_fd-set_fd k (file_object_free ops k.fs g).1 (counted_up k1 f i) newfd none
              (some f))
            (counted_up-IsCounted (closed ops k g newfd) f i newfd c1 lt'
              (fd_slot-set_fd_self k (file_object_free ops k.fs g).1 newfd none size) used e),
      )

  -- Where the reference counts are right, dup2_syscall with an open oldfd and another newfd in
  -- range, free or open, returns 0, makes newfd point to the file of oldfd, leaves oldfd, and
  -- keeps the reference counts right.
  pub dup2_syscall-IsCounted :
      (oldfd newfd f : ℕ)
      → IsCounted k
      → oldfd < max_fd_per_proc
      → newfd < max_fd_per_proc
      → oldfd ≢ newfd
      → fd_slot k oldfd ≡ some f
      → (k' : Kernel D) × (dup2_syscall ops k oldfd newfd ≡ some (0, k'))
        × (fd_slot k' newfd ≡ some f)
        × (fd_slot k' oldfd ≡ some f)
        × IsCounted k'
  dup2_syscall-IsCounted oldfd newfd f c lt lt' ne slot = elim (Option-cases (fd_slot k newfd)) [
    | inl free ↦ dup2_syscall_free oldfd newfd f c lt lt' ne slot free
    | inr (g, taken) ↦ dup2_syscall_open oldfd newfd f g c lt lt' ne slot taken
  ]

  -- dup2_syscall of a descriptor onto itself, where no other descriptor points to its file,
  -- closes the file, fails with -EBADF, and leaves the descriptor pointing to the freed file
  -- object.
  pub dup2_syscall_self :
      (fd f : ℕ)
      → length (k.procs k.running).files ≡ max_fd_per_proc
      → fd < max_fd_per_proc
      → fd_slot k fd ≡ some f
      → (k.fs.file_objects f).count ≡ 1
      → (k' : Kernel D) × (dup2_syscall ops k fd fd ≡ some (err ebadf, k'))
        × (fd_slot k' fd ≡ some f)
        × ((k'.fs.file_objects f).count ≡ 0)
  dup2_syscall_self fd f size lt slot one =
      let gone : ((file_object_free ops k.fs f).1.file_objects f).count ≡ 0 =
        ap (λ (t : ℕ → FileObject). (t f).count)
          (files-file_object_free ops k.fs f (λ z. omega (arith, one, z)))
        ∙ ground (arith, one) in
      (
        record k { fs = (file_object_free ops k.fs f).1 },
        dup2_syscall-open fd fd f (omega (arith, size)) lt slot (λ z. omega (arith, one, z))
            ∙ dup_onto-rejects (record k { fs = (file_object_free ops k.fs f).1 }) fd fd f lt slot
                gone,
        slot,
        gone,
      )
