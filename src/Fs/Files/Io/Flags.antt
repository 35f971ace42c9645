-- ===== src/Fs/Files/Io/Flags.antt =====
-- `fcntl_syscall` of kernel/fs/files.c: the flags of an open file.
use vmwos.Prelude.{ℕ, ◌<◌, ◌≡◌, ◌≢◌, some, arith, ap, ◌∙◌}
use vmwos.Fs.{max_fd_per_proc}
use vmwos.Fs.Files.{Kernel, fd_slot, file_at}
use vmwos.Fs.Files.Dup.Slot.{map_fd_to_file-accepts}
use vmwos.Fs.Files.Io.{fcntl_mapped, fcntl_syscall}

-- The flags that fcntl_syscall stores by F_SETFL through an open descriptor, it then returns by
-- F_GETFL through any descriptor of the process for the same file object.
pub fcntl_syscall-fcntl_syscall :
    {D : Type 0} (k : Kernel D) (fd fd' f third : ℕ)
    → fd < max_fd_per_proc
    → fd' < max_fd_per_proc
    → fd_slot k fd ≡ some f
    → fd_slot k fd' ≡ some f
    → (k.fs.file_objects f).count ≢ 0
    → ((fcntl_syscall k fd 4 third).0 ≡ 0)
      × ((fcntl_syscall (fcntl_syscall k fd 4 third).1 fd' 3 0).0 ≡ third)
unfolding fcntl_syscall fcntl_mapped
fcntl_syscall-fcntl_syscall {D} k fd fd' f third lt lt' slot slot' ne =
    let read = map_fd_to_file-accepts after fd' f lt' slot' same in
    (
      ap (λ m. (fcntl_mapped k 4 third m).0) (map_fd_to_file-accepts k fd f lt slot ne),
      ap (λ n. (fcntl_syscall n fd' 3 0).0) set_get
          ∙ ap (λ m. (fcntl_mapped after 3 0 m).0) read
          ∙ ground arith,
    )
  where
    after : Kernel D
    after = (fcntl_mapped k 4 third (file_at f)).1

    set_get : (fcntl_syscall k fd 4 third).1 ≡ after
    set_get = ap (λ m. (fcntl_mapped k 4 third m).1) (map_fd_to_file-accepts k fd f lt slot ne)

    same : (after.fs.file_objects f).count ≢ 0
    same = ground (arith, ne)
