-- ===== src/Fs/Files/Dup/Counts.antt =====
-- `files_increment_count` of kernel/fs/files.c: one more user of a file object and its inode.
use vmwos.Prelude.{put, ℕ, ◌+◌, ◌≤◌, ◌<◌, ◌≡◌, refl, ◌≢◌, none, some, arith, ne→==, ◌∙◌}
use vmwos.Process.{max_procs}
use vmwos.Fs.{FileObject, Fs, up, max_open_files, max_fd_per_proc}
use vmwos.Fs.Files.{Kernel, fd_slot, set_fd, files_increment_count}
use vmwos.Prelude.{sum_below_change, sum_below-le}
use vmwos.Fs.Files.References.{
  occurs-le, proc_refs, refs, file_users, users, IsCounted, refs-set_fd, length-set_fd,
}
use vmwos.Fs.Files.Close.{inode_in_use}

-- The counts are small: sixteen processes have eight descriptors each.
refs-le : {D : Type 0} (k : Kernel D) (f : ℕ) → IsCounted k → refs k.procs f ≤ 128
refs-le k f c =
    sum_below-le max_procs 8 (proc_refs k.procs f)
      λ q. ground (arith, occurs-le f (k.procs q).files, c.tables q)

users-le : {D : Type 0} (k : Kernel D) (i : ℕ) → IsCounted k → users k.fs.file_objects i ≤ 8192
users-le k i c =
    sum_below-le max_open_files 128 (file_users k.fs.file_objects i)
      λ f. ground (arith, c.files f, refs-le k f c)

abbrev pub more : (ℕ → FileObject) → ℕ → ℕ → FileObject
more files f = put files f (record (files f) { count = up (files f).count })

users-more :
    {D : Type 0} (k : Kernel D) (f j : ℕ)
    → f < max_open_files
    → users (more k.fs.file_objects f) j + file_users k.fs.file_objects j f
      ≡ users k.fs.file_objects j + file_users (more k.fs.file_objects f) j f
users-more k f j below =
    sum_below_change max_open_files f (file_users k.fs.file_objects j)
      (file_users (more k.fs.file_objects f) j) below (λ g lt ne. rw (ne→== g f ne) refl)

module _ {D : Type 0} (k : Kernel D) where
  abbrev pub counted_up : ℕ → ℕ → Fs D
  counted_up f i = record k.fs {
    file_objects = more k.fs.file_objects f;
    inodes = put k.fs.inodes i (record (k.fs.inodes i) { count = up (k.fs.inodes i).count });
  }

  pub counted_up-IsCounted :
      (f i newfd : ℕ)
      → IsCounted k
      → newfd < max_fd_per_proc
      → fd_slot k newfd ≡ none
      → (k.fs.file_objects f).count ≢ 0
      → (k.fs.file_objects f).inode ≡ some i
      → IsCounted (set_fd (record k { fs = counted_up f i }) newfd (some f))
  counted_up-IsCounted f i newfd c lt slot ne e =
      let (below, le) = inode_in_use k f i c ne e in
      record {
        runs = c.runs;
        valid = ground (arith, c.valid);
        tables = λ q. length-set_fd k (counted_up f i) newfd (some f) q ∙ c.tables q;
        files = λ g. ground (
          arith,
          c.files g,
          c.files f,
          slot,
          refs-le k f c,
          refs-set_fd k (counted_up f i) newfd (some f) g lt c,
        );
        in_table = λ g out. ground (arith, c.in_table g out);
        opened = λ g h. let (j, e') = c.opened g (ground (arith, e)) in (j, ground arith);
        inodes = λ j. ground (
          arith,
          e,
          c.inodes j,
          users-le k j c,
          c.files f,
          refs-le k f c,
          users-more k f j below,
        );
      }

  pub files_increment_count-counted_up :
      (f i : ℕ)
      → (k.fs.file_objects f).inode ≡ some i
      → files_increment_count k.fs f ≡ some (counted_up f i)
  unfolding files_increment_count
  files_increment_count-counted_up f i e = rw e refl
