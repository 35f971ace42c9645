-- ===== src/Fs/Inodes/Free.antt =====
-- What `inode_free` of kernel/fs/inodes.c does to the counts.
use vmwos.Prelude.{ℕ, ◌-◌, ◌≡◌, ◌≢◌, arith, ◌==◌, if◌then◌else◌}
use vmwos.Fs.{SbOps, Fs}
use vmwos.Fs.Inodes.{inode_free}

module _ {D : Type 0} (ops : SbOps D) where
  -- What `inode_free` does to the counts, and that it touches no file object.
  pub count-inode_free :
      (s : Fs D) (i j : ℕ)
      → (s.inodes i).count ≢ 0
      → ((inode_free ops s i).1.inodes j).count
        ≡ (if j == i then (s.inodes i).count - 1 else (s.inodes j).count)
  unfolding inode_free
  count-inode_free s i j ne = ground arith

  pub files-inode_free : (s : Fs D) (i : ℕ) → (inode_free ops s i).1.file_objects ≡ s.file_objects
  unfolding inode_free
  files-inode_free s i = ground arith
