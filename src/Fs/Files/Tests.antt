-- ===== src/Fs/Files/Tests.antt =====
-- Runs of kernel/fs/files.c where one process has one open file.
use vmwos.Prelude.{
  ℕ, zero, suc, ◌≤◌, ◌<◌, ◌≡◌, refl, ◌≢◌, Option, none, some, List, [], ◌∷◌, arith, length,
  replicate,
}
use vmwos.Process.{Pcb, max_procs}
use vmwos.Fs.{err, ebadf, Inode, FileObject, SbOps}
use vmwos.Fs.Files.{Kernel, fd_slot, close_syscall, dup2_syscall, dup_onto}
use vmwos.Prelude.{sum_below}
use vmwos.Fs.Files.References.{occurs, proc_refs, refs, users, IsCounted}
use vmwos.Fs.Files.Close.{close_syscall_in_use}
use vmwos.Fs.Files.Dup.{dup_onto-IsCounted, dup2_syscall-IsCounted, dup2_syscall_self}

-- A file system without files, whose disk has no state.
abbrev pub ops : SbOps (Unit {0})
ops = record {
  superblock_lookup = λ path d. some 0;
  root_dir = λ sb d. 0;
  mountpoint_length = λ sb d. 1;
  lookup_inode = λ i name d. (err 2, i, d);
  destroy_inode = λ i d. d;
  write_inode = λ i d. d;
  truncate_inode = λ i size d. (0, record i { size = size }, d);
  unlink_inode = λ i d. (0, i, d);
  make_inode = λ dir i d. (err 1, i, d);
  link_inode = λ i name d. (err 1, i, d);
}

abbrev pub pcb : ℕ → List (Option ℕ) → Pcb
pcb valid files = record {
  user_state = record { r = []; pc = 0x8000; spsr = 0x10 };
  next = none;
  prev = none;
  wait_queue_next = none;
  valid = valid;
  running = 0;
  status = 1;
  start_time = 0;
  user_time = 0;
  kernel_time = 0;
  last_scheduled = 0;
  pid = 1;
  exit_value = 0;
  parent = none;
  stack = 0;
  stacksize = 0;
  text = 0;
  textsize = 0;
  files = files;
  current_dir = b'/' ∷ [];
}

abbrev pub no_files : List (Option ℕ)
no_files = replicate 7 none

abbrev table : ℕ → Pcb
table zero = pcb 1 (some 0 ∷ no_files)
table (suc _) = pcb 0 (none ∷ no_files)

abbrev inode : ℕ → Inode
inode count = record {
  device = 0;
  number = 3;
  count = count;
  mode = 0;
  hard_links = 1;
  uid = 0;
  gid = 0;
  rdev = 0;
  size = 10;
  blocksize = 512;
  blocks = 1;
  atime = 0;
  mtime = 0;
  ctime = 0;
  sb = 0;
}

abbrev pub inode_table : ℕ → Inode
inode_table zero = inode 1
inode_table (suc _) = inode 0

abbrev pub file_table : ℕ → FileObject
file_table zero = record { file_offset = 0; inode = some 0; count = 1; flags = 0 }
file_table (suc _) = record { file_offset = 0; inode = none; count = 0; flags = 0 }

abbrev pub kernel : Kernel (Unit {0})
kernel = record {
  procs = table;
  running = 0;
  fs = record { inodes = inode_table; file_objects = file_table; disk = tt };
}

pub kernel-IsCounted : IsCounted kernel
unfolding sum_below occurs
kernel-IsCounted = record {
  runs = omega arith;
  valid = omega arith;
  tables = λ (q : ℕ). tables q;
  files = λ f. files f;
  in_table = λ f. in_table f;
  opened = λ f. opened f;
  inodes = λ i. inodes i;
}
  where
    tables : (q : ℕ) → length (table q).files ≡ 8
    tables zero = refl
    tables (suc _) = refl

    files : (f : ℕ) → (file_table f).count ≡ refs table f
    files zero = refl
    files (suc f) = ground arith

    in_table : (f : ℕ) → 64 ≤ f → (file_table f).count ≡ 0
    in_table zero h = absurd (omega arith)
    in_table (suc f) h = refl

    opened : (f : ℕ) → (file_table f).count ≢ 0 → (i : ℕ) × ((file_table f).inode ≡ some i)
    opened zero h = (0, refl)
    opened (suc f) h = absurd (h refl)

    inodes : (i : ℕ) → (inode_table i).count ≡ users file_table i
    inodes zero = refl
    inodes (suc i) = ground arith

close_syscall_in_use_example :
    let k' = (close_syscall ops kernel 0).1 in
    IsCounted k'
    × ((q f : ℕ)
        → q < max_procs
        → proc_refs k'.procs f q ≢ 0
        → (i : ℕ) × ((k'.fs.file_objects f).inode ≡ some i)
          × ((k'.fs.file_objects f).count ≢ 0)
          × ((k'.fs.inodes i).count ≢ 0))
close_syscall_in_use_example = close_syscall_in_use ops kernel 0 kernel-IsCounted

dup_onto-IsCounted_test :
    (r : ℕ) × (k' : Kernel (Unit {0})) × (dup_onto kernel 0 1 ≡ some (r, k')) × IsCounted k'
dup_onto-IsCounted_test = dup_onto-IsCounted kernel 0 1 kernel-IsCounted (omega arith) refl

dup2_syscall-IsCounted_example :
    (k' : Kernel (Unit {0})) × (dup2_syscall ops kernel 0 5 ≡ some (0, k'))
    × (fd_slot k' 5 ≡ some 0)
    × (fd_slot k' 0 ≡ some 0)
    × IsCounted k'
dup2_syscall-IsCounted_example =
    dup2_syscall-IsCounted ops kernel 0 5 0 kernel-IsCounted (omega arith) (omega arith)
      (omega arith) refl

dup2_syscall_self_test :
    (k' : Kernel (Unit {0})) × (dup2_syscall ops kernel 0 0 ≡ some (err ebadf, k'))
    × (fd_slot k' 0 ≡ some 0)
    × ((k'.fs.file_objects 0).count ≡ 0)
dup2_syscall_self_test = dup2_syscall_self ops kernel 0 0 refl (omega arith) refl refl
