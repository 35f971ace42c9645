-- ===== src/Fs.antt =====
-- The virtual file system: the structures of kernel/include/fs/inodes.h and files.h, and the
-- interface by which kernel/fs/inodes.c and files.c call a file system or a driver.
--
-- The two tables `inodes` and `file_objects` are functions of the index, and a pointer into one is
-- the index. A `superblock_type` pointer is a number. A result is a 32-bit word, negative from 2^31
-- on. `debug` is 0 throughout, and prints are left out.
pub mod Inodes
pub mod Files
pub mod Dos33
use vmwos.Prelude.{ℕ, ◌+◌, ◌-◌, ◌%◌, ◌^◌, Bool, Option, List, leb, ◌==◌, if◌then◌else◌}

-- `-e` as a 32-bit word, and its test
abbrev pub err : ℕ → ℕ
err e = 2 ^ 32 - e

abbrev pub is_neg : ℕ → Bool
is_neg r = leb (2 ^ 31) r

abbrev pub enoent : ℕ
enoent = 2

abbrev pub ebadf : ℕ
ebadf = 9

abbrev pub enomem_code : ℕ
enomem_code = 12

abbrev pub eisdir : ℕ
eisdir = 21

abbrev pub enfile : ℕ
enfile = 23

-- NUM_INODES, MAX_OPEN_FILES and MAX_FD_PER_PROC
abbrev pub num_inodes : ℕ
num_inodes = 64

abbrev pub max_open_files : ℕ
max_open_files = 64

abbrev pub max_fd_per_proc : ℕ
max_fd_per_proc = 8

-- `inode_type`
pub record Inode : Type 0 where
  pub device : ℕ
  pub number : ℕ
  pub count : ℕ
  pub mode : ℕ
  pub hard_links : ℕ
  pub uid : ℕ
  pub gid : ℕ
  pub rdev : ℕ
  pub size : ℕ
  pub blocksize : ℕ
  pub blocks : ℕ
  pub atime : ℕ
  pub mtime : ℕ
  pub ctime : ℕ
  pub sb : ℕ

-- `file_object`; `file_ops` is found through the superblock of the inode.
pub record FileObject : Type 0 where
  pub file_offset : ℕ
  pub inode : Option ℕ
  pub count : ℕ
  pub flags : ℕ

-- What the kernel calls through `sb_ops`, and through the table of superblocks. `D` is the state of
-- the disks. An operation may change the inode that it is given.
pub record SbOps (D : Type 0) : Type 0 where
  pub superblock_lookup : List ℕ → D → Option ℕ
  pub root_dir : ℕ → D → ℕ
  pub mountpoint_length : ℕ → D → ℕ
  pub lookup_inode : Inode → List ℕ → D → ℕ × Inode × D
  pub destroy_inode : Inode → D → D
  pub write_inode : Inode → D → D
  pub truncate_inode : Inode → ℕ → D → ℕ × Inode × D
  pub unlink_inode : Inode → D → ℕ × Inode × D
  pub make_inode : Inode → Inode → D → ℕ × Inode × D
  pub link_inode : Inode → List ℕ → D → ℕ × Inode × D

pub record Fs (D : Type 0) : Type 0 where
  pub inodes : ℕ → Inode
  pub file_objects : ℕ → FileObject
  pub disk : D

-- `count++` and a `count--` that is guarded by `count`
abbrev pub up : ℕ → ℕ
up c = (c + 1) % 2 ^ 32

abbrev pub down : ℕ → ℕ
down c = c - 1
