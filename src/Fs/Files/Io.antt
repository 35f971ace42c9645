-- ===== src/Fs/Files/Io.antt =====
-- The system calls of kernel/fs/files.c on an open file: read, write, llseek, ftruncate64, fcntl.
--
-- A buffer that is filled is a part of the result. The result of a driver is a 32-bit word.
pub mod Flags
pub mod Seek
pub mod Tests
pub mod Chdir
use vmwos.Prelude.{
  put, ℕ, ◌+◌, ◌-◌, ◌*◌, ◌%◌, ◌^◌, bit_and, ◌&&◌, Option, some, List, [], ◌∷◌, ◌==◌, if◌then◌else◌,
  ◌>>=◌,
}
use vmwos.Fs.{err, is_neg, ebadf, eisdir, Inode, FileObject, SbOps}
use vmwos.Fs.Inodes.{s_ifmt, s_ifdir, truncate_inode}
use vmwos.Fs.Files.{Kernel, Mapped, file_at, bad_fd, map_fd_to_file, o_rw_mask, o_rdonly, o_wronly}

abbrev pub einval : ℕ
einval = 22

abbrev pub enosys : ℕ
enosys = 38

-- Kinds of files in `mode`
abbrev pub s_ifblk : ℕ
s_ifblk = 0x6000

abbrev pub s_ifchr : ℕ
s_ifchr = 0x2000

abbrev pub s_ifreg : ℕ
s_ifreg = 0x8000

-- What the kernel calls through `file_ops`, `block_ops` and `char_ops`. `D` is the state of the
-- disks and devices. A device is looked up by its number; `none` is a device that does not exist,
-- whose operations are then called through `NULL`.
pub record IoOps (D : Type 0) : Type 0 where
  pub read_block : ℕ → ℕ → ℕ → D → Option (ℕ × List ℕ × D)
  pub write_block : ℕ → ℕ → List ℕ → D → Option (ℕ × D)
  pub read_char : ℕ → FileObject → ℕ → D → Option (ℕ × List ℕ × D)
  pub write_char : ℕ → FileObject → List ℕ → D → Option (ℕ × D)
  pub read_file : Inode → ℕ → ℕ → D → ℕ × List ℕ × ℕ × Inode × D
  pub write_file : Inode → List ℕ → ℕ → D → ℕ × ℕ × Inode × D
  pub llseek_file : Inode → ℕ → ℕ → ℕ → ℕ × ℕ

-- `if (result>=0) file->file_offset+=result`, where `result` is an `int32_t`
abbrev pub advanced : ℕ → ℕ → ℕ
advanced offset result = if is_neg result then offset else (offset + result) % 2 ^ 64

-- `-e` as a 64-bit word, and the 64-bit word of an `int32_t`
abbrev pub err64 : ℕ → ℕ
err64 e = 2 ^ 64 - e

abbrev pub widen : ℕ → ℕ
widen r = if is_neg r then r + (2 ^ 64 - 2 ^ 32) else r

-- The result and the new offset. `SEEK_SET` is 0, `SEEK_CUR` 1 and `SEEK_END` 2.
pub llseek_generic : ℕ → ℕ → ℕ → ℕ × ℕ
llseek_generic file_offset offset whence =
    if whence == 0
    then (offset, offset)
    else if whence == 1
    then (let sum = (file_offset + offset) % 2 ^ 64 in (sum, sum))
    else if whence == 2
    then (err64 enosys, file_offset)
    else (err64 einval, file_offset)

module _ {D : Type 0} where
  -- The state after an operation on the file `f` with the inode `i`.
  abbrev pub stored : Kernel D → ℕ → ℕ → ℕ → Inode → D → Kernel D
  stored k f i offset inode disk = record k {
    fs = record k.fs {
      file_objects =
          put k.fs.file_objects f (record (k.fs.file_objects f) { file_offset = offset });
      inodes = put k.fs.inodes i inode;
      disk = disk;
    };
  }

  abbrev pub set_offset : Kernel D → ℕ → ℕ → Kernel D
  set_offset k f offset = record k {
    fs = record k.fs {
      file_objects =
          put k.fs.file_objects f (record (k.fs.file_objects f) { file_offset = offset });
    };
  }

module _ {D : Type 0} (ops : IoOps D) where
  pub read_inode : Kernel D → ℕ → ℕ → ℕ → Option (ℕ × List ℕ × Kernel D)
  read_inode k f i count =
      let inode : Inode = k.fs.inodes i in
      let file : FileObject = k.fs.file_objects f in
      let mode = bit_and inode.mode s_ifmt in
      if mode == s_ifblk
      then (ops.read_block inode.device (file.file_offset % 2 ^ 32) count k.fs.disk
          >>= λ (result, bytes, disk).
              some (result, bytes, stored k f i (advanced file.file_offset result) inode disk))
      else if mode == s_ifchr
      then (ops.read_char inode.device file count k.fs.disk >>= λ (result, bytes, disk).
          some (result, bytes, stored k f i file.file_offset inode disk))
      else if mode == s_ifreg
      then (let (result, bytes, offset, inode', disk) =
            ops.read_file inode count file.file_offset k.fs.disk in
          some (result, bytes, stored k f i offset inode' disk))
      else if mode == s_ifdir
      then some (err eisdir, [], k)
      else some (err einval, [], k)

  -- `file->inode` is followed without a test.
  pub read_mapped : Kernel D → ℕ → Mapped → Option (ℕ × List ℕ × Kernel D)
  read_mapped k count (bad_fd e) = some (e, [], k)
  read_mapped k count (file_at f) =
      if bit_and (k.fs.file_objects f).flags o_rw_mask == o_wronly
      then some (err ebadf, [], k)
      else ((k.fs.file_objects f).inode >>= λ i. read_inode k f i count)

  pub read_syscall : Kernel D → ℕ → ℕ → Option (ℕ × List ℕ × Kernel D)
  read_syscall k fd count = read_mapped k count (map_fd_to_file k fd)

  pub write_inode : Kernel D → ℕ → ℕ → List ℕ → Option (ℕ × Kernel D)
  write_inode k f i bytes =
      let inode : Inode = k.fs.inodes i in
      let file : FileObject = k.fs.file_objects f in
      let mode = bit_and inode.mode s_ifmt in
      if mode == s_ifblk
      then (ops.write_block inode.device (file.file_offset % 2 ^ 32) bytes k.fs.disk
          >>= λ (result, disk). some (result, stored k f i file.file_offset inode disk))
      else if mode == s_ifchr
      then (ops.write_char inode.device file bytes k.fs.disk >>= λ (result, disk).
          some (result, stored k f i file.file_offset inode disk))
      else if mode == s_ifreg
      then (let (result, offset, inode', disk) =
            ops.write_file inode bytes file.file_offset k.fs.disk in
          some (result, stored k f i offset inode' disk))
      else if mode == s_ifdir
      then some (err eisdir, k)
      else some (err einval, k)

  pub write_mapped : Kernel D → List ℕ → Mapped → Option (ℕ × Kernel D)
  write_mapped k bytes (bad_fd e) = some (e, k)
  write_mapped k bytes (file_at f) =
      if bit_and (k.fs.file_objects f).flags o_rw_mask == o_rdonly
      then some (err ebadf, k)
      else ((k.fs.file_objects f).inode >>= λ i. write_inode k f i bytes)

  pub write_syscall : Kernel D → ℕ → List ℕ → Option (ℕ × Kernel D)
  write_syscall k fd bytes = write_mapped k bytes (map_fd_to_file k fd)

  pub llseek_inode : Kernel D → ℕ → ℕ → ℕ → ℕ → ℕ × Kernel D
  llseek_inode k f i offset whence =
      let mode = bit_and (k.fs.inodes i).mode s_ifmt in
      let file : FileObject = k.fs.file_objects f in
      if mode == s_ifblk
      then (let (result, offset') = llseek_generic file.file_offset offset whence in
          (result, set_offset k f offset'))
      else if mode == s_ifchr
      then (0, k)
      else if mode == s_ifreg
      then (let (result, offset') =
            ops.llseek_file (k.fs.inodes i) file.file_offset offset whence in
          (result, set_offset k f offset'))
      else if mode == s_ifdir
      then (err64 eisdir, k)
      else (err64 einval, k)

  pub llseek_mapped : Kernel D → ℕ → ℕ → Mapped → Option (ℕ × Kernel D)
  llseek_mapped k offset whence (bad_fd e) = some (widen e, k)
  llseek_mapped k offset whence (file_at f) =
      (k.fs.file_objects f).inode >>= λ i. some (llseek_inode k f i offset whence)

  pub llseek_syscall : Kernel D → ℕ → ℕ → ℕ → Option (ℕ × Kernel D)
  llseek_syscall k fd offset whence = llseek_mapped k offset whence (map_fd_to_file k fd)

module _ {D : Type 0} (ops : SbOps D) where
  pub ftruncate64_mapped : Kernel D → ℕ → Mapped → Option (ℕ × Kernel D)
  ftruncate64_mapped k size (bad_fd e) = some (e, k)
  ftruncate64_mapped k size (file_at f) =
      if bit_and (k.fs.file_objects f).flags o_rw_mask == o_rdonly
      then some (err ebadf, k)
      else ((k.fs.file_objects f).inode >>= λ i.
          let (result, fs) = truncate_inode ops k.fs i size in some (result, record k { fs = fs }))

  pub ftruncate64_syscall : Kernel D → ℕ → ℕ → Option (ℕ × Kernel D)
  ftruncate64_syscall k fd size = ftruncate64_mapped k size (map_fd_to_file k fd)

module _ {D : Type 0} where
  -- `F_GETFL` is 3 and `F_SETFL` is 4.
  pub fcntl_mapped : Kernel D → ℕ → ℕ → Mapped → ℕ × Kernel D
  fcntl_mapped k cmd third (bad_fd e) = (e, k)
  fcntl_mapped k cmd third (file_at f) =
      if cmd == 3
      then ((k.fs.file_objects f).flags, k)
      else if cmd == 4
      then (
        0,
        record k {
          fs = record k.fs {
            file_objects = put k.fs.file_objects f (record (k.fs.file_objects f) { flags = third });
          };
        },
      )
      else (err enosys, k)

  pub fcntl_syscall : Kernel D → ℕ → ℕ → ℕ → ℕ × Kernel D
  fcntl_syscall k fd cmd third = fcntl_mapped k cmd third (map_fd_to_file k fd)
