-- ===== src/Fs/Files.antt =====
-- Open files and file descriptors of kernel/fs/files.c.
--
-- A system call works on the process that runs, `current_proc[get_cpu()]`; processes run on the
-- first core only, so that this is `current_proc[0]`.
pub mod References
pub mod Close
pub mod Dup
pub mod Io
pub mod Tests
use vmwos.Prelude.{
  put, ℕ, zero, suc, ◌+◌, ◌-◌, ◌*◌, ◌%◌, ◌^◌, bit_and, Bool, true, false, not, ◌&&◌, Option, none,
  some, List, ◌∷◌, ◌++◌, leb, ◌==◌, if◌then◌else◌, ◌>>=◌, get_or, get_elem?, set, take, drop,
  length,
}
use vmwos.Process.{Pcb, modify}
use vmwos.Prelude.{first_index}
use vmwos.Fs.{
  err, is_neg, enoent, ebadf, enfile, enomem_code, max_open_files, max_fd_per_proc, FileObject,
  SbOps, Fs, up, down,
}
use vmwos.Fs.Inodes.{inode_free, inode_lookup_and_alloc, inode_allocate, expand_path, slash}

abbrev pub o_rw_mask : ℕ
o_rw_mask = 3

abbrev pub o_rdonly : ℕ
o_rdonly = 0

abbrev pub o_wronly : ℕ
o_wronly = 1

abbrev pub o_creat : ℕ
o_creat = 0x40

abbrev pub o_trunc : ℕ
o_trunc = 0x200

abbrev pub o_append : ℕ
o_append = 0x400

-- The processes, the tables of the file system, and the process that runs.
pub record Kernel (D : Type 0) : Type 0 where
  pub procs : ℕ → Pcb
  pub running : ℕ
  pub fs : Fs D

-- `files[fd]` of the process that runs
abbrev pub fd_slot : {D : Type 0} → Kernel D → ℕ → Option ℕ
fd_slot k fd = get_or (k.procs k.running).files fd none

abbrev pub set_fd : {D : Type 0} → Kernel D → ℕ → Option ℕ → Kernel D
set_fd k fd file = record k {
  procs = modify k.procs k.running (λ c. record c { files = set c.files fd file });
}

abbrev pub is_some {ℓ} : {A : Type ℓ} → Option A → Bool
is_some none = false
is_some (some _) = true

-- `split_pathname` of kernel/fs/inodes.c: the directory, and the name behind the last '/', unless
-- that is the first character.
pub split_from : List ℕ → ℕ → List ℕ × Option (List ℕ)
split_from fullpath zero = (fullpath, none)
split_from fullpath (suc ptr) =
    let rest = split_from fullpath ptr in
    if get_or fullpath (suc ptr) 0 == slash
    then (take (suc ptr) fullpath, some (drop (suc (suc ptr)) fullpath))
    else rest

pub split_pathname : List ℕ → List ℕ × Option (List ℕ)
split_pathname fullpath = split_from fullpath (length fullpath)

-- The file object of a descriptor, or the error.
pub data Mapped : Type 0 where
  file_at : ℕ → Mapped
  bad_fd : ℕ → Mapped

module _ {D : Type 0} where
  -- `file->inode` is followed without a test; `none` is the fault for `NULL`.
  pub files_increment_count : Fs D → ℕ → Option (Fs D)
  files_increment_count s f =
      let file : FileObject = s.file_objects f in
      file.inode >>= λ i. some (record s {
        file_objects = put s.file_objects f (record file { count = up file.count });
        inodes = put s.inodes i (record (s.inodes i) { count = up (s.inodes i).count });
      })

  -- The index of a free file object, which is taken for `inode`, or `-ENFILE`.
  pub file_object_allocate : Fs D → ℕ → ℕ × Fs D
  file_object_allocate s inode =
      elim (first_index (λ f. (s.file_objects f).count == 0) max_open_files 0) [
        | none ↦ (err enfile, s)
        | some f ↦ (
          f,
          record s {
            file_objects =
                put s.file_objects f
                  (record (s.file_objects f) { count = 1; inode = some inode; file_offset = 0 });
          },
        )
      ]

  pub map_fd_to_file : Kernel D → ℕ → Mapped
  map_fd_to_file k fd =
      if leb max_fd_per_proc fd then bad_fd (err enfile) else elim (fd_slot k fd) [
        | none ↦ bad_fd (err enfile)
        | some f ↦ if (k.fs.file_objects f).count == 0 then bad_fd (err ebadf) else file_at f
      ]

  -- The second half of `dup2_syscall`.
  pub dup_onto : Kernel D → ℕ → ℕ → Option (ℕ × Kernel D)
  dup_onto k oldfd newfd = elim (map_fd_to_file k oldfd) [
    | bad_fd e ↦ some (e, k)
    | file_at f ↦ files_increment_count k.fs f >>= λ fs.
        some (0, set_fd (record k { fs = fs }) newfd (some f))
  ]

module _ {D : Type 0} (ops : SbOps D) where
  pub file_object_free : Fs D → ℕ → ℕ × Fs D
  file_object_free s f =
      let s' : Fs D = elim (s.file_objects f).inode [
        | none ↦ s
        | some i ↦ (inode_free ops s i).1
      ] in
      let file : FileObject = s.file_objects f in
      (
        0,
        record s' {
          file_objects =
              put s.file_objects f
                (if file.count == 0 then file else record file { count = down file.count });
        },
      )

  pub close_syscall : Kernel D → ℕ → ℕ × Kernel D
  close_syscall k fd = elim (map_fd_to_file k fd) [
    | bad_fd e ↦ (e, k)
    | file_at f ↦
        let (result, fs) = file_object_free k.fs f in
        (result, set_fd (record k { fs = fs }) fd none)
  ]

  -- The result with the new inode, or the error. `NULL` for a name is a fault in `link_inode`.
  pub create_file_object : Fs D → List ℕ → List ℕ → Option (ℕ × Option ℕ × Fs D)
  create_file_object s current_dir pathname =
      let (directory, filename) = split_pathname (expand_path current_dir pathname) in
      let (result, dir?, s1) = inode_lookup_and_alloc ops s current_dir directory in
      elim dir? [
        | none ↦ some (result, none, s1)
        | some dir ↦ elim (inode_allocate ops s1) [
          | none ↦ some (err enomem_code, none, s1)
          | some (i, s2) ↦
              let (made, inode, disk) = ops.make_inode (s2.inodes dir) (s2.inodes i) s2.disk in
              let s3 : Fs D = record s2 { inodes = put s2.inodes i inode; disk = disk } in
              if is_neg made
              then some (made, none, s3)
              else (filename >>= λ name.
                  let (linked, inode', disk') = ops.link_inode inode name disk in
                  let s4 : Fs D = record s3 { inodes = put s3.inodes i inode'; disk = disk' } in
                  some (
                    if is_neg linked
                    then (linked, none, s4)
                    else (0, some i, (inode_free ops s4 dir).1)))
        ]
      ]

  -- The part of `open_file_object` that has an inode.
  pub open_inode : Fs D → ℕ → ℕ → ℕ × Fs D
  open_inode s i flags =
      let (f, s1) = file_object_allocate s i in
      if is_neg f
      then (f, s1)
      else (let (_, cut, disk) = ops.truncate_inode (s1.inodes i) 0 s1.disk in
          let s2 : Fs D =
            if bit_and flags o_trunc == 0
            then s1
            else record s1 { inodes = put s1.inodes i cut; disk = disk } in
          let offset = if bit_and flags o_append == 0 then 0 else (s2.inodes i).size in
          (
            f,
            record s2 {
              file_objects =
                  put s2.file_objects f
                    (record (s2.file_objects f) { flags = flags; file_offset = offset });
            },
          ))

  -- The index of the file object, or the error.
  pub open_file_object : Fs D → List ℕ → List ℕ → ℕ → Option (ℕ × Fs D)
  open_file_object s current_dir pathname flags =
      let (_, i?, s1) = inode_lookup_and_alloc ops s current_dir pathname in
      elim i? [
        | some i ↦ some (open_inode s1 i flags)
        | none ↦
            if bit_and flags o_creat == 0
            then some (err enoent, s1)
            else (create_file_object s1 current_dir pathname >>= λ (result, new?, s2).
                some (elim new? [ none ↦ (result, s2) | some i ↦ open_inode s2 i flags ]))
      ]

  -- The descriptor, or the error.
  pub open_syscall : Kernel D → List ℕ → ℕ → Option (ℕ × Kernel D)
  open_syscall k pathname flags =
      elim (first_index (λ fd. not (is_some (fd_slot k fd))) max_fd_per_proc 0) [
        | none ↦ some (err enfile, k)
        | some fd ↦
            open_file_object k.fs (k.procs k.running).current_dir pathname flags >>= λ (f, fs).
            let k' : Kernel D = record k { fs = fs } in
            some (if is_neg f then (f, k') else (fd, set_fd k' fd (some f)))
      ]

  -- `dup2_syscall` where `newfd` is taken: its file is closed first.
  abbrev pub dup_over : Kernel D → ℕ → ℕ → Mapped → Option (ℕ × Kernel D)
  dup_over k oldfd newfd (bad_fd e) = some (e, k)
  dup_over k oldfd newfd (file_at f) =
      dup_onto (record k { fs = (file_object_free k.fs f).1 }) oldfd newfd

  -- `files[newfd]` is read without a test of its bounds; `none` is the fault.
  pub dup2_syscall : Kernel D → ℕ → ℕ → Option (ℕ × Kernel D)
  dup2_syscall k oldfd newfd = get_elem? (k.procs k.running).files newfd >>= λ slot. elim slot [
    | none ↦ dup_onto k oldfd newfd
    | some _ ↦ dup_over k oldfd newfd (map_fd_to_file k newfd)
  ]
