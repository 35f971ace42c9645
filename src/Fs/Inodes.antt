-- ===== src/Fs/Inodes.antt =====
-- The table of inodes of kernel/fs/inodes.c.
pub mod Free
use vmwos.Prelude.{
  put, ℕ, ◌+◌, ◌-◌, ◌*◌, ◌%◌, ◌^◌, bit_and, bit_or, not, ◌&&◌, Option, none, some, List, [], ◌∷◌,
  ◌++◌, ◌==◌, if◌then◌else◌, ◌>>=◌, get_or, take, drop,
}
use vmwos.Prelude.{first_index}
use vmwos.Fs.{err, is_neg, enoent, enomem_code, eisdir, num_inodes, Inode, SbOps, Fs, up, down}

-- Every byte of a freed inode is 'V', and then `count` is 0.
abbrev pub v_word : ℕ
v_word = 0x56565656

abbrev pub v_long : ℕ
v_long = 0x5656565656565656

abbrev pub freed_inode : Inode
freed_inode = record {
  device = v_word;
  number = v_word;
  count = 0;
  mode = v_word;
  hard_links = v_word;
  uid = v_word;
  gid = v_word;
  rdev = v_word;
  size = v_long;
  blocksize = v_word;
  blocks = v_word;
  atime = v_long;
  mtime = v_long;
  ctime = v_long;
  sb = v_word;
}

abbrev pub s_ifmt : ℕ
s_ifmt = 0xf000

abbrev pub s_ifdir : ℕ
s_ifdir = 0x4000

-- '/'
abbrev pub slash : ℕ
slash = b'/'

-- while((*ptr=='/')&&(*ptr!='\0')) ptr++;
pub skip_slashes : List ℕ → List ℕ
skip_slashes [] = []
skip_slashes (c ∷ cs) = if c == slash then skip_slashes cs else c ∷ cs

-- A path as the lookup expands it in a buffer of 1024 bytes: `strncpy` of a path from the root, or
-- `snprintf` of "%s/%s", which leaves room for the NUL.
unfoldable pub expand_path : List ℕ → List ℕ → List ℕ
expand_path current_dir pathname =
    if get_or pathname 0 0 == slash
    then take 1024 pathname
    else take 1023 (current_dir ++ (slash ∷ pathname))

module _ {D : Type 0} (ops : SbOps D) where
  pub inode_allocate : Fs D → Option (ℕ × Fs D)
  inode_allocate s = first_index (λ i. (s.inodes i).count == 0) num_inodes 0 >>= λ i.
      some (i, record s { inodes = put s.inodes i (record (s.inodes i) { count = 1 }) })

  pub inode_find_existing : Fs D → ℕ → ℕ → Option ℕ
  inode_find_existing s sb number =
      first_index (λ i. (s.inodes i).sb == sb && (s.inodes i).number == number) num_inodes 0

  -- The result is 0, or -1 for an inode that is free already.
  pub inode_free : Fs D → ℕ → ℕ × Fs D
  inode_free s i =
      if (s.inodes i).count == 0
      then (err 1, s)
      else (let inode : Inode = record (s.inodes i) { count = down (s.inodes i).count } in
          let disk =
            if inode.count == 0 && inode.hard_links == 0
            then ops.destroy_inode inode s.disk
            else s.disk in
          (
            0,
            record s {
              inodes = put s.inodes i (if inode.count == 0 then freed_inode else inode);
              disk = disk;
            },
          ))

  -- The end of `inode_lookup_and_alloc`, once `temp` names a file: an inode that the table has
  -- already is used in its place.
  pub settle : Fs D → ℕ → ℕ × Fs D
  settle s temp = elim (inode_find_existing s (s.inodes temp).sb (s.inodes temp).number) [
    | none ↦ (temp, s)
    | some i ↦
        let counted : Fs D = record s {
          inodes = put s.inodes i (record (s.inodes i) { count = up (s.inodes i).count });
        } in
        (i, (inode_free counted temp).1)
  ]

  -- The result is that of `lookup_inode` with the inode, or an error.
  pub inode_lookup_and_alloc : Fs D → List ℕ → List ℕ → ℕ × Option ℕ × Fs D
  inode_lookup_and_alloc s current_dir pathname = elim (inode_allocate s) [
    | none ↦ (err enomem_code, none, s)
    | some (temp, s') ↦
        let full_path = expand_path current_dir pathname in
        elim (ops.superblock_lookup full_path s'.disk) [
          | none ↦ (err enoent, none, s')
          | some sb ↦
              let start : Inode = record (s'.inodes temp) {
                number = ops.root_dir sb s'.disk;
                sb = sb;
              } in
              let ptr = skip_slashes (drop (ops.mountpoint_length sb s'.disk) full_path) in
              let (result, found, disk) = ops.lookup_inode start ptr s'.disk in
              let looked : Fs D = record s' { inodes = put s'.inodes temp found; disk = disk } in
              if is_neg result
              then (err enoent, none, (inode_free looked temp).1)
              else (let (i, settled) = settle looked temp in (result, some i, settled))
        ]
  ]

  -- The second part is what `buf` is filled with: the fields of the inode but `count` and `sb`.
  pub stat_syscall : Fs D → List ℕ → List ℕ → ℕ × Option Inode × Fs D
  stat_syscall s current_dir pathname =
      let (result, i?, s') = inode_lookup_and_alloc s current_dir pathname in
      elim i? [
        | none ↦ (err enoent, none, s')
        | some i ↦ (result, some (s'.inodes i), (inode_free s' i).1)
      ]

  -- `inode->mode=(inode->mode&0xfffffe00)|(mode&0x1ff)`
  abbrev pub changed_mode : ℕ → ℕ → ℕ
  changed_mode old mode = bit_or (bit_and old 0xfffffe00) (bit_and mode 0x1ff)

  pub chmod_syscall : Fs D → List ℕ → List ℕ → ℕ → ℕ × Fs D
  chmod_syscall s current_dir pathname mode =
      let (result, i?, s') = inode_lookup_and_alloc s current_dir pathname in
      elim i? [
        | none ↦ (err enoent, s')
        | some i ↦
            let inode : Inode = record (s'.inodes i) {
              mode = changed_mode (s'.inodes i).mode mode;
            } in
            let written : Fs D = record s' {
              inodes = put s'.inodes i inode;
              disk = ops.write_inode inode s'.disk;
            } in
            (result, (inode_free written i).1)
      ]

  pub truncate_inode : Fs D → ℕ → ℕ → ℕ × Fs D
  truncate_inode s i size =
      let (result, inode, disk) = ops.truncate_inode (s.inodes i) size s.disk in
      let cut : Fs D = record s { inodes = put s.inodes i inode; disk = disk } in
      (result, if is_neg result then cut else record cut { disk = ops.write_inode inode disk })

  pub truncate64_syscall : Fs D → List ℕ → List ℕ → ℕ → ℕ × Fs D
  truncate64_syscall s current_dir pathname size =
      let (result, i?, s') = inode_lookup_and_alloc s current_dir pathname in
      elim i? [
        | none ↦ (err enoent, s')
        | some i ↦ let (result', cut) = truncate_inode s' i size in (result', (inode_free cut i).1)
      ]

  -- `hard_links--` on an `int32_t`
  abbrev pub fewer_links : ℕ → ℕ
  fewer_links n = (n + 2 ^ 32 - 1) % 2 ^ 32

  pub unlink_syscall : Fs D → List ℕ → List ℕ → ℕ × Fs D
  unlink_syscall s current_dir pathname =
      let (result, i?, s') = inode_lookup_and_alloc s current_dir pathname in
      elim i? [
        | none ↦ (err enoent, s')
        | some i ↦
            if not (bit_and (s'.inodes i).mode s_ifdir == 0)
            then (err eisdir, (inode_free s' i).1)
            else (let (result', inode, disk) = ops.unlink_inode (s'.inodes i) s'.disk in
                let kept : Inode =
                  if is_neg result'
                  then inode
                  else record inode { hard_links = fewer_links inode.hard_links } in
                let unlinked : Fs D = record s' { inodes = put s'.inodes i kept; disk = disk } in
                (result', (inode_free unlinked i).1))
      ]
