-- ===== src/Fs/Files/Io/Seek.antt =====
-- The offset of an open file in kernel/fs/files.c: `llseek_syscall` sets it, and `read_syscall` reads
-- there and moves it on.
use vmwos.Prelude.{
  ℕ, ◌+◌, ◌%◌, ◌^◌, ◌<◌, ◌≡◌, ◌≢◌, refl, true, false, bit_and, some, List, arith, ◌==◌,
  if◌then◌else◌, ap, ◌∙◌, ==_refl, ne→==,
}
use native.Mathlib.Decide.{ℕ_discrete}
use vmwos.Fs.{is_neg, max_fd_per_proc}
use vmwos.Fs.Inodes.{s_ifmt}
use vmwos.Fs.Files.{Kernel, fd_slot, o_rw_mask, o_wronly}
use vmwos.Fs.Files.Dup.Slot.{map_fd_to_file-accepts}
use vmwos.Fs.Files.Io.{
  IoOps, s_ifblk, advanced, stored, set_offset, llseek_generic, llseek_inode, llseek_mapped,
  llseek_syscall, read_inode, read_mapped, read_syscall,
}

-- The descriptor `fd` is open for reading on a block device, by the file object `f` and the inode
-- `i`.
pub record OnBlock {D : Type 0} (k : Kernel D) (fd f i : ℕ) : Type 0 where
  pub in_range : fd < max_fd_per_proc
  pub slot : fd_slot k fd ≡ some f
  pub in_use : (k.fs.file_objects f).count ≢ 0
  pub readable : (bit_and (k.fs.file_objects f).flags o_rw_mask == o_wronly) ≡ false
  pub names : (k.fs.file_objects f).inode ≡ some i
  pub block : (bit_and (k.fs.inodes i).mode s_ifmt == s_ifblk) ≡ true

module _ {D : Type 0} where
  set_offset-OnBlock :
      (k : Kernel D) (fd f i offset : ℕ) → OnBlock k fd f i → OnBlock (set_offset k f offset) fd f i
  set_offset-OnBlock k fd f i offset on = record {
    in_range = on.in_range;
    slot = on.slot;
    in_use = ground (arith, on.in_use);
    readable = rw (==_refl f) on.readable;
    names = rw (==_refl f) on.names;
    block = on.block;
  }

  stored-OnBlock :
      (k : Kernel D) (fd f i offset : ℕ) (disk : D)
      → OnBlock k fd f i
      → OnBlock (stored k f i offset (k.fs.inodes i) disk) fd f i
  stored-OnBlock k fd f i offset disk on = record {
    in_range = on.in_range;
    slot = on.slot;
    in_use = ground (arith, on.in_use);
    readable = rw (==_refl f) on.readable;
    names = rw (==_refl f) on.names;
    block = rw (==_refl i) on.block;
  }

module _ {D : Type 0} (ops : IoOps D) where
  llseek-OnBlock :
      (k : Kernel D) (fd f i offset whence : ℕ)
      → OnBlock k fd f i
      → llseek_syscall ops k fd offset whence
        ≡ some (
          (llseek_generic (k.fs.file_objects f).file_offset offset whence).0,
          set_offset k f (llseek_generic (k.fs.file_objects f).file_offset offset whence).1,
        )
  unfolding llseek_syscall llseek_mapped llseek_inode
  llseek-OnBlock k fd f i offset whence on =
      ap (llseek_mapped ops k offset whence)
        (map_fd_to_file-accepts k fd f on.in_range on.slot on.in_use)
      ∙ rw (on.names, on.block) refl

  read-OnBlock :
      (k : Kernel D) (fd f i count r : ℕ) (bytes : List ℕ) (disk : D)
      → OnBlock k fd f i
      → ops.read_block
          (k.fs.inodes i).device
          ((k.fs.file_objects f).file_offset % 2 ^ 32)
          count
          k.fs.disk
        ≡ some (r, bytes, disk)
      → read_syscall ops k fd count
        ≡ some (
          r,
          bytes,
          stored k f i (advanced (k.fs.file_objects f).file_offset r) (k.fs.inodes i) disk,
        )
  unfolding read_syscall read_mapped read_inode
  read-OnBlock k fd f i count r bytes disk on given =
      ap (read_mapped ops k count) (map_fd_to_file-accepts k fd f on.in_range on.slot on.in_use)
      ∙ rw (on.readable, on.names, on.block, given) refl

  -- For a descriptor that is open for reading on a block device: llseek_syscall by SEEK_SET to
  -- an offset below 2^63 returns it, read_syscall then returns what the device reads there, and
  -- llseek_syscall by 0 with SEEK_CUR after it returns the offset moved on by the result of the
  -- read, or the same offset where that is an error; the three change no other file object and
  -- no inode, and the disk only as the read does.
  pub llseek_syscall-read_syscall :
      (k : Kernel D) (fd f i offset count r : ℕ) (bytes : List ℕ) (disk : D)
      → OnBlock k fd f i
      → offset < 2 ^ 63
      → ops.read_block (k.fs.inodes i).device (offset % 2 ^ 32) count k.fs.disk
        ≡ some (r, bytes, disk)
      → (k₁ : Kernel D) × (k₂ : Kernel D) × (k₃ : Kernel D) × (llseek_syscall ops k fd offset 0
          ≡ some (offset, k₁))
        × (read_syscall ops k₁ fd count ≡ some (r, bytes, k₂))
        × (llseek_syscall ops k₂ fd 0 1 ≡ some (if is_neg r then offset else offset + r, k₃))
        × (k₃.fs.disk ≡ disk)
        × ((g : ℕ) → g ≢ f → k₃.fs.file_objects g ≡ k.fs.file_objects g)
        × ((j : ℕ) → k₃.fs.inodes j ≡ k.fs.inodes j)
  unfolding llseek_generic
  llseek_syscall-read_syscall k fd f i offset count r bytes disk on lt given =
      let k₁ = set_offset k f offset in
      let on₁ = set_offset-OnBlock k fd f i offset on in
      let k₂ = stored k₁ f i (advanced offset r) (k.fs.inodes i) disk in
      let on₂ = stored-OnBlock k₁ fd f i (advanced offset r) disk on₁ in
      let at : (k₁.fs.file_objects f).file_offset ≡ offset = rw (==_refl f) refl in
      let after : (k₂.fs.file_objects f).file_offset ≡ advanced offset r = rw (==_refl f) refl in
      let place : (advanced offset r + 0) % 2 ^ 64 ≡ (if is_neg r then offset else offset + r) =
        ground (arith, lt) in
      let end = ap (λ o. (o + 0) % 2 ^ 64) after ∙ place in
      (
        k₁,
        k₂,
        set_offset k₂ f (((k₂.fs.file_objects f).file_offset + 0) % 2 ^ 64),
        llseek-OnBlock k fd f i offset 0 on,
        read-OnBlock k₁ fd f i count r bytes disk on₁ (
              ap (λ o. ops.read_block (k.fs.inodes i).device (o % 2 ^ 32) count k.fs.disk) at
              ∙ given)
            ∙ ap (λ o. some (r, bytes, stored k₁ f i (advanced o r) (k.fs.inodes i) disk)) at,
        llseek-OnBlock k₂ fd f i 0 1 on₂
            ∙ ap
                (λ o. some (o, set_offset k₂ f (((k₂.fs.file_objects f).file_offset + 0) % 2 ^ 64)))
                end,
        refl,
        λ g ne. rw (ne→== g f ne) refl,
        λ j. elim (ℕ_discrete j i) [
          | yes e ↦ rw (e, ==_refl i) refl
          | no ne ↦ rw (ne→== j i ne) refl
        ],
      )
