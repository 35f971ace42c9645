-- ===== src/Fs/Files/Io/Tests.antt =====
-- Runs of the system calls on an open file of kernel/fs/files.c.
use vmwos.Prelude.{ℕ, ◌+◌, ◌≡◌, refl, some, [], ◌∷◌, ◌≢◌, arith, length, replicate}
use vmwos.Fs.Files.{Kernel}
use vmwos.Fs.Files.Tests.{kernel, ops}
use vmwos.Fs.Files.Io.Seek.{llseek_syscall-read_syscall}
use vmwos.Fs.Files.Io.{IoOps, s_ifblk, llseek_syscall, read_syscall, fcntl_syscall}
use vmwos.Fs.Files.Io.Flags.{fcntl_syscall-fcntl_syscall}
use vmwos.Fs.Files.Io.Chdir.{chdir_syscall, chdir_to, chdir_syscall_stays}

-- Devices that read zeros, and accept all that is written.
abbrev zeros : IoOps (Unit {0})
zeros = record {
  read_block = λ n a c d. some (c, replicate c 0, d);
  write_block = λ n a b d. some (length b, d);
  read_char = λ n f c d. some (c, replicate c 0, d);
  write_char = λ n f b d. some (length b, d);
  read_file = λ i c a d. (c, replicate c 0, a + c, i, d);
  write_file = λ i b a d. (length b, a + length b, record i { size = a + length b }, d);
  llseek_file = λ i a o w. (o, o);
}

fcntl_syscall-fcntl_syscall_example :
    ((fcntl_syscall kernel 0 4 0x800).0 ≡ 0)
    × ((fcntl_syscall (fcntl_syscall kernel 0 4 0x800).1 0 3 0).0 ≡ 0x800)
fcntl_syscall-fcntl_syscall_example =
    fcntl_syscall-fcntl_syscall kernel 0 0 0 0x800 (omega arith) (omega arith) refl refl
      (omega arith)

chdir_syscall_stays_example :
    chdir_syscall ops kernel (b'a' ∷ b'b' ∷ []) ≡ chdir_to ops kernel (b'/' ∷ [])
chdir_syscall_stays_example =
    chdir_syscall_stays ops kernel (b'a' ∷ b'b' ∷ []) (omega arith) (omega arith) refl (omega arith)

-- The same table, with a block device.
abbrev on_disk : Kernel (Unit {0})
on_disk = record kernel {
  fs = record kernel.fs { inodes = λ j. record (kernel.fs.inodes j) { mode = s_ifblk } };
}

llseek_syscall-read_syscall_example :
    (k₁ : Kernel (Unit {0})) × (k₂ : Kernel (Unit {0})) × (k₃ : Kernel (Unit {0})) × (llseek_syscall
        zeros on_disk 0 512 0
      ≡ some (512, k₁))
    × (read_syscall zeros k₁ 0 3 ≡ some (3, 0 ∷ 0 ∷ 0 ∷ [], k₂))
    × (llseek_syscall zeros k₂ 0 0 1 ≡ some (515, k₃))
    × (k₃.fs.disk ≡ tt)
    × ((g : ℕ) → g ≢ 0 → k₃.fs.file_objects g ≡ on_disk.fs.file_objects g)
    × ((j : ℕ) → k₃.fs.inodes j ≡ on_disk.fs.inodes j)
llseek_syscall-read_syscall_example =
    llseek_syscall-read_syscall zeros on_disk 0 0 0 512 3 3 (0 ∷ 0 ∷ 0 ∷ []) tt
      (record {
        in_range = omega arith;
        slot = refl;
        in_use = λ e. absurd (omega (arith, e));
        readable = refl;
        names = refl;
        block = refl;
      })
      (omega arith) refl
