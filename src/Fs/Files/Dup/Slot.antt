-- ===== src/Fs/Files/Dup/Slot.antt =====
-- Descriptors of the running process of kernel/fs/files.c: what is stored in one is read there again.
use vmwos.Prelude.{
  ℕ, zero, suc, ◌<◌, ◌≡◌, refl, ◌≢◌, Option, none, some, List, [], ◌∷◌, arith, length, set, lt→leb,
  ne→==, ap, fun_ext, get_or-set_self, get_or-set_ne,
}
use vmwos.Process.{modify}
use vmwos.Fs.{err, ebadf, Fs, max_fd_per_proc}
use vmwos.Fs.Files.{Kernel, fd_slot, set_fd, file_at, bad_fd, map_fd_to_file}

pub map_fd_to_file-accepts :
    {D : Type 0} (k : Kernel D) (fd f : ℕ)
    → fd < max_fd_per_proc
    → fd_slot k fd ≡ some f
    → (k.fs.file_objects f).count ≢ 0
    → map_fd_to_file k fd ≡ file_at f
unfolding map_fd_to_file
map_fd_to_file-accepts k fd f lt slot ne =
    rw (lt→leb max_fd_per_proc fd lt, slot, ne→== (k.fs.file_objects f).count 0 ne) refl

pub map_fd_to_file-closed :
    {D : Type 0} (k : Kernel D) (fd f : ℕ)
    → fd < max_fd_per_proc
    → fd_slot k fd ≡ some f
    → (k.fs.file_objects f).count ≡ 0
    → map_fd_to_file k fd ≡ bad_fd (err ebadf)
unfolding map_fd_to_file
map_fd_to_file-closed k fd f lt slot z = rw (lt→leb max_fd_per_proc fd lt, slot, z) refl

set-set : (xs : List (Option ℕ)) (i : ℕ) (v w : Option ℕ) → set (set xs i v) i w ≡ set xs i w
set-set [] i v w = refl
set-set (x ∷ xs) zero v w = refl
set-set (x ∷ xs) (suc i) v w = ap (◌∷◌ x) (set-set xs i v w)

-- The second of two stores in a descriptor counts.
pub set_fd-set_fd :
    {D : Type 0} (k : Kernel D) (fs fs' : Fs D) (fd : ℕ) (v w : Option ℕ)
    → set_fd (record (set_fd (record k { fs = fs }) fd v) { fs = fs' }) fd w
      ≡ set_fd (record k { fs = fs' }) fd w
set_fd-set_fd k fs fs' fd v w = λ i. record {
  procs =
      fun_ext
        {f = modify (modify k.procs k.running (λ c. record c { files = set c.files fd v }))
          k.running (λ c. record c { files = set c.files fd w })}
        {g = modify k.procs k.running (λ c. record c { files = set c.files fd w })}
        (λ q. ground (arith, set-set (k.procs k.running).files fd v w)) i;
  running = k.running;
  fs = fs';
}

pub fd_slot-set_fd_self :
    {D : Type 0} (k : Kernel D) (fs : Fs D) (fd : ℕ) (v : Option ℕ)
    → fd < length (k.procs k.running).files
    → fd_slot (set_fd (record k { fs = fs }) fd v) fd ≡ v
fd_slot-set_fd_self k fs fd v lt =
    ground (arith, get_or-set_self (k.procs k.running).files fd v none lt)

pub fd_slot-set_fd_ne :
    {D : Type 0} (k : Kernel D) (fs : Fs D) (fd fd' : ℕ) (v : Option ℕ)
    → fd ≢ fd'
    → fd_slot (set_fd (record k { fs = fs }) fd v) fd' ≡ fd_slot k fd'
fd_slot-set_fd_ne k fs fd fd' v ne =
    ground (arith, get_or-set_ne (k.procs k.running).files fd fd' v none ne)
