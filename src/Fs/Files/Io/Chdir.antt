-- ===== src/Fs/Files/Io/Chdir.antt =====
-- `chdir_syscall` of kernel/fs/files.c.
use vmwos.Prelude.{
  ℕ, zero, suc, ◌+◌, ◌-◌, ◌≤◌, ◌<◌, ◌≡◌, refl, ◌≢◌, bit_and, ◌&&◌, none, some, List, [], ◌∷◌, ◌++◌,
  ltb, ◌==◌, if◌then◌else◌, get_or, take, take-append, take_all, length, arith, length-append,
  ne→==,
}
use vmwos.Process.{modify}
use vmwos.Fs.{err, enoent, SbOps}
use vmwos.Fs.Inodes.{s_ifmt, s_ifdir, slash, expand_path, inode_free, inode_lookup_and_alloc}
use vmwos.Fs.Files.{Kernel}

abbrev pub e2big : ℕ
e2big = 7

abbrev pub enotdir : ℕ
enotdir = 20

-- The trailing slash is looked for at the length of the argument, not of the expanded path.
pub strip_slash : ℕ → List ℕ → List ℕ
strip_slash len new_path =
    if ltb 1 len && get_or new_path (len - 1) 0 == slash then take (len - 1) new_path else new_path

module _ {D : Type 0} (ops : SbOps D) where
  -- The second half of `chdir_syscall`, for the expanded path.
  pub chdir_to : Kernel D → List ℕ → ℕ × Kernel D
  chdir_to k new_path =
      let cwd = (k.procs k.running).current_dir in
      let (_, i?, fs) = inode_lookup_and_alloc ops k.fs cwd new_path in
      elim i? [
        | none ↦ (err enoent, record k { fs = fs })
        | some i ↦
            if bit_and (fs.inodes i).mode s_ifmt == s_ifdir
            then (
              0,
              record k {
                procs =
                    modify k.procs k.running (λ c. record c { current_dir = take 1024 new_path });
                fs = (inode_free ops fs i).1;
              },
            )
            else (err enotdir, record k { fs = (inode_free ops fs i).1 })
      ]

  pub chdir_syscall : Kernel D → List ℕ → ℕ × Kernel D
  chdir_syscall k path =
      let len = length path in
      if ltb 1024 len
      then (err e2big, k)
      else chdir_to k (strip_slash len (expand_path (k.procs k.running).current_dir path))

get_or-append : (n : ℕ) (xs ys : List ℕ) (y : ℕ) → length xs ≡ n → get_or (xs ++ (y ∷ ys)) n 0 ≡ y
get_or-append zero [] ys y e = refl
get_or-append zero (x ∷ xs) ys y e = absurd (omega (arith, e))
get_or-append (suc n) [] ys y e = absurd (omega (arith, e))
get_or-append (suc n) (x ∷ xs) ys y e = get_or-append n xs ys y (omega (arith, e))

-- How a relative path is expanded, and then stripped of a slash that is not at its end.
expand_path-relative :
    (cwd path : List ℕ)
    → get_or path 0 0 ≢ slash
    → length path ≤ 500
    → length cwd ≤ 500
    → expand_path cwd path ≡ cwd ++ (slash ∷ path)
unfolding expand_path
expand_path-relative cwd path relative small small' =
    rw (ne→== (get_or path 0 0) slash relative)
      (take_all 1023 (cwd ++ (slash ∷ path)) (omega (arith, length-append cwd (slash ∷ path))))

strip_slash-join :
    (cwd path : List ℕ)
    → 0 < length cwd
    → length path ≡ length cwd + 1
    → strip_slash (length path) (cwd ++ (slash ∷ path)) ≡ cwd
unfolding strip_slash
strip_slash-join cwd path pos size = ground (
  arith,
  get_or-append (length path - 1) cwd path slash (omega (arith, size)),
  take-append (length path - 1) cwd (slash ∷ path) (omega (arith, size)),
)

-- For a relative path that is one character longer than the current directory and at most 500
-- characters long, chdir_syscall takes the slash between the two for a trailing one: it behaves
-- as for the current directory itself.
pub chdir_syscall_stays :
    {D : Type 0} (ops : SbOps D) (k : Kernel D) (path : List ℕ)
    → get_or path 0 0 ≢ slash
    → 0 < length (k.procs k.running).current_dir
    → length path ≡ length (k.procs k.running).current_dir + 1
    → length path ≤ 500
    → chdir_syscall ops k path ≡ chdir_to ops k (k.procs k.running).current_dir
unfolding chdir_syscall
chdir_syscall_stays ops k path relative pos size small =
    ground (arith, expand, strip_slash-join cwd path pos size)
  where
    cwd : List ℕ
    cwd = (k.procs k.running).current_dir

    expand : expand_path cwd path ≡ cwd ++ (slash ∷ path)
    expand = expand_path-relative cwd path relative small (omega (arith, size))
