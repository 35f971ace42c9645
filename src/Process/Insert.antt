-- ===== src/Process/Insert.antt =====
-- `process_insert` of kernel/processes/process.c on the list of slots.
use vmwos.Prelude.{ℕ, ◌<◌, ◌≡◌, refl, false, none, some, List, [], ◌∷◌, ◌++◌, arith, length}
use vmwos.Process.{Pcb, Processes, modify, list_fuel, process_insert}
use vmwos.Process.Chain.{
  has, Distinct, Chained, IsList, SameButLinks, Linked-of_Chained, last, last_from-last, has-last,
  Distinct-append,
}

-- The table after `process_insert`.
abbrev appended : (ℕ → Pcb) → ℕ → ℕ → ℕ → Pcb
appended procs end p =
    modify (modify procs end (λ c. record c { next = some p })) p
      (λ c. record c { next = none; prev = some end })

Chained-appended :
    (procs : ℕ → Pcb) (p x : ℕ) (xs : List ℕ)
    → Chained procs x (procs x).next xs
    → Distinct (x ∷ xs)
    → has p (x ∷ xs) ≡ false
    → let procs' = appended procs (last x xs) p in Chained procs' x (procs' x).next (xs ++ (p ∷ []))
Chained-appended procs p x [] h d out = ground arith
Chained-appended procs p x (y ∷ ys) (e, back, rest) d out = (
  ground (arith, has-last y ys),
  ground (arith, has-last y ys),
  Chained-appended procs p y ys rest d.1 (ground arith),
)

-- process_insert puts a process that is not on the list at its end, leaves a well-linked list,
-- and changes nothing but links.
pub process_insert-append :
    (s : Processes) (p : ℕ) (xs : List ℕ)
    → IsList s xs
    → has p xs ≡ false
    → length xs < list_fuel
    → (s' : Processes) × (process_insert s p ≡ some s')
      × IsList s' (xs ++ (p ∷ []))
      × SameButLinks s s'
      × (s'.current ≡ s.current)
      × (s'.avail_pid ≡ s.avail_pid)
unfolding process_insert
process_insert-append s p [] h out lt = (
  record s {
    proc_first = some p;
    procs = modify s.procs p (λ c. record c { next = none; prev = none });
  },
  rw h,
  (refl, ground arith, (refl, tt)),
  λ q. ground arith,
  refl,
  refl,
)
process_insert-append s p (x ∷ xs) (e, chain, d) out lt = (
  record s { procs = appended s.procs (last x xs) p },
  rw (
    e,
    last_from-last s.procs list_fuel x xs (Linked-of_Chained s.procs x _ xs chain) (omega arith),
  ),
  (e, Chained-appended s.procs p x xs chain d out, Distinct-append p (x ∷ xs) d out),
  λ q. ground arith,
  refl,
  refl,
)
