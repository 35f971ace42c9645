-- ===== src/Process/Create.antt =====
-- `process_create` of kernel/processes/process.c.
use vmwos.Prelude.{
  ℕ, ◌+◌, ◌%◌, ◌^◌, ◌<◌, ◌≡◌, refl, ◌≢◌, true, false, Option, none, some, List, [], ◌∷◌, ◌++◌,
  arith, ◌==◌, ◌>>=◌, length, replicate, ap, ◌∙◌, sym, ne→==, ==_refl, ==_iff, Bool-cases, inl, inr,
  first_index, first_index-some, subst,
}
use native.Mathlib.Decide.{ℕ_discrete}
use vmwos.Process.{Ptr, Pcb, Processes, modify, sleeping, max_procs, list_fuel, process_insert}
use vmwos.Process.Chain.{has, has-append, Chained, IsList, unlinked, SameButLinks}
use vmwos.Process.Insert.{process_insert-append}

-- A new process, before it is put on the list.
abbrev pub fresh_pcb : ℕ → ℕ → Pcb
fresh_pcb ticks pid = record {
  user_state = record { r = replicate 15 0; pc = 0; spsr = 0x10 };
  next = none;
  prev = none;
  wait_queue_next = none;
  valid = 1;
  running = 0;
  status = sleeping;
  start_time = ticks;
  user_time = 0;
  kernel_time = 0;
  last_scheduled = ticks;
  pid = pid;
  exit_value = 0;
  parent = none;
  stack = 0;
  stacksize = 0;
  text = 0;
  textsize = 0;
  files = replicate 8 none;
  current_dir = [];
}

-- The table with a new process in the slot `p`, and the next number.
abbrev pub with_fresh : Processes → ℕ → ℕ → Processes
with_fresh s ticks p = record s {
  procs = modify s.procs p (λ _. fresh_pcb ticks s.avail_pid);
  avail_pid = (s.avail_pid + 1) % 2 ^ 32;
}

-- The slot of the new process, or `NULL` where the table is full.
abbrev pub create_at : Processes → ℕ → Ptr → Option (Ptr × Processes)
create_at s ticks none = some (none, s)
create_at s ticks (some p) = process_insert (with_fresh s ticks p) p >>= λ s'. some (some p, s')

pub process_create : Processes → ℕ → Option (Ptr × Processes)
process_create s ticks = create_at s ticks (first_index (λ i. (s.procs i).valid == 0) max_procs 0)

-- The processes on the list are valid, and have numbers that were given out.
pub record IsTable (s : Processes) (xs : List ℕ) : Type 0 where
  pub list : IsList s xs
  pub valid : (q : ℕ) → has q xs ≡ true → (s.procs q).valid ≢ 0
  pub numbered : (q : ℕ) → has q xs ≡ true → (s.procs q).pid < s.avail_pid

Chained-same :
    (procs procs' : ℕ → Pcb) (back : ℕ) (p : Ptr) (xs : List ℕ)
    → ((q : ℕ) → has q xs ≡ true → procs' q ≡ procs q)
    → Chained procs back p xs
    → Chained procs' back p xs
Chained-same procs procs' back p [] same h = h
Chained-same procs procs' back p (x ∷ xs) same (e, b, rest) =
    let here : procs' x ≡ procs x = same x (ground arith) in
    (
      e,
      ap (λ (c : Pcb). c.prev) here ∙ b,
      subst (λ (c : Pcb). Chained procs' x c.next xs) (sym here)
          (Chained-same procs procs' x (procs x).next xs (λ q h. same q (ground arith)) rest),
    )

has-ne : (p q : ℕ) (xs : List ℕ) → has p xs ≡ false → has q xs ≡ true → q ≢ p
has-ne p q xs out hit e = cc

other_kept :
    (s : Processes) (ticks p q : ℕ) (xs : List ℕ)
    → has p xs ≡ false
    → has q xs ≡ true
    → (with_fresh s ticks p).procs q ≡ s.procs q
other_kept s ticks p q xs out h = rw (ne→== q p (λ e. cc)) refl

IsList-with_fresh :
    (s : Processes) (ticks p : ℕ) (xs : List ℕ)
    → has p xs ≡ false
    → IsList s xs
    → IsList (with_fresh s ticks p) xs
IsList-with_fresh s ticks p [] out h = h
IsList-with_fresh s ticks p (x ∷ xs) out (e, chain, d) =
    let t = with_fresh s ticks p in
    (
      e,
      subst (λ (c : Pcb). Chained t.procs x c.next xs)
          (sym (other_kept s ticks p x (x ∷ xs) out (ground arith)))
          (Chained-same s.procs t.procs x (s.procs x).next xs
            (λ q h. other_kept s ticks p q (x ∷ xs) out (ground (arith, h))) chain),
      d,
    )

-- The list grew by `p`: a process on it is `p`, or was there before.
grown : (p q : ℕ) (xs : List ℕ) → q ≢ p → has q (xs ++ (p ∷ [])) ≡ true → has q xs ≡ true
grown p q xs ne h = ground (arith, has-append q xs (p ∷ []), ne→== q p ne)

module _ (s : Processes) (ticks p : ℕ) (xs : List ℕ) (t : IsTable s xs) (s' : Processes)
    (same : SameButLinks (with_fresh s ticks p) s') (counter : s'.avail_pid ≡ s.avail_pid + 1) where
  new_slot : unlinked (s'.procs p) ≡ fresh_pcb ticks s.avail_pid
  new_slot = same p ∙ rw (==_refl p) refl

  old_slot : (q : ℕ) → q ≢ p → unlinked (s'.procs q) ≡ unlinked (s.procs q)
  old_slot q ne = same q ∙ rw (ne→== q p ne) refl

  created-IsTable : IsList s' (xs ++ (p ∷ [])) → IsTable s' (xs ++ (p ∷ []))
  created-IsTable list = record {
    list = list;
    valid = λ q h. elim (ℕ_discrete q p) [
      | yes e ↦ rw e (λ z. absurd (omega (arith, z, ap (λ (c : Pcb). c.valid) new_slot)))
      | no ne ↦
          λ z. t.valid q (grown p q xs ne h) (sym (ap (λ (c : Pcb). c.valid) (old_slot q ne)) ∙ z)
    ];
    numbered = λ q h. elim (ℕ_discrete q p) [
      | yes e ↦ rw e (omega (arith, counter, ap (λ (c : Pcb). c.pid) new_slot))
      | no ne ↦ omega (
        arith,
        counter,
        t.numbered q (grown p q xs ne h),
        ap (λ (c : Pcb). c.pid) (old_slot q ne),
      )
    ];
  }

-- What `process_create` promises of the new process `p` and of the others.
pub record Created (s : Processes) (ticks p : ℕ) (xs : List ℕ) (s' : Processes) : Type 0 where
  pub slot : p < max_procs
  pub empty : (s.procs p).valid ≡ 0
  pub table : IsTable s' (xs ++ (p ∷ []))
  pub fresh : unlinked (s'.procs p) ≡ fresh_pcb ticks s.avail_pid
  pub asleep : (s'.procs p).status ≡ 0
  pub in_use : (s'.procs p).valid ≡ 1
  pub number : (s'.procs p).pid ≡ s.avail_pid
  pub waits_nowhere : (s'.procs p).wait_queue_next ≡ none
  pub no_files : (s'.procs p).files ≡ replicate 8 none
  pub no_memory :
      ((s'.procs p).stack ≡ 0)
      × ((s'.procs p).stacksize ≡ 0)
      × ((s'.procs p).text ≡ 0)
      × ((s'.procs p).textsize ≡ 0)
  pub times :
      ((s'.procs p).start_time ≡ ticks)
      × ((s'.procs p).last_scheduled ≡ ticks)
      × ((s'.procs p).user_time ≡ 0)
      × ((s'.procs p).kernel_time ≡ 0)
  pub idle : ((s'.procs p).running ≡ 0) × ((s'.procs p).exit_value ≡ 0)
  pub registers : ((s'.procs p).user_state.r ≡ replicate 15 0) × ((s'.procs p).user_state.pc ≡ 0)
  pub no_parent : (s'.procs p).parent ≡ none
  pub user_mode : (s'.procs p).user_state.spsr ≡ 0x10
  pub next_number : s'.avail_pid ≡ s.avail_pid + 1
  pub unique : (q : ℕ) → has q xs ≡ true → (s'.procs q).pid ≢ s.avail_pid
  pub others : (q : ℕ) → q ≢ p → unlinked (s'.procs q) ≡ unlinked (s.procs q)

created :
    (s : Processes) (ticks p : ℕ) (xs : List ℕ)
    → IsTable s xs
    → length xs < list_fuel
    → s.avail_pid < 2 ^ 31
    → p < max_procs
    → (s.procs p).valid ≡ 0
    → (s' : Processes) × (create_at s ticks (some p) ≡ some (some p, s')) × Created s ticks p xs s'
created s ticks p xs t lt small room empty =
    let (s', e, list, same, _, counter) =
      process_insert-append (with_fresh s ticks p) p xs (IsList-with_fresh s ticks p xs out t.list)
        out lt in
    let next : s'.avail_pid ≡ s.avail_pid + 1 = counter ∙ omega (arith, small) in
    let new = new_slot s ticks p xs t s' same next in
    let olds = old_slot s ticks p xs t s' same next in
    (
      s',
      rw e refl,
      record {
        slot = room;
        empty = empty;
        table = created-IsTable s ticks p xs t s' same next list;
        fresh = new;
        asleep = ap (λ (c : Pcb). c.status) new;
        in_use = ap (λ (c : Pcb). c.valid) new;
        number = ap (λ (c : Pcb). c.pid) new;
        waits_nowhere = ap (λ (c : Pcb). c.wait_queue_next) new;
        no_files = ap (λ (c : Pcb). c.files) new;
        no_memory = (
          ap (λ (c : Pcb). c.stack) new,
          ap (λ (c : Pcb). c.stacksize) new,
          ap (λ (c : Pcb). c.text) new,
          ap (λ (c : Pcb). c.textsize) new,
        );
        times = (
          ap (λ (c : Pcb). c.start_time) new,
          ap (λ (c : Pcb). c.last_scheduled) new,
          ap (λ (c : Pcb). c.user_time) new,
          ap (λ (c : Pcb). c.kernel_time) new,
        );
        idle = (ap (λ (c : Pcb). c.running) new, ap (λ (c : Pcb). c.exit_value) new);
        registers = (ap (λ (c : Pcb). c.user_state.r) new, ap (λ (c : Pcb). c.user_state.pc) new);
        no_parent = ap (λ (c : Pcb). c.parent) new;
        user_mode = ap (λ (c : Pcb). c.user_state.spsr) new;
        next_number = next;
        unique = λ q h z. absurd (
            omega
              (arith, z, t.numbered q h, ap (λ (c : Pcb). c.pid) (olds q (has-ne p q xs out h))));
        others = olds;
      },
    )
  where
    out : has p xs ≡ false
    out = elim (Bool-cases (has p xs)) [ inl hit ↦ absurd (t.valid p hit empty) | inr miss ↦ miss ]

-- Where the processes on the list are valid and numbered below avail_pid, and a slot is free,
-- process_create returns a process that sleeps, with the number avail_pid, which no other
-- process on the list has, the state of user mode, no files, no memory, no parent and its times
-- started, at the end of the list; the next number is one higher, the table stays well formed,
-- and only links of other processes change.
pub process_create-Created :
    (s : Processes) (ticks free : ℕ) (xs : List ℕ)
    → IsTable s xs
    → length xs < list_fuel
    → s.avail_pid < 2 ^ 31
    → free < max_procs
    → (s.procs free).valid ≡ 0
    → (p : ℕ) × (s' : Processes) × (process_create s ticks ≡ some (some p, s'))
      × Created s ticks p xs s'
unfolding process_create
process_create-Created s ticks free xs t lt small room unused =
    let (p, found, empty, first) =
      first_index-some (λ i. (s.procs i).valid == 0) max_procs 0 free (omega arith) room
        (ground (arith, unused)) in
    let (s', e, done) =
      created s ticks p xs t lt small (omega (arith, first, room))
        ((==_iff (s.procs p).valid 0).0 empty) in
    (p, s', ap (create_at s ticks) found ∙ e, done)
