-- ===== src/Process/WaitQueue/Queue.antt =====
-- Wait queues of kernel/processes/waitqueue.c as lists of slots.
use vmwos.Prelude.{
  ℕ, zero, suc, ◌≤◌, ◌<◌, ◌≡◌, refl, ◌≢◌, true, false, none, some, List, [], ◌∷◌, ◌++◌, arith,
  if◌then◌else◌, length, ◌∙◌, sym, subst, Bool-cases, inl, inr, ne→==, ==_refl,
}
use native.Mathlib.Decide.{ℕ_discrete}
use vmwos.Process.{Ptr, Pcb, Processes, modify, ready, list_fuel}
use vmwos.Process.Chain.{has, Distinct, Linked, last, has-last, Distinct-append}
use vmwos.Process.WaitQueue.{append_from, enqueue, wake_from, wait_queue_wake}

abbrev pub waiting : (ℕ → Pcb) → ℕ → Ptr
waiting procs q = (procs q).wait_queue_next

-- From `first` on, these processes wait.
abbrev pub Waits : (ℕ → Pcb) → Ptr → List ℕ → Type 0
Waits procs first xs = Linked (waiting procs) first xs × Distinct xs

-- A process that is woken.
abbrev pub awake : Pcb → Pcb
awake c = record c { status = ready; wait_queue_next = none }

-- Links that agree on a list lead through it alike.
pub Linked-same :
    (link link' : ℕ → Ptr) (p : Ptr) (xs : List ℕ)
    → ((q : ℕ) → has q xs ≡ true → link' q ≡ link q)
    → Linked link p xs
    → Linked link' p xs
Linked-same link link' p [] same h = h
Linked-same link link' p (x ∷ xs) same (e, rest) = (
  e,
  subst (λ r. Linked link' r xs) (sym (same x (ground arith)))
      (Linked-same link link' (link x) xs (λ q h. same q (ground arith)) rest),
)

has-ne : (p q : ℕ) (xs : List ℕ) → has p xs ≡ false → has q xs ≡ true → q ≢ p
has-ne p q xs out hit e = cc

wake_from_lem :
    (fuel : ℕ) (procs : ℕ → Pcb) (first : Ptr) (xs : List ℕ)
    → Linked (waiting procs) first xs
    → Distinct xs
    → length xs < fuel
    → (procs' : ℕ → Pcb) × (wake_from fuel procs first ≡ some procs')
      × ((q : ℕ) → procs' q ≡ (if has q xs then awake (procs q) else procs q))
unfolding wake_from
wake_from_lem zero procs first xs h d lt = elim lt [ ]
wake_from_lem (suc fuel) procs first [] h d lt = (procs, rw h refl, λ q. refl)
wake_from_lem (suc fuel) procs first (x ∷ xs) (e, rest) (out, d) lt =
    let (procs', e', flags) =
      wake_from_lem fuel (modify procs x awake) (procs x).wait_queue_next xs
        (Linked-same (waiting procs) (waiting (modify procs x awake)) (procs x).wait_queue_next xs
          (λ q h. rw (ne→== q x (has-ne x q xs out h), waiting) refl) rest)
        d (omega arith) in
    (procs', rw e e', λ q. flags q ∙ both q)
  where
    both :
        (q : ℕ)
        → (if has q xs then awake (modify procs x awake q) else modify procs x awake q)
          ≡ (if has q (x ∷ xs) then awake (procs q) else procs q)
    both q = elim (ℕ_discrete q x) [
      | yes e ↦ rw (e, out, ==_refl x) refl
      | no ne ↦ rw (ne→== q x ne) refl
    ]

-- wait_queue_wake on a well-linked queue makes every process of the queue ready and takes it off
-- the queue, which is empty afterwards, and changes no other process.
pub wait_queue_wake-awake :
    (s : Processes) (first : Ptr) (xs : List ℕ)
    → Waits s.procs first xs
    → length xs < list_fuel
    → (s' : Processes) × (wait_queue_wake s first ≡ some (none, s'))
      × ((q : ℕ) → s'.procs q ≡ (if has q xs then awake (s.procs q) else s.procs q))
      × (s'.proc_first ≡ s.proc_first)
      × (s'.current ≡ s.current)
unfolding wait_queue_wake
wait_queue_wake-awake s first xs (h, d) lt =
    let (procs', e, flags) = wake_from_lem list_fuel s.procs first xs h d lt in
    (record s { procs = procs' }, rw e refl, flags, refl, refl)

-- The links after `p` is put behind `z`.
abbrev linked_on : (ℕ → Pcb) → ℕ → ℕ → ℕ → Pcb
linked_on procs z p = modify procs z (λ c. record c { wait_queue_next = some p })

append_from-new :
    (procs : ℕ → Pcb) (p fuel x : ℕ) (xs : List ℕ)
    → Linked (waiting procs) (waiting procs x) xs
    → has p (x ∷ xs) ≡ false
    → length xs < fuel
    → append_from fuel procs x p ≡ some (linked_on procs (last x xs) p)
unfolding append_from
append_from-new procs p zero x xs h out lt = elim lt [ ]
append_from-new procs p (suc fuel) x [] h out lt =
    rw (ne→== x p (λ e. absurd (ground (arith, e, out))), h) refl
append_from-new procs p (suc fuel) x (y ∷ ys) (e, rest) out lt =
    rw (ne→== x p (λ e'. absurd (ground (arith, e', out))), e)
      (append_from-new procs p fuel y ys rest (ground (arith, out)) (omega (arith, lt)))

append_from-old :
    (procs : ℕ → Pcb) (p fuel x : ℕ) (xs : List ℕ)
    → Linked (waiting procs) (waiting procs x) xs
    → has p (x ∷ xs) ≡ true
    → length xs < fuel
    → append_from fuel procs x p ≡ some procs
unfolding append_from
append_from-old procs p zero x xs h hit lt = elim lt [ ]
append_from-old procs p (suc fuel) x [] h hit lt = elim (ℕ_discrete x p) [
  | yes same ↦ rw (same, ==_refl p) refl
  | no ne ↦ absurd (ground (arith, hit, ne→== p x (λ q. ne (sym q))))
]
append_from-old procs p (suc fuel) x (y ∷ ys) (e, rest) hit lt = elim (ℕ_discrete x p) [
  | yes same ↦ rw (same, ==_refl p) refl
  | no ne ↦
      rw (ne→== x p ne, e)
        (append_from-old procs p fuel y ys rest (ground (arith, hit, ne→== p x (λ q. ne (sym q))))
          (omega (arith, lt)))
]

Linked-linked_on :
    (procs : ℕ → Pcb) (p x : ℕ) (xs : List ℕ)
    → Linked (waiting procs) (waiting procs x) xs
    → Distinct (x ∷ xs)
    → has p (x ∷ xs) ≡ false
    → waiting procs p ≡ none
    → let procs' = linked_on procs (last x xs) p in
      Linked (waiting procs') (waiting procs' x) (xs ++ (p ∷ []))
Linked-linked_on procs p x [] h d out free = (
  rw (==_refl x, waiting) refl,
  rw (ne→== p x (λ e. absurd (ground (arith, e, out))), waiting) free,
)
Linked-linked_on procs p x (y ∷ ys) (e, rest) (out', d) out free = (
  rw (ne→== x (last y ys) (λ q. absurd (ground (arith, q, out', has-last y ys))), waiting) e,
  Linked-linked_on procs p y ys rest d (ground (arith, out)) free,
)

-- The queue after `wait_queue_add` puts `p` on it: `p` is at the end, once.
abbrev pub queued : ℕ → List ℕ → List ℕ
queued p xs = if has p xs then xs else xs ++ (p ∷ [])

-- The queueing part of wait_queue_add puts a process with no link of its own behind those that
-- wait, leaves the queue as it is if the process waits already, keeps the queue well linked, and
-- changes nothing but queue links.
pub enqueue-queued :
    (procs : ℕ → Pcb) (first : Ptr) (xs : List ℕ) (p : ℕ)
    → Waits procs first xs
    → length xs ≤ list_fuel
    → (has p xs ≡ false → (procs p).wait_queue_next ≡ none)
    → (first' : Ptr) × (procs' : ℕ → Pcb) × (enqueue procs first p ≡ some (first', procs'))
      × Waits procs' first' (queued p xs)
      × ((q : ℕ)
          → record (procs' q) { wait_queue_next = none }
            ≡ record (procs q) { wait_queue_next = none })
unfolding enqueue
enqueue-queued procs first [] p (h, d) lt free =
    (some p, procs, rw h refl, ((refl, free refl), (refl, tt)), λ q. refl)
enqueue-queued procs first (x ∷ xs) p ((e, rest), d) lt free = elim (Bool-cases (has p (x ∷ xs))) [
  | inl hit ↦ (
    some x,
    procs,
    rw (e, append_from-old procs p list_fuel x xs rest hit (omega (arith, lt))) refl,
    rw hit ((refl, rest), d),
    λ q. refl,
  )
  | inr out ↦ (
    some x,
    linked_on procs (last x xs) p,
    rw (e, append_from-new procs p list_fuel x xs rest out (omega (arith, lt))) refl,
    rw out (
      (refl, Linked-linked_on procs p x xs rest d out (free out)),
      Distinct-append p (x ∷ xs) d out,
    ),
    λ q. ground arith,
  )
]
