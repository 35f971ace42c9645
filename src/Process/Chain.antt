-- ===== src/Process/Chain.antt =====
-- The doubly linked list of processes of kernel/processes/process.c as a list of slots.
use vmwos.Prelude.{
  ℕ, zero, suc, ◌+◌, ◌<◌, ◌≡◌, refl, Bool, true, false, ◌||◌, none, some, List, [], ◌∷◌, ◌++◌,
  arith, ◌==◌, if◌then◌else◌, length, ◌∙◌, sym, subst,
}
use vmwos.Process.{
  Ptr, Pcb, Processes, ready, list_fuel, get_totals_from, process_get_totals, lookup_from,
  process_lookup, last_from,
}

abbrev pub has : ℕ → List ℕ → Bool
has p [] = false
has p (x ∷ xs) = p == x || has p xs

abbrev pub Distinct : List ℕ → Type 0
Distinct [] = Unit {0}
Distinct (x ∷ xs) = (has x xs ≡ false) × Distinct xs

-- From `p` the links lead through `xs` to `NULL`.
abbrev pub Linked : (ℕ → Ptr) → Ptr → List ℕ → Type 0
Linked link p [] = p ≡ none
Linked link p (x ∷ xs) = (p ≡ some x) × Linked link (link x) xs

-- The same with `prev`, where `back` stands before the first.
abbrev pub Chained : (ℕ → Pcb) → ℕ → Ptr → List ℕ → Type 0
Chained procs back p [] = p ≡ none
Chained procs back p (x ∷ xs) =
    (p ≡ some x) × ((procs x).prev ≡ some back) × Chained procs x (procs x).next xs

-- The processes on the list. Nothing is said of `prev` at the first one.
abbrev pub IsList : Processes → List ℕ → Type 0
IsList s [] = s.proc_first ≡ none
IsList s (x ∷ xs) =
    (s.proc_first ≡ some x) × Chained s.procs x (s.procs x).next xs × Distinct (x ∷ xs)

-- A process but for its links.
abbrev pub unlinked : Pcb → Pcb
unlinked c = record c { next = none; prev = none }

abbrev pub SameButLinks : Processes → Processes → Type 0
SameButLinks s s' = (q : ℕ) → unlinked (s'.procs q) ≡ unlinked (s.procs q)

pub Linked-of_Chained :
    (procs : ℕ → Pcb) (back : ℕ) (p : Ptr) (xs : List ℕ)
    → Chained procs back p xs
    → Linked (λ q. (procs q).next) p xs
Linked-of_Chained procs back p [] h = h
Linked-of_Chained procs back p (x ∷ xs) (e, _, rest) =
    (e, Linked-of_Chained procs x (procs x).next xs rest)

pub Linked-of_IsList :
    (s : Processes) (xs : List ℕ) → IsList s xs → Linked (λ q. (s.procs q).next) s.proc_first xs
Linked-of_IsList s [] h = h
Linked-of_IsList s (x ∷ xs) (e, chain, _) = (e, Linked-of_Chained s.procs x _ xs chain)

-- The first of the listed slots that passes a test.
unfoldable pub find : (ℕ → Bool) → List ℕ → Ptr
find test [] = none
find test (x ∷ xs) = if test x then some x else find test xs

lookup_from-find :
    (test : ℕ → Bool) (procs : ℕ → Pcb) (fuel : ℕ) (p : Ptr) (xs : List ℕ)
    → Linked (λ q. (procs q).next) p xs
    → length xs < fuel
    → lookup_from test fuel procs p ≡ some (find test xs)
unfolding lookup_from find
lookup_from-find test procs zero p xs h lt = elim lt [ ]
lookup_from-find test procs (suc fuel) p [] h lt = rw h
lookup_from-find test procs (suc fuel) p (x ∷ xs) (e, rest) lt =
    rw (e, lookup_from-find test procs fuel (procs x).next xs rest (omega arith)) (ground arith)

-- On a well-linked list of at most 16 processes, process_lookup terminates and returns the first
-- process with the number, or NULL if there is none.
pub process_lookup-find :
    (s : Processes) (xs : List ℕ) (pid : ℕ)
    → IsList s xs
    → length xs < list_fuel
    → process_lookup s pid ≡ some (find (λ p. (s.procs p).pid == pid) xs)
unfolding process_lookup
process_lookup-find s xs pid h lt =
    lookup_from-find _ s.procs list_fuel s.proc_first xs (Linked-of_IsList s xs h) lt

-- How many of the listed slots pass a test.
pub count : (ℕ → Bool) → List ℕ → ℕ
count test [] = 0
count test (x ∷ xs) = (if test x then 1 else 0) + count test xs

get_totals_from-count :
    (procs : ℕ → Pcb) (fuel x total c : ℕ) (xs : List ℕ)
    → Linked (λ q. (procs q).next) (procs x).next xs
    → length xs < fuel
    → get_totals_from fuel procs (some x) total c
      ≡ some (total + length (x ∷ xs), c + count (λ p. (procs p).status == ready) (x ∷ xs))
unfolding get_totals_from count
get_totals_from-count procs zero x total c xs h lt = elim lt [ ]
get_totals_from-count procs (suc fuel) x total c [] h lt = rw (h, get_totals_from) (ground arith)
get_totals_from-count procs (suc fuel) x total c (y ∷ ys) (e, rest) lt =
    rw
      (
        e,
        get_totals_from,
        e,
        get_totals_from-count procs fuel y (total + 1)
            (if (procs x).status == ready then c + 1 else c) ys rest (omega arith),
      )
      (ground arith)

-- On a well-linked list that is not empty, of at most 17 processes, process_get_totals counts
-- the processes and those of them that are ready.
pub process_get_totals-count :
    (s : Processes) (x : ℕ) (xs : List ℕ)
    → IsList s (x ∷ xs)
    → length xs < list_fuel
    → process_get_totals s
      ≡ some (length (x ∷ xs), count (λ p. (s.procs p).status == ready) (x ∷ xs))
unfolding process_get_totals count
process_get_totals-count s x xs h lt = rw (h.0) (
    get_totals_from-count s.procs list_fuel x 0 0 xs (Linked-of_IsList s (x ∷ xs) h).1 lt
    ∙ ground arith)

abbrev pub last : ℕ → List ℕ → ℕ
last x [] = x
last x (y ∷ ys) = last y ys

pub last_from-last :
    (procs : ℕ → Pcb) (fuel x : ℕ) (xs : List ℕ)
    → Linked (λ q. (procs q).next) (procs x).next xs
    → length xs < fuel
    → last_from fuel procs x ≡ some (last x xs)
unfolding last_from
last_from-last procs zero x xs h lt = elim lt [ ]
last_from-last procs (suc fuel) x [] h lt = rw (h, last_from)
last_from-last procs (suc fuel) x (y ∷ ys) (e, rest) lt =
    rw (e, last_from) (last_from-last procs fuel y ys rest (omega arith))

pub has-last : (x : ℕ) (xs : List ℕ) → has (last x xs) (x ∷ xs) ≡ true
has-last x [] = ground arith
has-last x (y ∷ ys) = ground (arith, has-last y ys)

pub has-append : (q : ℕ) (xs ys : List ℕ) → has q (xs ++ ys) ≡ (has q xs || has q ys)
has-append q [] ys = refl
has-append q (x ∷ xs) ys = ground (arith, has-append q xs ys)

pub Distinct-append :
    (p : ℕ) (xs : List ℕ) → Distinct xs → has p xs ≡ false → Distinct (xs ++ (p ∷ []))
Distinct-append p [] d out = (refl, tt)
Distinct-append p (x ∷ xs) d out =
    (ground (arith, has-append x xs (p ∷ [])), Distinct-append p xs d.1 (ground arith))

-- A change of processes that keeps their links keeps the list.
Chained-kept :
    (procs procs' : ℕ → Pcb) (back : ℕ) (p : Ptr) (xs : List ℕ)
    → ((q : ℕ) → ((procs' q).next ≡ (procs q).next) × ((procs' q).prev ≡ (procs q).prev))
    → Chained procs back p xs
    → Chained procs' back p xs
Chained-kept procs procs' back p [] same h = h
Chained-kept procs procs' back p (x ∷ xs) same (e, b, rest) = (
  e,
  (same x).1 ∙ b,
  subst (λ n. Chained procs' x n xs) (sym (same x).0)
      (Chained-kept procs procs' x (procs x).next xs same rest),
)

pub IsList-kept :
    (s : Processes) (procs : ℕ → Pcb) (xs : List ℕ)
    → ((q : ℕ) → ((procs q).next ≡ (s.procs q).next) × ((procs q).prev ≡ (s.procs q).prev))
    → IsList s xs
    → IsList (record s { procs = procs }) xs
IsList-kept s procs [] same h = h
IsList-kept s procs (x ∷ xs) same (e, chain, distinct) = (
  e,
  subst (λ n. Chained procs x n xs) (sym (same x).0)
      (Chained-kept s.procs procs x (s.procs x).next xs same chain),
  distinct,
)
