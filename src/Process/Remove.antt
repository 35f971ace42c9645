-- ===== src/Process/Remove.antt =====
-- `process_remove` of kernel/processes/process.c on the list of slots.
use vmwos.Prelude.{
  ℕ, zero, suc, ◌<◌, ◌≡◌, refl, true, none, some, List, [], ◌∷◌, ◌++◌, arith, length, ap, ◌∙◌,
  ==_refl, ne→==,
}
use vmwos.Process.{
  Ptr, Pcb, Processes, modify, list_fuel, unlink, remove_from, process_remove, remove_with,
}
use vmwos.Process.Chain.{
  has, Distinct, Linked, Chained, IsList, SameButLinks, Linked-of_IsList, last, has-last,
  has-append,
}

-- What `unlink` makes of the table, where `q` is the successor of `p`.
abbrev removed : (ℕ → Pcb) → ℕ → ℕ → Ptr → ℕ → Pcb
removed procs before p none = modify procs before (λ c. record c { next = none })
removed procs before p (some after) =
    let procs' = modify procs before (λ c. record c { next = some after }) in
    modify procs' after (λ c. record c { prev = (procs' p).prev })

abbrev head_of : List ℕ → Ptr
head_of [] = none
head_of (x ∷ xs) = some x

-- A chain depends on its members, and on where it starts.
Chained-frame :
    (procs procs' : ℕ → Pcb) (y : ℕ) (ys : List ℕ)
    → ((q : ℕ) → has q ys ≡ true → procs' q ≡ procs q)
    → (procs' y).next ≡ (procs y).next
    → Chained procs y (procs y).next ys
    → Chained procs' y (procs' y).next ys
Chained-frame procs procs' y [] same e h = e ∙ h
Chained-frame procs procs' y (z ∷ zs) same e (n, back, rest) =
    let at_z : procs' z ≡ procs z = same z (ground arith) in
    (
      e ∙ n,
      ap (λ (c : Pcb). c.prev) at_z ∙ back,
      Chained-frame procs procs' z zs (λ q h. same q (ground arith)) (ap (λ (c : Pcb). c.next) at_z)
          rest,
    )

Chained-removed :
    (procs : ℕ → Pcb) (p x : ℕ) (before after : List ℕ)
    → Chained procs x (procs x).next (before ++ (p ∷ after))
    → Distinct (x ∷ (before ++ (p ∷ after)))
    → let procs' = removed procs (last x before) p (head_of after) in
      Chained procs' x (procs' x).next (before ++ after)
Chained-removed procs p x [] [] (e, back, h) d = ground arith
Chained-removed procs p x [] (y ∷ ys) (e, back, (n, back', rest)) d = (
  ground arith,
  ground arith,
  Chained-frame procs (removed procs x p (some y)) y ys (λ q h. ground arith) (ground arith) rest,
)
Chained-removed procs p x (z ∷ before) [] (e, back, rest) d = (
  ground (arith, has-last z before, has-append x before (p ∷ [])),
  ground arith,
  Chained-removed procs p z before [] rest d.1,
)
Chained-removed procs p x (z ∷ before) (y ∷ ys) (e, back, rest) d = (
  ground (arith, has-last z before, has-append x before (p ∷ y ∷ ys)),
  ground (arith, has-append z before (p ∷ y ∷ ys)),
  Chained-removed procs p z before (y ∷ ys) rest d.1,
)

remove_from-found :
    (fuel : ℕ) (s : Processes) (p : ℕ) (q : Ptr) (xs : List ℕ)
    → Linked (λ r. (s.procs r).next) q xs
    → has p xs ≡ true
    → length xs < fuel
    → remove_from fuel s p q ≡ unlink s p
unfolding remove_from
remove_from-found zero s p q xs h m lt = elim lt [ ]
remove_from-found (suc fuel) s p q [] h m lt = cc
remove_from-found (suc fuel) s p q (x ∷ xs) (e, rest) m lt =
    rw e (ground (arith, remove_from-found fuel s p (s.procs x).next xs rest))

unlink-removed :
    (s : Processes) (p before : ℕ) (after : List ℕ)
    → (s.procs p).prev ≡ some before
    → (s.procs p).next ≡ head_of after
    → unlink s p ≡ some (record s { procs = removed s.procs before p (head_of after) })
unfolding unlink
unlink-removed s p before [] back e = simp (back, e)
unlink-removed s p before (y ∷ ys) back e = simp (back, e)

-- What leads to `p` and away from it.
ends_of :
    (procs : ℕ → Pcb) (p x : ℕ) (before after : List ℕ)
    → Chained procs x (procs x).next (before ++ (p ∷ after))
    → ((procs p).prev ≡ some (last x before)) × ((procs p).next ≡ head_of after)
ends_of procs p x [] [] (e, back, h) = (back, h)
ends_of procs p x [] (y ∷ ys) (e, back, rest) = (back, rest.0)
ends_of procs p x (z ∷ before) after (e, back, rest) = ends_of procs p z before after rest

Distinct-removed :
    (p : ℕ) (before after : List ℕ) → Distinct (before ++ (p ∷ after)) → Distinct (before ++ after)
Distinct-removed p [] after d = d.1
Distinct-removed p (x ∷ before) after d = (
  ground (arith, has-append x before (p ∷ after), has-append x before after),
  Distinct-removed p before after d.1,
)

SameButLinks-removed :
    (s : Processes) (before p : ℕ) (q : Ptr)
    → SameButLinks s (record s { procs = removed s.procs before p q })
SameButLinks-removed s before p none r = ground arith
SameButLinks-removed s before p (some after) r = ground arith

IsList-first :
    (s : Processes) (p : ℕ) (after : List ℕ)
    → IsList s (p ∷ after)
    → IsList (record s { proc_first = (s.procs p).next }) after
IsList-first s p [] (e, h, d) = h
IsList-first s p (y ∷ ys) (e, (n, _, rest), d) = (n, rest, d.1)

-- process_remove takes a process that is on the doubly linked list off it, keeps the order of
-- the others, leaves a well-linked list, and changes nothing but links.
pub process_remove-append :
    (s : Processes) (p : ℕ) (before after : List ℕ)
    → IsList s (before ++ (p ∷ after))
    → length (before ++ (p ∷ after)) < list_fuel
    → (s' : Processes) × (process_remove s p ≡ some (0, s'))
      × IsList s' (before ++ after)
      × SameButLinks s s'
      × (s'.current ≡ s.current)
unfolding process_remove remove_with
process_remove-append s p [] after h lt = (
  record s { proc_first = (s.procs p).next },
  ap (remove_with s p) h.0 ∙ rw (==_refl p),
  IsList-first s p after h,
  λ q. refl,
  refl,
)
process_remove-append s p (x ∷ before) after h lt =
    let (back, forth) = ends_of s.procs p x before after h.1 in
    let found =
      remove_from-found list_fuel s p (some x) (x ∷ (before ++ (p ∷ after)))
        (refl, (Linked-of_IsList s (x ∷ (before ++ (p ∷ after))) h).1)
        (ground (arith, has-append p before (p ∷ after))) lt in
    (
      record s { procs = removed s.procs (last x before) p (head_of after) },
      ap (remove_with s p) h.0
          ∙ rw (
            ne→== x p (λ e. ground (arith, has-append x before (p ∷ after))),
            found,
            unlink-removed s p (last x before) after back forth,
          ),
      (
        h.0,
        Chained-removed s.procs p x before after h.1 h.2,
        Distinct-removed p (x ∷ before) after h.2,
      ),
      SameButLinks-removed s (last x before) p (head_of after),
      refl,
    )
