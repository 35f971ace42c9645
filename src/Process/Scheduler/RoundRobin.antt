-- ===== src/Process/Scheduler/RoundRobin.antt =====
-- `schedule` of kernel/processes/scheduler.c picks the next process that is ready, in the cyclic
-- order of the list, and the idle process only if none is.
use vmwos.Prelude.{
  ℕ, zero, suc, ◌≤◌, ◌≡◌, refl, ◌≢◌, false, none, some, List, [], ◌∷◌, ◌++◌, arith, ◌==◌,
  if◌then◌else◌, length, length-append, ap, ◌∙◌, ne→==, ==_refl, sym, ◌+◌, ◌-◌, ◌%◌, ◌^◌,
}
use vmwos.Process.{Ptr, Processes, ready, list_fuel}
use vmwos.Process.Chain.{has, Distinct, Linked, IsList, Linked-of_IsList, has-append}
use vmwos.Process.Scheduler.{advance, next_ready, switch_to, schedule}

-- The first ready process of a list of candidates, else the idle one.
unfoldable pub pick : Processes → ℕ → List ℕ → ℕ
pick s idle [] = idle
pick s idle (p ∷ ps) = if (s.procs p).status == ready then p else pick s idle ps

-- From `proc` the loop visits these processes, the last of which is `orig`.
abbrev Route : Processes → ℕ → ℕ → List ℕ → Type 0
Route s orig proc [] = ⊥
Route s orig proc (p ∷ []) = (advance s proc ≡ some (some p)) × (p ≡ orig)
Route s orig proc (p ∷ q ∷ r) =
    (advance s proc ≡ some (some p)) × (p ≢ orig) × Route s orig p (q ∷ r)

next_ready-pick :
    (s : Processes) (idle orig fuel proc : ℕ) (path : List ℕ)
    → s.proc_first ≡ some idle
    → Route s orig proc path
    → length path ≤ fuel
    → next_ready fuel s orig proc ≡ some (pick s idle path)
unfolding next_ready pick
next_ready-pick s idle orig fuel proc [] first route lt = absurd route
next_ready-pick s idle orig zero proc (p ∷ []) first route lt = absurd (omega arith)
next_ready-pick s idle orig zero proc (p ∷ q ∷ r) first route lt = absurd (omega arith)
next_ready-pick s idle orig (suc fuel) proc (p ∷ []) first (e, at_end) lt = rw e (ground arith)
next_ready-pick s idle orig (suc fuel) proc (p ∷ q ∷ r) first (e, ne, rest) lt =
    let ih = next_ready-pick s idle orig fuel p (q ∷ r) first rest (omega arith) in
    rw (e, ne→== p orig ne, ih) (ground arith)

-- One step along the list.
Route-cons :
    (s : Processes) (orig proc p : ℕ) (path : List ℕ)
    → advance s proc ≡ some (some p)
    → p ≢ orig
    → Route s orig p path
    → Route s orig proc (p ∷ path)
Route-cons s orig proc p [] e ne route = absurd route
Route-cons s orig proc p (q ∷ r) e ne route = (e, ne, route)

-- A step from `proc` that is the first step from `f` as well.
Route-start :
    (s : Processes) (orig proc f : ℕ) (path : List ℕ)
    → advance s proc ≡ advance s f
    → Route s orig f path
    → Route s orig proc path
Route-start s orig proc f [] e route = route
Route-start s orig proc f (p ∷ []) e (a, at_end) = (e ∙ a, at_end)
Route-start s orig proc f (p ∷ q ∷ r) e (a, ne, rest) = (e ∙ a, ne, rest)

abbrev next_of : Processes → ℕ → Ptr
next_of s p = (s.procs p).next

advance-next : (s : Processes) (p q : ℕ) → next_of s p ≡ some q → advance s p ≡ some (some q)
unfolding advance
advance-next s p q e = rw (e, advance)

advance-wrap :
    (s : Processes) (p f : ℕ)
    → next_of s p ≡ none
    → s.proc_first ≡ some f
    → advance s p ≡ some (next_of s f)
unfolding advance
advance-wrap s p f e first = rw (e, advance) (rw (first, advance))

-- Along the list from `proc` up to `orig`.
Route-up_to :
    (s : Processes) (orig proc : ℕ) (before after : List ℕ)
    → Linked (next_of s) (next_of s proc) (before ++ (orig ∷ after))
    → has orig before ≡ false
    → Route s orig proc (before ++ (orig ∷ []))
Route-up_to s orig proc [] after (e, rest) out = (advance-next s proc orig e, refl)
Route-up_to s orig proc (x ∷ before) after (e, rest) out =
    Route-cons s orig proc x (before ++ (orig ∷ [])) (advance-next s proc x e) (ground arith)
      (Route-up_to s orig x before after rest (ground arith))

advance-first :
    (s : Processes) (proc f orig : ℕ) (before after : List ℕ)
    → s.proc_first ≡ some f
    → next_of s proc ≡ none
    → Linked (next_of s) (next_of s f) (before ++ (orig ∷ after))
    → advance s proc ≡ advance s f
advance-first s proc f orig [] after first e (n, _) =
    advance-wrap s proc f e first ∙ ap some n ∙ sym (advance-next s f orig n)
advance-first s proc f orig (x ∷ before) after first e (n, _) =
    advance-wrap s proc f e first ∙ ap some n ∙ sym (advance-next s f x n)

-- From `proc` to the end of the list, then from the process behind `f` up to `orig`.
Route-round :
    (s : Processes) (orig proc f : ℕ) (rest before after : List ℕ)
    → s.proc_first ≡ some f
    → Linked (next_of s) (next_of s proc) rest
    → Linked (next_of s) (next_of s f) (before ++ (orig ∷ after))
    → has orig rest ≡ false
    → has orig before ≡ false
    → Route s orig proc (rest ++ (before ++ (orig ∷ [])))
Route-round s orig proc f [] before after first e h out out' =
    Route-start s orig proc f (before ++ (orig ∷ []))
      (advance-first s proc f orig before after first e h)
      (Route-up_to s orig f before after h out')
Route-round s orig proc f (x ∷ rest) before after first (e, h') h out out' =
    Route-cons s orig proc x (rest ++ (before ++ (orig ∷ []))) (advance-next s proc x e)
      (ground arith) (Route-round s orig x f rest before after first h' h (ground arith) out')

-- The list from `cur` on.
Linked-after :
    (s : Processes) (p cur : ℕ) (before after : List ℕ)
    → Linked (next_of s) (next_of s p) (before ++ (cur ∷ after))
    → Linked (next_of s) (next_of s cur) after
Linked-after s p cur [] after (_, h) = h
Linked-after s p cur (x ∷ before) after (_, h) = Linked-after s x cur before after h

Distinct-at :
    (cur : ℕ) (before after : List ℕ)
    → Distinct (before ++ (cur ∷ after))
    → (has cur before ≡ false) × (has cur after ≡ false)
Distinct-at cur [] after d = (refl, d.0)
Distinct-at cur (x ∷ before) after d =
    let (out, out') = Distinct-at cur before after d.1 in
    (ground (arith, has-append x before (cur ∷ after)), out')

length_round :
    (cur : ℕ) (before after : List ℕ)
    → length (after ++ (before ++ (cur ∷ []))) ≡ length (before ++ (cur ∷ after))
length_round cur before after = omega (
  arith,
  length-append after (before ++ (cur ∷ [])),
  length-append before (cur ∷ []),
  length-append before (cur ∷ after),
)

-- From `cur` to `q` at `ticks`: `q` runs, the time of `cur` since it was scheduled is added to its
-- user time, and `q` is scheduled now.
pub record Switched (s : Processes) (ticks cur q : ℕ) (s' : Processes) : Type 0 where
  pub runs : s'.current ≡ some q
  pub first : s'.proc_first ≡ s.proc_first
  pub numbers : s'.avail_pid ≡ s.avail_pid
  pub left :
      cur ≢ q
      → s'.procs cur ≡ record (s.procs cur) {
        user_time =
            ((s.procs cur).user_time + (ticks + 2 ^ 32 - (s.procs cur).last_scheduled)) % 2 ^ 32;
      }
  pub entered : cur ≢ q → s'.procs q ≡ record (s.procs q) { last_scheduled = ticks }
  pub stayed :
      cur ≡ q
      → s'.procs q ≡ record (s.procs q) {
        user_time =
            ((s.procs q).user_time + (ticks + 2 ^ 32 - (s.procs q).last_scheduled)) % 2 ^ 32;
        last_scheduled = ticks;
      }
  pub others : (p : ℕ) → p ≢ cur → p ≢ q → s'.procs p ≡ s.procs p

switch_to-Switched :
    (s : Processes) (ticks cur q : ℕ) → Switched s ticks cur q (switch_to s ticks cur q)
unfolding switch_to
switch_to-Switched s ticks cur q = record {
  runs = refl;
  first = refl;
  numbers = refl;
  left = λ ne. rw (ne→== cur q ne, ==_refl cur) refl;
  entered = λ ne. rw (==_refl q, ne→== q cur (λ e. ne (sym e))) refl;
  stayed = λ e. rw (e, ==_refl q) refl;
  others = λ p ne ne'. rw (ne→== p cur ne, ne→== p q ne') refl;
}

-- When a process other than the idle one runs, schedule switches to the first ready process
-- behind it on the list, going round at the end without the idle process and trying the running
-- process itself last; if none is ready the idle process runs.
schedule-switch_to :
    (s : Processes) (ticks idle cur : ℕ) (before after : List ℕ)
    → IsList s (idle ∷ (before ++ (cur ∷ after)))
    → length (before ++ (cur ∷ after)) ≤ list_fuel
    → s.current ≡ some cur
    → schedule s ticks
      ≡ some (switch_to s ticks cur (pick s idle (after ++ (before ++ (cur ∷ [])))))
unfolding schedule
schedule-switch_to s ticks idle cur before after h lt now =
    let (out, out') = Distinct-at cur before after h.2.1 in
    let links = (Linked-of_IsList s (idle ∷ (before ++ (cur ∷ after))) h).1 in
    let route =
      Route-round s cur cur idle after before after h.0 (Linked-after s idle cur before after links)
        links out' out in
    let found =
      next_ready-pick s idle cur list_fuel cur (after ++ (before ++ (cur ∷ []))) h.0 route
        (omega (arith, length_round cur before after)) in
    ground (arith, found, has-append idle before (cur ∷ after))

-- When a process other than the idle one runs, schedule switches to the first ready process
-- behind it on the list, going round at the end without the idle process and trying the running
-- process itself last; if none is ready the idle process runs. The process that is picked is
-- then the current one and was scheduled at this tick, the one that ran has the ticks since it
-- was scheduled added to its user time, modulo 2^32, and nothing else changes.
pub schedule-pick :
    (s : Processes) (ticks idle cur : ℕ) (before after : List ℕ)
    → IsList s (idle ∷ (before ++ (cur ∷ after)))
    → length (before ++ (cur ∷ after)) ≤ list_fuel
    → s.current ≡ some cur
    → (s' : Processes) × (schedule s ticks ≡ some s')
      × Switched s ticks cur (pick s idle (after ++ (before ++ (cur ∷ [])))) s'
schedule-pick s ticks idle cur before after h lt now = (
  _,
  schedule-switch_to s ticks idle cur before after h lt now,
  switch_to-Switched s ticks cur (pick s idle (after ++ (before ++ (cur ∷ [])))),
)

-- When the idle process runs and another process is on the list, schedule switches to the first
-- ready process in the order that begins behind the second process of the list, and to the idle
-- process if none is ready.
pub schedule-pick_idle :
    (s : Processes) (ticks idle p : ℕ) (after : List ℕ)
    → IsList s (idle ∷ p ∷ after)
    → length (p ∷ after) ≤ list_fuel
    → s.current ≡ some idle
    → schedule s ticks ≡ some (switch_to s ticks idle (pick s idle (after ++ (p ∷ []))))
unfolding schedule
schedule-pick_idle s ticks idle p after h lt now =
    let links = (Linked-of_IsList s (idle ∷ p ∷ after) h).1 in
    let route = Route-round s p p idle after [] after h.0 links.1 links h.2.1.0 refl in
    let found =
      next_ready-pick s idle p list_fuel p (after ++ (p ∷ [])) h.0 route
        (omega (arith, length_round p [] after)) in
    ground (arith, found)
