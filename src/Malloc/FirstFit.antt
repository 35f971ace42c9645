-- ===== src/Malloc/FirstFit.antt =====
-- Which block `malloc` returns, with the list of blocks as a list of addresses.
use vmwos.Prelude.{
  ℕ, zero, suc, ◌+◌, ◌-◌, ◌%◌, ◌^◌, ◌≤◌, ◌<◌, ◌≡◌, ◌≢◌, refl, Bool, true, false, none, some, List,
  [], ◌∷◌, ◌++◌, arith, ◌==◌, put, length, ◌∙◌, sym, subst, Bool-cases, inl, inr, ne→==, ==_refl,
  fun_ext,
}
use native.Mathlib.Decide.{ℕ_discrete}
use vmwos.Process.{Ptr}
use vmwos.Process.Chain.{has, Distinct, Linked, find, last, has-last, Distinct-append}
use vmwos.Malloc.{
  BlockMeta, Heap, meta_size, magic_used, fits, find_free_block, link_last, new_block, behind,
  request_space, take_block, allocate_block, malloc,
}

abbrev pub links : (ℕ → BlockMeta) → ℕ → Ptr
links blocks b = (blocks b).next

-- The list of blocks.
abbrev pub IsHeap : {K : Type 0} → Heap K → List ℕ → Type 0
IsHeap h xs = Linked (links h.blocks) h.global_base xs × Distinct xs

-- A list that is extended at its end, by its links.
Linked-extended :
    (link link' : ℕ → Ptr) (p x : ℕ) (xs : List ℕ)
    → Linked link (link x) xs
    → Distinct (x ∷ xs)
    → ((q : ℕ) → has q (x ∷ xs) ≡ true → q ≢ last x xs → link' q ≡ link q)
    → link' (last x xs) ≡ some p
    → link' p ≡ none
    → Linked link' (link' x) (xs ++ (p ∷ []))
Linked-extended link link' p x [] h d same end new = (end, new)
Linked-extended link link' p x (y ∷ ys) (e, rest) (out, d) same end new =
    let inner : x ≢ last y ys = λ q. absurd (ground (arith, q, out, has-last y ys)) in
    (
      same x (rw (==_refl x) refl) inner ∙ e,
      Linked-extended link link' p y ys rest d (λ q hit ne. same q (ground (arith, hit)) ne) end
          new,
    )

-- The search finds the first block that fits, and otherwise leaves the last block.
find_free_block-find :
    (fuel : ℕ) (blocks : ℕ → BlockMeta) (p : Ptr) (l size : ℕ) (xs : List ℕ)
    → Linked (links blocks) p xs
    → length xs < fuel
    → (l' : ℕ) × (find_free_block fuel blocks p l size
        ≡ some (find (λ b. fits size (blocks b)) xs, l'))
      × (find (λ b. fits size (blocks b)) xs ≡ none → l' ≡ last l xs)
unfolding find_free_block find
find_free_block-find zero blocks p l size xs h lt = elim lt [ ]
find_free_block-find (suc fuel) blocks p l size [] h lt = (l, rw h refl, λ _. refl)
find_free_block-find (suc fuel) blocks p l size (x ∷ xs) (e, rest) lt =
    let (l', made, end) =
      find_free_block-find fuel blocks (links blocks x) x size xs rest (omega (arith, lt)) in
    elim (Bool-cases (fits size (blocks x))) [
      | inl hit ↦ (l, rw (e, hit) refl, rw hit (λ q. absurd cc))
      | inr miss ↦ (l', rw (e, miss) made, rw miss end)
    ]

find-holds : (test : ℕ → Bool) (xs : List ℕ) (b : ℕ) → find test xs ≡ some b → test b ≡ true
unfolding find
find-holds test [] b found = absurd cc
find-holds test (x ∷ xs) b found = elim (Bool-cases (test x)) [
  | inl hit ↦ subst (λ q. test q ≡ true) (some-inj x b (sym (rw hit refl) ∙ found)) hit
  | inr miss ↦ find-holds test xs b (sym (rw miss refl) ∙ found)
]
  where
    some-inj : (q r : ℕ) → some q ≡ some r → q ≡ r
    some-inj q r e = cc

-- A block but for its link.
abbrev pub unlinked : BlockMeta → BlockMeta
unlinked c = record c { next = none }

module _ {K : Type 0} (vmwos_malloc : K → ℕ → ℕ × K) where
  -- What the kernel answers to a request for a block of this size.
  abbrev pub request_of : Heap K → ℕ → ℕ
  request_of h size = (vmwos_malloc h.kernel ((size + meta_size) % 2 ^ 32)).0

  -- The blocks after the first fit is taken.
  abbrev pub taken : Heap K → ℕ → Heap K
  taken h b = record h {
    blocks = put h.blocks b (record (h.blocks b) { free = 0; magic = magic_used });
  }

  links-taken : (h : Heap K) (b q : ℕ) → links (taken h b).blocks q ≡ links h.blocks q
  links-taken h b q = elim (ℕ_discrete q b) [
    | yes e ↦ rw (e, ==_refl b, links) refl
    | no ne ↦ rw (ne→== q b ne, links) refl
  ]

  taken-IsHeap : (h : Heap K) (b : ℕ) (xs : List ℕ) → IsHeap h xs → IsHeap (taken h b) xs
  taken-IsHeap h b xs (linked, d) = (
    subst (λ link. Linked link h.global_base xs) (fun_ext (λ q. sym (links-taken h b q))) linked,
    d,
  )

  -- On a well-linked list of blocks with one that is free and large enough, malloc of a size
  -- above 0 takes the first such block: it returns the address behind it, marks it as used,
  -- changes no other block, and the list stays as it is.
  pub malloc-taken :
      (fuel : ℕ) (h : Heap K) (size : ℕ) (xs : List ℕ) (b : ℕ)
      → IsHeap h xs
      → length xs < fuel
      → size ≢ 0
      → find (λ b. fits size (h.blocks b)) xs ≡ some b
      → (malloc vmwos_malloc fuel h size ≡ some (behind b, taken h b))
        × IsHeap (taken h b) xs
        × ((h.blocks b).free ≢ 0)
        × (size ≤ (h.blocks b).size)
  unfolding malloc allocate_block take_block find
  malloc-taken fuel h size [] b (linked, d) lt some_size found = absurd cc
  malloc-taken fuel h size (x ∷ xs) b ((e, rest), d) lt some_size found =
      let (l', made, _) =
        find_free_block-find fuel h.blocks (some x) x size (x ∷ xs) (refl, rest) lt in
      let fit = find-holds (λ b. fits size (h.blocks b)) (x ∷ xs) b found in
      (
        rw (ne→== size 0 some_size, e, made, found) refl,
        taken-IsHeap h b (x ∷ xs) ((e, rest), d),
        λ q. ground (arith, fit, q),
        ground (arith, fit),
      )

  -- The blocks after a new one is put behind the last.
  abbrev grown : Heap K → ℕ → Ptr → ℕ → BlockMeta
  grown h size end =
      put (link_last end (request_of h size) h.blocks) (request_of h size) (new_block size)

  grown-unlinked :
      (h : Heap K) (size : ℕ) (end : Ptr) (q : ℕ)
      → q ≢ request_of h size
      → unlinked (grown h size end q) ≡ unlinked (h.blocks q)
  unfolding link_last
  grown-unlinked h size none q ne = rw (ne→== q (request_of h size) ne) refl
  grown-unlinked h size (some l) q ne = rw (ne→== q (request_of h size) ne) (elim (ℕ_discrete q l) [
    | yes e ↦ rw (e, ==_refl l) refl
    | no other ↦ rw (ne→== q l other) refl
  ])

  -- The request is granted with a block that is not on the list.
  pub record Grants (h : Heap K) (size : ℕ) (xs : List ℕ) : Type 0 where
    pub no_error : (request_of h size == 2 ^ 32 - 1) ≡ false
    pub no_null : (request_of h size == 0) ≡ false
    pub new : has (request_of h size) xs ≡ false

  grown-IsHeap :
      (h : Heap K) (size x : ℕ) (xs : List ℕ)
      → IsHeap h (x ∷ xs)
      → Grants h size (x ∷ xs)
      → (kernel : K)
      → IsHeap
          (record {
            blocks = grown h size (some (last x xs));
            global_base = h.global_base;
            kernel = kernel;
          })
          ((x ∷ xs) ++ (request_of h size ∷ []))
  unfolding link_last
  grown-IsHeap h size x xs ((e, rest), d) grants kernel =
      let p = request_of h size in
      let differs : (q : ℕ) → has q (x ∷ xs) ≡ true → (q == p) ≡ false =
        λ q hit. ne→== q p (λ e'. absurd cc) in
      (
        (
          e,
          Linked-extended (links h.blocks) (links (grown h size (some (last x xs)))) p x xs rest d
              (λ q hit ne. rw (differs q hit, ne→== q (last x xs) ne, links) refl)
              (rw (differs (last x xs) (has-last x xs), ==_refl (last x xs), links) refl)
              (rw (==_refl p, links) refl),
        ),
        Distinct-append p (x ∷ xs) d grants.new,
      )

  malloc-appended :
      (fuel : ℕ) (h : Heap K) (size x : ℕ) (xs : List ℕ)
      → IsHeap h (x ∷ xs)
      → length (x ∷ xs) < fuel
      → size ≢ 0
      → find (λ b. fits size (h.blocks b)) (x ∷ xs) ≡ none
      → Grants h size (x ∷ xs)
      → malloc vmwos_malloc fuel h size
        ≡ some (
          behind (request_of h size),
          record {
            blocks = grown h size (some (last x xs));
            global_base = h.global_base;
            kernel = (vmwos_malloc h.kernel ((size + meta_size) % 2 ^ 32)).1;
          },
        )
  unfolding malloc allocate_block take_block request_space
  malloc-appended fuel h size x xs ((e, rest), d) lt some_size found grants =
      let (l', made, end) =
        find_free_block-find fuel h.blocks (some x) x size (x ∷ xs) (refl, rest) lt in
      rw (ne→== size 0 some_size, e, made, found, end found, grants.no_error, grants.no_null) refl

  -- On a well-linked list of blocks of which none is free and large enough, malloc of a size
  -- above 0 to which the kernel grants a block that is not on the list returns the address
  -- behind that block, which has the size that was asked for, is marked as used and as new, and
  -- stands at the end of the list, and of the other blocks only links change.
  pub malloc-append :
      (fuel : ℕ) (h : Heap K) (size : ℕ) (xs : List ℕ)
      → IsHeap h xs
      → length xs < fuel
      → size ≢ 0
      → find (λ b. fits size (h.blocks b)) xs ≡ none
      → Grants h size xs
      → (h' : Heap K) × (malloc vmwos_malloc fuel h size ≡ some (behind (request_of h size), h'))
        × IsHeap h' (xs ++ (request_of h size ∷ []))
        × (h'.blocks (request_of h size)
            ≡ record { size = size; next = none; free = 0; magic = 0x12345678 })
        × ((q : ℕ) → q ≢ request_of h size → unlinked (h'.blocks q) ≡ unlinked (h.blocks q))
  unfolding malloc allocate_block request_space
  malloc-append fuel h size [] (e, d) lt some_size found grants = (
    record {
      blocks = grown h size none;
      global_base = some (request_of h size);
      kernel = (vmwos_malloc h.kernel ((size + meta_size) % 2 ^ 32)).1;
    },
    rw (ne→== size 0 some_size, e, grants.no_error, grants.no_null) refl,
    ((refl, rw (==_refl (request_of h size), links) refl), (refl, tt)),
    rw (==_refl (request_of h size)) refl,
    λ q ne. grown-unlinked h size none q ne,
  )
  malloc-append fuel h size (x ∷ xs) heap lt some_size found grants = (
    _,
    malloc-appended fuel h size x xs heap lt some_size found grants,
    grown-IsHeap h size x xs heap grants (vmwos_malloc h.kernel ((size + meta_size) % 2 ^ 32)).1,
    rw (==_refl (request_of h size)) refl,
    λ q ne. grown-unlinked h size (some (last x xs)) q ne,
  )
