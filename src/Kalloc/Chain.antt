-- ===== src/Kalloc/Chain.antt =====
-- The free list as a sequence of pages.
use os.Base.{ℕ, ◌%◌, ◌≤◌, ◌<◌, ◌≡◌, ◌≢◌, refl, ◌==◌, false, List, [], ◌∷◌, arith, sub32}
use os.Kalloc.{pgsize, kernbase, phystop, Kmem, done, fill_page, kfree, kalloc}

-- The links from `p` lead through the pages `xs` to a null pointer.
abbrev pub Linked : (ℕ → ℕ) → ℕ → List ℕ → Type 0
Linked word p [] = p ≡ 0
Linked word p (x ∷ xs) = (p ≡ x) × (x ≢ 0) × Linked word (word x) xs

abbrev pub Absent : ℕ → List ℕ → Type 0
Absent v [] = Unit {0}
Absent v (x ∷ xs) = (v ≢ x) × Absent v xs

module _ (end : ℕ) where
  -- a page that kfree accepts
  pub record IsPage (v : ℕ) : Type 0 where
    pub aligned : v % pgsize ≡ 0
    pub above : end ≤ v
    pub below : sub32 v kernbase < phystop
    pub not_null : v ≢ 0

  abbrev pub AllPages : List ℕ → Type 0
  AllPages [] = Unit {0}
  AllPages (x ∷ xs) = IsPage x × AllPages xs

  -- The free list holds the pages `xs`, each a page of its own.
  abbrev pub Distinct : List ℕ → Type 0
  Distinct [] = Unit {0}
  Distinct (x ∷ xs) = Absent x xs × Distinct xs

  pub record FreeList (s : Kmem) (xs : List ℕ) : Type 0 where
    pub links : Linked s.word s.freelist xs
    pub pages : AllPages xs
    pub distinct : Distinct xs

  -- Filling a page leaves the links of the others.
  Linked-fill :
      (word : ℕ → ℕ) (v next : ℕ) (xs : List ℕ) (p : ℕ)
      → IsPage v
      → AllPages xs
      → Absent v xs
      → Linked word p xs
      → Linked (fill_page word v next) p xs
  Linked-fill word v next [] p page pages absent l = l
  Linked-fill word v next (x ∷ xs) p page pages absent l =
      let same : fill_page word v next x ≡ word x =
        ground (arith, page.aligned, pages.0.aligned, absent.0) in
      (l.0, l.1, rw same (Linked-fill word v next xs (word x) page pages.1 absent.1 l.2))

  -- kfree of a page of kernel memory that is not free does not panic, and puts the page in front
  -- of the free list, whose pages stay distinct.
  pub kfree-FreeList :
      {s : Kmem} {xs : List ℕ} (v : ℕ)
      → FreeList s xs
      → IsPage v
      → Absent v xs
      → (t : Kmem) × (kfree end s v ≡ done t) × FreeList t (v ∷ xs)
  unfolding kfree
  kfree-FreeList {s} {xs} v f page absent =
      let own : fill_page s.word v s.freelist v ≡ s.freelist = ground arith in
      (
        record { word = fill_page s.word v s.freelist; freelist = v },
        ground (arith, page.aligned, page.above, page.below),
        record {
          links = (
            refl,
            page.not_null,
            rw own (Linked-fill s.word v s.freelist xs s.freelist page f.pages absent f.links),
          );
          pages = (page, f.pages);
          distinct = (absent, f.distinct);
        },
      )

  -- kalloc on a free list that is not empty returns its first page, which is a page of kernel
  -- memory and not on the list of the others, which is the free list from then on.
  pub kalloc-FreeList :
      {s : Kmem} (x : ℕ) {xs : List ℕ}
      → FreeList s (x ∷ xs)
      → ((kalloc s).0 ≡ x) × FreeList (kalloc s).1 xs × Absent x xs × IsPage x
  unfolding kalloc
  kalloc-FreeList {s} x {xs} f =
      let some_page : (s.freelist == 0) ≡ false = ground (arith, f.links) in
      let links : Linked s.word (s.word s.freelist) xs = rw f.links.0 f.links.2 in
      rw some_page (
        f.links.0,
        record { links = links; pages = f.pages.1; distinct = f.distinct.1 },
        f.distinct.0,
        f.pages.0,
      )

  -- With no page free kalloc returns a null pointer and changes nothing.
  pub kalloc-empty : {s : Kmem} → FreeList s [] → kalloc s ≡ (0, s)
  unfolding kalloc
  kalloc-empty f = ground (arith, f.links)
