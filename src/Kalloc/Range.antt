-- ===== src/Kalloc/Range.antt =====
-- freerange puts every whole page of its range on the free list.
use os.Base.{
  ℕ, zero, suc, ◌+◌, ◌-◌, ◌/◌, ◌%◌, ◌≤◌, ◌<◌, ◌≡◌, refl, ◌∙◌, leb, true, false, List, [], ◌∷◌,
  arith,
}
use os.Kalloc.{pgsize, kernbase, phystop, Kmem, done, kfree, free_pages, page_round_up, freerange}
use os.Kalloc.Chain.{Absent, FreeList, kfree-FreeList}

abbrev pub AllBelow : ℕ → List ℕ → Type 0
AllBelow p [] = Unit {0}
AllBelow p (x ∷ xs) = (x < p) × AllBelow p xs

-- `n` pages of 4096 bytes from `p` on, the last one first, in front of `xs`
abbrev pub pages_onto : ℕ → ℕ → List ℕ → List ℕ
pages_onto zero p xs = xs
pages_onto (suc n) p xs = pages_onto n (p + 4096) (p ∷ xs)

Absent-of_AllBelow : (p : ℕ) (xs : List ℕ) → AllBelow p xs → Absent p xs
Absent-of_AllBelow p [] h = tt
Absent-of_AllBelow p (x ∷ xs) h = (omega arith, Absent-of_AllBelow p xs h.1)

AllBelow-mono : (p q : ℕ) (xs : List ℕ) → p ≤ q → AllBelow p xs → AllBelow q xs
AllBelow-mono p q [] le h = tt
AllBelow-mono p q (x ∷ xs) le h = (omega arith, AllBelow-mono p q xs le h.1)

module _ (end vend : ℕ) where
  free_pages-more :
      (k : ℕ) (s s' : Kmem) (p : ℕ)
      → leb (p + pgsize) vend ≡ true
      → kfree end s p ≡ done s'
      → free_pages end (suc k) s p vend ≡ free_pages end k s' (p + pgsize) vend
  unfolding free_pages
  free_pages-more k s s' p fits e = ground arith

  free_pages-stop :
      (k : ℕ) (s : Kmem) (p : ℕ)
      → leb (p + pgsize) vend ≡ false
      → free_pages end (suc k) s p vend ≡ done s
  unfolding free_pages
  free_pages-stop k s p full = ground arith

module _ (end vend : ℕ) (top : vend ≤ kernbase + phystop) where
  free_pages-FreeList :
      (n k : ℕ) {s : Kmem} (p : ℕ) (xs : List ℕ)
      → FreeList end s xs
      → AllBelow p xs
      → (p % pgsize ≡ 0) × (end ≤ p) × (kernbase ≤ p)
      → (vend - p) / pgsize ≡ n
      → n ≤ k
      → (t : Kmem) × (free_pages end k s p vend ≡ done t) × FreeList end t (pages_onto n p xs)
  unfolding free_pages
  free_pages-FreeList zero zero {s} p xs f below ok e fuel = (s, refl, f)
  free_pages-FreeList zero (suc k) {s} p xs f below ok e fuel =
      (s, free_pages-stop end vend k s p (ground arith), f)
  free_pages-FreeList (suc n) zero p xs f below ok e fuel = absurd (omega arith)
  free_pages-FreeList (suc n) (suc k) {s} p xs f below ok e fuel =
      let (s', freed, f') =
        kfree-FreeList end p f
          (record { aligned = ok.0; above = ok.1; below = omega arith; not_null = omega arith })
          (Absent-of_AllBelow p xs below) in
      let (t, done_all, f'') =
        free_pages-FreeList n k {s = s'} (p + pgsize) (p ∷ xs) f'
          (omega arith, AllBelow-mono p (p + pgsize) xs (omega arith) below) (omega arith)
          (omega arith) (omega arith) in
      (t, free_pages-more end vend k s s' p (ground arith) freed ∙ done_all, f'')

-- freerange does not panic on a range of kernel addresses behind the kernel and below PHYSTOP that
-- lies above all pages freed so far. Let `first` be the first multiple of 4096 at or above the
-- start of the range, and n the number of whole pages of 4096 bytes from it to the end of the
-- range. Then freerange puts the pages first, first + 4096, …, n of them, on the free list, once
-- each, in front of those freed before, the last page first.
pub freerange-FreeList :
    (end vstart vend : ℕ) {s : Kmem} (xs : List ℕ)
    → FreeList end s xs
    → AllBelow vstart xs
    → (end ≤ vstart) × (kernbase ≤ vstart) × (vstart < kernbase + phystop)
    → vend ≤ kernbase + phystop
    → (first : ℕ) × (first % 4096 ≡ 0)
      × (vstart ≤ first)
      × (first < vstart + 4096)
      × ((t : Kmem) × (freerange end s vstart vend ≡ done t)
          × FreeList end t (pages_onto ((vend - first) / 4096) first xs))
unfolding freerange
freerange-FreeList end vstart vend xs f below ok top = (
  page_round_up end vstart,
  omega arith,
  omega arith,
  omega arith,
  free_pages-FreeList end vend top ((vend - page_round_up end vstart) / pgsize) (vend / pgsize)
      (page_round_up end vstart) xs f
      (AllBelow-mono vstart (page_round_up end vstart) xs (omega arith) below) (omega arith) refl
      (omega arith),
)
