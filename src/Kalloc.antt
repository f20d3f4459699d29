-- ===== src/Kalloc.antt =====
-- kalloc.c: the free list of physical pages, over the words of kernel memory.
-- Each operation is one critical section of kmem.lock (or runs before there are other CPUs), so
-- use_lock does not show.
pub mod Chain
pub mod Range
mod Tests
use os.Base.{
  ℕ, zero, suc, ◌+◌, ◌-◌, ◌*◌, ◌/◌, ◌%◌, ◌^◌, ◌<◌, ◌==◌, ltb, leb, if◌then◌else◌, Bool, true, false,
  not, ◌&&◌, ◌||◌, add32, sub32,
}

abbrev pub pgsize : ℕ
pgsize = 4096

abbrev pub kernbase : ℕ
kernbase = 0x80000000

abbrev pub phystop : ℕ
phystop = 0xE000000

-- `word` is kernel memory by address, of which the allocator uses the first word of each free page
-- (`struct run`); `freelist` is kmem.freelist, 0 for a null pointer.
pub record Kmem : Type 0 where
  pub word : ℕ → ℕ
  pub freelist : ℕ

pub data Freed : Type 0 where
  done : Kmem → Freed
  panic : Freed

-- memset(v, 1, PGSIZE), then r->next = kmem.freelist
abbrev pub fill_page : (ℕ → ℕ) → ℕ → ℕ → ℕ → ℕ
fill_page word v next a =
    if a == v then next else if leb v a && ltb a (v + pgsize) then 0x01010101 else word a

-- `end` is the first address after the kernel, which the linker sets.
module _ (end : ℕ) where
  abbrev pub refuses : ℕ → Bool
  refuses v = not (v % pgsize == 0) || ltb v end || leb phystop (sub32 v kernbase)

  unfoldable pub kfree : Kmem → ℕ → Freed
  kfree s v =
      if refuses v
      then panic
      else done (record { word = fill_page s.word v s.freelist; freelist = v })

  -- The loop of freerange, from `p` on, with fuel.
  unfoldable pub free_pages : ℕ → Kmem → ℕ → ℕ → Freed
  unfolding kfree
  free_pages zero s p vend = done s
  free_pages (suc k) s p vend = elim (leb (p + pgsize) vend) [
    | false ↦ done s
    | true ↦ elim (kfree s p) [ panic ↦ panic | done s' ↦ free_pages k s' (p + pgsize) vend ]
  ]

  abbrev pub page_round_up : ℕ → ℕ
  page_round_up a = add32 a (pgsize - 1) / pgsize * pgsize

  -- There are at most vend / PGSIZE rounds, for every one of them ends at a page below `vend`.
  unfoldable pub freerange : Kmem → ℕ → ℕ → Freed
  unfolding free_pages
  freerange s vstart vend = free_pages (vend / pgsize) s (page_round_up vstart) vend

-- The page (0 if there is none), and the memory that is left.
unfoldable pub kalloc : Kmem → ℕ × Kmem
kalloc s =
    if s.freelist == 0 then (0, s) else (s.freelist, record s { freelist = s.word s.freelist })
