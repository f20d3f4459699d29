-- ===== src/Kalloc/Tests.antt =====
-- Instances of the theorems about the page allocator.
use os.Base.{ℕ, ◌+◌, ◌%◌, ◌≤◌, ◌<◌, ◌-◌, ◌/◌, ◌≡◌, refl, [], ◌∷◌, arith}
use os.Kalloc.{Kmem, done, kfree, freerange, kalloc}
use os.Kalloc.Chain.{Absent, IsPage, FreeList, kfree-FreeList, kalloc-FreeList}
use os.Kalloc.Range.{pages_onto, freerange-FreeList}

-- the kernel ends at 0x80100010
abbrev kernel_end : ℕ
kernel_end = 0x80100010

abbrev empty : Kmem
empty = record { word = λ a. 7; freelist = 0 }

empty-FreeList : FreeList kernel_end empty []
empty-FreeList = record { links = refl; pages = tt; distinct = tt }

address-IsPage : IsPage kernel_end 0x80200000
address-IsPage = omega arith

kfree-FreeList_example :
    (t : Kmem) × (kfree kernel_end empty 0x80200000 ≡ done t)
    × FreeList kernel_end t (0x80200000 ∷ [])
kfree-FreeList_example = kfree-FreeList kernel_end 0x80200000 empty-FreeList address-IsPage tt

kalloc-FreeList_example :
    let s = kfree-FreeList_example.0 in
    ((kalloc s).0 ≡ 0x80200000)
    × FreeList kernel_end (kalloc s).1 []
    × Absent 0x80200000 []
    × IsPage kernel_end 0x80200000
kalloc-FreeList_example = kalloc-FreeList kernel_end 0x80200000 kfree-FreeList_example.2

freerange-FreeList_example :
    (first : ℕ) × (first % 4096 ≡ 0)
    × (kernel_end ≤ first)
    × (first < kernel_end + 4096)
    × ((t : Kmem) × (freerange kernel_end empty kernel_end 0x80105000 ≡ done t)
        × FreeList kernel_end t (pages_onto ((0x80105000 - first) / 4096) first []))
freerange-FreeList_example =
    freerange-FreeList kernel_end kernel_end 0x80105000 [] empty-FreeList tt (omega arith)
      (omega arith)
