-- ===== src/Vm.antt =====
-- vm.c: the walk of a page table, and copyout through it. Memory is given by frames, the numbers of the
-- pages of physical memory: the entries of the frames that are page tables, and the bytes of the
-- others.
pub mod Copy
mod Tests
use os.Base.{
  ℕ, zero, suc, ◌+◌, ◌-◌, ◌*◌, ◌/◌, ◌%◌, ◌==◌, ltb, leb, if◌then◌else◌, Bool, true, false, ◌&&◌,
  Option, none, some, add32, sub32,
}

-- An entry of a page table or a page directory: PTE_P, PTE_W, PTE_U and the frame.
pub record Entry : Type 0 where
  pub present : Bool
  pub writable : Bool
  pub user : Bool
  pub frame : ℕ

abbrev pub Tables : Type 0
Tables = ℕ → ℕ → Entry

abbrev pub Bytes : Type 0
Bytes = ℕ → ℕ → ℕ

-- va >> 12 >> 10 & 0x3ff and va >> 12 & 0x3ff
abbrev pub pdx : ℕ → ℕ
pdx va = va / 4096 / 1024 % 1024

abbrev pub ptx : ℕ → ℕ
ptx va = va / 4096 % 1024

abbrev pub page_round_down : ℕ → ℕ
page_round_down va = va / 4096 * 4096

-- walkpgdir(pgdir, va, 0): the place of the entry, `none` for a null pointer.
unfoldable pub walkpgdir : Tables → ℕ → ℕ → Option (ℕ × ℕ)
walkpgdir tables pgdir va =
    let pde = tables pgdir (pdx va) in if pde.present then some (pde.frame, ptx va) else none

-- The frame of the address; a null pointer; or `fault` where the code reads the entry at address 0.
pub data Mapping : Type 0 where
  at_frame : ℕ → Mapping
  null : Mapping
  fault : Mapping

abbrev pub entry_mapping : Entry → Mapping
entry_mapping pte = if pte.present && pte.user then at_frame pte.frame else null

unfoldable pub uva2ka : Tables → ℕ → ℕ → Mapping
unfolding walkpgdir
uva2ka tables pgdir uva = elim (walkpgdir tables pgdir uva) [
  | none ↦ fault
  | some (table, index) ↦ entry_mapping (tables table index)
]

-- memmove(pa0 + start, buf, n)
abbrev pub put_bytes : Bytes → ℕ → ℕ → (ℕ → ℕ) → ℕ → Bytes
put_bytes bytes frame start buf n f o =
    if (f == frame) && (leb start o && ltb o (start + n)) then buf (o - start) else bytes f o

pub data Copied : Type 0 where
  copied : Bytes → Copied
  failed : Bytes → Copied
  crashed : Copied

-- The bytes to copy from `va` on in one round: to the end of the page, or `len`.
abbrev pub round_size : ℕ → ℕ → ℕ
round_size va len =
    let n = sub32 4096 (sub32 va (page_round_down va)) in if ltb len n then len else n

-- The loop, with at most `k` rounds.
unfoldable pub copy_run : ℕ → Tables → ℕ → Bytes → ℕ → (ℕ → ℕ) → ℕ → Copied
unfolding uva2ka
copy_run zero tables pgdir bytes va buf len = copied bytes
copy_run (suc k) tables pgdir bytes va buf len =
    let va0 = page_round_down va in
    let n = round_size va len in
    let rest = λ (frame : ℕ).
      copy_run k tables pgdir (put_bytes bytes frame (sub32 va va0) buf n) (add32 va0 4096)
        (λ i. buf (n + i)) (len - n) in
    if len == 0 then copied bytes else (elim (uva2ka tables pgdir va0) [
      | fault ↦ crashed
      | null ↦ failed bytes
      | at_frame frame ↦ rest frame
    ])

-- Every round copies a byte.
unfoldable pub copyout : Tables → ℕ → Bytes → ℕ → (ℕ → ℕ) → ℕ → Copied
unfolding copy_run
copyout tables pgdir bytes va buf len = copy_run len tables pgdir bytes va buf len
