-- ===== src/Fs/Bmap.antt =====
-- What bmap makes of the tree of a file: it finds the block or adds a cleared one, and the contents of
-- the file stay.
use os.Base.{
  ℕ, ◌-◌, ◌/◌, ◌%◌, ◌≡◌, ◌≢◌, refl, sym, ◌∙◌, ap, subst, ltb, true, arith, Bool-cases, inl, inr,
  Outcome, ok, from_ok, bind_ok, ◌>>=◌,
}
use os.Fs.Disk.{Disk}
use os.Fs.Inode.{Inode, entry, addr_of, bmap}
use os.Fs.Tree.{Slot, addr, single, double, leaf, is_slot, pointer, IsTree}
use os.Fs.Growth.{single-Adds, double-Adds, leaf-Adds}
use os.Fs.Grown.{slot_of, Yields, Yields-trans, entry-Yields, addr_of-Yields}

single-Yields :
    (d : Disk) (a : ℕ → ℕ) (place : ℕ → Slot) (t i : ℕ) {b : ℕ} {d' : Disk}
    → IsTree d a place
    → a 12 ≡ t
    → t ≢ 0
    → entry d t i ≡ ok (b, d')
    → Yields d a (single i) b d' a
single-Yields d a place t i v at_t real e =
    let real_a : a 12 ≢ 0 = subst (λ x. x ≢ 0) (sym at_t) real in
    entry-Yields d a place (addr 12) (single i) i v real_a refl
      (λ r unused empty. single-Adds d a place v r unused i real_a empty)
      (ap (λ x. entry d x i) at_t ∙ e)

double-Yields :
    (d : Disk) (a : ℕ → ℕ) (place : ℕ → Slot) (t i : ℕ) {b : ℕ} {d' : Disk}
    → IsTree d a place
    → a 13 ≡ t
    → t ≢ 0
    → entry d t i ≡ ok (b, d')
    → Yields d a (double i) b d' a
double-Yields d a place t i v at_t real e =
    let real_a : a 13 ≢ 0 = subst (λ x. x ≢ 0) (sym at_t) real in
    entry-Yields d a place (addr 13) (double i) i v real_a refl
      (λ r unused empty. double-Adds d a place v r unused i real_a empty)
      (ap (λ x. entry d x i) at_t ∙ e)

leaf-Yields :
    (d : Disk) (a : ℕ → ℕ) (place : ℕ → Slot) (t i j : ℕ) {b : ℕ} {d' : Disk}
    → IsTree d a place
    → is_slot (double i) ≡ true
    → pointer d a (double i) ≡ t
    → t ≢ 0
    → entry d t j ≡ ok (b, d')
    → Yields d a (leaf i j) b d' a
leaf-Yields d a place t i j v is_i at_t real e =
    let real_a : pointer d a (double i) ≢ 0 = subst (λ x. x ≢ 0) (sym at_t) real in
    entry-Yields d a place (double i) (leaf i j) j v real_a refl
      (λ r unused empty. leaf-Adds d a place v r unused i j is_i real_a empty)
      (ap (λ x. entry d x j) at_t ∙ e)

-- The inode but for its block numbers.
abbrev pub SameInode : Inode → Inode → Type 0
SameInode ip ip' = ip' ≡ record ip { disk = record ip.disk { addrs = ip'.disk.addrs } }

abbrev pub Finds : Disk → Inode → Slot → ℕ → Inode → Disk → Type 0
Finds d ip s b ip' d' = Yields d ip.disk.addrs s b d' ip'.disk.addrs × SameInode ip ip'

abbrev one_table : Disk → Inode → ℕ → Outcome (ℕ × Inode × Disk)
one_table d ip i = addr_of d ip 12 >>= λ r. entry r.2 r.0 i >>= λ s. ok (s.0, r.1, s.1)

abbrev two_tables : Disk → Inode → ℕ → ℕ → Outcome (ℕ × Inode × Disk)
two_tables d ip i j =
    addr_of d ip 13 >>= λ r. entry r.2 r.0 i >>= λ s. entry s.1 s.0 j >>= λ t. ok (t.0, r.1, t.1)

bmap_single :
    (d : Disk) (ip : Inode) (place : ℕ → Slot) (i : ℕ) {b : ℕ} {ip' : Inode} {d' : Disk}
    → IsTree d ip.disk.addrs place
    → one_table d ip i ≡ ok (b, ip', d')
    → Finds d ip (single i) b ip' d'
bmap_single d ip place i v e =
    let ((t, ip1, d1), got, rest) = bind_ok (addr_of d ip 12) _ e in
    let ((grows, at_t, real), same) = addr_of-Yields d ip place 12 v got in
    let ((c, d2), got2, rest2) = bind_ok (entry d1 t i) _ rest in
    let found = single-Yields d1 ip1.disk.addrs grows.place t i grows.tree at_t real got2 in
    subst (λ p. Finds d ip (single i) p.0 p.1 p.2) (from_ok rest2)
      (Yields-trans (single i) grows found, same)

bmap_double :
    (d : Disk) (ip : Inode) (place : ℕ → Slot) (i j : ℕ) {b : ℕ} {ip' : Inode} {d' : Disk}
    → IsTree d ip.disk.addrs place
    → is_slot (double i) ≡ true
    → two_tables d ip i j ≡ ok (b, ip', d')
    → Finds d ip (leaf i j) b ip' d'
bmap_double d ip place i j v is_i e =
    let ((t, ip1, d1), got, rest) = bind_ok (addr_of d ip 13) _ e in
    let ((grows, at_t, real), same) = addr_of-Yields d ip place 13 v got in
    let ((c, d2), got2, rest2) = bind_ok (entry d1 t i) _ rest in
    let (grows2, at_c, real_c) =
      double-Yields d1 ip1.disk.addrs grows.place t i grows.tree at_t real got2 in
    let ((f, d3), got3, rest3) = bind_ok (entry d2 c j) _ rest2 in
    let found =
      leaf-Yields d2 ip1.disk.addrs grows2.place c i j grows2.tree is_i at_c real_c got3 in
    subst (λ p. Finds d ip (leaf i j) p.0 p.1 p.2) (from_ok rest3)
      (Yields-trans (leaf i j) grows (Yields-trans (leaf i j) grows2 found), same)

-- bmap without a panic, on an inode whose blocks are a tree (every block of it is in use and has
-- one place in it). It returns the block of the number in the file, which is not 0, among the first
-- 12, in the indirect table, or in the tables of the double indirect one. The blocks are a tree
-- afterwards too, whatever was added; every place that had a block has the same one; the contents
-- of all data blocks are what they were, with zeros for blocks that were not there; and of the
-- inode only the block numbers may change.
pub bmap-Finds :
    (d : Disk) (ip : Inode) (place : ℕ → Slot) (bn : ℕ) {b : ℕ} {ip' : Inode} {d' : Disk}
    → IsTree d ip.disk.addrs place
    → bmap d ip bn ≡ ok (b, ip', d')
    → Finds d ip (slot_of bn) b ip' d'
unfolding bmap
bmap-Finds d ip place bn v e = elim (Bool-cases (ltb bn 12)) [
  | inl direct ↦ rw direct (addr_of-Yields d ip place bn v (rw direct at e))
  | inr more ↦ elim (Bool-cases (ltb (bn - 12) 128)) [
    | inl indirect ↦
        rw (more, indirect) (bmap_single d ip place (bn - 12) v (rw (more, indirect) at e))
    | inr still_more ↦ elim (Bool-cases (ltb (bn - 12 - 128) 16384)) [
      | inl within ↦
          rw (more, still_more)
            (bmap_double d ip place ((bn - 12 - 128) / 128) ((bn - 12 - 128) % 128) v (ground arith)
              (rw (more, still_more, within) at e))
      | inr out ↦ absurd (ground arith)
    ]
  ]
]
