-- ===== src/Fs/Linked.antt =====
-- dirlookup after dirlink.
use os.Base.{
  ℕ, ◌+◌, ◌%◌, ◌<◌, ◌≤◌, ◌≡◌, ◌≢◌, refl, sym, ◌∙◌, ap, subst, Bool, true, false, Option, none, some,
  arith, inl, inr, List, get_elem?, get_elem?-modify_self, Option-cases, modify, ok, panic, ◌>>=◌,
  from_ok, bind_ok,
}
use os.Str.{strncpy}
use os.Str.Compare.{IsString}
use os.Str.Copy.{strncpy-Padded}
use os.Fs.Disk.{Disk}
use os.Fs.Inode.{Inode, iget, iput}
use os.Fs.Tree.{Slot, true_not}
use os.Fs.Io.{writei}
use os.Fs.Writing.{writei_lem}
use os.Fs.Dir.{
  Drivers, Hit, is_entry, whole_entry, write_entry, after_lookup, in_memory, filled_entry,
  link_entry, dirlookup, dirlink,
}
use os.Fs.Lookup.{IsDirectory, Matches, IsFirst, opened, dirlookup_lem}
use os.Fs.Link.{
  Free, free_entry_lem, name_in_place, numbered-lt, numbered-IsNamed, still_IsDirectory, only_new,
}

-- The directory after dirlink wrote an entry: the only one with the name.
pub record Linked (d' : Disk) (dp dp' : Inode) (name : ℕ → ℕ) (inum : ℕ) : Type 0 where
  pub place : ℕ → Slot
  pub directory : IsDirectory d' dp' place
  pub dev_kept : dp'.dev ≡ dp.dev
  pub offset : ℕ
  pub only : (r : Hit) → IsFirst d' dp'.disk.addrs dp'.disk.size name 0 r → r ≡ some (inum, offset)

is_entry_lem : (r : Option ℕ) → is_entry r ≡ true → r ≡ some 16
is_entry_lem none e = absurd (ground arith)
is_entry_lem (some n) e = ap some (ground arith)

link_entry_lem :
    (devsw : Drivers) (d : Disk) (dp : Inode) (place : ℕ → Slot) (de name : ℕ → ℕ) (inum k : ℕ)
    {dp' : Inode} {d' : Disk}
    → IsDirectory d dp place
    → ((i : ℕ) → name i < 256)
    → IsString name 0 k
    → inum < 65536
    → inum ≢ 0
    → dp.disk.size + 16 ≤ 8460288
    → ((q : ℕ) → q < dp.disk.size → q % 16 ≡ 0 → ¬ Matches d dp.disk.addrs name q)
    → link_entry devsw d dp de name inum ≡ ok (dp', d')
    → Linked d' dp dp' name inum
link_entry_lem devsw d dp place de name inum k {dp'} {d'} v names str small real room unknown e =
    let (o, (de1, found, free)) =
      free_entry_lem dp.disk.size devsw d dp place de 0 v refl (omega arith) (omega arith) in
    written o de1 free (ap (λ x. x >>= write_entry devsw name inum) (sym found) ∙ e)
  where
    written :
        (o : ℕ) (de1 : ℕ → ℕ)
        → Free d dp o
        → (writei devsw.write d dp (filled_entry de1 name inum) o 16 >>= whole_entry) ≡ ok (dp', d')
        → Linked d' dp dp' name inum
    written o de1 free rest =
        let src = filled_entry de1 name inum in
        let padded =
          strncpy-Padded 14 (in_memory de1 name) 2 16 k (name_in_place de1 name k str)
            (inl (omega arith)) in
        let new = strncpy 14 (in_memory de1 name) 2 16 in
        let le = free.0 in
        let is_dir = v.is_dir in
        let ((r, dp1, d1), got, last) =
          bind_ok (writei devsw.write d dp src o 16) whole_entry rest in
        let (all, w) =
          (writei_lem devsw.write d dp place src o 16 (λ t. absurd (omega arith)) (omega arith)
              (omega arith) (numbered-lt de1 name new inum k padded names) v.tree got).1
            le (omega arith) in
        let named = numbered-IsNamed de1 name new inum k padded str small real in
        let linked : Linked d1 dp dp1 name inum = record {
          place = w.place;
          directory = still_IsDirectory d d1 dp dp1 place src o v free (omega arith) w;
          dev_kept = w.dev_kept;
          offset = o;
          only =
              only_new d d1 dp dp1 place src o v free (omega arith) w name inum named (omega arith)
                unknown;
        } in
        subst (λ (p : Inode × Disk). Linked p.1 dp p.0 name inum) (from_ok (rw all at last)) linked

panic_not : {x : Bool × List Inode × Disk} → panic ≢ ok x
panic_not e = ground arith

never_linked :
    (devsw : Drivers) (p : ℕ) (de name : ℕ → ℕ) (inum slot off : ℕ) (c : List Inode) (d : Disk)
    {c' : List Inode} {d' : Disk}
    → after_lookup devsw p de name inum (some (slot, off), c, d) ≢ ok (true, c', d')
never_linked devsw p de name inum slot off c d {c'} {d'} e =
    elim (Option-cases (get_elem? c slot)) [
      | inl nothing ↦ absurd (panic_not (rw (after_lookup, nothing) at e))
      | inr (ip, there) ↦
          let (q, got, rest) =
            bind_ok (iput d ip) (λ q. ok (false, modify (λ old. q.0) c slot, q.1))
              (rw (after_lookup, there) at e) in
          absurd (true_not (sym (ap (λ x. x.0) (from_ok rest))))
    ]

found_not_linked :
    (devsw : Drivers) (p : ℕ) (de name : ℕ → ℕ) (inum : ℕ) (d : Disk) (c : List Inode) (dp : Inode)
    (i off : ℕ) {c' : List Inode} {d' : Disk}
    → (opened d c dp (some (i, off)) >>= after_lookup devsw p de name inum) ≢ ok (true, c', d')
found_not_linked devsw p de name inum d c dp i off {c'} {d'} e =
    let ((r, c1, d1), got, rest) =
      bind_ok (opened d c dp (some (i, off))) (after_lookup devsw p de name inum) e in
    let (s, got2, same) = bind_ok (iget c dp.dev i) (λ s. ok (some (s.0, off), s.1, d)) got in
    never_linked devsw p de name inum s.0 off s.1 d
      (ap (after_lookup devsw p de name inum) (from_ok same) ∙ rest)

-- A directory of the inode cache whose size is a multiple of 16 with room for an entry, whose
-- blocks are a tree (every block of it is in use and has one place in it) and are there up to its
-- size; a name of bytes that ends with a NUL, and an inode number of 16 bits that is not 0. If
-- dirlink for them returns 0, then dirlookup of the name in the same directory finds an entry with
-- this inode number: it returns what iget gives for it. dirlookup does not panic on a read.
pub dirlookup-dirlink :
    (devsw : Drivers) (d : Disk) (c : List Inode) (p : ℕ) (dp : Inode) (place : ℕ → Slot)
    (de de' name : ℕ → ℕ) (inum k : ℕ) {c' : List Inode} {d' : Disk}
    → get_elem? c p ≡ some dp
    → IsDirectory d dp place
    → dp.disk.size + 16 ≤ 8460288
    → ((i : ℕ) → name i < 256)
    → IsString name 0 k
    → inum < 65536
    → inum ≢ 0
    → dirlink devsw d c p de name inum ≡ ok (true, c', d')
    → (off : ℕ) × (dirlookup devsw d' c' p de' name
        ≡ (iget c' dp.dev inum >>= λ s. ok (some (s.0, off), s.1, d')))
dirlookup-dirlink devsw d c p dp place de de' name inum k {c'} {d'} at_p v room names str small real
      e =
    let (r, looked, first) = dirlookup_lem devsw d c p dp place de name at_p v names in
    go r first (ap (λ x. x >>= after_lookup devsw p de name inum) (sym looked) ∙ e)
  where
    go :
        (r : Hit)
        → IsFirst d dp.disk.addrs dp.disk.size name 0 r
        → (opened d c dp r >>= after_lookup devsw p de name inum) ≡ ok (true, c', d')
        → (off : ℕ) × (dirlookup devsw d' c' p de' name
            ≡ (iget c' dp.dev inum >>= λ s. ok (some (s.0, off), s.1, d')))
    go (some (i, off)) first e' = absurd (found_not_linked devsw p de name inum d c dp i off e')
    go none first e' =
        let ((dp1, d1), got, rest) =
          bind_ok (link_entry devsw d dp de name inum)
            (λ w. ok (true, modify (λ old. w.0) c p, w.1)) (rw (after_lookup, at_p) at e') in
        let l =
          link_entry_lem devsw d dp place de name inum k v names str small real room
            (λ q lt at m. first q (omega arith) lt at m) got in
        let now = get_elem?-modify_self (λ old. dp1) c p at_p in
        let (r2, looked, first2) =
          dirlookup_lem devsw d1 (modify (λ old. dp1) c p) p dp1 l.place de' name now l.directory
            names in
        let same = from_ok rest in
        (
          l.offset,
          subst
              (λ (x : Bool × List Inode × Disk).
                dirlookup devsw x.2 x.1 p de' name
                ≡ (iget x.1 dp.dev inum >>= λ s. ok (some (s.0, l.offset), s.1, x.2)))
              same
              (looked
                ∙ ap (opened d1 (modify (λ old. dp1) c p) dp1) (l.only r2 first2)
                ∙ ap
                    (λ x. iget (modify (λ old. dp1) c p) x inum >>= λ s.
                      ok (some (s.0, l.offset), s.1, d1))
                    l.dev_kept),
        )
