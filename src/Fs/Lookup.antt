-- ===== src/Fs/Lookup.antt =====
-- dirlookup against the entries of the directory.
use os.Base.{
  ℕ, zero, suc, ◌+◌, ◌-◌, ◌/◌, ◌%◌, ◌<◌, ◌≤◌, ◌≡◌, ◌≢◌, refl, sym, ◌∙◌, ap, subst, ◌==◌, ltb, true,
  none, some, arith, Bool-cases, inl, inr, List, [], ◌∷◌, get_elem?, modify, add32, ◌↔◌, Outcome,
  ok, ◌>>=◌,
}
use os.Str.{strncmp}
use os.Str.Compare.{SameString, strncmp-SameString}
use os.Fs.Disk.{Disk}
use os.Fs.Inode.{Inode, iget}
use os.Fs.Tree.{Slot, pointer, IsTree, zero_of, nonzero}
use os.Fs.Grown.{slot_of}
use os.Fs.Io.{readi}
use os.Fs.Bytes.{byte_of-lt}
use os.Fs.Contents.{content}
use os.Fs.Reading.{readi_found}
use os.Fs.Dir.{Drivers, Hit, de_inum, in_memory, namecmp, scan_dir, dirlookup}

-- A directory of whole entries, whose blocks are a tree and are all there.
pub record IsDirectory (d : Disk) (dp : Inode) (place : ℕ → Slot) : Type 0 where
  pub is_dir : dp.disk.type ≡ 1
  pub whole : dp.disk.size % 16 ≡ 0
  pub bound : dp.disk.size ≤ 8460288
  pub tree : IsTree d dp.disk.addrs place
  pub present : (p : ℕ) → p < dp.disk.size → pointer d dp.disk.addrs (slot_of (p / 512)) ≢ 0

-- The entry at an offset.
abbrev pub entry_at : Disk → (ℕ → ℕ) → ℕ → ℕ → ℕ
entry_at d a off i = content d a (off + i)

-- The entry has the name and is not free.
abbrev pub IsNamed : (ℕ → ℕ) → (ℕ → ℕ) → Type 0
IsNamed de name = (de_inum de ≢ 0) × SameString (in_memory de name) 16 2 14

abbrev pub Matches : Disk → (ℕ → ℕ) → (ℕ → ℕ) → ℕ → Type 0
Matches d a name off = IsNamed (entry_at d a off) name

-- Of the entries from `off` on, the first with the name.
abbrev pub IsFirst : Disk → (ℕ → ℕ) → ℕ → (ℕ → ℕ) → ℕ → Hit → Type 0
IsFirst d a size name off none = (o : ℕ) → off ≤ o → o < size → o % 16 ≡ 0 → ¬ Matches d a name o
IsFirst d a size name off (some (inum, found)) =
    (off ≤ found)
    × (found < size)
    × (found % 16 ≡ 0)
    × (inum ≡ de_inum (entry_at d a found))
    × Matches d a name found
    × ((o : ℕ) → off ≤ o → o < found → o % 16 ≡ 0 → ¬ Matches d a name o)

IsFirst-skip :
    (d : Disk) (a : ℕ → ℕ) (size : ℕ) (name : ℕ → ℕ) (off : ℕ) (r : Hit)
    → off % 16 ≡ 0
    → ¬ Matches d a name off
    → IsFirst d a size name (off + 16) r
    → IsFirst d a size name off r
IsFirst-skip d a size name off none whole unlike rest = λ o lo hi w m'.
    elim (Bool-cases (o == off)) [
      | inl here ↦
          let same : o ≡ off = ground arith in unlike (subst (λ x. Matches d a name x) same m')
      | inr later ↦ rest o (ground arith) hi w m'
    ]
IsFirst-skip d a size name off (some (inum, found)) whole unlike (lo, hi, w, e, m, before) = (
  omega arith,
  hi,
  w,
  e,
  m,
  λ o low high w' m'. elim (Bool-cases (o == off)) [
    | inl here ↦
        let same : o ≡ off = ground arith in unlike (subst (λ x. Matches d a name x) same m')
    | inr later ↦ before o (ground arith) high w' m'
  ],
)

in_memory-ap :
    (de de' name : ℕ → ℕ)
    → ((i : ℕ) → i < 16 → de i ≡ de' i)
    → in_memory de name ≡ in_memory de' name
in_memory-ap de de' name same = λ j i. go i j
  where
    go : (i : ℕ) → in_memory de name i ≡ in_memory de' name i
    go i = elim (Bool-cases (ltb i 16)) [
      | inl inside ↦ rw inside (same i (ground arith))
      | inr outside ↦ rw outside refl
    ]

in_memory-lt :
    (de name : ℕ → ℕ)
    → ((i : ℕ) → de i < 256)
    → ((i : ℕ) → name i < 256)
    → (i : ℕ) → in_memory de name i < 256
in_memory-lt de name small names i = elim (Bool-cases (ltb i 16)) [
  | inl inside ↦ rw inside (small i)
  | inr outside ↦ rw outside (names (i - 16))
]

pub IsNamed-ap :
    (de de' name : ℕ → ℕ) → ((i : ℕ) → i < 16 → de i ≡ de' i) → IsNamed de name → IsNamed de' name
IsNamed-ap de de' name same (real, alike) =
    let number : de_inum de ≡ de_inum de' = rw (same 0 (omega arith), same 1 (omega arith)) refl in
    (
      (λ z. real (number ∙ z)),
      subst (λ m. SameString m 16 2 14) (in_memory-ap de de' name same) alike,
    )

-- What namecmp tells of an entry.
pub namecmp-Matches :
    (d : Disk) (a name : ℕ → ℕ) (off : ℕ)
    → ((i : ℕ) → name i < 256)
    → (namecmp name (entry_at d a off) ≡ 0) ↔ SameString (in_memory (entry_at d a off) name) 16 2 14
unfolding namecmp
namecmp-Matches d a name off names =
    strncmp-SameString (in_memory (entry_at d a off) name) 16 2 14
      (in_memory-lt (entry_at d a off) name (λ i. byte_of-lt _ ((off + i) % 512 % 4)) names)

namecmp-ap :
    (name de de' : ℕ → ℕ) → ((i : ℕ) → i < 16 → de i ≡ de' i) → namecmp name de ≡ namecmp name de'
unfolding namecmp
namecmp-ap name de de' same = ap (λ m. strncmp m 16 2 14) (in_memory-ap de de' name same)

-- A read of one entry.
pub read_entry :
    (devsw : Drivers) (d : Disk) (dp : Inode) (place : ℕ → Slot) (de : ℕ → ℕ) (off : ℕ)
    → IsDirectory d dp place
    → off % 16 ≡ 0
    → off < dp.disk.size
    → (de' : ℕ → ℕ) × (readi devsw.read d dp de off 16 ≡ ok (some 16, de', dp, d))
      × ((i : ℕ) → i < 16 → de' i ≡ entry_at d dp.disk.addrs off i)
read_entry devsw d dp place de off v w lt =
    let is_dir = v.is_dir in
    let whole = v.whole in
    let (de', found, (copied, others)) =
      readi_found devsw.read d dp place de off 16 (λ t. absurd (omega arith)) v.bound (omega arith)
        v.tree (λ p lo hi. v.present p (omega arith)) in
    (de', found, copied)

-- What a scan from `off` on finds.
abbrev pub Scanned : ℕ → Drivers → Disk → Inode → (ℕ → ℕ) → (ℕ → ℕ) → ℕ → Type 0
Scanned k devsw d dp de name off =
    (r : Hit) × (scan_dir k devsw d dp de name off ≡ ok (r, dp, d))
    × IsFirst d dp.disk.addrs dp.disk.size name off r

below : (x y : ℕ) → ltb x y ≡ true → x < y
below x y e = ground arith

-- One entry, which has been read, and the entries behind it.
scan_step :
    (k : ℕ) (devsw : Drivers) (d : Disk) (dp : Inode) (de de' name : ℕ → ℕ) (off : ℕ)
    → ((i : ℕ) → name i < 256)
    → off % 16 ≡ 0
    → ltb off dp.disk.size ≡ true
    → add32 off 16 ≡ off + 16
    → readi devsw.read d dp de off 16 ≡ ok (some 16, de', dp, d)
    → ((i : ℕ) → i < 16 → de' i ≡ entry_at d dp.disk.addrs off i)
    → Scanned k devsw d dp de' name (off + 16)
    → Scanned (suc k) devsw d dp de name off
unfolding scan_dir
scan_step k devsw d dp de de' name off names w more next read same (r, rest, first) =
    let a = dp.disk.addrs in
    let number : de_inum de' ≡ de_inum (entry_at d a off) =
      rw (same 0 (omega arith), same 1 (omega arith)) refl in
    let compared = namecmp-ap name de' (entry_at d a off) same in
    elim (Bool-cases (de_inum de' == 0)) [
      | inl free ↦
          let none_there : de_inum de' ≡ 0 = sym (zero_of (de_inum de') free) in
          (
            r,
            rw (more, read, free, next) rest,
            IsFirst-skip d a dp.disk.size name off r w (λ m. m.0 (sym number ∙ none_there)) first,
          )
      | inr taken ↦
          let real : de_inum de' ≢ 0 = nonzero (de_inum de') taken in
          elim (Bool-cases (namecmp name de' == 0)) [
            | inl alike ↦
                let zero_there : namecmp name de' ≡ 0 = sym (zero_of (namecmp name de') alike) in
                (
                  some (de_inum de', off),
                  rw (more, read, taken, alike) refl,
                  (
                    omega arith,
                    below off dp.disk.size more,
                    w,
                    number,
                    (
                      (λ z. real (number ∙ z)),
                      (namecmp-Matches d a name off names).0 (sym compared ∙ zero_there),
                    ),
                    λ o lo hi w'. absurd (omega arith),
                  ),
                )
            | inr different ↦
                let apart : namecmp name de' ≢ 0 = nonzero (namecmp name de') different in
                (
                  r,
                  rw (more, read, taken, different, next) rest,
                  IsFirst-skip d a dp.disk.size name off r w
                      (λ m. apart (compared ∙ (namecmp-Matches d a name off names).1 m.1)) first,
                )
          ]
    ]

pub scan_dir_lem :
    (k : ℕ) (devsw : Drivers) (d : Disk) (dp : Inode) (place : ℕ → Slot) (de name : ℕ → ℕ) (off : ℕ)
    → IsDirectory d dp place
    → ((i : ℕ) → name i < 256)
    → off % 16 ≡ 0
    → off ≤ dp.disk.size
    → dp.disk.size - off ≤ k
    → Scanned k devsw d dp de name off
unfolding scan_dir
scan_dir_lem zero devsw d dp place de name off v names w le fuel =
    (none, refl, λ o lo hi w'. absurd (omega arith))
scan_dir_lem (suc k) devsw d dp place de name off v names w le fuel =
    elim (Bool-cases (ltb off dp.disk.size)) [
      | inr end ↦ (none, rw end refl, λ o lo hi w'. absurd (ground arith))
      | inl more ↦
          let lt : off < dp.disk.size = ground arith in
          let (de', read, same) = read_entry devsw d dp place de off v w lt in
          let bound = v.bound in
          let whole = v.whole in
          scan_step k devsw d dp de de' name off names w more (omega arith) read same (
            scan_dir_lem k devsw d dp place de' name (off + 16) v names (omega arith) (omega arith)
              (omega arith))
    ]

modify-same :
    (c : List Inode) (p : ℕ) {dp : Inode} → get_elem? c p ≡ some dp → modify (λ ip. dp) c p ≡ c
modify-same [] p e = refl
modify-same (ip ∷ c) zero {dp} e = let same : ip ≡ dp = ground arith in ap (λ x. x ∷ c) (sym same)
modify-same (ip ∷ c) (suc p) e = ap (λ x. ip ∷ x) (modify-same c p e)

-- What dirlookup returns for an entry: its inode, by iget.
abbrev pub opened : Disk → List Inode → Inode → Hit → Outcome (Hit × List Inode × Disk)
opened d c dp none = ok (none, c, d)
opened d c dp (some (inum, off)) = iget c dp.dev inum >>= λ s. ok (some (s.0, off), s.1, d)

dirlookup-opened :
    (devsw : Drivers) (d : Disk) (c : List Inode) (p : ℕ) (dp : Inode) (de name : ℕ → ℕ) (r : Hit)
    → get_elem? c p ≡ some dp
    → (dp.disk.type == 1) ≡ true
    → scan_dir dp.disk.size devsw d dp de name 0 ≡ ok (r, dp, d)
    → dirlookup devsw d c p de name ≡ opened d c dp r
unfolding dirlookup
dirlookup-opened devsw d c p dp de name none at_p is_dir scanned =
    rw (dirlookup, at_p, is_dir, scanned) (ap (λ x. ok (none, x, d)) (modify-same c p at_p))
dirlookup-opened devsw d c p dp de name (some (inum, off)) at_p is_dir scanned =
    rw (dirlookup, at_p, is_dir, scanned)
      (ap (λ x. iget x dp.dev inum >>= λ s. ok (some (s.0, off), s.1, d)) (modify-same c p at_p))

-- dirlookup on a directory of the inode cache whose size is a multiple of 16 and at most the
-- greatest size of a file, whose blocks are a tree (every block of it is in use and has one place
-- in it) and are there up to its size, with a name of bytes: it ends, and no read panics. The first
-- entry that is not free and has the name, compared up to the first NUL or 14 bytes, is found, and
-- the result is what iget gives for its inode number, with its offset; without such an entry it is
-- 0. The directory and the disk stay.
pub dirlookup_lem :
    (devsw : Drivers) (d : Disk) (c : List Inode) (p : ℕ) (dp : Inode) (place : ℕ → Slot)
    (de name : ℕ → ℕ)
    → get_elem? c p ≡ some dp
    → IsDirectory d dp place
    → ((i : ℕ) → name i < 256)
    → (r : Hit) × (dirlookup devsw d c p de name ≡ opened d c dp r)
      × IsFirst d dp.disk.addrs dp.disk.size name 0 r
dirlookup_lem devsw d c p dp place de name at_p v names =
    let dir = v.is_dir in
    let is_dir : (dp.disk.type == 1) ≡ true = ground arith in
    let (r, scanned, first) =
      scan_dir_lem dp.disk.size devsw d dp place de name 0 v names refl (omega arith)
        (omega arith) in
    (r, dirlookup-opened devsw d c p dp de name r at_p is_dir scanned, first)
