-- ===== src/Fs/Link.antt =====
-- dirlink: the entry that it writes, and where.
use os.Base.{
  ℕ, zero, suc, ◌+◌, ◌-◌, ◌/◌, ◌%◌, ◌<◌, ◌≤◌, ◌≡◌, ◌≢◌, refl, sym, ◌∙◌, ap, subst, ◌==◌, ltb, leb,
  ◌&&◌, true, false, none, some, arith, Bool-cases, inl, inr, add32, ok,
}
use os.Str.Compare.{IsString}
use os.Str.Copy.{Padded}
use os.Fs.Disk.{Disk}
use os.Fs.Inode.{Inode}
use os.Fs.Tree.{Slot, zero_of}
use os.Fs.Grown.{slot_of}
use os.Fs.Contents.{content, slot_of-is_slot}
use os.Fs.Write.{overlaid-in, overlaid-out}
use os.Fs.Io.{readi}
use os.Fs.Writing.{Written}
use os.Fs.Dir.{Drivers, Hit, de_inum, in_memory, numbered, free_entry}
use os.Fs.Lookup.{IsDirectory, entry_at, IsNamed, IsNamed-ap, Matches, IsFirst, read_entry}

-- A free entry or the end of the directory.
abbrev pub Free : Disk → Inode → ℕ → Type 0
Free d dp o =
    (o ≤ dp.disk.size)
    × (o % 16 ≡ 0)
    × (o < dp.disk.size → de_inum (entry_at d dp.disk.addrs o) ≡ 0)

abbrev Freed : ℕ → Drivers → Disk → Inode → (ℕ → ℕ) → ℕ → Type 0
Freed k devsw d dp de off =
    (o : ℕ) × ((de' : ℕ → ℕ) × (free_entry k devsw d dp de off ≡ ok (o, de', dp, d)) × Free d dp o)

free_step :
    (k : ℕ) (devsw : Drivers) (d : Disk) (dp : Inode) (de de' : ℕ → ℕ) (off : ℕ)
    → off % 16 ≡ 0
    → off ≤ dp.disk.size
    → ltb off dp.disk.size ≡ true
    → add32 off 16 ≡ off + 16
    → readi devsw.read d dp de off 16 ≡ ok (some 16, de', dp, d)
    → ((i : ℕ) → i < 16 → de' i ≡ entry_at d dp.disk.addrs off i)
    → Freed k devsw d dp de' (off + 16)
    → Freed (suc k) devsw d dp de off
unfolding free_entry
free_step k devsw d dp de de' off w le more next read same (o, (de1, rest, free)) =
    let number : de_inum de' ≡ de_inum (entry_at d dp.disk.addrs off) =
      rw (same 0 (omega arith), same 1 (omega arith)) refl in
    elim (Bool-cases (de_inum de' == 0)) [
      | inl empty ↦ (
        off,
        (
          de',
          rw (more, read, empty) refl,
          (le, w, λ lt. sym number ∙ sym (zero_of (de_inum de') empty)),
        ),
      )
      | inr taken ↦ (o, (de1, rw (more, read, taken, next) rest, free))
    ]

pub free_entry_lem :
    (k : ℕ) (devsw : Drivers) (d : Disk) (dp : Inode) (place : ℕ → Slot) (de : ℕ → ℕ) (off : ℕ)
    → IsDirectory d dp place
    → off % 16 ≡ 0
    → off ≤ dp.disk.size
    → dp.disk.size - off ≤ k
    → Freed k devsw d dp de off
unfolding free_entry
free_entry_lem zero devsw d dp place de off v w le fuel =
    (off, (de, refl, (le, w, λ lt. absurd (omega arith))))
free_entry_lem (suc k) devsw d dp place de off v w le fuel =
    elim (Bool-cases (ltb off dp.disk.size)) [
      | inr end ↦ (off, (de, rw end refl, (le, w, λ lt. absurd (ground arith))))
      | inl more ↦
          let lt : off < dp.disk.size = ground arith in
          let (de', read, same) = read_entry devsw d dp place de off v w lt in
          let bound = v.bound in
          let whole = v.whole in
          free_step k devsw d dp de de' off w le more (omega arith) read same (
            free_entry_lem k devsw d dp place de' (off + 16) v (omega arith) (omega arith)
              (omega arith))
    ]

in_memory-name : (de name : ℕ → ℕ) (i : ℕ) → in_memory de name (16 + i) ≡ name i
in_memory-name de name i =
    let behind : ltb (16 + i) 16 ≡ false = ground arith in
    let same : 16 + i - 16 ≡ i = omega arith in rw (behind, same) refl

in_memory-de : (de name : ℕ → ℕ) (i : ℕ) → i < 16 → in_memory de name i ≡ de i
in_memory-de de name i lt = let inside : ltb i 16 ≡ true = ground arith in rw inside refl

pub name_in_place :
    (de name : ℕ → ℕ) (k : ℕ) → IsString name 0 k → IsString (in_memory de name) 16 k
name_in_place de name k str = record {
  nul = in_memory-name de name k ∙ ap name (omega arith) ∙ str.nul;
  bytes = λ i lt z. str.bytes i lt (ap name (omega arith) ∙ sym (in_memory-name de name i) ∙ z);
}

-- The bytes of an entry whose name strncpy has written.
module _ (de name new : ℕ → ℕ) (inum k : ℕ)
    (padded : Padded (in_memory de name) new 2 16 14 k) where
  new-lt : ((i : ℕ) → name i < 256) → (i : ℕ) → 2 ≤ i → new i < 256
  new-lt names i ge = elim (Bool-cases (ltb i 16)) [
    | inr behind ↦
        let there : 16 ≤ i = ground arith in
        let at : 16 + (i - 16) ≡ i = omega arith in
        rw (padded.outside i (inr there)) (
          subst (λ x. in_memory de name x < 256) at
            (rw (in_memory-name de name (i - 16)) (names (i - 16))))
    | inl inside ↦
        let at : 2 + (i - 2) ≡ i = omega arith in
        subst (λ x. new x < 256) at
          (elim (Bool-cases (ltb (i - 2) k)) [
            | inl letter ↦
                rw
                  (
                    padded.copied (i - 2) (ground arith) (ground arith),
                    in_memory-name de name (i - 2),
                  )
                  (names (i - 2))
            | inr padding ↦ rw (padded.zeros (i - 2) (ground arith) (ground arith)) (omega arith)
          ])
  ]

  pub numbered-lt : ((i : ℕ) → name i < 256) → (i : ℕ) → numbered new inum i < 256
  numbered-lt names zero = omega arith
  numbered-lt names (suc zero) = omega arith
  numbered-lt names (suc (suc i)) =
      let other : numbered new inum (suc (suc i)) ≡ new (suc (suc i)) = ground arith in
      subst (λ x. x < 256) (sym other) (new-lt names (suc (suc i)) (omega arith))

  pub numbered-IsNamed :
      IsString name 0 k → inum < 65536 → inum ≢ 0 → IsNamed (numbered new inum) name
  numbered-IsNamed str small real = (
    (λ z. real (omega arith)),
    λ i lt before.
        let other : numbered new inum (2 + i) ≡ new (2 + i) = ground arith in
        in_memory-name (numbered new inum) name i
        ∙ elim (Bool-cases (ltb i k)) [
          | inl letter ↦ sym (in_memory-name de name i) ∙ sym (padded.copied i lt (ground arith))
          | inr padding ↦
              (elim (Bool-cases (i == k)) [
                | inl last ↦ ap name (ground arith) ∙ str.nul
                | inr past ↦ absurd (
                    before k (ground arith)
                      (in_memory-name (numbered new inum) name k ∙ ap name (omega arith) ∙ str.nul))
              ])
              ∙ sym (padded.zeros i lt (ground arith))
        ]
        ∙ sym other
        ∙ sym (in_memory-de (numbered new inum) name (2 + i) (omega arith)),
  )

-- What is in the directory after a write of an entry at `o`.
module _ (d d' : Disk) (dp dp' : Inode) (place : ℕ → Slot) (src : ℕ → ℕ) (o : ℕ)
    (v : IsDirectory d dp place) (free : Free d dp o) (fits : o + 16 ≤ 8460288)
    (w : Written d dp src o 16 dp' d') where
  new_entry : (i : ℕ) → i < 16 → entry_at d' dp'.disk.addrs o i ≡ src i
  new_entry i lt =
      w.bytes (o + i) (omega arith)
      ∙ overlaid-in (content d dp.disk.addrs) o 16 src (o + i) (omega arith) (omega arith)
      ∙ ap src (omega arith)

  old_entry :
      (q : ℕ)
      → q % 16 ≡ 0
      → q ≢ o
      → q < 8460288
      → (i : ℕ) → i < 16
      → entry_at d' dp'.disk.addrs q i ≡ entry_at d dp.disk.addrs q i
  old_entry q whole ne lt i lti =
      let at = free.1 in
      w.bytes (q + i) (omega arith)
      ∙ overlaid-out (content d dp.disk.addrs) o 16 src (q + i) (elim (Bool-cases (ltb q o)) [
        | inl before ↦ inl (ground arith)
        | inr after ↦ inr (ground arith)
      ])

  pub still_IsDirectory : IsDirectory d' dp' w.place
  still_IsDirectory =
      let size_now = w.size_now in
      let bound = v.bound in
      let whole = v.whole in
      let at = free.1 in
      record {
        is_dir = w.type_kept ∙ v.is_dir;
        whole = ground arith;
        bound = ground arith;
        tree = w.tree;
        present = λ p lt. elim (Bool-cases (leb o p && ltb p (o + 16))) [
          | inl now ↦ w.present p (ground arith) (ground arith)
          | inr outside ↦
              let old = v.present p (ground arith) in
              subst (λ x. x ≢ 0)
                (sym (w.stays (slot_of (p / 512)) (slot_of-is_slot (p / 512) (ground arith)) old))
                old
        ];
      }

  pub only_new :
      (name : ℕ → ℕ) (inum : ℕ)
      → IsNamed src name
      → de_inum src ≡ inum
      → ((q : ℕ) → q < dp.disk.size → q % 16 ≡ 0 → ¬ Matches d dp.disk.addrs name q)
      → (r : Hit) → IsFirst d' dp'.disk.addrs dp'.disk.size name 0 r
      → r ≡ some (inum, o)
  only_new name inum named number unknown none first =
      let size_now = w.size_now in
      absurd (
        first o (omega arith) (ground arith) free.1
          (IsNamed-ap src (entry_at d' dp'.disk.addrs o) name (λ j lt. sym (new_entry j lt)) named))
  only_new name inum named number unknown (some (i, q)) (lo, hi, at, e, m, before) =
      elim (Bool-cases (q == o)) [
        | inl here ↦
            let same : q ≡ o = ground arith in
            let written : de_inum (entry_at d' dp'.disk.addrs o) ≡ de_inum src =
              rw (new_entry 0 (omega arith), new_entry 1 (omega arith)) refl in
            let inum_there : i ≡ inum =
              e ∙ ap (λ x. de_inum (entry_at d' dp'.disk.addrs x)) same ∙ written ∙ number in
            λ j. some (inum_there j, same j)
        | inr other ↦ elim (Bool-cases (ltb o q)) [
          | inl later ↦ absurd (
              before o (omega arith) (ground arith) free.1 (
                IsNamed-ap src (entry_at d' dp'.disk.addrs o) name (λ j lt. sym (new_entry j lt))
                  named))
          | inr earlier ↦
              let size_le = free.0 in
              let apart : q ≢ o = ground arith in
              absurd (
                unknown q (ground arith) at (
                  IsNamed-ap (entry_at d' dp'.disk.addrs q) (entry_at d dp.disk.addrs q) name
                    (old_entry q at apart (omega arith)) m))
        ]
      ]
