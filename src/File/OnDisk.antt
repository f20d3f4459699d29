-- ===== src/File/OnDisk.antt =====
-- The file services that filewrite uses, by writei of fs.c: one file that is open, its inode
-- locked, and the disk. A panic, which ends the run, shows as no result here.
use os.Base.{
  ℕ, zero, suc, ◌+◌, ◌-◌, ◌/◌, ◌<◌, ◌≤◌, ◌≡◌, ◌≢◌, refl, sym, ◌∙◌, ap, subst, ◌==◌, ltb, leb, ◌&&◌,
  if◌then◌else◌, true, false, Bool-cases, inl, inr, Option, none, some, List, [], ◌∷◌, length,
  arith, Outcome, ok, panic,
}
use os.Fs.Disk.{Disk}
use os.Fs.Inode.{Inode}
use os.Fs.Tree.{Slot, pointer, IsTree}
use os.Fs.Grown.{slot_of}
use os.Fs.Io.{writei}
use os.Fs.Contents.{content, slot_of-is_slot}
use os.Fs.Write.{overlaid}
use os.Fs.Writing.{Written, writei_lem}
use os.Fs.Found.{writei_found}
use os.File.{FileServices}
use os.File.Write.{overlay, AreBytes, CanWrite, WritesAll}

abbrev pub Opened : Type 0
Opened = Disk × Inode

-- The bytes of a list, as a buffer.
abbrev pub byte_at : List ℕ → ℕ → ℕ
byte_at [] i = 0
byte_at (c ∷ cs) zero = c
byte_at (c ∷ cs) (suc i) = byte_at cs i

abbrev pub done : Opened → Outcome (Option ℕ × Inode × Disk) → Option ℕ × Opened
done r (ok (n, ip, d)) = (n, (d, ip))
done r panic = (none, r)

abbrev pub on_disk : FileServices Opened
on_disk = record {
  pipeclose = λ r p w. r;
  piperead = λ r p n. (none, r);
  pipewrite = λ r p cs. (none, r);
  ilock = λ r i. r;
  iunlock = λ r i. r;
  iput = λ r i. r;
  readi = λ r i off n. (none, r);
  writei = λ r i cs off. done r (writei (λ n. none) r.0 r.1 (byte_at cs) off (length cs));
  begin_trans = λ r. r;
  commit_trans = λ r. r;
}

-- The bytes of the file up to the greatest size.
abbrev pub file_bytes : Opened → ℕ → ℕ
file_bytes (d, ip) p = if ltb p 8460288 then content d ip.disk.addrs p else 0

abbrev pub file_size : Opened → ℕ
file_size (d, ip) = ip.disk.size

-- The file is no device, its blocks are a tree, and it has blocks up to `n`.
abbrev pub HasBlocks : Opened → ℕ → Type 0
HasBlocks (d, ip) n =
    (ip.disk.type ≢ 3)
    × ((place : ℕ → Slot) × IsTree d ip.disk.addrs place)
    × ((p : ℕ) → p < n → p < 8460288 → pointer d ip.disk.addrs (slot_of (p / 512)) ≢ 0)

byte_at-lt : (cs : List ℕ) (i : ℕ) → AreBytes cs → byte_at cs i < 256
byte_at-lt [] i b = omega arith
byte_at-lt (c ∷ cs) zero (lt, b) = lt
byte_at-lt (c ∷ cs) (suc i) (lt, b) = byte_at-lt cs i b

overlay_at :
    (f : ℕ → ℕ) (off : ℕ) (cs : List ℕ) (p : ℕ)
    → overlay f off cs p ≡ overlaid f off (length cs) (byte_at cs) p
overlay_at f off [] p =
    let outside : (leb off p && ltb p (off + 0)) ≡ false = ground arith in rw outside refl
overlay_at f off (c ∷ cs) p =
    overlay_at (λ q. if off == q then c else f q) (off + 1) cs p ∙ elim (Bool-cases (off == p)) [
      | inl here ↦
          let later : (leb (off + 1) p && ltb p (off + 1 + length cs)) ≡ false = ground arith in
          let inside : (leb off p && ltb p (off + suc (length cs))) ≡ true = ground arith in
          let start : 0 ≡ p - off = ground arith in
          rw (later, here, inside) (ap (byte_at (c ∷ cs)) start)
      | inr other ↦ elim (Bool-cases (leb (off + 1) p && ltb p (off + 1 + length cs))) [
        | inl later ↦
            let inside : (leb off p && ltb p (off + suc (length cs))) ≡ true = ground arith in
            let next : suc (p - (off + 1)) ≡ p - off = ground arith in
            rw (later, inside) (ap (byte_at (c ∷ cs)) next)
        | inr outside ↦
            let nowhere : (leb off p && ltb p (off + suc (length cs))) ≡ false = ground arith in
            rw (outside, other, nowhere) refl
      ]
    ]

overlaid-cut :
    (f : ℕ → ℕ) (off len : ℕ) (src : ℕ → ℕ) (p : ℕ)
    → off + len ≤ 8460288
    → (if ltb p 8460288 then overlaid f off len src p else 0)
      ≡ overlaid (λ q. if ltb q 8460288 then f q else 0) off len src p
overlaid-cut f off len src p fits = elim (Bool-cases (leb off p && ltb p (off + len))) [
  | inl inside ↦ let below : ltb p 8460288 ≡ true = ground arith in rw (inside, below) refl
  | inr outside ↦ rw outside refl
]

Written-bytes :
    (d d' : Disk) (ip ip' : Inode) (cs : List ℕ) (off : ℕ)
    → Written d ip (byte_at cs) off (length cs) ip' d'
    → off + length cs ≤ 8460288
    → file_bytes (d', ip') ≡ overlay (file_bytes (d, ip)) off cs
Written-bytes d d' ip ip' cs off w fits = λ j p. at p j
  where
    written :
        (p : ℕ)
        → file_bytes (d', ip') p ≡ (
            if ltb p 8460288
            then overlaid (content d ip.disk.addrs) off (length cs) (byte_at cs) p
            else 0)
    written p = elim (Bool-cases (ltb p 8460288)) [
      | inl below ↦ let lt : p < 8460288 = ground arith in rw below (w.bytes p lt)
      | inr above ↦ rw above refl
    ]

    at : (p : ℕ) → file_bytes (d', ip') p ≡ overlay (file_bytes (d, ip)) off cs p
    at p =
        written p
        ∙ overlaid-cut (content d ip.disk.addrs) off (length cs) (byte_at cs) p fits
        ∙ sym (overlay_at (file_bytes (d, ip)) off cs p)

Written-HasBlocks :
    (d d' : Disk) (ip ip' : Inode) (cs : List ℕ) (off n : ℕ)
    → Written d ip (byte_at cs) off (length cs) ip' d'
    → HasBlocks (d, ip) n
    → HasBlocks (d', ip') n
Written-HasBlocks d d' ip ip' cs off n w (file, v, there) = (
  (λ t. file (sym w.type_kept ∙ t)),
  (w.place, w.tree),
  λ p lt below z. there p lt below (
      sym (w.stays (slot_of (p / 512)) (slot_of-is_slot (p / 512) (omega arith)) (there p lt below))
      ∙ z),
)

-- A writei that has run.
wrote-at :
    (d : Disk) (ip : Inode) (cs : List ℕ) (off : ℕ) (r : Option ℕ) (ip' : Inode) (d' : Disk)
    → writei (λ n. none) d ip (byte_at cs) off (length cs) ≡ ok (r, ip', d')
    → r ≡ some (length cs)
    → Written d ip (byte_at cs) off (length cs) ip' d'
    → off + length cs ≤ 8460288
    → ((on_disk.writei (d, ip) 0 cs off).0 ≡ some (length cs))
      × (file_bytes (on_disk.writei (d, ip) 0 cs off).1 ≡ overlay (file_bytes (d, ip)) off cs)
      × (off + length cs ≤ file_size (on_disk.writei (d, ip) 0 cs off).1)
      × ((n : ℕ) → HasBlocks (d, ip) n → HasBlocks (on_disk.writei (d, ip) 0 cs off).1 n)
wrote-at d ip cs off r ip' d' run all w fits =
    let ran : on_disk.writei (d, ip) 0 cs off ≡ (r, (d', ip')) = ap (done (d, ip)) run in
    let size_now = w.size_now in
    (
      ap (λ x. x.0) ran ∙ all,
      ap (λ x. file_bytes x.1) ran ∙ Written-bytes d d' ip ip' cs off w fits,
      subst (λ (x : Option ℕ × Opened). off + length cs ≤ file_size x.1) (sym ran) (omega arith),
      λ n has.
          subst (λ (x : Option ℕ × Opened). HasBlocks x.1 n) (sym ran)
            (Written-HasBlocks d d' ip ip' cs off n w has),
    )

writes_lem :
    (r : Opened) (cs : List ℕ) (off : ℕ)
    → CanWrite file_size HasBlocks r cs off
    → ((on_disk.writei r 0 cs off).0 ≡ some (length cs))
      × (file_bytes (on_disk.writei r 0 cs off).1 ≡ overlay (file_bytes r) off cs)
      × (off + length cs ≤ file_size (on_disk.writei r 0 cs off).1)
      × ((n : ℕ) → HasBlocks r n → HasBlocks (on_disk.writei r 0 cs off).1 n)
writes_lem (d, ip) cs off can =
    let (file, (place, v), there) = can.room in
    let below = can.below in
    let bytes : (i : ℕ) → byte_at cs i < 256 = λ i. byte_at-lt cs i can.bytes in
    let (r, ip', d', run) =
      writei_found (λ n. none) d ip place (byte_at cs) off (length cs) file can.within below v
        (λ p lt. there p lt (omega arith)) in
    let (all, w) =
      (writei_lem (λ n. none) d ip place (byte_at cs) off (length cs) file (omega arith)
          (omega arith) bytes v run).1
        can.within below in
    wrote-at d ip cs off r ip' d' run all w below

pub on_disk-WritesAll : WritesAll on_disk 0 file_bytes file_size HasBlocks
on_disk-WritesAll = record {
  writes = writes_lem;
  fewer = λ r m n le has. (has.0, has.1, λ p lt below. has.2 p (omega arith) below);
  locks = λ r. (refl, refl, λ n has. has);
  unlocks = λ r. (refl, refl, λ n has. has);
  begins = λ r. (refl, refl, λ n has. has);
  commits = λ r. (refl, refl, λ n has. has);
}
