-- ===== src/Fs/Write.antt =====
-- The loop of writei over the contents of a file.
use os.Base.{
  ℕ, zero, suc, ◌+◌, ◌-◌, ◌/◌, ◌%◌, ◌^◌, ◌<◌, ◌≤◌, ◌≡◌, ◌≢◌, refl, sym, ◌∙◌, ap, subst, ◌==◌, ltb,
  leb, if◌then◌else◌, true, false, ◌&&◌, add32, arith, Bool-cases, inl, inr, ◌⊎◌, ok, from_ok,
  bind_ok,
}
use os.Fs.Disk.{Disk}
use os.Fs.Inode.{Inode, bmap}
use os.Fs.Tree.{Slot, is_slot, child, pointer, IsTree}
use os.Fs.Bmap.{SameInode, bmap-Finds}
use os.Fs.Grown.{slot_of, Grows}
use os.Fs.Io.{byte_of, bytes_of, copy_in, chunk, put_block, write_run}
use os.Fs.Bytes.{bytes_of-copy_in}
use os.Fs.Contents.{
  content, slot_of-is_slot, slot_of-is_data, slots_differ, Grows-content, filled-pointer,
  filled-IsTree, filled-here, filled-other,
}
use os.Fs.Transfer.{IsRound, chunk-IsRound, block_bytes, round_left, round_fits, SameInode-trans}

-- What the bytes of a file are after a write of `len` bytes at `off`.
abbrev pub overlaid : (ℕ → ℕ) → ℕ → ℕ → (ℕ → ℕ) → ℕ → ℕ
overlaid old off len src p = if leb off p && ltb p (off + len) then src (p - off) else old p

pub overlaid-in :
    (old : ℕ → ℕ) (off len : ℕ) (src : ℕ → ℕ) (p : ℕ)
    → off ≤ p
    → p < off + len
    → overlaid old off len src p ≡ src (p - off)
overlaid-in old off len src p lo hi =
    let here : (leb off p && ltb p (off + len)) ≡ true = ground arith in rw here refl

pub overlaid-out :
    (old : ℕ → ℕ) (off len : ℕ) (src : ℕ → ℕ) (p : ℕ)
    → (p < off) ⊎ (off + len ≤ p)
    → overlaid old off len src p ≡ old p
overlaid-out old off len src p out =
    let here : (leb off p && ltb p (off + len)) ≡ false = ground arith in rw here refl

pub record Wrote (d : Disk) (ip : Inode) (src : ℕ → ℕ) (off len : ℕ) (d' : Disk) (ip' : Inode)
    (off' : ℕ) : Type 0 where
  pub place : ℕ → Slot
  pub tree : IsTree d' ip'.disk.addrs place
  pub inode : SameInode ip ip'
  pub at_end : off' ≡ off + len
  pub bytes :
      (p : ℕ)
      → p < 8460288
      → content d' ip'.disk.addrs p ≡ overlaid (content d ip.disk.addrs) off len src p
  pub present :
      (p : ℕ) → off ≤ p → p < off + len → pointer d' ip'.disk.addrs (slot_of (p / 512)) ≢ 0
  pub stays :
      (t : Slot)
      → is_slot t ≡ true
      → pointer d ip.disk.addrs t ≢ 0
      → pointer d' ip'.disk.addrs t ≡ pointer d ip.disk.addrs t

-- One block, of which `m` bytes are written.
module _ (d : Disk) (a : ℕ → ℕ) (place : ℕ → Slot) (v : IsTree d a place) (off m : ℕ) (src : ℕ → ℕ)
    (small : (i : ℕ) → src i < 256) (fits : off < 8460288) (in_block : off % 512 + m ≤ 512)
    (real : pointer d a (slot_of (off / 512)) ≢ 0) where
  abbrev block : ℕ
  block = pointer d a (slot_of (off / 512))

  abbrev after : Disk
  after = put_block d block (copy_in (d.words block) (off % 512) src m)

  is_s : is_slot (slot_of (off / 512)) ≡ true
  is_s = slot_of-is_slot (off / 512) (omega arith)

  after-here :
      (p : ℕ) → p / 512 ≡ off / 512 → content after a p ≡ overlaid (content d a) off m src p
  after-here p same =
      let w = copy_in (d.words block) (off % 512) src m in
      let filled_bytes : bytes_of (child after (pointer after a (slot_of (off / 512)))) (p % 512)
          ≡ bytes_of w (p % 512) =
        ap (λ x. byte_of x (p % 512 % 4))
          (filled-here d a place v (slot_of (off / 512)) is_s (slot_of-is_data (off / 512)) real w
            (p % 512 / 4)) in
      let old : bytes_of (d.words block) (p % 512) ≡ content d a p =
        block_bytes d a block p (ap (λ x. pointer d a (slot_of x)) same) real (p % 512) refl in
      ap (λ x. bytes_of (child after (pointer after a (slot_of x))) (p % 512)) same
      ∙ filled_bytes
      ∙ bytes_of-copy_in (d.words block) (off % 512) src m (p % 512) small
      ∙ elim (Bool-cases (leb (off % 512) (p % 512) && ltb (p % 512) (off % 512 + m))) [
        | inl inside ↦
            let start : p % 512 - off % 512 ≡ p - off = omega arith in
            rw (inside, start)
              (sym (overlaid-in (content d a) off m src p (ground arith) (ground arith)))
        | inr outside ↦
            rw outside (old ∙ sym (overlaid-out (content d a) off m src p (ground arith)))
      ]

  after-there :
      (p : ℕ)
      → p < 8460288
      → p / 512 ≢ off / 512
      → content after a p ≡ overlaid (content d a) off m src p
  after-there p lt ne =
      ap (λ x. byte_of x (p % 512 % 4))
        (filled-other d a place v (slot_of (off / 512)) is_s (slot_of-is_data (off / 512)) real
          (copy_in (d.words block) (off % 512) src m) (slot_of (p / 512))
          (slot_of-is_slot (p / 512) (omega arith)) (slots_differ (p / 512) (off / 512) ne)
          (p % 512 / 4))
      ∙ sym (overlaid-out (content d a) off m src p (ground arith))

  after-content : (p : ℕ) → p < 8460288 → content after a p ≡ overlaid (content d a) off m src p
  after-content p lt = elim (Bool-cases (p / 512 == off / 512)) [
    | inl same ↦ after-here p (ground arith)
    | inr other ↦ after-there p lt (ground arith)
  ]

-- Two runs of bytes, one behind the other.
overlaid-overlaid :
    (old : ℕ → ℕ) (src : ℕ → ℕ) (tot off m len p : ℕ)
    → overlaid (overlaid old off m (λ i. src (tot + i))) (off + m) len (λ i. src (tot + m + i)) p
      ≡ overlaid old off (m + len) (λ i. src (tot + i)) p
overlaid-overlaid old src tot off m len p =
    elim (Bool-cases (leb (off + m) p && ltb p (off + m + len))) [
      | inl late ↦
          let all : (leb off p && ltb p (off + (m + len))) ≡ true = ground arith in
          rw (late, all) (ap src (ground arith))
      | inr other ↦ rw other (elim (Bool-cases (leb off p && ltb p (off + m))) [
        | inl early ↦
            let all : (leb off p && ltb p (off + (m + len))) ≡ true = ground arith in
            rw (early, all) refl
        | inr outside ↦
            let all : (leb off p && ltb p (off + (m + len))) ≡ false = ground arith in
            rw (outside, all) refl
      ])
    ]

overlaid-ap :
    (old old' : ℕ → ℕ) (off len : ℕ) (src : ℕ → ℕ) (p : ℕ)
    → old p ≡ old' p
    → overlaid old off len src p ≡ overlaid old' off len src p
overlaid-ap old old' off len src p e =
    ap (λ x. if leb off p && ltb p (off + len) then src (p - off) else x) e

-- A round, and the rounds after it.
module _ (d d1 d' : Disk) (ip ip1 ip' : Inode) (tot off n m off' : ℕ) (src : ℕ → ℕ)
    (small : (i : ℕ) → src i < 256) (g : Grows d ip.disk.addrs d1 ip1.disk.addrs)
    (same : SameInode ip ip1) (real : pointer d1 ip1.disk.addrs (slot_of (off / 512)) ≢ 0)
    (round : IsRound n tot off m) (more : tot < n) (fits : off + (n - tot) ≤ 8460288) where
  abbrev mid : Disk
  mid = put_block d1 (pointer d1 ip1.disk.addrs (slot_of (off / 512))) (
      copy_in (d1.words (pointer d1 ip1.disk.addrs (slot_of (off / 512)))) (off % 512)
        (λ i. src (tot + i)) m)

  mid-content :
      (p : ℕ)
      → p < 8460288
      → content mid ip1.disk.addrs p
        ≡ overlaid (content d ip.disk.addrs) off m (λ i. src (tot + i)) p
  mid-content p lt =
      after-content d1 ip1.disk.addrs g.place g.tree off m (λ i. src (tot + i))
        (λ i. small (tot + i))
        (let pos = round.some_left in let inside = round.within in omega arith) round.in_block real
        p lt
      ∙ overlaid-ap (content d1 ip1.disk.addrs) (content d ip.disk.addrs) off m (λ i. src (tot + i))
          p (Grows-content p lt g)

  mid-pointer :
      (t : Slot) → is_slot t ≡ true → pointer mid ip1.disk.addrs t ≡ pointer d1 ip1.disk.addrs t
  mid-pointer =
      filled-pointer d1 ip1.disk.addrs g.place g.tree (slot_of (off / 512))
        (slot_of-is_slot (off / 512) (omega arith)) (slot_of-is_data (off / 512)) real
        (copy_in (d1.words (pointer d1 ip1.disk.addrs (slot_of (off / 512)))) (off % 512)
          (λ i. src (tot + i)) m)

  write_step :
      Wrote mid ip1 (λ i. src (tot + m + i)) (off + m) (n - (tot + m)) d' ip' off'
      → Wrote d ip (λ i. src (tot + i)) off (n - tot) d' ip' off'
  write_step w =
      let inside = round.within in
      let len : m + (n - (tot + m)) ≡ n - tot = omega arith in
      record {
        place = w.place;
        tree = w.tree;
        inode = SameInode-trans ip ip1 ip' same w.inode;
        at_end = w.at_end ∙ (omega arith);
        bytes = λ p lt.
            w.bytes p lt
            ∙ overlaid-ap (content mid ip1.disk.addrs)
                (overlaid (content d ip.disk.addrs) off m (λ i. src (tot + i))) (off + m)
                (n - (tot + m)) (λ i. src (tot + m + i)) p (mid-content p lt)
            ∙ overlaid-overlaid (content d ip.disk.addrs) src tot off m (n - (tot + m)) p
            ∙ ap (λ x. overlaid (content d ip.disk.addrs) off x (λ i. src (tot + i)) p) len;
        present = λ p lo hi. elim (Bool-cases (ltb p (off + m))) [
          | inl now ↦
              let lt : p < off + m = ground arith in
              let block = round.in_block in
              let here : off / 512 ≡ p / 512 = omega arith in
              let there : pointer mid ip1.disk.addrs (slot_of (p / 512)) ≢ 0 =
                subst (λ x. pointer mid ip1.disk.addrs (slot_of x) ≢ 0) here
                  (subst (λ x. x ≢ 0)
                    (sym (
                      mid-pointer (slot_of (off / 512))
                        (slot_of-is_slot (off / 512) (omega arith))))
                    real) in
              subst (λ x. x ≢ 0)
                (sym (w.stays (slot_of (p / 512)) (slot_of-is_slot (p / 512) (omega arith)) there))
                there
          | inr later ↦
              let ge : off + m ≤ p = ground arith in w.present p (omega arith) (omega arith)
        ];
        stays = λ t is_t real_t.
            let old = mid-pointer t is_t ∙ g.stays t is_t real_t in
            w.stays t is_t (subst (λ x. x ≢ 0) (sym old) real_t) ∙ old;
      }

Wrote_none :
    (d : Disk) (ip : Inode) (place : ℕ → Slot) (src : ℕ → ℕ) (off len : ℕ)
    → IsTree d ip.disk.addrs place
    → len ≡ 0
    → Wrote d ip src off len d ip off
Wrote_none d ip place src off len v nothing = record {
  place = place;
  tree = v;
  inode = refl;
  at_end = omega arith;
  bytes = λ p lt. sym (overlaid-out (content d ip.disk.addrs) off len src p (ground arith));
  present = λ p lo hi. absurd (omega arith);
  stays = λ t is_t real. refl;
}

pub write_run-Wrote :
    (k : ℕ) (d : Disk) (ip : Inode) (place : ℕ → Slot) (src : ℕ → ℕ) (tot off n : ℕ) {off' : ℕ}
    {ip' : Inode} {d' : Disk}
    → n - tot ≤ k
    → n < 2 ^ 32
    → off + (n - tot) ≤ 8460288
    → ((i : ℕ) → src i < 256)
    → IsTree d ip.disk.addrs place
    → write_run k d ip src tot off n ≡ ok (off', ip', d')
    → Wrote d ip (λ i. src (tot + i)) off (n - tot) d' ip' off'
unfolding write_run
write_run-Wrote zero d ip place src tot off n le small fits bytes v e =
    subst (λ p. Wrote d ip (λ i. src (tot + i)) off (n - tot) p.2 p.1 p.0) (from_ok e)
      (Wrote_none d ip place (λ i. src (tot + i)) off (n - tot) v (omega arith))
write_run-Wrote (suc k) d ip place src tot off n {off'} {ip'} {d'} le small fits bytes v e =
    elim (Bool-cases (ltb tot n)) [
      | inr done ↦
          subst (λ p. Wrote d ip (λ i. src (tot + i)) off (n - tot) p.2 p.1 p.0)
            (from_ok (rw done at e))
            (Wrote_none d ip place (λ i. src (tot + i)) off (n - tot) v (ground arith))
      | inl more ↦
          let m = chunk n tot off in
          let round = chunk-IsRound n tot off (ground arith) small fits in
          let ((b, ip1, d1), got, rest) = bind_ok (bmap d ip (off / 512)) _ (rw more at e) in
          let ((g, at_b, real), same) = bmap-Finds d ip place (off / 512) v got in
          let block = pointer d1 ip1.disk.addrs (slot_of (off / 512)) in
          let here : block ≢ 0 = subst (λ x. x ≢ 0) (sym at_b) real in
          let w = copy_in (d1.words block) (off % 512) (λ i. src (tot + i)) m in
          let next : write_run k (put_block d1 block w) ip1 src (tot + m) (off + m) n
              ≡ ok (off', ip', d') =
            ap (λ x. write_run k (put_block d1 block w) ip1 src x (off + m) n) (sym round.next_tot)
            ∙ ap (λ x. write_run k (put_block d1 block w) ip1 src (add32 tot m) x n)
                (sym round.next_off)
            ∙ ap
                (λ x.
                  write_run k
                    (put_block d1 x (copy_in (d1.words x) (off % 512) (λ i. src (tot + i)) m)) ip1
                    src (add32 tot m) (add32 off m) n)
                at_b
            ∙ rest in
          let tree =
            filled-IsTree d1 ip1.disk.addrs g.place g.tree (slot_of (off / 512))
              (slot_of-is_slot (off / 512) (ground arith)) (slot_of-is_data (off / 512)) here w in
          let left = round_left k n tot off m round le in
          let within = round_fits n tot off m round (ground arith) fits in
          write_step d d1 d' ip ip1 ip' tot off n m off' src bytes g same here round (ground arith)
            fits
            (write_run-Wrote k (put_block d1 block w) ip1 g.place src (tot + m) (off + m) n
              (subst (λ x. n - x ≤ k) round.next_tot left) small
              (subst (λ x. x + (n - (tot + m)) ≤ 8460288) round.next_off
                (subst (λ x. add32 off m + (n - x) ≤ 8460288) round.next_tot within))
              bytes tree next)
    ]
