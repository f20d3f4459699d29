-- ===== src/Fs/Writing.antt =====
-- writei in terms of the contents of the file.
use os.Base.{
  ℕ, ◌+◌, ◌-◌, ◌/◌, ◌^◌, ◌<◌, ◌≤◌, ◌≡◌, ◌≢◌, refl, sym, ap, subst, ◌==◌, ltb, true, false, ◌&&◌,
  ◌||◌, max, add32, arith, Bool-cases, inl, inr, ◌⊎◌, Option, none, some, ok, from_ok, bind_ok,
}
use os.Fs.Disk.{Disk}
use os.Fs.Inode.{Inode, iupdate}
use os.Fs.Tree.{is_slot, Slot, pointer, IsTree}
use os.Fs.Grown.{slot_of}
use os.Fs.Io.{WriteDriver, write_run, writei, resized}
use os.Fs.Contents.{content}
use os.Fs.Write.{overlaid, Wrote, write_run-Wrote}

-- What a write of `n` bytes at `off` leaves: the bytes, the size, and blocks where it wrote.
pub record Written (d : Disk) (ip : Inode) (src : ℕ → ℕ) (off n : ℕ) (ip' : Inode) (d' : Disk)
    : Type 0 where
  pub place : ℕ → Slot
  pub tree : IsTree d' ip'.disk.addrs place
  pub dev_kept : ip'.dev ≡ ip.dev
  pub type_kept : ip'.disk.type ≡ ip.disk.type
  pub size_now : ip'.disk.size ≡ max ip.disk.size (off + n)
  pub stays :
      (t : Slot)
      → is_slot t ≡ true
      → pointer d ip.disk.addrs t ≢ 0
      → pointer d' ip'.disk.addrs t ≡ pointer d ip.disk.addrs t
  pub bytes :
      (p : ℕ)
      → p < 8460288
      → content d' ip'.disk.addrs p ≡ overlaid (content d ip.disk.addrs) off n src p
  pub present : (p : ℕ) → off ≤ p → p < off + n → pointer d' ip'.disk.addrs (slot_of (p / 512)) ≢ 0

Wrote-Written :
    (d d1 : Disk) (ip ip1 : Inode) (src : ℕ → ℕ) (off n off' : ℕ)
    → Wrote d ip src off n d1 ip1 off'
    → off ≤ ip.disk.size
    → {r : Option ℕ} {ip' : Inode} {d' : Disk} → resized n (off', ip1, d1) ≡ (r, ip', d')
    → (r ≡ some n) × Written d ip src off n ip' d'
unfolding iupdate
Wrote-Written d d1 ip ip1 src off n off' w le {r} {ip'} {d'} e =
    let same_dev : ip1.dev ≡ ip.dev = ap (λ (x : Inode). x.dev) w.inode in
    let same_size : ip1.disk.size ≡ ip.disk.size = ap (λ (x : Inode). x.disk.size) w.inode in
    let same_type : ip1.disk.type ≡ ip.disk.type = ap (λ (x : Inode). x.disk.type) w.inode in
    elim (Bool-cases (ltb 0 n && ltb ip1.disk.size off')) [
      | inl longer ↦
          let at_end = w.at_end in
          subst (λ p. (p.0 ≡ some n) × Written d ip src off n p.1 p.2) (rw longer at e)
            (
              refl,
              record {
                place = w.place;
                tree = record { reserved = w.tree.reserved; used = w.tree.used; own = w.tree.own };
                dev_kept = same_dev;
                type_kept = same_type;
                size_now = ground arith;
                stays = w.stays;
                bytes = w.bytes;
                present = w.present;
              },
            )
      | inr enough ↦
          let at_end = w.at_end in
          subst (λ p. (p.0 ≡ some n) × Written d ip src off n p.1 p.2) (rw enough at e)
            (
              refl,
              record {
                place = w.place;
                tree = w.tree;
                dev_kept = same_dev;
                type_kept = same_type;
                size_now = ground arith;
                stays = w.stays;
                bytes = w.bytes;
                present = w.present;
              },
            )
    ]

from_start :
    (d d1 : Disk) (ip ip1 : Inode) (src : ℕ → ℕ) (off n off' : ℕ)
    → Wrote d ip (λ i. src (0 + i)) off (n - 0) d1 ip1 off'
    → Wrote d ip src off n d1 ip1 off'
from_start d d1 ip ip1 src off n off' w =
    let from_zero : (i : ℕ) → 0 + i ≡ i = λ i. omega arith in
    let whole : n - 0 ≡ n = omega arith in
    subst (λ x. Wrote d ip src off x d1 ip1 off') whole
      (subst (λ f. Wrote d ip f off (n - 0) d1 ip1 off') (λ j i. src (from_zero i j)) w)

-- writei without a panic, on a file that is no device and whose blocks are a tree (every block of
-- it is in use and has one place in it), with a 32-bit offset and number of bytes. If the offset is
-- behind the end of the file or the bytes would end behind the greatest size of a file, it returns
-- -1 and changes neither the inode nor the disk. Otherwise it returns n; the blocks are a tree
-- again; the size is the greater of the old one and the end of the written bytes; the contents are
-- the bytes given where they were written and the old ones everywhere else, with zeros for blocks
-- that are not there; and every written place has a block.
pub writei_lem :
    (devsw : ℕ → Option WriteDriver) (d : Disk) (ip : Inode) (place : ℕ → Slot) (src : ℕ → ℕ)
    (off n : ℕ) {r : Option ℕ} {ip' : Inode} {d' : Disk}
    → ip.disk.type ≢ 3
    → off < 2 ^ 32
    → n < 2 ^ 32
    → ((i : ℕ) → src i < 256)
    → IsTree d ip.disk.addrs place
    → writei devsw d ip src off n ≡ ok (r, ip', d')
    → ((ip.disk.size < off) ⊎ (8460288 < off + n) → (r ≡ none) × (ip' ≡ ip) × (d' ≡ d))
      × (off ≤ ip.disk.size → off + n ≤ 8460288 → (r ≡ some n) × Written d ip src off n ip' d')
unfolding writei
writei_lem devsw d ip place src off n {r} {ip'} {d'} file off_small small bytes v e =
    let plain : (ip.disk.type == 3) ≡ false = ground arith in
    (
      λ bad.
          let refused : ok (none, ip, d) ≡ ok (r, ip', d') =
            elim (Bool-cases (ltb ip.disk.size off || ltb (add32 off n) off)) [
              | inl past ↦ rw (plain, past) at e
              | inr inside ↦
                  let above : ltb 8460288 (add32 off n) ≡ true = ground arith in
                  rw (plain, inside, above) at e
            ] in
          let same = from_ok refused in
          (sym (ap (λ p. p.0) same), sym (ap (λ p. p.1) same), sym (ap (λ p. p.2) same)),
      λ le fits.
          let inside : (ltb ip.disk.size off || ltb (add32 off n) off) ≡ false = ground arith in
          let below : ltb 8460288 (add32 off n) ≡ false = ground arith in
          let ((off', ip1, d1), got, rest) =
            bind_ok (write_run n d ip src 0 off n) (λ x. ok (resized n x))
              (rw (plain, inside, below) at e) in
          Wrote-Written d d1 ip ip1 src off n off'
            (from_start d d1 ip ip1 src off n off' (
              write_run-Wrote n d ip place src 0 off n (omega arith) small (omega arith) bytes v
                got))
            le (from_ok rest),
    )
