-- ===== src/Fs/Reading.antt =====
-- readi in terms of the contents of the file.
use os.Base.{
  ℕ, ◌+◌, ◌-◌, ◌/◌, ◌^◌, ◌<◌, ◌≤◌, ◌≡◌, ◌≢◌, refl, sym, ◌∙◌, ap, subst, ◌==◌, ltb, if◌then◌else◌,
  true, false, ◌||◌, min, add32, sub32, arith, inr, ◌⊎◌, Option, none, some, ok, from_ok, bind_ok,
}
use os.Fs.Disk.{Disk}
use os.Fs.Inode.{Inode}
use os.Fs.Tree.{Slot, pointer, IsTree}
use os.Fs.Bmap.{SameInode}
use os.Fs.Grown.{slot_of, Grows}
use os.Fs.Io.{ReadDriver, read_run, readi}
use os.Fs.Contents.{content}
use os.Fs.Transfer.{HasBytes, read_run-HasBytes}
use os.Fs.Found.{read_run_found}

-- What readi gives: the result, and the bytes that came from the file.
abbrev pub Delivers : Disk → (ℕ → ℕ) → (ℕ → ℕ) → ℕ → ℕ → (ℕ → ℕ) → Type 0
Delivers d a dst off n dst' =
    ((i : ℕ) → i < n → dst' i ≡ content d a (off + i)) × ((i : ℕ) → n ≤ i → dst' i ≡ dst i)

HasBytes-Delivers :
    (d : Disk) (a : ℕ → ℕ) (dst : ℕ → ℕ) (off n : ℕ) {dst' : ℕ → ℕ}
    → HasBytes d a dst 0 off n dst'
    → Delivers d a dst off n dst'
HasBytes-Delivers d a dst off n (copied, others) = (
  λ i lt. copied i (omega arith) lt ∙ ap (λ x. content d a (off + x)) (omega arith),
  λ i ge. others i (inr ge),
)

-- The number of bytes from `off` to the end of the file, at most `n`.
abbrev pub readable : ℕ → ℕ → ℕ → ℕ
readable size off n = min n (size - off)

-- n as the guard of readi leaves it.
left_to_read :
    (size off n : ℕ)
    → off ≤ size
    → off < 2 ^ 32
    → n < 2 ^ 32
    → size ≤ 8460288
    → (ltb (add32 off n) off ≡ false)
    → (if ltb size (add32 off n) then sub32 size off else n) ≡ readable size off n
left_to_read size off n le off_small small bound inside = ground arith

-- readi without a panic, on a file that is no device, is not longer than the greatest size, and
-- whose blocks are a tree (every block of it is in use and has one place in it), with a 32-bit
-- offset and number of bytes. If the offset is behind the end of the file, or the offset and the
-- number wrap round, it returns -1 and changes nothing. Otherwise it returns the number of bytes up
-- to the end of the file, at most n, puts just these bytes of the file into the buffer, and the
-- inode and the tree of blocks are as before, but for cleared blocks that bmap may add where there
-- was none.
pub readi_lem :
    (devsw : ℕ → Option ReadDriver) (d : Disk) (ip : Inode) (place : ℕ → Slot) (dst : ℕ → ℕ)
    (off n : ℕ) {r : Option ℕ} {dst' : ℕ → ℕ} {ip' : Inode} {d' : Disk}
    → ip.disk.type ≢ 3
    → ip.disk.size ≤ 8460288
    → off < 2 ^ 32
    → n < 2 ^ 32
    → IsTree d ip.disk.addrs place
    → readi devsw d ip dst off n ≡ ok (r, dst', ip', d')
    → ((ip.disk.size < off) ⊎ (2 ^ 32 ≤ off + n)
        → (r ≡ none) × (dst' ≡ dst) × (ip' ≡ ip) × (d' ≡ d))
      × (off ≤ ip.disk.size
          → off + n < 2 ^ 32
          → (r ≡ some (readable ip.disk.size off n))
            × Delivers d ip.disk.addrs dst off (readable ip.disk.size off n) dst'
            × Grows d ip.disk.addrs d' ip'.disk.addrs
            × SameInode ip ip')
unfolding readi
readi_lem devsw d ip place dst off n {r} {dst'} {ip'} {d'} file bound off_small small v e =
    let plain : (ip.disk.type == 3) ≡ false = ground arith in
    (
      λ bad.
          let past : (ltb ip.disk.size off || ltb (add32 off n) off) ≡ true = ground arith in
          let same : (none, dst, ip, d) ≡ (r, dst', ip', d') = from_ok (rw (plain, past) at e) in
          (
            sym (ap (λ p. p.0) same),
            sym (ap (λ p. p.1) same),
            sym (ap (λ p. p.2) same),
            sym (ap (λ p. p.3) same),
          ),
      λ le fits.
          let inside : (ltb ip.disk.size off || ltb (add32 off n) off) ≡ false = ground arith in
          let n' = readable ip.disk.size off n in
          let count = left_to_read ip.disk.size off n le off_small small bound (ground arith) in
          let ((dst1, ip1, d1), got, rest) =
            bind_ok (read_run n' d ip dst 0 off n') (λ x. ok (some n', x.0, x.1, x.2))
              (rw (plain, inside, count) at e) in
          let (grows, same, bytes) =
            read_run-HasBytes n' d ip place dst 0 off n' (omega arith) (ground arith) (ground arith)
              v got in
          subst
            (λ (p : Option ℕ × (ℕ → ℕ) × Inode × Disk).
              (p.0 ≡ some n')
              × Delivers d ip.disk.addrs dst off n' p.1
              × Grows d ip.disk.addrs p.3 p.2.disk.addrs
              × SameInode ip p.2)
            (from_ok rest) (refl, HasBytes-Delivers d ip.disk.addrs dst off n' bytes, grows, same),
    )

pub readi_found :
    (devsw : ℕ → Option ReadDriver) (d : Disk) (ip : Inode) (place : ℕ → Slot) (dst : ℕ → ℕ)
    (off n : ℕ)
    → ip.disk.type ≢ 3
    → ip.disk.size ≤ 8460288
    → off + n ≤ ip.disk.size
    → IsTree d ip.disk.addrs place
    → ((p : ℕ) → off ≤ p → p < off + n → pointer d ip.disk.addrs (slot_of (p / 512)) ≢ 0)
    → (dst' : ℕ → ℕ) × (readi devsw d ip dst off n ≡ ok (some n, dst', ip, d))
      × Delivers d ip.disk.addrs dst off n dst'
unfolding readi
readi_found devsw d ip place dst off n file bound fits v present =
    let plain : (ip.disk.type == 3) ≡ false = ground arith in
    let inside : (ltb ip.disk.size off || ltb (add32 off n) off) ≡ false = ground arith in
    let all : ltb ip.disk.size (add32 off n) ≡ false = ground arith in
    let (dst', found) =
      read_run_found n d ip dst 0 off n (omega arith) (omega arith)
        (λ p lo hi. present p lo (omega arith)) in
    let (grows, same, bytes) =
      read_run-HasBytes n d ip place dst 0 off n (omega arith) (omega arith) (omega arith) v
        found in
    (dst', rw (plain, inside, all, found) refl, HasBytes-Delivers d ip.disk.addrs dst off n bytes)
