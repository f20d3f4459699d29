-- ===== src/Fs/RoundTrip.antt =====
-- readi after writei.
use os.Base.{ℕ, ◌+◌, ◌<◌, ◌≤◌, ◌≡◌, ◌≢◌, sym, ◌∙◌, ap, arith, Option, some, ok}
use os.Fs.Disk.{Disk}
use os.Fs.Inode.{Inode}
use os.Fs.Tree.{Slot, IsTree}
use os.Fs.Io.{ReadDriver, WriteDriver, readi, writei}
use os.Fs.Contents.{content}
use os.Fs.Write.{overlaid-in}
use os.Fs.Writing.{writei_lem}
use os.Fs.Reading.{readi_found}

-- On a file that is no device and whose blocks are a tree (every block of it is in use and has one
-- place in it), for n bytes at an offset within the file that end within the greatest size of a
-- file: if writei does not panic, then it returns n, and a readi of n bytes at the same offset
-- afterwards does not panic, returns n, gives the bytes that were written, leaves the rest of the
-- buffer, and changes neither the inode nor the disk.
pub readi-writei :
    (writers : ℕ → Option WriteDriver) (readers : ℕ → Option ReadDriver) (d : Disk) (ip : Inode)
    (place : ℕ → Slot) (src dst : ℕ → ℕ) (off n : ℕ) {r : Option ℕ} {ip' : Inode} {d' : Disk}
    → ip.disk.type ≢ 3
    → ip.disk.size ≤ 8460288
    → off ≤ ip.disk.size
    → off + n ≤ 8460288
    → ((i : ℕ) → src i < 256)
    → IsTree d ip.disk.addrs place
    → writei writers d ip src off n ≡ ok (r, ip', d')
    → (r ≡ some n)
      × ((dst' : ℕ → ℕ) × (readi readers d' ip' dst off n ≡ ok (some n, dst', ip', d'))
          × ((i : ℕ) → i < n → dst' i ≡ src i)
          × ((i : ℕ) → n ≤ i → dst' i ≡ dst i))
readi-writei writers readers d ip place src dst off n {r} {ip'} {d'} file bound le fits bytes v e =
    let (all, w) =
      (writei_lem writers d ip place src off n file (omega arith) (omega arith) bytes v e).1 le
        fits in
    let size_now = w.size_now in
    let type_kept = w.type_kept in
    let (dst', found, (copied, others)) =
      readi_found readers d' ip' w.place dst off n (λ t. file (sym type_kept ∙ t)) (ground arith)
        (ground arith) w.tree w.present in
    (
      all,
      (
        dst',
        found,
        (λ i lt.
            copied i lt
            ∙ w.bytes (off + i) (omega arith)
            ∙ overlaid-in (content d ip.disk.addrs) off n src (off + i) (omega arith) (omega arith)
            ∙ ap src (omega arith)),
        others,
      ),
    )
