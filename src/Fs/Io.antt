-- ===== src/Fs/Io.antt =====
-- readi and writei. A buffer in memory is a function from offsets to bytes, and a block of bytes is
-- read and written through its words, low byte first. A driver is a function of a device that devsw
-- holds.
use os.Base.{
  ℕ, zero, suc, ◌+◌, ◌-◌, ◌*◌, ◌/◌, ◌%◌, ◌==◌, ltb, leb, if◌then◌else◌, Bool, ◌&&◌, ◌||◌, Option,
  none, some, min, add32, sub32, Outcome, ok, ◌>>=◌,
}
use os.Fs.Disk.{Disk, put}
use os.Fs.Inode.{Inode, bmap, iupdate}

abbrev pub bsize : ℕ
bsize = 512

abbrev pub maxfile : ℕ
maxfile = 16524

abbrev pub ndev : ℕ
ndev = 10

-- Byte `k` of a word.
abbrev pub byte_of : ℕ → ℕ → ℕ
byte_of w k =
    if k == 0
    then w % 256
    else if k == 1
    then w / 256 % 256
    else if k == 2
    then w / 65536 % 256
    else w / 16777216 % 256

abbrev pub word_of : (ℕ → ℕ) → ℕ
word_of f = f 0 + 256 * f 1 + 65536 * f 2 + 16777216 * f 3

-- The bytes of a block, from its words.
abbrev pub bytes_of : (ℕ → ℕ) → ℕ → ℕ
bytes_of words o = byte_of (words (o / 4)) (o % 4)

-- memmove(dst + tot, bp->data + start, m)
abbrev pub copy_out : (ℕ → ℕ) → ℕ → (ℕ → ℕ) → ℕ → ℕ → ℕ → ℕ
copy_out dst tot words start m i =
    if leb tot i && ltb i (tot + m) then bytes_of words (start + (i - tot)) else dst i

-- memmove(bp->data + start, src, m)
abbrev pub copy_in : (ℕ → ℕ) → ℕ → (ℕ → ℕ) → ℕ → ℕ → ℕ
copy_in words start src m i = word_of (λ j.
    if leb start (4 * i + j) && ltb (4 * i + j) (start + m)
    then src (4 * i + j - start)
    else byte_of (words i) j)

abbrev pub chunk : ℕ → ℕ → ℕ → ℕ
chunk n tot off = min (sub32 n tot) (bsize - off % bsize)

unfoldable pub read_run : ℕ → Disk → Inode → (ℕ → ℕ) → ℕ → ℕ → ℕ → Outcome ((ℕ → ℕ) × Inode × Disk)
unfolding bmap
read_run zero d ip dst tot off n = ok (dst, ip, d)
read_run (suc k) d ip dst tot off n =
    let m = chunk n tot off in
    let rest = λ (r : ℕ × Inode × Disk).
      read_run k r.2 r.1 (copy_out dst tot (r.2.words r.0) (off % bsize) m) (add32 tot m)
        (add32 off m) n in
    if ltb tot n then (bmap d ip (off / bsize) >>= rest) else ok (dst, ip, d)

-- devsw[major].read(ip, dst, n): the result, and what is in the buffer.
abbrev pub ReadDriver : Type 0
ReadDriver = Inode → (ℕ → ℕ) → ℕ → Option ℕ × (ℕ → ℕ)

abbrev pub WriteDriver : Type 0
WriteDriver = Inode → (ℕ → ℕ) → ℕ → Option ℕ

-- ip->major < 0 || ip->major >= NDEV, of a short kept as its 16 bits
abbrev pub no_device : ℕ → Bool
no_device major = leb 0x8000 major || leb ndev major

-- Every round reads a byte. `none` is -1.
unfoldable pub readi :
    (ℕ → Option ReadDriver)
    → Disk
    → Inode
    → (ℕ → ℕ)
    → ℕ
    → ℕ
    → Outcome (Option ℕ × (ℕ → ℕ) × Inode × Disk)
unfolding read_run
readi devsw d ip dst off n =
    if ip.disk.type == 3
    then (if no_device ip.disk.major then ok (none, dst, ip, d) else (elim (devsw ip.disk.major) [
      | none ↦ ok (none, dst, ip, d)
      | some driver ↦ let (r, dst') = driver ip dst n in ok (r, dst', ip, d)
    ]))
    else if ltb ip.disk.size off || ltb (add32 off n) off
    then ok (none, dst, ip, d)
    else (let n' = if ltb ip.disk.size (add32 off n) then sub32 ip.disk.size off else n in
        read_run n' d ip dst 0 off n' >>= λ r. ok (some n', r.0, r.1, r.2))

abbrev pub put_block : Disk → ℕ → (ℕ → ℕ) → Disk
put_block d b words = record d { words = put d.words b words }

-- The offset at the end comes with the inode and the disk.
unfoldable pub write_run : ℕ → Disk → Inode → (ℕ → ℕ) → ℕ → ℕ → ℕ → Outcome (ℕ × Inode × Disk)
unfolding bmap
write_run zero d ip src tot off n = ok (off, ip, d)
write_run (suc k) d ip src tot off n =
    let m = chunk n tot off in
    let rest = λ (r : ℕ × Inode × Disk).
      write_run k (put_block r.2 r.0 (copy_in (r.2.words r.0) (off % bsize) (λ i. src (tot + i)) m))
        r.1 src (add32 tot m) (add32 off m) n in
    if ltb tot n then (bmap d ip (off / bsize) >>= rest) else ok (off, ip, d)

abbrev pub resized : ℕ → ℕ × Inode × Disk → Option ℕ × Inode × Disk
resized n (off, ip, d) =
    if ltb 0 n && ltb ip.disk.size off
    then (let ip' = record ip { disk = record ip.disk { size = off } } in
        (some n, ip', iupdate d ip'))
    else (some n, ip, d)

unfoldable pub writei :
    (ℕ → Option WriteDriver) → Disk → Inode → (ℕ → ℕ) → ℕ → ℕ → Outcome (Option ℕ × Inode × Disk)
unfolding write_run
writei devsw d ip src off n =
    if ip.disk.type == 3
    then (if no_device ip.disk.major then ok (none, ip, d) else (elim (devsw ip.disk.major) [
      | none ↦ ok (none, ip, d)
      | some driver ↦ ok (driver ip src n, ip, d)
    ]))
    else if ltb ip.disk.size off || ltb (add32 off n) off
    then ok (none, ip, d)
    else if ltb (maxfile * bsize) (add32 off n)
    then ok (none, ip, d)
    else (write_run n d ip src 0 off n >>= λ r. ok (resized n r))
