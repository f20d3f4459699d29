-- ===== src/Fs/Found.antt =====
-- Reading and writing where the file has its blocks: bmap adds none, and the loops end.
use os.Base.{
  ℕ, zero, suc, ◌+◌, ◌-◌, ◌/◌, ◌%◌, ◌^◌, ◌<◌, ◌≤◌, ◌≡◌, ◌≢◌, refl, sym, ◌∙◌, ◌==◌, ltb, true, false,
  ◌||◌, add32, arith, Bool-cases, inl, inr, Option, ok,
}
use os.Fs.Disk.{Disk}
use os.Fs.Inode.{Inode, bmap, addr_of, entry}
use os.Fs.Tree.{Slot, child, pointer, IsTree}
use os.Fs.Grown.{slot_of, child_real}
use os.Fs.Io.{
  copy_out, copy_in, chunk, read_run, put_block, write_run, WriteDriver, writei, resized,
}
use os.Fs.Contents.{slot_of-is_slot, slot_of-is_data, filled-pointer, filled-IsTree}
use os.Fs.Transfer.{chunk-IsRound, round_fits}

table_real : (d : Disk) (t i : ℕ) → child d t i ≢ 0 → t ≢ 0
table_real d t i real none_there = real (rw none_there refl)

addr_of_found :
    (d : Disk) (ip : Inode) (i : ℕ)
    → ip.disk.addrs i ≢ 0
    → addr_of d ip i ≡ ok (ip.disk.addrs i, ip, d)
unfolding addr_of
addr_of_found d ip i real =
    let there : (ip.disk.addrs i == 0) ≡ false = ground arith in rw there refl

entry_found : (d : Disk) (t i : ℕ) → child d t i ≢ 0 → entry d t i ≡ ok (child d t i, d)
unfolding entry
entry_found d t i real =
    let table = child_real d t i (table_real d t i real) in
    let there : (d.words t i == 0) ≡ false = ground arith in rw (there, table) refl

pub bmap_found :
    (d : Disk) (ip : Inode) (bn : ℕ)
    → bn < 16524
    → pointer d ip.disk.addrs (slot_of bn) ≢ 0
    → bmap d ip bn ≡ ok (pointer d ip.disk.addrs (slot_of bn), ip, d)
unfolding bmap
bmap_found d ip bn lt real = elim (Bool-cases (ltb bn 12)) [
  | inl direct ↦ rw direct (addr_of_found d ip bn (rw direct at real))
  | inr more ↦ elim (Bool-cases (ltb (bn - 12) 128)) [
    | inl indirect ↦
        let there : child d (ip.disk.addrs 12) (bn - 12) ≢ 0 = rw (more, indirect) at real in
        let table = addr_of_found d ip 12 (table_real d _ _ there) in
        let found = entry_found d (ip.disk.addrs 12) (bn - 12) there in
        rw (more, indirect, table, found) refl
    | inr still_more ↦
        let i = (bn - 12 - 128) / 128 in
        let j = (bn - 12 - 128) % 128 in
        let there : child d (child d (ip.disk.addrs 13) i) j ≢ 0 = rw (more, still_more) at real in
        let middle = table_real d _ _ there in
        let table = addr_of_found d ip 13 (table_real d _ _ middle) in
        let found = entry_found d (ip.disk.addrs 13) i middle in
        let found2 = entry_found d (child d (ip.disk.addrs 13) i) j there in
        let within : ltb (bn - 12 - 128) 16384 ≡ true = ground arith in
        rw (more, still_more, within, table, found, found2) refl
  ]
]

pub read_run_found :
    (k : ℕ) (d : Disk) (ip : Inode) (dst : ℕ → ℕ) (tot off n : ℕ)
    → n < 2 ^ 32
    → off + (n - tot) ≤ 8460288
    → ((p : ℕ) → off ≤ p → p < off + (n - tot) → pointer d ip.disk.addrs (slot_of (p / 512)) ≢ 0)
    → (dst' : ℕ → ℕ) × (read_run k d ip dst tot off n ≡ ok (dst', ip, d))
unfolding read_run
read_run_found zero d ip dst tot off n small fits present = (dst, refl)
read_run_found (suc k) d ip dst tot off n small fits present = elim (Bool-cases (ltb tot n)) [
  | inr done ↦ (dst, rw done refl)
  | inl more ↦
      let m = chunk n tot off in
      let round = chunk-IsRound n tot off (ground arith) small fits in
      let block = pointer d ip.disk.addrs (slot_of (off / 512)) in
      let found =
        bmap_found d ip (off / 512) (ground arith) (present off (omega arith) (ground arith)) in
      let tot1 = round.next_tot in
      let off1 = round.next_off in
      let inside = round.within in
      let (dst', rest) =
        read_run_found k d ip (copy_out dst tot (d.words block) (off % 512) m) (add32 tot m)
          (add32 off m) n small (round_fits n tot off m round (ground arith) fits)
          (λ p lo hi. present p (omega arith) (omega arith)) in
      (dst', rw (more, found) rest)
]

-- A write where the file has its blocks adds none.
pub write_run_found :
    (k : ℕ) (d : Disk) (ip : Inode) (place : ℕ → Slot) (src : ℕ → ℕ) (tot off n : ℕ)
    → n < 2 ^ 32
    → off + (n - tot) ≤ 8460288
    → IsTree d ip.disk.addrs place
    → ((p : ℕ) → off ≤ p → p < off + (n - tot) → pointer d ip.disk.addrs (slot_of (p / 512)) ≢ 0)
    → (off' : ℕ) × (d' : Disk) × (write_run k d ip src tot off n ≡ ok (off', ip, d'))
unfolding write_run
write_run_found zero d ip place src tot off n small fits v present = (off, d, refl)
write_run_found (suc k) d ip place src tot off n small fits v present =
    elim (Bool-cases (ltb tot n)) [
      | inr done ↦ (off, d, rw done refl)
      | inl more ↦
          let m = chunk n tot off in
          let round = chunk-IsRound n tot off (ground arith) small fits in
          let s = slot_of (off / 512) in
          let is_s = slot_of-is_slot (off / 512) (ground arith) in
          let real = present off (omega arith) (ground arith) in
          let found = bmap_found d ip (off / 512) (ground arith) real in
          let w =
            copy_in (d.words (pointer d ip.disk.addrs s)) (off % 512) (λ i. src (tot + i)) m in
          let d1 = put_block d (pointer d ip.disk.addrs s) w in
          let data_s = slot_of-is_data (off / 512) in
          let tree = filled-IsTree d ip.disk.addrs place v s is_s data_s real w in
          let tot1 = round.next_tot in
          let off1 = round.next_off in
          let inside = round.within in
          let (off', d', rest) =
            write_run_found k d1 ip place src (add32 tot m) (add32 off m) n small
              (round_fits n tot off m round (ground arith) fits) tree
              (λ p lo hi z. present p (omega arith) (omega arith) (
                sym (
                  filled-pointer d ip.disk.addrs place v s is_s data_s real w (slot_of (p / 512))
                    (slot_of-is_slot (p / 512) (omega arith)))
                ∙ z)) in
          (off', d', rw (more, found) rest)
    ]

pub writei_found :
    (devsw : ℕ → Option WriteDriver) (d : Disk) (ip : Inode) (place : ℕ → Slot) (src : ℕ → ℕ)
    (off n : ℕ)
    → ip.disk.type ≢ 3
    → off ≤ ip.disk.size
    → off + n ≤ 8460288
    → IsTree d ip.disk.addrs place
    → ((p : ℕ) → p < off + n → pointer d ip.disk.addrs (slot_of (p / 512)) ≢ 0)
    → (r : Option ℕ) × (ip' : Inode) × (d' : Disk) × (writei devsw d ip src off n ≡ ok (r, ip', d'))
unfolding writei
writei_found devsw d ip place src off n file le fits v present =
    let plain : (ip.disk.type == 3) ≡ false = ground arith in
    let inside : (ltb ip.disk.size off || ltb (add32 off n) off) ≡ false = ground arith in
    let below : ltb 8460288 (add32 off n) ≡ false = ground arith in
    let (off', d', found) =
      write_run_found n d ip place src 0 off n (omega arith) (omega arith) v
        (λ p lo hi. present p (omega arith)) in
    (
      (resized n (off', ip, d')).0,
      (resized n (off', ip, d')).1,
      (resized n (off', ip, d')).2,
      rw (plain, inside, below, found) refl,
    )
