-- ===== src/Fs/Transfer.antt =====
-- The loops of readi and writei over the contents of a file.
use os.Base.{
  ℕ, zero, suc, ◌+◌, ◌-◌, ◌/◌, ◌%◌, ◌^◌, ◌<◌, ◌≤◌, ◌≡◌, ◌≢◌, refl, sym, ◌∙◌, ap, subst, ltb, leb,
  true, false, ◌&&◌, add32, sub32, arith, Bool-cases, inl, inr, ◌⊎◌, ok, from_ok, bind_ok,
}
use os.Fs.Disk.{Disk}
use os.Fs.Inode.{Inode, bmap}
use os.Fs.Tree.{Slot, pointer, IsTree}
use os.Fs.Bmap.{SameInode, bmap-Finds}
use os.Fs.Grown.{slot_of, Grows, Grows-refl, Grows-trans, child_real}
use os.Fs.Io.{byte_of, bytes_of, copy_out, chunk, read_run}
use os.Fs.Contents.{content, Grows-content}

-- The sizes in one round.
pub record IsRound (n tot off m : ℕ) : Type 0 where
  pub some_left : 0 < m
  pub within : m ≤ n - tot
  pub in_block : off % 512 + m ≤ 512
  pub next_tot : add32 tot m ≡ tot + m
  pub next_off : add32 off m ≡ off + m

pub chunk-IsRound :
    (n tot off : ℕ)
    → tot < n
    → n < 2 ^ 32
    → off + (n - tot) ≤ 8460288
    → IsRound n tot off (chunk n tot off)
chunk-IsRound n tot off lt small fits =
    let left : sub32 n tot ≡ n - tot = omega arith in
    rw left (record {
      some_left = ground arith;
      within = ground arith;
      in_block = ground arith;
      next_tot = ground arith;
      next_off = ground arith;
    })

abbrev with_addrs : Inode → (ℕ → ℕ) → Inode
with_addrs ip a = record ip { disk = record ip.disk { addrs = a } }

pub SameInode-trans : (i j k : Inode) → SameInode i j → SameInode j k → SameInode i k
SameInode-trans i j k e f = f ∙ ap (λ (x : Inode). with_addrs x k.disk.addrs) e

-- One block of the file.
pub block_bytes :
    (d : Disk) (a : ℕ → ℕ) (b p : ℕ)
    → pointer d a (slot_of (p / 512)) ≡ b
    → b ≢ 0
    → (o : ℕ) → o ≡ p % 512
    → bytes_of (d.words b) o ≡ content d a p
block_bytes d a b p at_b real o e =
    rw (at_b, e) (sym (ap (λ w. byte_of w (p % 512 % 4)) (child_real d b (p % 512 / 4) real)))

read_run-zero :
    (k : ℕ) (d : Disk) (ip : Inode) (dst : ℕ → ℕ) (tot off n : ℕ)
    → ltb tot n ≡ false
    → read_run k d ip dst tot off n ≡ ok (dst, ip, d)
unfolding read_run
read_run-zero zero d ip dst tot off n e = refl
read_run-zero (suc k) d ip dst tot off n e = rw e refl

-- The buffer has the bytes of the file from `off` on at the places from `tot` to `n`.
abbrev pub HasBytes : Disk → (ℕ → ℕ) → (ℕ → ℕ) → ℕ → ℕ → ℕ → (ℕ → ℕ) → Type 0
HasBytes d a dst tot off n dst' =
    ((i : ℕ) → tot ≤ i → i < n → dst' i ≡ content d a (off + (i - tot)))
    × ((i : ℕ) → (i < tot) ⊎ (n ≤ i) → dst' i ≡ dst i)

copy_out-in :
    (dst : ℕ → ℕ) (tot : ℕ) (words : ℕ → ℕ) (start m i : ℕ)
    → tot ≤ i
    → i < tot + m
    → copy_out dst tot words start m i ≡ bytes_of words (start + (i - tot))
copy_out-in dst tot words start m i le lt =
    let here : (leb tot i && ltb i (tot + m)) ≡ true = ground arith in rw here refl

copy_out-out :
    (dst : ℕ → ℕ) (tot : ℕ) (words : ℕ → ℕ) (start m i : ℕ)
    → (i < tot) ⊎ (tot + m ≤ i)
    → copy_out dst tot words start m i ≡ dst i
copy_out-out dst tot words start m i out =
    let here : (leb tot i && ltb i (tot + m)) ≡ false = ground arith in rw here refl

read_step :
    (d d1 : Disk) (a a1 : ℕ → ℕ) (b : ℕ) (dst dst' : ℕ → ℕ) (tot off n m : ℕ)
    → IsRound n tot off m
    → tot < n
    → off + (n - tot) ≤ 8460288
    → Grows d a d1 a1
    → pointer d1 a1 (slot_of (off / 512)) ≡ b
    → b ≢ 0
    → HasBytes d1 a1
        (copy_out dst tot (d1.words b) (off % 512) m)
        (add32 tot m)
        (add32 off m)
        n
        dst'
    → HasBytes d a dst tot off n dst'
read_step d d1 a a1 b dst dst' tot off n m round lt fits g at_b real (copied, others) =
    let tot1 = round.next_tot in
    let off1 = round.next_off in
    let block = round.in_block in
    let inside = round.within in
    (
      (λ i lo hi. elim (Bool-cases (ltb i (tot + m))) [
        | inl now ↦
            let here : i < tot + m = ground arith in
            let same_block : off / 512 ≡ (off + (i - tot)) / 512 = omega arith in
            others i (inl (omega arith))
            ∙ copy_out-in dst tot (d1.words b) (off % 512) m i lo here
            ∙ block_bytes d1 a1 b (off + (i - tot))
                (subst (λ x. pointer d1 a1 (slot_of x) ≡ b) same_block at_b) real
                (off % 512 + (i - tot)) (omega arith)
            ∙ Grows-content (off + (i - tot)) (omega arith) g
        | inr later ↦
            let there : tot + m ≤ i = ground arith in
            let same : add32 off m + (i - add32 tot m) ≡ off + (i - tot) = omega arith in
            copied i (omega arith) hi
            ∙ ap (content d1 a1) same
            ∙ Grows-content (off + (i - tot)) (omega arith) g
      ]),
      λ i out.
          others i (elim out [ inl before ↦ inl (omega arith) | inr after ↦ inr after ])
          ∙ copy_out-out dst tot (d1.words b) (off % 512) m i
              (elim out [ inl before ↦ inl before | inr after ↦ inr (omega arith) ]),
    )

-- At least a byte is read in a round.
pub round_left : (k n tot off m : ℕ) → IsRound n tot off m → n - tot ≤ suc k → n - add32 tot m ≤ k
round_left k n tot off m round le =
    let pos = round.some_left in let tot1 = round.next_tot in omega arith

pub round_fits :
    (n tot off m : ℕ)
    → IsRound n tot off m
    → tot < n
    → off + (n - tot) ≤ 8460288
    → add32 off m + (n - add32 tot m) ≤ 8460288
round_fits n tot off m round lt fits =
    let tot1 = round.next_tot in
    let off1 = round.next_off in let inside = round.within in omega arith

pub read_run-HasBytes :
    (k : ℕ) (d : Disk) (ip : Inode) (place : ℕ → Slot) (dst : ℕ → ℕ) (tot off n : ℕ) {dst' : ℕ → ℕ}
    {ip' : Inode} {d' : Disk}
    → n - tot ≤ k
    → n < 2 ^ 32
    → off + (n - tot) ≤ 8460288
    → IsTree d ip.disk.addrs place
    → read_run k d ip dst tot off n ≡ ok (dst', ip', d')
    → Grows d ip.disk.addrs d' ip'.disk.addrs
      × SameInode ip ip'
      × HasBytes d ip.disk.addrs dst tot off n dst'
unfolding read_run
read_run-HasBytes zero d ip place dst tot off n le small fits v e =
    subst
      (λ p.
        Grows d ip.disk.addrs p.2 p.1.disk.addrs
        × SameInode ip p.1
        × HasBytes d ip.disk.addrs dst tot off n p.0)
      (from_ok e)
      (Grows-refl d ip.disk.addrs place v, refl, ((λ i lo hi. absurd (omega arith)), λ i out. refl))
read_run-HasBytes (suc k) d ip place dst tot off n {dst'} {ip'} {d'} le small fits v e =
    elim (Bool-cases (ltb tot n)) [
      | inr done ↦
          subst
            (λ p.
              Grows d ip.disk.addrs p.2 p.1.disk.addrs
              × SameInode ip p.1
              × HasBytes d ip.disk.addrs dst tot off n p.0)
            (from_ok (rw done at e))
            (
              Grows-refl d ip.disk.addrs place v,
              refl,
              ((λ i lo hi. absurd (ground arith)), λ i out. refl),
            )
      | inl more ↦
          let m = chunk n tot off in
          let round = chunk-IsRound n tot off (ground arith) small fits in
          let ((b, ip1, d1), got, rest) = bind_ok (bmap d ip (off / 512)) _ (rw more at e) in
          let ((g, at_b, real), same) = bmap-Finds d ip place (off / 512) v got in
          let ih =
            read_run-HasBytes k d1 ip1 g.place (copy_out dst tot (d1.words b) (off % 512) m)
              (add32 tot m) (add32 off m) n (round_left k n tot off m round le) small
              (round_fits n tot off m round (ground arith) fits) g.tree rest in
          let (g', same', bytes) = ih in
          (
            Grows-trans g g',
            SameInode-trans ip ip1 ip' same same',
            read_step d d1 ip.disk.addrs ip1.disk.addrs b dst dst' tot off n m round (ground arith)
                fits g at_b real bytes,
          )
    ]
