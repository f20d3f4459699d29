-- ===== src/File/Write.antt =====
-- filewrite, cut into transactions, writes what one write of all bytes would.
use os.Base.{
  ℕ, zero, suc, ◌+◌, ◌≤◌, ◌<◌, ◌≡◌, refl, ap, subst, ◌∙◌, sym, ◌==◌, if◌then◌else◌, Bool, true, not,
  Option, none, some, List, [], ◌∷◌, ◌++◌, length, take, drop, take-append-drop, length-take,
  length-drop, arith,
}
use os.Base.{Outcome, ok, panic}
use os.File.{
  FileServices, File, FileType, fd_none, fd_pipe, fd_inode, fd_symlnk, max_write, write_chunks,
  filewrite,
}

-- The contents of a file with these bytes at an offset.
abbrev pub overlay : (ℕ → ℕ) → ℕ → List ℕ → ℕ → ℕ
overlay content off [] = content
overlay content off (c ∷ cs) = overlay (λ p. if off == p then c else content p) (off + 1) cs

overlay-append :
    (content : ℕ → ℕ) (off : ℕ) (cs ds : List ℕ)
    → overlay content off (cs ++ ds) ≡ overlay (overlay content off cs) (off + length cs) ds
overlay-append content off [] ds =
    let stays : off ≡ off + 0 = omega arith in ap (λ n. overlay content n ds) stays
overlay-append content off (c ∷ cs) ds =
    let step : off + 1 + length cs ≡ off + suc (length cs) = omega arith in
    overlay-append (λ p. if off == p then c else content p) (off + 1) cs ds
    ∙ ap (λ n. overlay (overlay (λ p. if off == p then c else content p) (off + 1) cs) n ds) step

abbrev pub AreBytes : List ℕ → Type 0
AreBytes [] = Unit {0}
AreBytes (c ∷ cs) = (c < 256) × AreBytes cs

AreBytes-take : (n : ℕ) (cs : List ℕ) → AreBytes cs → AreBytes (take n cs)
AreBytes-take zero cs b = tt
AreBytes-take (suc n) [] b = tt
AreBytes-take (suc n) (c ∷ cs) (lt, b) = (lt, AreBytes-take n cs b)

AreBytes-drop : (n : ℕ) (cs : List ℕ) → AreBytes cs → AreBytes (drop n cs)
AreBytes-drop zero cs b = b
AreBytes-drop (suc n) [] b = tt
AreBytes-drop (suc n) (c ∷ cs) (lt, b) = AreBytes-drop n cs b

-- The contents, the size and the room of the file are as they were.
abbrev pub Kept : {R : Type 0} → (R → ℕ → ℕ) → (R → ℕ) → (R → ℕ → Type 0) → R → R → Type 0
Kept content size Room r r' =
    (content r' ≡ content r) × (size r' ≡ size r) × ((n : ℕ) → Room r n → Room r' n)

-- What a write needs: an offset within the file, an end within the greatest size of a file, a chunk of
-- bytes that fits a transaction, and room on the disk for the file up to the end of the chunk.
pub record CanWrite {R : Type 0} (size : R → ℕ) (Room : R → ℕ → Type 0) (r : R) (cs : List ℕ)
    (off : ℕ) : Type 0 where
  pub chunk : length cs ≤ max_write
  pub within : off ≤ size r
  pub below : off + length cs ≤ 8460288
  pub room : Room r (off + length cs)
  pub bytes : AreBytes cs

-- writei, where it can write, writes all of a chunk at its offset, and there is as much room as before.
-- The other calls leave the file alone. Room for more is room for less.
pub record WritesAll {R : Type 0} (sv : FileServices R) (ip : ℕ) (content : R → ℕ → ℕ)
    (size : R → ℕ) (Room : R → ℕ → Type 0) : Type 0 where
  pub writes :
      (r : R) (cs : List ℕ) (off : ℕ)
      → CanWrite size Room r cs off
      → ((sv.writei r ip cs off).0 ≡ some (length cs))
        × (content (sv.writei r ip cs off).1 ≡ overlay (content r) off cs)
        × (off + length cs ≤ size (sv.writei r ip cs off).1)
        × ((n : ℕ) → Room r n → Room (sv.writei r ip cs off).1 n)
  pub fewer : (r : R) (m n : ℕ) → m ≤ n → Room r n → Room r m
  pub locks : (r : R) → Kept content size Room r (sv.ilock r ip)
  pub unlocks : (r : R) → Kept content size Room r (sv.iunlock r ip)
  pub begins : (r : R) → Kept content size Room r (sv.begin_trans r)
  pub commits : (r : R) → Kept content size Room r (sv.commit_trans r)

Kept-trans :
    {R : Type 0} (content : R → ℕ → ℕ) (size : R → ℕ) (Room : R → ℕ → Type 0) (r s t : R)
    → Kept content size Room r s
    → Kept content size Room s t
    → Kept content size Room r t
Kept-trans content size Room r s t (c, n, m) (c', n', m') =
    (c' ∙ c, n' ∙ n, λ k room. m' k (m k room))

after_write :
    {A : Type 0} (wrote : Option ℕ) (n : ℕ) (failed : Outcome A) (rest : ℕ → Outcome A)
    → wrote ≡ some n
    → elim wrote [ none ↦ failed | some m ↦ (if m == n then rest m else panic) ] ≡ rest n
after_write wrote n failed rest e = let same : (n == n) ≡ true = ground arith in rw (e, same) refl

module _ {R : Type 0} (sv : FileServices R) (ip : ℕ) (content : R → ℕ → ℕ) (size : R → ℕ)
    (Room : R → ℕ → Type 0) (w : WritesAll sv ip content size Room) where
  nothing_more :
      (r : R) (off : ℕ)
      → ◌≡◌ {A = Outcome (Bool × ℕ × R)} (ok (true, off, r)) (ok (true, off + 0, r))
  nothing_more r off = let stays : off ≡ off + 0 = omega arith in ap (λ n. ok (true, n, r)) stays

  abbrev before : R → R
  before r = sv.ilock (sv.begin_trans r) ip

  abbrev after : R → List ℕ → ℕ → R
  after r cs off = sv.commit_trans (sv.iunlock (sv.writei (before r) ip cs off).1 ip)

  before-Kept : (r : R) → Kept content size Room r (before r)
  before-Kept r =
      Kept-trans content size Room r (sv.begin_trans r) (before r) (w.begins r)
        (w.locks (sv.begin_trans r))

  -- One transaction.
  round_lem :
      (r : R) (cs : List ℕ) (off : ℕ)
      → CanWrite size Room r cs off
      → ((sv.writei (before r) ip cs off).0 ≡ some (length cs))
        × (content (after r cs off) ≡ overlay (content r) off cs)
        × (off + length cs ≤ size (after r cs off))
        × ((n : ℕ) → Room r n → Room (after r cs off) n)
  round_lem r cs off can =
      let (c0, s0, m0) = before-Kept r in
      let r1 = (sv.writei (before r) ip cs off).1 in
      let (wrote, placed, grown, room) = w.writes (before r) cs off (record {
        chunk = can.chunk;
        within = subst (λ n. off ≤ n) (sym s0) can.within;
        below = can.below;
        room = m0 (off + length cs) can.room;
        bytes = can.bytes;
      }) in
      let (c2, s2, m2) =
        Kept-trans content size Room r1 (sv.iunlock r1 ip) (after r cs off) (w.unlocks r1)
          (w.commits (sv.iunlock r1 ip)) in
      (
        wrote,
        c2 ∙ placed ∙ ap (λ f. overlay f off cs) c0,
        subst (λ n. off + length cs ≤ n) (sym s2) grown,
        λ n has. m2 n (room n (m0 n has)),
      )

  write_chunks-step :
      (fuel : ℕ) (r : R) (off : ℕ) (c : ℕ) (cs : List ℕ)
      → let chunk = take max_write (c ∷ cs) in
        ((sv.writei (before r) ip chunk off).0 ≡ some (length chunk))
        → write_chunks sv (suc fuel) r ip off (c ∷ cs)
          ≡ write_chunks sv fuel
              (after r chunk off)
              ip
              (off + length chunk)
              (drop max_write (c ∷ cs))
  unfolding write_chunks
  write_chunks-step fuel r off c cs wrote =
      after_write _ (length (take max_write (c ∷ cs))) _ _ wrote

  write_chunks_lem :
      (fuel : ℕ) (r : R) (off : ℕ) (cs : List ℕ)
      → length cs ≤ fuel
      → off ≤ size r
      → off + length cs ≤ 8460288
      → Room r (off + length cs)
      → AreBytes cs
      → (r' : R) × (write_chunks sv fuel r ip off cs ≡ ok (true, off + length cs, r'))
        × (content r' ≡ overlay (content r) off cs)
  unfolding write_chunks
  write_chunks_lem zero r off [] le within below room bytes = (r, nothing_more r off, refl)
  write_chunks_lem zero r off (c ∷ cs) le within below room bytes = absurd (omega (arith, le))
  write_chunks_lem (suc fuel) r off [] le within below room bytes = (r, nothing_more r off, refl)
  write_chunks_lem (suc fuel) r off (c ∷ cs) le within below room bytes =
      let chunk = take max_write (c ∷ cs) in
      let later = drop max_write (c ∷ cs) in
      let total : off + length chunk + length later ≡ off + suc (length cs) =
        omega (arith, length-take max_write (c ∷ cs), length-drop max_write (c ∷ cs)) in
      let fewer : length chunk ≤ suc (length cs) = omega (arith, length-take max_write (c ∷ cs)) in
      let (wrote, placed, grown, has) = round_lem r chunk off (record {
        chunk = omega (arith, length-take max_write (c ∷ cs));
        within = within;
        below = omega arith;
        room = w.fewer r (off + length chunk) (off + suc (length cs)) (omega arith) room;
        bytes = AreBytes-take max_write (c ∷ cs) bytes;
      }) in
      let (r', e, f) =
        write_chunks_lem fuel (after r chunk off) (off + length chunk) later
          (omega (arith, length-drop max_write (c ∷ cs))) grown (omega arith)
          (subst (Room (after r chunk off)) (sym total) (has (off + suc (length cs)) room))
          (AreBytes-drop max_write (c ∷ cs) bytes) in
      (
        r',
        write_chunks-step fuel r off c cs wrote ∙ (e ∙ ap (λ n. ok (true, n, r')) total),
        f
            ∙ (ap (λ g. overlay g (off + length chunk) later) placed
                ∙ (sym (overlay-append (content r) off chunk later)
                    ∙ ap (overlay (content r) off) (take-append-drop max_write (c ∷ cs)))),
      )

for_inode :
    {A : Type 0} (type : FileType) (writable : Bool) (refused piped to_inode : Outcome A)
    → type ≡ fd_inode
    → writable ≡ true
    → (if not writable then refused else elim type [
      | fd_none ↦ panic
      | fd_pipe ↦ piped
      | fd_inode ↦ to_inode
      | fd_symlnk ↦ panic
    ])
      ≡ to_inode
for_inode type writable refused piped to_inode e e' = rw (e, e') refl

-- filewrite to a writable inode file, at an offset within the file, of bytes that end within the
-- greatest size of a file and for which the disk has room. The file system is taken to write all of
-- a chunk that fits a transaction under these conditions, and to leave the file and its room alone
-- in the calls around it. Then filewrite returns the number of bytes, moves the offset by it, and
-- leaves in the file's contents all bytes, in order, from the old offset on, however many
-- transactions it takes.
pub filewrite_all :
    {R : Type 0} (sv : FileServices R) (content : R → ℕ → ℕ) (size : R → ℕ) (Room : R → ℕ → Type 0)
    (r : R) (f : File) (cs : List ℕ)
    → WritesAll sv f.ip content size Room
    → f.type ≡ fd_inode
    → f.writable ≡ true
    → f.off ≤ size r
    → f.off + length cs ≤ 8460288
    → Room r (f.off + length cs)
    → AreBytes cs
    → (r' : R) × (filewrite sv r f cs
        ≡ ok (some (length cs), record f { off = f.off + length cs }, r'))
      × (content r' ≡ overlay (content r) f.off cs)
unfolding filewrite
filewrite_all sv content size Room r f cs w inode open_for_writing within below room bytes =
    let (r', e, written) =
      write_chunks_lem sv f.ip content size Room w (length cs) r f.off cs (omega arith) within below
        room bytes in
    (r', for_inode f.type f.writable _ _ _ inode open_for_writing ∙ rw e refl, written)
