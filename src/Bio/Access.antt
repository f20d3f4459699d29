-- ===== src/Bio/Access.antt =====
-- What a process gets of the cache: the calls of bio.c on coherent caches.
use os.Base.{
  ℕ, ◌≡◌, ◌≢◌, ◌<◌, ◌==◌, leb, refl, ◌∙◌, true, false, some, ◌∷◌, arith, Bool-cases, ◌⊎◌, inl, inr,
}
use os.Bio.{
  panic, Buf, Cache, no_dev, is_for, cached, change, take_out, let_go, held, bget, transferred,
  bad_request, fill, bread, soil, bwrite, brelse,
}
use os.Bio.Buffers.{
  SameSector, is_for-other, cached-key, cached-change, change-Unique, take_out-cached_ne,
  take_out-none, take_out-Unique, take_out-All,
}
use os.Bio.Recycle.{Sound}
use os.Bio.Content.{content, IsCoherent, SameContent, key_cases, change-view, bget-Holds}
use os.Bio.Transfer.{transferred-SameSector, read-Coherent, write-Coherent, written, change-found}

-- The buffer of the sector is busy and valid.
abbrev pub Holding : ℕ → ℕ → Cache → Buf → Type 0
Holding d s c b = (cached d s c.bufs ≡ some b) × (b.busy ≡ true) × (b.valid ≡ true)

-- The cache after a read: the contents are the same, and the buffer has those of the sector.
abbrev pub Reads : ℕ → ℕ → Cache → Cache → Type 0
Reads d s c t =
    IsCoherent t × SameContent c t × ((b : Buf) × Holding d s t b × (b.bytes ≡ content c d s))

-- iderw takes the request: a busy buffer of disk 1 whose sector is on the disk, with something to do.
accepted :
    (d s size : ℕ) (b : Buf)
    → d ≡ 1
    → s < size
    → b.dev ≡ d
    → b.sector ≡ s
    → b.busy ≡ true
    → (b.valid ≡ false) ⊎ (b.dirty ≡ true)
    → bad_request size b ≡ false
accepted d s size b first on_disk dev_same sector_same busy work =
    let one : (b.dev == 1) ≡ true = ground arith in
    let inside : leb size b.sector ≡ false = ground arith in
    elim work [
      | inl invalid ↦ rw (busy, invalid, one, inside) refl
      | inr dirty ↦ elim (Bool-cases b.valid) [
        | inl valid ↦ rw (busy, valid, dirty, one, inside) refl
        | inr invalid ↦ rw (busy, invalid, one, inside) refl
      ]
    ]

fill-valid :
    (d s : ℕ) (t : Cache) {b : Buf}
    → cached d s t.bufs ≡ some b
    → b.valid ≡ true
    → fill d s t ≡ held t
fill-valid d s t found valid = ground arith

fill-read :
    (d s : ℕ) (t : Cache) {b : Buf}
    → cached d s t.bufs ≡ some b
    → b.valid ≡ false
    → b.dirty ≡ false
    → bad_request t.disk_size b ≡ false
    → fill d s t ≡ held (record t { bufs = change (transferred t.disk) d s t.bufs })
fill-read d s t found invalid fresh taken = ground arith

fill-Holding :
    (d s : ℕ) (c t : Cache) {b : Buf}
    → d ≡ 1
    → s < t.disk_size
    → IsCoherent t
    → SameContent c t
    → cached d s t.bufs ≡ some b
    → b.busy ≡ true
    → (b.dirty ≡ true → b.valid ≡ true)
    → (u : Cache) × (fill d s t ≡ held u) × Reads d s c u
fill-Holding d s c t {b = b} first on_disk v same found busy ok = elim (Bool-cases b.valid) [
  | inl valid ↦
      let real : d ≢ no_dev = λ e. absurd (omega arith) in
      let shows : b.bytes ≡ content t d s = rw (found, valid) refl in
      (
        t,
        fill-valid d s t {b = b} found valid,
        (v, same, (b, (found, busy, valid), shows ∙ same d s real)),
      )
  | inr invalid ↦
      let real : d ≢ no_dev = λ e. absurd (omega arith) in
      let fresh : b.dirty ≡ false = ground arith in
      let (w, kept) = read-Coherent d s t {b = b} v found fresh invalid in
      let (dev_same, sector_same) = cached-key d s t.bufs {b = b} found in
      let taken =
        accepted d s t.disk_size b first on_disk dev_same sector_same busy (inl invalid) in
      let there =
        cached-change (transferred t.disk) (transferred-SameSector t.disk) d s t.bufs {b = b}
          found in
      let shows : t.disk d s ≡ content t d s = rw (found, invalid) refl in
      (
        record t { bufs = change (transferred t.disk) d s t.bufs },
        fill-read d s t {b = b} found invalid fresh taken,
        (
          w,
          (λ d' s' r. kept d' s' r ∙ same d' s' r),
          (
            transferred t.disk b,
            (there, busy, refl),
            rw (fresh, dev_same, sector_same) (shows ∙ same d s real),
          ),
        ),
      )
]

pub fill-refused :
    (d s : ℕ) (t : Cache) {b : Buf}
    → cached d s t.bufs ≡ some b
    → b.valid ≡ false
    → bad_request t.disk_size b ≡ true
    → fill d s t ≡ panic
fill-refused d s t found invalid bad = ground arith

pub bread-got : (d s : ℕ) (c t : Cache) → bget d s c ≡ held t → bread d s c ≡ fill d s t
unfolding bread
bread-got d s c t got = rw (bread, got) refl

-- bread returns the buffer of the sector, busy, valid and with the contents of the sector, and changes
-- the contents of none.
pub bread-Holding :
    (d s : ℕ) (c t : Cache)
    → d ≡ 1
    → s < t.disk_size
    → IsCoherent c
    → bget d s c ≡ held t
    → (u : Cache) × (bread d s c ≡ held u) × Reads d s c u
bread-Holding d s c t first on_disk v got =
    let (w, same, (b, found, busy, ok)) = bget-Holds d s c v got in
    let (u, filled, reads) = fill-Holding d s c t first on_disk w same found busy ok in
    (u, bread-got d s c t got ∙ filled, reads)

bwrite-written :
    (d s : ℕ) (c : Cache) {b : Buf}
    → cached d s c.bufs ≡ some b
    → b.busy ≡ true
    → cached d s (change soil d s c.bufs) ≡ some (soil b)
    → bad_request c.disk_size (soil b) ≡ false
    → bwrite d s c ≡ held (written d s (soil b) (record c { bufs = change soil d s c.bufs }))
unfolding bwrite
bwrite-written d s c found busy found1 taken = ground arith

pub bwrite-Holding :
    (d s : ℕ) (c : Cache) {b : Buf}
    → d ≡ 1
    → s < c.disk_size
    → IsCoherent c
    → Holding d s c b
    → (t : Cache) × (bwrite d s c ≡ held t)
      × IsCoherent t
      × SameContent c t
      × ((b' : Buf) × Holding d s t b'
          × (b'.dirty ≡ false)
          × (b'.bytes ≡ t.disk d s)
          × (b'.bytes ≡ b.bytes))
unfolding bwrite
bwrite-Holding d s c {b = b} first on_disk v (found, busy, valid) =
    let real : d ≢ no_dev = λ e. absurd (omega arith) in
    let keeps : (x : Buf) → SameSector (soil x) x = λ x. (refl, refl) in
    let (dev_same, sector_same) = cached-key d s c.bufs {b = b} found in
    let c1 = record c { bufs = change soil d s c.bufs } in
    let found1 : cached d s c1.bufs ≡ some (soil b) =
      cached-change soil keeps d s c.bufs {b = b} found in
    let v1 : IsCoherent c1 = record {
      unique = change-Unique soil keeps d s c.bufs v.unique;
      sound =
          change-found (Sound c.disk) soil d s c.bufs {b = b} found
            (λ e. valid, λ free. absurd (ground arith)) v.sound;
    } in
    let (w, kept) = write-Coherent d s c1 {b = soil b} real v1 found1 refl valid in
    let same : (d' s' : ℕ) → content c1 d' s' ≡ content c d' s' =
      λ d' s'. change-view c.disk soil keeps d s c.bufs {b = b} d' s' found refl in
    let there =
      cached-change (transferred c.disk) (transferred-SameSector c.disk) d s c1.bufs {b = soil b}
        found1 in
    let mine : is_for d s b ≡ true = ground arith in
    (
      written d s (soil b) c1,
      bwrite-written d s c {b = b} found busy found1
          (accepted d s c.disk_size (soil b) first on_disk dev_same sector_same busy (inr refl)),
      w,
      (λ d' s' r. kept d' s' r ∙ same d' s'),
      (transferred c.disk (soil b), (there, busy, refl), refl, rw mine refl, refl),
    )

brelse-released :
    (d s : ℕ) (c : Cache) {b : Buf}
    → cached d s c.bufs ≡ some b
    → b.busy ≡ true
    → brelse d s c ≡ held (record c { bufs = let_go b ∷ take_out d s c.bufs })
unfolding brelse
brelse-released d s c found busy = ground arith

pub brelse-Coherent :
    (d s : ℕ) (c : Cache) {b : Buf}
    → d ≢ no_dev
    → IsCoherent c
    → Holding d s c b
    → b.dirty ≡ false
    → b.bytes ≡ c.disk d s
    → (t : Cache) × (brelse d s c ≡ held t) × (t.disk ≡ c.disk) × IsCoherent t × SameContent c t
unfolding brelse
brelse-Coherent d s c {b = b} real v (found, busy, valid) fresh same =
    let (dev_same, sector_same) = cached-key d s c.bufs {b = b} found in
    let mine : is_for d s (let_go b) ≡ true = ground arith in
    (
      record c { bufs = let_go b ∷ take_out d s c.bufs },
      brelse-released d s c {b = b} found busy,
      refl,
      record {
        unique = (
          λ used. rw (dev_same, sector_same) (take_out-none d s c.bufs real v.unique),
          take_out-Unique d s c.bufs v.unique,
        );
        sound = (
          (λ dirty. valid, λ free e ok. rw (dev_same, sector_same) same),
          take_out-All (Sound c.disk) d s c.bufs v.sound,
        );
      },
      λ d' s' r. elim (key_cases d s d' s') [
        | inl (e, e') ↦ rw (← e, ← e') (rw (mine, found, valid) refl)
        | inr ne ↦
            let other = is_for-other d s d' s' (let_go b) mine ne in
            rw (other, take_out-cached_ne d s d' s' c.bufs ne) refl
      ],
    )
