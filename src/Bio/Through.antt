-- ===== src/Bio/Through.antt =====
-- Reads and writes through the cache, from start to end.
use os.Base.{
  ℕ, zero, suc, ◌≡◌, ◌≢◌, ◌<◌, ◌≤◌, ◌==◌, leb, refl, ap, subst, sym, ◌∙◌, Bool, true, false, not,
  ◌&&◌, ◌||◌, none, some, List, [], ◌∷◌, arith, Bool-cases, Option-cases, ◌⊎◌, inl, inr,
}
use os.Bio.{
  panic, bad_request, unused_bufs, binit, Buf, Cache, no_dev, cached, change, hold, renew, recycle,
  held, bget, bread, bwrite, brelse,
}
use os.Bio.Buffers.{All, Unique, SameSector, cached-change, cached-change_ne, change-Unique}
use os.Bio.Recycle.{view, Sound, recycle-cached}
use os.Bio.Content.{content, IsCoherent}
use os.Bio.Transfer.{change-found}
use os.Bio.Access.{
  Holding, Reads, fill-refused, bread-got, bread-Holding, bwrite-Holding, brelse-Coherent,
}

abbrev pub has_free : List Buf → Bool
has_free [] = false
has_free (b ∷ bs) = (not b.busy && not b.dirty) || has_free bs

-- The sector's buffer is not busy; or there is none, and one that is neither busy nor dirty.
abbrev pub is_available : ℕ → ℕ → Cache → Bool
is_available d s c = elim (cached d s c.bufs) [ none ↦ has_free c.bufs | some b ↦ not b.busy ]

recycle-some :
    (d s : ℕ) (bs : List Buf) → has_free bs ≡ true → (bs' : List Buf) × (recycle d s bs ≡ some bs')
recycle-some d s [] free = absurd (ground arith)
recycle-some d s (b ∷ bs) free = elim (Option-cases (recycle d s bs)) [
  | inr (bs1, later) ↦ (b ∷ bs1, ground arith)
  | inl none_later ↦ elim (Bool-cases (has_free bs)) [
    | inl more ↦ let (bs1, later) = recycle-some d s bs more in absurd (ground arith)
    | inr no_more ↦ (renew d s b ∷ bs, ground arith)
  ]
]

bget-held :
    (d s : ℕ) (c : Cache)
    → is_available d s c ≡ true
    → (t : Cache) × (bget d s c ≡ held t) × (t.disk_size ≡ c.disk_size)
unfolding bget
bget-held d s c free = elim (Option-cases (cached d s c.bufs)) [
  | inr (b, found) ↦ (record c { bufs = change hold d s c.bufs }, ground arith, refl)
  | inl absent ↦
      let (bs, taken) = recycle-some d s c.bufs (ground arith) in
      (record c { bufs = bs }, ground arith, refl)
]

bread-refused :
    (d s : ℕ) (c : Cache)
    → (d ≢ 1) ⊎ (c.disk_size ≤ s)
    → cached d s c.bufs ≡ none
    → is_available d s c ≡ true
    → bread d s c ≡ panic
unfolding bget
bread-refused d s c outside absent free =
    let (bs, taken) = recycle-some d s c.bufs (ground arith) in
    let (b, found) = recycle-cached d s c.bufs bs absent taken in
    let got : bget d s c ≡ held (record c { bufs = bs }) = ground arith in
    let bad : bad_request c.disk_size (renew d s b) ≡ true = elim outside [
      | inl other ↦ let not_first : (d == 1) ≡ false = ground arith in rw not_first refl
      | inr behind ↦
          let out : leb c.disk_size s ≡ true = ground arith in
          elim (Bool-cases (d == 1)) [ inl one ↦ rw (one, out) refl | inr other ↦ rw other refl ]
    ] in
    bread-got d s c (record c { bufs = bs }) got
    ∙ fill-refused d s (record c { bufs = bs }) {b = renew d s b} found refl bad

-- On a coherent cache (no two buffers in use for one sector, and every buffer sound), for a sector
-- whose buffer is not busy, or which has no buffer while some buffer is neither busy nor dirty. If
-- the sector is one of disk 1 below the size of the disk, bread does not panic and returns the
-- sector's buffer, busy, valid and with the sector's contents. It changes the contents of no
-- sector, also when it takes the buffer of another one, and the cache stays coherent. (The contents
-- of a sector are its buffer's if that is valid, and the disk's otherwise.) If the sector is one of
-- another disk or behind the end of the disk, and has no buffer, bread panics.
pub bread-Reads :
    (d s : ℕ) (c : Cache)
    → IsCoherent c
    → is_available d s c ≡ true
    → (d ≡ 1 → s < c.disk_size → (t : Cache) × (bread d s c ≡ held t) × Reads d s c t)
      × ((d ≢ 1) ⊎ (c.disk_size ≤ s) → cached d s c.bufs ≡ none → bread d s c ≡ panic)
bread-Reads d s c v free = (
  (λ first on_disk.
      let (t, got, size_same) = bget-held d s c free in
      bread-Holding d s c t first (subst (λ n. s < n) (sym size_same) on_disk) v got),
  λ outside absent. bread-refused d s c outside absent free,
)

abbrev pub put_bytes : List ℕ → Buf → Buf
put_bytes bytes b = record b { bytes = bytes }

-- On a coherent cache the holder of a valid buffer, for a sector of disk 1 below the size of the
-- disk, can put any bytes into it, bwrite it and brelse it: neither call panics, the sector then
-- has those bytes as its contents, on the disk too, all other sectors have the contents they had,
-- and the cache is coherent.
pub write_through :
    (d s : ℕ) (c : Cache) (bytes : List ℕ) {b : Buf}
    → d ≡ 1
    → s < c.disk_size
    → IsCoherent c
    → Holding d s c b
    → (t u : Cache) × (bwrite d s (record c { bufs = change (put_bytes bytes) d s c.bufs })
        ≡ held t)
      × (brelse d s t ≡ held u)
      × IsCoherent u
      × (u.disk d s ≡ bytes)
      × (content u d s ≡ bytes)
      × ((d' s' : ℕ) → d' ≢ no_dev → (d ≢ d') ⊎ (s ≢ s') → content u d' s' ≡ content c d' s')
write_through d s c bytes {b = b} first on_disk v (found, busy, valid) =
    let real : d ≢ no_dev = λ e. absurd (omega arith) in
    let keeps : (x : Buf) → SameSector (put_bytes bytes x) x = λ x. (refl, refl) in
    let c1 = record c { bufs = change (put_bytes bytes) d s c.bufs } in
    let found1 : cached d s c1.bufs ≡ some (put_bytes bytes b) =
      cached-change (put_bytes bytes) keeps d s c.bufs {b = b} found in
    let v1 : IsCoherent c1 = record {
      unique = change-Unique (put_bytes bytes) keeps d s c.bufs v.unique;
      sound =
          change-found (Sound c.disk) (put_bytes bytes) d s c.bufs {b = b} found
            (λ e. valid, λ free. absurd (ground arith)) v.sound;
    } in
    let (t, wrote, w, kept, (b', held_b, fresh, on_disk, same)) =
      bwrite-Holding d s c1 {b = put_bytes bytes b} first on_disk v1 (found1, busy, valid) in
    let (u, released, disk_same, x, kept') =
      brelse-Coherent d s t {b = b'} real w held_b fresh on_disk in
    let shows : content c1 d s ≡ bytes = rw (found1, valid) refl in
    (
      t,
      u,
      wrote,
      released,
      x,
      ap (λ f. f d s) disk_same ∙ sym on_disk ∙ same,
      kept' d s real ∙ kept d s real ∙ shows,
      λ d' s' real' ne.
          kept' d' s' real'
          ∙ kept d' s' real'
          ∙ ap (view c.disk d' s') (cached-change_ne (put_bytes bytes) keeps d s d' s' c.bufs ne),
    )

unused-Coherent :
    (disk : ℕ → ℕ → List ℕ) (n : ℕ) → Unique (unused_bufs n) × All (Sound disk) (unused_bufs n)
unused-Coherent disk zero = (tt, tt)
unused-Coherent disk (suc n) =
    let (u, all) = unused-Coherent disk n in
    (
      (λ used. absurd (used refl), u),
      ((λ e. absurd (ground arith), λ free e ok. absurd (ground arith)), all),
    )

pub binit-IsCoherent : (disk : ℕ → ℕ → List ℕ) (disk_size : ℕ) → IsCoherent (binit disk disk_size)
binit-IsCoherent disk disk_size =
    let (u, all) = unused-Coherent disk 10 in record { unique = u; sound = all }
