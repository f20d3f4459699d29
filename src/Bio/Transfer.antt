-- ===== src/Bio/Transfer.antt =====
-- Reading and writing a buffer, and giving it back.
use os.Base.{
  ℕ, ◌≡◌, ◌≢◌, refl, subst, sym, true, false, Option, none, some, List, [], ◌∷◌, arith, Bool-cases,
  inl, inr,
}
use os.Bio.{Buf, Cache, no_dev, is_for, cached, change, put_sector, transferred}
use os.Bio.Buffers.{
  All, Unique, SameSector, is_for-other, cached-key, cached-change, cached-change_ne, change-Unique,
  from_some,
}
use os.Bio.Recycle.{view, Sound}
use os.Bio.Content.{IsCoherent, SameContent, key_cases, change-view}

pub change-found :
    (P : Buf → Type 0) (f : Buf → Buf) (d s : ℕ) (bs : List Buf) {b : Buf}
    → cached d s bs ≡ some b
    → P (f b)
    → All P bs
    → All P (change f d s bs)
change-found P f d s [] found p all = tt
change-found P f d s (c ∷ bs) {b = b} found p (q, all) = elim (Bool-cases (is_for d s c)) [
  | inl here ↦
      let same : c ≡ b = from_some (rw here at found) in
      rw here (subst (λ x. P (f x)) (sym same) p, all)
  | inr there ↦ rw there (q, change-found P f d s bs {b = b} (rw there at found) p all)
]

-- A write to a sector leaves the buffers of the others as they were.
put-Sound :
    (disk : ℕ → ℕ → List ℕ) (w c : Buf)
    → is_for c.dev c.sector w ≡ false
    → Sound disk c
    → Sound (put_sector disk w) c
put-Sound disk w c other (dirty, clean) =
    (dirty, λ free fresh valid. rw other (clean free fresh valid))

put-none :
    (disk : ℕ → ℕ → List ℕ) (w : Buf) (bs : List Buf)
    → cached w.dev w.sector bs ≡ none
    → All (Sound disk) bs
    → All (Sound (put_sector disk w)) bs
put-none disk w [] absent all = tt
put-none disk w (c ∷ bs) absent (sound, all) = elim (Bool-cases (is_for w.dev w.sector c)) [
  | inl here ↦ absurd (ground arith)
  | inr there ↦
      (put-Sound disk w c (ground arith) sound, put-none disk w bs (rw there at absent) all)
]

put-found :
    (disk : ℕ → ℕ → List ℕ) (f : Buf → Buf) (w : Buf) (bs : List Buf)
    → w.dev ≢ no_dev
    → cached w.dev w.sector bs ≡ some w
    → Unique bs
    → Sound (put_sector disk w) (f w)
    → All (Sound disk) bs
    → All (Sound (put_sector disk w)) (change f w.dev w.sector bs)
put-found disk f w [] real found u p all = tt
put-found disk f w (c ∷ bs) real found (alone, u) p (q, all) =
    elim (Bool-cases (is_for w.dev w.sector c)) [
      | inl here ↦
          let same : c ≡ w = from_some (rw here at found) in
          rw here (
            subst (λ x. Sound (put_sector disk w) (f x)) (sym same) p,
            put-none disk w bs ((rw same at alone) real) all,
          )
      | inr there ↦ rw there (
        put-Sound disk w c (ground arith) q,
        put-found disk f w bs real (rw there at found) u p all,
      )
    ]

put-found_at :
    (disk : ℕ → ℕ → List ℕ) (f : Buf → Buf) (d s : ℕ) (w : Buf) (bs : List Buf)
    → w.dev ≡ d
    → w.sector ≡ s
    → d ≢ no_dev
    → cached d s bs ≡ some w
    → Unique bs
    → Sound (put_sector disk w) (f w)
    → All (Sound disk) bs
    → All (Sound (put_sector disk w)) (change f d s bs)
put-found_at disk f d s w bs e e' real found u p all =
    rw (← e, ← e') (put-found disk f w bs (rw (← e) at real) (rw (← e, ← e') at found) u p all)

pub transferred-SameSector : (disk : ℕ → ℕ → List ℕ) (b : Buf) → SameSector (transferred disk b) b
transferred-SameSector disk b = (refl, refl)

-- A buffer that is not valid is read.
pub read-Coherent :
    (d s : ℕ) (c : Cache) {b : Buf}
    → IsCoherent c
    → cached d s c.bufs ≡ some b
    → b.dirty ≡ false
    → b.valid ≡ false
    → (let t = record c { bufs = change (transferred c.disk) d s c.bufs } in
        IsCoherent t × SameContent c t)
read-Coherent d s c {b = b} v found fresh invalid =
    let keeps = transferred-SameSector c.disk in
    let (dev_same, sector_same) = cached-key d s c.bufs {b = b} found in
    (
      record {
        unique = change-Unique (transferred c.disk) keeps d s c.bufs v.unique;
        sound =
            change-found (Sound c.disk) (transferred c.disk) d s c.bufs {b = b} found
              (λ e. refl, λ free e valid. rw fresh refl) v.sound;
      },
      λ d' s' real.
          change-view c.disk (transferred c.disk) keeps d s c.bufs {b = b} d' s' found
            (rw (fresh, invalid, dev_same, sector_same) refl),
    )

put-view :
    (disk : ℕ → ℕ → List ℕ) (w : Buf) (d s : ℕ) (o : Option Buf)
    → is_for d s w ≡ false
    → view (put_sector disk w) d s o ≡ view disk d s o
put-view disk w d s none other = rw other refl
put-view disk w d s (some x) other = rw other refl

-- The cache after a dirty buffer is written.
abbrev pub written : ℕ → ℕ → Buf → Cache → Cache
written d s b c = record c {
  bufs = change (transferred c.disk) d s c.bufs;
  disk = put_sector c.disk b;
}

pub write-Coherent :
    (d s : ℕ) (c : Cache) {b : Buf}
    → d ≢ no_dev
    → IsCoherent c
    → cached d s c.bufs ≡ some b
    → b.dirty ≡ true
    → b.valid ≡ true
    → IsCoherent (written d s b c) × SameContent c (written d s b c)
write-Coherent d s c {b = b} real v found dirty valid =
    let keeps = transferred-SameSector c.disk in
    let (dev_same, sector_same) = cached-key d s c.bufs {b = b} found in
    let mine : is_for b.dev b.sector b ≡ true = ground arith in
    (
      record {
        unique = change-Unique (transferred c.disk) keeps d s c.bufs v.unique;
        sound =
            put-found_at c.disk (transferred c.disk) d s b c.bufs dev_same sector_same real found
              v.unique (λ e. refl, λ free e ok. rw (dirty, mine) refl) v.sound;
      },
      λ d' s' other. elim (key_cases d s d' s') [
        | inl (e, e') ↦
            rw (← e, ← e')
              (rw
                (
                  cached-change (transferred c.disk) keeps d s c.bufs {b = b} found,
                  found,
                  dirty,
                  valid,
                )
                refl)
        | inr ne ↦ rw (cached-change_ne (transferred c.disk) keeps d s d' s' c.bufs ne) (
            put-view c.disk b d' s' (cached d' s' c.bufs)
              (is_for-other d s d' s' b (ground arith) ne))
      ],
    )
