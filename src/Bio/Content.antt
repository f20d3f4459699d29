-- ===== src/Bio/Content.antt =====
-- What the cache makes of the disk.
use os.Base.{
  ℕ, ◌≡◌, ◌≢◌, refl, subst, ◌==◌, true, none, some, List, arith, Bool-cases, Option-cases, ◌⊎◌, inl,
  inr,
}
use os.Bio.{Buf, Cache, no_dev, cached, change, hold, renew, recycle, held, asleep, panic, bget}
use os.Bio.Buffers.{
  All, Unique, SameSector, All-cached, cached-change, cached-change_ne, change-Unique, change-All,
}
use os.Bio.Recycle.{view, Sound, recycle-cached, recycle-Unique, recycle-Sound, recycle-view}

-- The contents of a sector: its buffer's if that is valid, the disk's otherwise.
abbrev pub content : Cache → ℕ → ℕ → List ℕ
content s dev sector = view s.disk dev sector (cached dev sector s.bufs)

pub record IsCoherent (s : Cache) : Type 0 where
  pub unique : Unique s.bufs
  pub sound : All (Sound s.disk) s.bufs

-- Every sector has the contents that it had.
abbrev pub SameContent : Cache → Cache → Type 0
SameContent s t = (dev sector : ℕ) → dev ≢ no_dev → content t dev sector ≡ content s dev sector

-- The buffer of the sector is busy, and as `valid` says.
abbrev pub Holds : ℕ → ℕ → Cache → Type 0
Holds dev sector t =
    (b : Buf) × (cached dev sector t.bufs ≡ some b)
    × (b.busy ≡ true)
    × (b.dirty ≡ true → b.valid ≡ true)

pub from_held : {s t : Cache} → held s ≡ held t → s ≡ t
from_held e = cc

pub held_not : {t : Cache} → asleep ≢ held t
held_not e = ground arith

pub panic_not : {t : Cache} → panic ≢ held t
panic_not e = ground arith

-- Two keys are the same or not.
pub key_cases : (d s d' s' : ℕ) → ((d ≡ d') × (s ≡ s')) ⊎ ((d ≢ d') ⊎ (s ≢ s'))
key_cases d s d' s' = elim (Bool-cases (d == d')) [
  | inr other ↦ inr (inl (ground arith))
  | inl same ↦ elim (Bool-cases (s == s')) [
    | inl both ↦ inl (ground arith, ground arith)
    | inr other ↦ inr (inr (ground arith))
  ]
]

-- A change of one buffer that keeps what it shows changes no contents.
pub change-view :
    (disk : ℕ → ℕ → List ℕ) (f : Buf → Buf) (keeps : (b : Buf) → SameSector (f b) b) (d s : ℕ)
    (bs : List Buf) {b : Buf} (d' s' : ℕ)
    → cached d s bs ≡ some b
    → view disk d s (some (f b)) ≡ view disk d s (some b)
    → view disk d' s' (cached d' s' (change f d s bs)) ≡ view disk d' s' (cached d' s' bs)
change-view disk f keeps d s bs {b = b} d' s' found shows = elim (key_cases d s d' s') [
  | inl (e, e') ↦ rw (← e, ← e') (rw (cached-change f keeps d s bs found, found) shows)
  | inr ne ↦ rw (cached-change_ne f keeps d s d' s' bs ne) refl
]

bget-hit :
    (d s : ℕ) (c : Cache) {b : Buf}
    → IsCoherent c
    → cached d s c.bufs ≡ some b
    → (let t = record c { bufs = change hold d s c.bufs } in
        IsCoherent t × SameContent c t × Holds d s t)
bget-hit d s c {b = b} v found =
    let keeps : (x : Buf) → SameSector (hold x) x = λ x. (refl, refl) in
    let sound = All-cached (Sound c.disk) d s c.bufs v.sound found in
    (
      record {
        unique = change-Unique hold keeps d s c.bufs v.unique;
        sound =
            change-All (Sound c.disk) hold d s c.bufs
              (λ x e p. (p.0, λ free. absurd (ground arith))) v.sound;
      },
      λ d' s' real. change-view c.disk hold keeps d s c.bufs d' s' found refl,
      (hold b, cached-change hold keeps d s c.bufs found, refl, sound.0),
    )

bget-miss :
    (d s : ℕ) (c : Cache) {bs : List Buf}
    → IsCoherent c
    → cached d s c.bufs ≡ none
    → recycle d s c.bufs ≡ some bs
    → (let t = record c { bufs = bs } in IsCoherent t × SameContent c t × Holds d s t)
bget-miss d s c {bs} v absent taken =
    let (b, found) = recycle-cached d s c.bufs bs absent taken in
    (
      record {
        unique = recycle-Unique d s c.bufs bs absent taken v.unique;
        sound = recycle-Sound c.disk d s c.bufs bs taken v.sound;
      },
      λ d' s' real. recycle-view c.disk d s d' s' c.bufs bs real absent taken v.unique v.sound,
      (renew d s b, found, refl, λ e. absurd (ground arith)),
    )

pub bget-Holds :
    (d s : ℕ) (c : Cache) {t : Cache}
    → IsCoherent c
    → bget d s c ≡ held t
    → IsCoherent t × SameContent c t × Holds d s t
unfolding bget
bget-Holds d s c {t = t} v e = elim (Option-cases (cached d s c.bufs)) [
  | inr (b, found) ↦ elim (Bool-cases b.busy) [
    | inl busy ↦ absurd (ground arith)
    | inr free ↦
        subst (λ x. IsCoherent x × SameContent c x × Holds d s x) (from_held (ground arith))
          (bget-hit d s c v found)
  ]
  | inl absent ↦ elim (Option-cases (recycle d s c.bufs)) [
    | inl none_free ↦ absurd (ground arith)
    | inr (bs, taken) ↦
        subst (λ x. IsCoherent x × SameContent c x × Holds d s x) (from_held (ground arith))
          (bget-miss d s c v absent taken)
  ]
]
