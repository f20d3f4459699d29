-- ===== src/Bio/Buffers.antt =====
-- The list of buffers: at most one in use for each sector.
use os.Base.{
  ℕ, ◌≡◌, ◌≢◌, refl, ap, subst, ◌∙◌, true, false, none, some, List, [], ◌∷◌, arith, Bool-cases, ◌⊎◌,
  inl, inr,
}
use os.Bio.{Buf, no_dev, is_for, cached, change, take_out}

abbrev pub All : (Buf → Type 0) → List Buf → Type 0
All P [] = Unit {0}
All P (b ∷ bs) = P b × All P bs

abbrev pub Unique : List Buf → Type 0
Unique [] = Unit {0}
Unique (b ∷ bs) = (b.dev ≢ no_dev → cached b.dev b.sector bs ≡ none) × Unique bs

abbrev pub SameSector : Buf → Buf → Type 0
SameSector b c = (b.dev ≡ c.dev) × (b.sector ≡ c.sector)

pub is_for-key : (d s : ℕ) (b : Buf) → is_for d s b ≡ true → (b.dev ≡ d) × (b.sector ≡ s)
is_for-key d s b e = (ground arith, ground arith)

pub is_for-same : (d s : ℕ) (b c : Buf) → SameSector b c → is_for d s b ≡ is_for d s c
is_for-same d s b c (e, f) = rw (e, f) refl

pub from_some : {x y : Buf} → some x ≡ some y → x ≡ y
from_some e = cc

pub cached-key :
    (d s : ℕ) (bs : List Buf) {b : Buf} → cached d s bs ≡ some b → (b.dev ≡ d) × (b.sector ≡ s)
cached-key d s [] e = absurd (ground arith)
cached-key d s (c ∷ bs) {b = b} e = elim (Bool-cases (is_for d s c)) [
  | inl here ↦
      subst (λ (x : Buf). (x.dev ≡ d) × (x.sector ≡ s)) (from_some (rw here at e))
        (is_for-key d s c here)
  | inr there ↦ cached-key d s bs {b = b} (rw there at e)
]

pub All-cached :
    (P : Buf → Type 0) (d s : ℕ) (bs : List Buf) {b : Buf} → All P bs → cached d s bs ≡ some b → P b
All-cached P d s [] all e = absurd (ground arith)
All-cached P d s (c ∷ bs) {b = b} (p, all) e = elim (Bool-cases (is_for d s c)) [
  | inl here ↦ subst P (from_some (rw here at e)) p
  | inr there ↦ All-cached P d s bs {b = b} all (rw there at e)
]

-- Another key than the one of `b`.
pub is_for-other :
    (d s d' s' : ℕ) (b : Buf) → is_for d s b ≡ true → (d ≢ d') ⊎ (s ≢ s') → is_for d' s' b ≡ false
is_for-other d s d' s' b here ne = ground arith

module _ (f : Buf → Buf) (keeps : (b : Buf) → SameSector (f b) b) where
  pub cached-change :
      (d s : ℕ) (bs : List Buf) {b : Buf}
      → cached d s bs ≡ some b
      → cached d s (change f d s bs) ≡ some (f b)
  cached-change d s [] e = absurd (ground arith)
  cached-change d s (c ∷ bs) {b = b} e = elim (Bool-cases (is_for d s c)) [
    | inl here ↦
        let same : is_for d s (f c) ≡ true = is_for-same d s (f c) c (keeps c) ∙ here in
        rw (here, same) (ap (λ x. some (f x)) (from_some (rw here at e)))
    | inr there ↦ rw (there, there) (cached-change d s bs {b = b} (rw there at e))
  ]

  pub cached-change_ne :
      (d s d' s' : ℕ) (bs : List Buf)
      → (d ≢ d') ⊎ (s ≢ s')
      → cached d' s' (change f d s bs) ≡ cached d' s' bs
  cached-change_ne d s d' s' [] ne = refl
  cached-change_ne d s d' s' (c ∷ bs) ne = elim (Bool-cases (is_for d s c)) [
    | inl here ↦
        let other = is_for-other d s d' s' c here ne in
        let same : is_for d' s' (f c) ≡ false = is_for-same d' s' (f c) c (keeps c) ∙ other in
        rw (here, same, other) refl
    | inr there ↦ rw (there, cached-change_ne d s d' s' bs ne) refl
  ]

  pub cached-change-none :
      (d s d' s' : ℕ) (bs : List Buf)
      → cached d' s' bs ≡ none
      → cached d' s' (change f d s bs) ≡ none
  cached-change-none d s d' s' [] e = refl
  cached-change-none d s d' s' (c ∷ bs) e = elim (Bool-cases (is_for d' s' c)) [
    | inl here ↦ absurd (ground arith)
    | inr there ↦
        let same : is_for d' s' (f c) ≡ false = is_for-same d' s' (f c) c (keeps c) ∙ there in
        elim (Bool-cases (is_for d s c)) [
          | inl mine ↦ rw (mine, same) (rw there at e)
          | inr other ↦ rw (other, there) (cached-change-none d s d' s' bs (rw there at e))
        ]
  ]

  pub change-Unique : (d s : ℕ) (bs : List Buf) → Unique bs → Unique (change f d s bs)
  change-Unique d s [] u = tt
  change-Unique d s (c ∷ bs) (alone, u) = elim (Bool-cases (is_for d s c)) [
    | inl here ↦
        let (dev_same, sector_same) = keeps c in rw here (rw (dev_same, sector_same) alone, u)
    | inr there ↦
        rw there
          (λ used. cached-change-none d s c.dev c.sector bs (alone used), change-Unique d s bs u)
  ]

pub change-All :
    (P : Buf → Type 0) (f : Buf → Buf) (d s : ℕ) (bs : List Buf)
    → ((b : Buf) → is_for d s b ≡ true → P b → P (f b))
    → All P bs
    → All P (change f d s bs)
change-All P f d s [] each all = tt
change-All P f d s (c ∷ bs) each (p, all) = elim (Bool-cases (is_for d s c)) [
  | inl here ↦ rw here (each c here p, all)
  | inr there ↦ rw there (p, change-All P f d s bs each all)
]

pub take_out-cached_ne :
    (d s d' s' : ℕ) (bs : List Buf)
    → (d ≢ d') ⊎ (s ≢ s')
    → cached d' s' (take_out d s bs) ≡ cached d' s' bs
take_out-cached_ne d s d' s' [] ne = refl
take_out-cached_ne d s d' s' (c ∷ bs) ne = elim (Bool-cases (is_for d s c)) [
  | inl here ↦ rw (here, is_for-other d s d' s' c here ne) refl
  | inr there ↦ rw (there, take_out-cached_ne d s d' s' bs ne) refl
]

pub take_out-none :
    (d s : ℕ) (bs : List Buf) → d ≢ no_dev → Unique bs → cached d s (take_out d s bs) ≡ none
take_out-none d s [] used u = refl
take_out-none d s (c ∷ bs) used (alone, u) = elim (Bool-cases (is_for d s c)) [
  | inl here ↦
      let (dev_same, sector_same) = is_for-key d s c here in
      rw here ((rw (dev_same, sector_same) at alone) used)
  | inr there ↦ rw (there, there) (take_out-none d s bs used u)
]

pub take_out-none_left :
    (d s d' s' : ℕ) (bs : List Buf) → cached d' s' bs ≡ none → cached d' s' (take_out d s bs) ≡ none
take_out-none_left d s d' s' [] e = refl
take_out-none_left d s d' s' (c ∷ bs) e = elim (Bool-cases (is_for d' s' c)) [
  | inl here ↦ absurd (ground arith)
  | inr there ↦ elim (Bool-cases (is_for d s c)) [
    | inl mine ↦ rw mine (rw there at e)
    | inr other ↦ rw (other, there) (take_out-none_left d s d' s' bs (rw there at e))
  ]
]

pub take_out-Unique : (d s : ℕ) (bs : List Buf) → Unique bs → Unique (take_out d s bs)
take_out-Unique d s [] u = tt
take_out-Unique d s (c ∷ bs) (alone, u) = elim (Bool-cases (is_for d s c)) [
  | inl here ↦ rw here u
  | inr there ↦
      rw there
        (λ used. take_out-none_left d s c.dev c.sector bs (alone used), take_out-Unique d s bs u)
]

pub take_out-All : (P : Buf → Type 0) (d s : ℕ) (bs : List Buf) → All P bs → All P (take_out d s bs)
take_out-All P d s [] all = tt
take_out-All P d s (c ∷ bs) (p, all) = elim (Bool-cases (is_for d s c)) [
  | inl here ↦ rw here all
  | inr there ↦ rw there (p, take_out-All P d s bs all)
]
