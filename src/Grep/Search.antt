-- ===== src/Grep/Search.antt =====
-- match looks for the pattern everywhere in the text, or at its front only after a ^.
use os.Base.{
  ℕ, ◌≡◌, refl, ap, ◌↔◌, inl, inr, ◌==◌, if◌then◌else◌, Bool, true, false, List, [], ◌∷◌, ◌++◌,
  arith, Bool-cases,
}
use os.Grep.{hat, matchhere, match_from, match}
use os.Grep.Language.{Piece, pieces, anchored, Fronts}
use os.Grep.Here.{matchhere_sound, matchhere_complete}

-- A string of the pattern stands in the text, behind `before`.
pub record Occurs (ps : List Piece) (whole : Bool) (text : List ℕ) : Type 0 where
  pub before : List ℕ
  pub after : List ℕ
  pub split : text ≡ before ++ after
  pub front : Fronts ps whole after

-- What the whole pattern means for a line: after a ^ it stands at the front, else anywhere.
unfoldable pub Selects : List ℕ → List ℕ → Type 0
Selects [] text = Occurs [] false text
Selects (c ∷ re) text =
    if c == hat
    then Fronts (pieces re) (anchored re) text
    else Occurs (pieces (c ∷ re)) (anchored (c ∷ re)) text

-- matchhere decides whether the pattern stands at the front of the text.
pub matchhere-Fronts :
    (re text : List ℕ) → (matchhere re text ≡ true) ↔ Fronts (pieces re) (anchored re) text
matchhere-Fronts re text = (
  matchhere_sound re text,
  λ f. rw f.split (matchhere_complete re f.matched f.rest f.inside f.ends),
)

match_from_sound :
    (re text : List ℕ) → match_from re text ≡ true → Occurs (pieces re) (anchored re) text
unfolding match_from
match_from_sound re [] h = record {
  before = [];
  after = [];
  split = refl;
  front = matchhere_sound re [] h;
}
match_from_sound re (t ∷ text) h = elim (Bool-cases (matchhere re (t ∷ text))) [
  | inl now ↦ record {
    before = [];
    after = t ∷ text;
    split = refl;
    front = matchhere_sound re (t ∷ text) now;
  }
  | inr later ↦
      let o = match_from_sound re text (rw later at h) in
      record { before = t ∷ o.before; after = o.after; split = ap (◌∷◌ t) o.split; front = o.front }
]

match_from_now : (re text : List ℕ) → matchhere re text ≡ true → match_from re text ≡ true
unfolding match_from
match_from_now re [] h = h
match_from_now re (t ∷ text) h = rw h

match_from_complete :
    (re before after : List ℕ) → matchhere re after ≡ true → match_from re (before ++ after) ≡ true
unfolding match_from
match_from_complete re [] after h = match_from_now re after h
match_from_complete re (t ∷ before) after h = ground (arith, match_from_complete re before after h)

match_from-Occurs :
    (re text : List ℕ) → (match_from re text ≡ true) ↔ Occurs (pieces re) (anchored re) text
match_from-Occurs re text = (
  match_from_sound re text,
  λ o.
      rw o.split
        (match_from_complete re o.before o.after ((matchhere-Fronts re o.after).1 o.front)),
)

-- grep's match selects a line exactly if the line has a string of the pattern's language: at its
-- front for a pattern that begins with ^, anywhere otherwise, and ending the line if the pattern ends
-- in $.
pub match-Selects : (re text : List ℕ) → (match re text ≡ true) ↔ Selects re text
unfolding match Selects pieces anchored
match-Selects [] text = match_from-Occurs [] text
match-Selects (c ∷ re) text = elim (Bool-cases (c == hat)) [
  | inl front ↦ rw front (matchhere-Fronts re text)
  | inr anywhere ↦ rw anywhere (match_from-Occurs (c ∷ re) text)
]
