-- ===== src/Grep/Here.antt =====
-- matchhere decides whether a string of the pattern stands at the front of the text.
use os.Base.{
  ℕ, ◌≡◌, refl, ap, ◌↔◌, inl, inr, ◌==◌, Bool, true, false, ◌&&◌, ◌||◌, List, [], ◌∷◌, ◌++◌, arith,
  Bool-cases,
}
use os.Grep.{dot, asterisk, dollar, matchstar, match_one, at_end, matchhere}
use os.Grep.Language.{
  Atom, Piece, one, star, Accepts, InLang, done, step, stop, more, atom, pieces, anchored, Fronts,
}

match_one-Accepts : (c t : ℕ) → ((c == dot || c == t) ≡ true) ↔ Accepts (atom c) t
match_one-Accepts c t = elim (Bool-cases (c == dot)) [
  | inl yes_dot ↦ rw yes_dot ((λ _. tt), (λ _. refl))
  | inr no_dot ↦ rw no_dot (ground arith)
]

matchstar-Accepts : (c t : ℕ) → ((t == c || c == dot) ≡ true) ↔ Accepts (atom c) t
matchstar-Accepts c t = elim (Bool-cases (c == dot)) [
  | inl yes_dot ↦ rw yes_dot ((λ _. tt), (λ _. ground arith))
  | inr no_dot ↦ rw no_dot (ground arith)
]

and_split : {a b : Bool} → (a && b) ≡ true → (a ≡ true) × (b ≡ true)
and_split h = ground arith

module _ (ps : List Piece) (whole : Bool) (here : List ℕ → Bool)
    (sound : (text : List ℕ) → here text ≡ true → Fronts ps whole text) where
  match_one_sound :
      (c : ℕ) (text : List ℕ) → match_one c here text ≡ true → Fronts (one (atom c) ∷ ps) whole text
  unfolding match_one
  match_one_sound c [] h = cc
  match_one_sound c (t ∷ text) h =
      let f = sound text (and_split h).1 in
      record {
        matched = t ∷ f.matched;
        rest = f.rest;
        split = ap (◌∷◌ t) f.split;
        inside = step ((match_one-Accepts c t).0 (and_split h).0) f.inside;
        ends = f.ends;
      }

  Fronts-stop : (a : Atom) (text : List ℕ) → Fronts ps whole text → Fronts (star a ∷ ps) whole text
  Fronts-stop a text f = record {
    matched = f.matched;
    rest = f.rest;
    split = f.split;
    inside = stop f.inside;
    ends = f.ends;
  }

  matchstar_sound :
      (c : ℕ) (text : List ℕ)
      → matchstar c here text ≡ true
      → Fronts (star (atom c) ∷ ps) whole text
  unfolding matchstar
  matchstar_sound c [] h = Fronts-stop (atom c) [] (sound [] h)
  matchstar_sound c (t ∷ text) h = elim (Bool-cases (here (t ∷ text))) [
    | inl now ↦ Fronts-stop (atom c) (t ∷ text) (sound (t ∷ text) now)
    | inr later ↦
        let both = and_split {a = t == c || c == dot} {b = matchstar c here text} (rw later at h) in
        let f = matchstar_sound c text both.1 in
        record {
          matched = t ∷ f.matched;
          rest = f.rest;
          split = ap (◌∷◌ t) f.split;
          inside = more ((matchstar-Accepts c t).0 both.0) f.inside;
          ends = f.ends;
        }
  ]

one-InLang :
    {a : Atom} {ps : List Piece} {s : List ℕ}
    → InLang (one a ∷ ps) s
    → (t : ℕ) × (s' : List ℕ) × (s ≡ t ∷ s') × Accepts a t × InLang ps s'
one-InLang (step {t} {s} ok l) = (t, s, refl, ok, l)

module _ (ps : List Piece) (whole : Bool) (here : List ℕ → Bool)
    (complete : (s rest : List ℕ)
      → InLang ps s
      → (whole ≡ true → rest ≡ [])
      → here (s ++ rest) ≡ true) where
  match_one_complete :
      (c : ℕ) (s rest : List ℕ)
      → InLang (one (atom c) ∷ ps) s
      → (whole ≡ true → rest ≡ [])
      → match_one c here (s ++ rest) ≡ true
  unfolding match_one
  match_one_complete c s rest l ends =
      let (t, s', e, ok, l') = one-InLang l in
      rw (e, (match_one-Accepts c t).1 ok) (complete s' rest l' ends)

  matchstar_now : (c : ℕ) (text : List ℕ) → here text ≡ true → matchstar c here text ≡ true
  unfolding matchstar
  matchstar_now c [] h = h
  matchstar_now c (t ∷ text) h = rw h

  matchstar_complete :
      (c : ℕ) (a : Atom)
      → ((t : ℕ) → Accepts a t → (t == c || c == dot) ≡ true)
      → (rest : List ℕ) → (whole ≡ true → rest ≡ [])
      → {s : List ℕ} → InLang (star a ∷ ps) s
      → matchstar c here (s ++ rest) ≡ true
  unfolding matchstar
  matchstar_complete c a fits rest ends (stop {s} l) =
      matchstar_now c (s ++ rest) (complete s rest l ends)
  matchstar_complete c a fits rest ends (more {t} {s} ok l) =
      let again = matchstar_complete c a fits rest ends l in rw (fits t ok) (ground (arith, again))

nil-InLang : {s : List ℕ} → InLang [] s → s ≡ []
nil-InLang done = refl

empty-Fronts : (text : List ℕ) → Fronts [] false text
empty-Fronts text = record {
  matched = [];
  rest = text;
  split = refl;
  inside = done;
  ends = λ e. cc;
}

at_end-Fronts : (text : List ℕ) → at_end text ≡ true → Fronts [] true text
unfolding at_end
at_end-Fronts [] h = record {
  matched = [];
  rest = [];
  split = refl;
  inside = done;
  ends = λ e. refl;
}
at_end-Fronts (t ∷ text) h = cc

-- What matchhere accepts is in the language of the pattern.
pub matchhere_sound :
    (re text : List ℕ) → matchhere re text ≡ true → Fronts (pieces re) (anchored re) text
unfolding matchhere pieces anchored
matchhere_sound [] text h = empty-Fronts text
matchhere_sound (c ∷ []) text h = elim (Bool-cases (c == dollar)) [
  | inl eol ↦ rw eol (at_end-Fronts text (rw eol at h))
  | inr byte ↦
      rw byte (
        match_one_sound [] false (matchhere []) (λ rest _. empty-Fronts rest) c text (rw byte at h))
]
matchhere_sound (c ∷ d ∷ re) text h = elim (Bool-cases (d == asterisk)) [
  | inl many ↦ rw many (
      matchstar_sound (pieces re) (anchored re) (matchhere re) (matchhere_sound re) c text
        (rw many at h))
  | inr byte ↦ rw byte (
      match_one_sound (pieces (d ∷ re)) (anchored (d ∷ re)) (matchhere (d ∷ re))
        (matchhere_sound (d ∷ re)) c text (rw byte at h))
]

-- What the pattern's language has at the front of a text, matchhere finds.
pub matchhere_complete :
    (re s rest : List ℕ)
    → InLang (pieces re) s
    → (anchored re ≡ true → rest ≡ [])
    → matchhere re (s ++ rest) ≡ true
unfolding matchhere pieces anchored
matchhere_complete [] s rest l ends = refl
matchhere_complete (c ∷ []) s rest l ends = elim (Bool-cases (c == dollar)) [
  | inl eol ↦
      let nothing = nil-InLang (rw eol at l) in
      let at_last = ends eol in rw eol (rw (nothing, at_last))
  | inr byte ↦ rw byte (
      match_one_complete [] false (matchhere []) (λ s' rest' _ _. refl) c s rest (rw byte at l)
        (λ e. cc))
]
matchhere_complete (c ∷ d ∷ re) s rest l ends = elim (Bool-cases (d == asterisk)) [
  | inl many ↦ rw many (
      matchstar_complete (pieces re) (anchored re) (matchhere re) (matchhere_complete re) c (atom c)
        (λ t. (matchstar-Accepts c t).1) rest (rw many at ends) (rw many at l))
  | inr byte ↦ rw byte (
      match_one_complete (pieces (d ∷ re)) (anchored (d ∷ re)) (matchhere (d ∷ re))
        (matchhere_complete (d ∷ re)) c s rest (rw byte at l) (rw byte at ends))
]
