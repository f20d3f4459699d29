-- ===== src/Fs/Growth.antt =====
-- The blocks that bmap adds to the tree of a file.
use os.Base.{
  ℕ, ◌≡◌, ◌≢◌, refl, sym, ◌∙◌, ap, subst, ◌==◌, if◌then◌else◌, Bool, true, false, arith, Bool-cases,
  inl, inr, ◌⊎◌,
}
use os.Fs.Disk.{Disk, put, set_word, bzero}
use os.Fs.Tree.{
  Slot, addr, single, double, leaf, is_slot, is_data, child, pointer, IsTree, places_differ,
  flip_ne, true_not, nonzero, is_zero, unused_differ, grown, Adds, slot_cases, child_zero,
}

words-other :
    (d : Disk) (b t i x k : ℕ)
    → x ≢ b
    → t ≢ b
    → x ≢ t
    → (set_word (grown d b) t i b).words x k ≡ d.words x k
unfolding bzero
words-other d b t i x k not_b t_not_b not_t =
    let one : (b == x) ≡ false = ground arith in
    let two : (t == x) ≡ false = ground arith in rw (two, one) refl

words-index :
    (d : Disk) (b t i k : ℕ) → t ≢ b → k ≢ i → (set_word (grown d b) t i b).words t k ≡ d.words t k
unfolding bzero
words-index d b t i k t_not_b not_i =
    let one : (b == t) ≡ false = ground arith in
    let two : (t == t) ≡ true = ground arith in
    let three : (i == k) ≡ false = ground arith in rw (two, three, one) refl

words-hit : (d : Disk) (b t i : ℕ) → (set_word (grown d b) t i b).words t i ≡ b
unfolding bzero
words-hit d b t i =
    let two : (t == t) ≡ true = ground arith in
    let three : (i == i) ≡ true = ground arith in rw (two, three) refl

words-new : (d : Disk) (b t i k : ℕ) → t ≢ b → (set_word (grown d b) t i b).words b k ≡ 0
unfolding bzero
words-new d b t i k t_not_b =
    let one : (t == b) ≡ false = ground arith in
    let two : (b == b) ≡ true = ground arith in rw (one, two) refl

-- Where `b` is put into the table at the place `p`, and cleared itself.
module _ (d : Disk) (a : ℕ → ℕ) (place : ℕ → Slot) (v : IsTree d a place) (b : ℕ)
    (unused : d.used b ≡ false) where
  pub b_real : b ≢ 0
  b_real e = true_not (sym v.reserved ∙ ap d.used (sym e) ∙ unused)

  module _ (p : Slot) (is_p : is_slot p ≡ true) (real : pointer d a p ≢ 0) (i : ℕ) where
    abbrev pub with_entry : Disk
    with_entry = set_word (grown d b) (pointer d a p) i b

    p_not_b : pointer d a p ≢ b
    p_not_b = unused_differ d a place v b unused p is_p

    child-same :
        (q : Slot)
        → is_slot q ≡ true
        → (k : ℕ) → (q ≢ p) ⊎ (k ≢ i)
        → child with_entry (pointer d a q) k ≡ child d (pointer d a q) k
    child-same q is_q k ne = elim (Bool-cases (pointer d a q == 0)) [
      | inl nothing ↦ rw nothing refl
      | inr something ↦
          let not_b = unused_differ d a place v b unused q is_q in
          rw something (elim (slot_cases q p) [
            | inr other ↦
                words-other d b (pointer d a p) i (pointer d a q) k not_b p_not_b
                  (places_differ d a place v q p is_q is_p (nonzero _ something) other)
            | inl same ↦ elim ne [
              | inl other ↦ absurd (other same)
              | inr index ↦
                  subst (λ r. with_entry.words (pointer d a r) k ≡ d.words (pointer d a r) k)
                    (sym same) (words-index d b (pointer d a p) i k p_not_b index)
            ]
          ])
    ]

    entry-kept :
        is_data p ≡ false
        → (t : Slot) → is_slot t ≡ true
        → is_data t ≡ true
        → pointer d a t ≢ 0
        → (k : ℕ) → with_entry.words (pointer d a t) k ≡ d.words (pointer d a t) k
    entry-kept table t is_t data_t real_t k =
        words-other d b (pointer d a p) i (pointer d a t) k
          (unused_differ d a place v b unused t is_t) p_not_b
          (places_differ d a place v t p is_t is_p real_t
            (λ e. true_not (sym data_t ∙ ap is_data e ∙ table)))

    entry-clear : (k : ℕ) → with_entry.words b k ≡ 0
    entry-clear k = words-new d b (pointer d a p) i k p_not_b

    child-hit : child with_entry (pointer d a p) i ≡ b
    child-hit =
        let there : (pointer d a p == 0) ≡ false = is_zero _ real in
        rw there (words-hit d b (pointer d a p) i)

    child-new : (k : ℕ) → child with_entry b k ≡ 0
    child-new k =
        let there : (b == 0) ≡ false = is_zero _ b_real in
        rw there (words-new d b (pointer d a p) i k p_not_b)

  pub single-Adds :
      (i : ℕ)
      → (real : a 12 ≢ 0) → pointer d a (single i) ≡ 0
      → Adds d a b (single i) (with_entry (addr 12) refl real i) a
  unfolding bzero
  single-Adds i real empty = record {
    taken = refl;
    cleared = entry-clear (addr 12) refl real i;
    kept = entry-kept (addr 12) refl real i refl;
    at_place = child-hit (addr 12) refl real i;
    elsewhere = others;
  }
    where
      others :
          (t : Slot)
          → is_slot t ≡ true
          → t ≢ single i
          → pointer (with_entry (addr 12) refl real i) a t ≡ pointer d a t
      others (addr k) is_t ne = refl
      others (single k) is_t ne =
          child-same (addr 12) refl real i (addr 12) refl k (inr (λ e. ne (ap single e)))
      others (double k) is_t ne =
          child-same (addr 12) refl real i (addr 13) refl k (inl (ground arith))
      others (leaf k l) is_t ne =
          rw (child-same (addr 12) refl real i (addr 13) refl k (inl (ground arith)))
            (child-same (addr 12) refl real i (double k) (ground arith) l (inl (ground arith)))

  pub double-Adds :
      (i : ℕ)
      → (real : a 13 ≢ 0) → pointer d a (double i) ≡ 0
      → Adds d a b (double i) (with_entry (addr 13) refl real i) a
  unfolding bzero
  double-Adds i real empty = record {
    taken = refl;
    cleared = entry-clear (addr 13) refl real i;
    kept = entry-kept (addr 13) refl real i refl;
    at_place = child-hit (addr 13) refl real i;
    elsewhere = others;
  }
    where
      others :
          (t : Slot)
          → is_slot t ≡ true
          → t ≢ double i
          → pointer (with_entry (addr 13) refl real i) a t ≡ pointer d a t
      others (addr k) is_t ne = refl
      others (single k) is_t ne =
          child-same (addr 13) refl real i (addr 12) refl k (inl (ground arith))
      others (double k) is_t ne =
          child-same (addr 13) refl real i (addr 13) refl k (inr (λ e. ne (ap double e)))
      others (leaf k l) is_t ne = elim (Bool-cases (k == i)) [
        | inl same ↦
            let e : k ≡ i = ground arith in
            rw (e, child-hit (addr 13) refl real i)
              (child-new (addr 13) refl real i l ∙ sym (child_zero d _ l empty))
        | inr other ↦
            rw (child-same (addr 13) refl real i (addr 13) refl k (inr (ground arith)))
              (child-same (addr 13) refl real i (double k) (ground arith) l (inl (ground arith)))
      ]

  pub leaf-Adds :
      (i j : ℕ)
      → (is_i : is_slot (double i) ≡ true) → (real : pointer d a (double i) ≢ 0)
      → pointer d a (leaf i j) ≡ 0
      → Adds d a b (leaf i j) (with_entry (double i) is_i real j) a
  unfolding bzero
  leaf-Adds i j is_i real empty = record {
    taken = refl;
    cleared = entry-clear (double i) is_i real j;
    kept = entry-kept (double i) is_i real j refl;
    at_place =
        rw (child-same (double i) is_i real j (addr 13) refl i (inl (ground arith)))
          (child-hit (double i) is_i real j);
    elsewhere = others;
  }
    where
      others :
          (t : Slot)
          → is_slot t ≡ true
          → t ≢ leaf i j
          → pointer (with_entry (double i) is_i real j) a t ≡ pointer d a t
      others (addr k) is_t ne = refl
      others (single k) is_t ne =
          child-same (double i) is_i real j (addr 12) refl k (inl (ground arith))
      others (double k) is_t ne =
          child-same (double i) is_i real j (addr 13) refl k (inl (ground arith))
      others (leaf k l) is_t ne =
          rw (child-same (double i) is_i real j (addr 13) refl k (inl (ground arith))) (
            child-same (double i) is_i real j (double k) (ground arith) l
              (elim (Bool-cases (k == i)) [
                | inl same ↦ inr (ground arith)
                | inr other ↦ inl (ground arith)
              ]))

  grown-other : (x k : ℕ) → x ≢ b → child (grown d b) x k ≡ child d x k
  unfolding bzero
  grown-other x k ne = let other : (b == x) ≡ false = ground arith in rw other refl

  grown-new : (k : ℕ) → child (grown d b) b k ≡ 0
  unfolding bzero
  grown-new k =
      let here : (b == b) ≡ true = ground arith in
      let there : (b == 0) ≡ false = is_zero _ b_real in rw (there, here) refl

  module _ (i : ℕ) (empty : a i ≡ 0) where
    addr-child :
        (m : ℕ)
        → is_slot (addr m) ≡ true
        → (k : ℕ) → child (grown d b) (put a i b m) k ≡ child d (a m) k
    addr-child m is_m k = elim (Bool-cases (i == m)) [
      | inl same ↦
          let e : i ≡ m = ground arith in
          rw same (grown-new k ∙ sym (child_zero d (a m) k (rw e at empty)))
      | inr other ↦
          rw other (grown-other (a m) k (unused_differ d a place v b unused (addr m) is_m))
    ]

    pub addr-Adds : Adds d a b (addr i) (grown d b) (put a i b)
    unfolding bzero
    addr-Adds = record {
      taken = refl;
      cleared = (λ k. let here : (b == b) ≡ true = ground arith in rw here refl);
      kept = (λ t is_t data_t real_t k.
          let other : (b == pointer d a t) ≡ false =
            flip_ne (unused_differ d a place v b unused t is_t) in
          rw other refl);
      at_place = (let here : (i == i) ≡ true = ground arith in rw here refl);
      elsewhere = others;
    }
      where
        others :
            (t : Slot)
            → is_slot t ≡ true
            → t ≢ addr i
            → pointer (grown d b) (put a i b) t ≡ pointer d a t
        others (addr k) is_t ne = let other : (i == k) ≡ false = ground arith in rw other refl
        others (single k) is_t ne = addr-child 12 refl k
        others (double k) is_t ne = addr-child 13 refl k
        others (leaf k l) is_t ne = rw (addr-child 13 refl k) (
            grown-other (child d (a 13) k) l
              (unused_differ d a place v b unused (double k) (ground arith)))

  abbrev pub placed : Slot → ℕ → Slot
  placed s x = if x == b then s else place x

  used-after :
      (used' : ℕ → Bool) (x : ℕ) → used' ≡ put d.used b true → d.used x ≡ true → used' x ≡ true
  used-after used' x e was = ap (λ f. f x) e ∙ put-true x was
    where
      put-true : (x : ℕ) → d.used x ≡ true → put d.used b true x ≡ true
      put-true x was = ground arith

  placed-new : (s : Slot) → placed s b ≡ s
  placed-new s = let here : (b == b) ≡ true = ground arith in rw here refl

  placed-old : (s : Slot) (x : ℕ) → x ≢ b → placed s x ≡ place x
  placed-old s x ne = let other : (x == b) ≡ false = ground arith in rw other refl

  pub Adds-IsTree :
      (s : Slot) {d' : Disk} {a' : ℕ → ℕ} → Adds d a b s d' a' → IsTree d' a' (placed s)
  Adds-IsTree s {d'} {a'} adds = record {
    reserved = used-after d'.used 0 adds.taken v.reserved;
    used = λ t is_t real. elim (slot_cases t s) [
      | inl same ↦
          ap (λ (r : Slot). d'.used (pointer d' a' r)) same
          ∙ ap d'.used adds.at_place
          ∙ ap (λ f. f b) adds.taken
          ∙ (let here : (b == b) ≡ true = ground arith in rw here refl)
      | inr other ↦
          let old = adds.elsewhere t is_t other in
          ap d'.used old
          ∙ used-after d'.used (pointer d a t) adds.taken
              (v.used t is_t (subst (λ x. x ≢ 0) old real))
    ];
    own = λ t is_t real. elim (slot_cases t s) [
      | inl same ↦ ap (placed s) (ap (pointer d' a') same ∙ adds.at_place) ∙ placed-new s ∙ sym same
      | inr other ↦
          let old = adds.elsewhere t is_t other in
          ap (placed s) old
          ∙ placed-old s (pointer d a t) (unused_differ d a place v b unused t is_t)
          ∙ v.own t is_t (subst (λ x. x ≢ 0) old real)
    ];
  }
