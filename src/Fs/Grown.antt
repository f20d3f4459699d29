-- ===== src/Fs/Grown.antt =====
-- The tree of a file that has grown by a block, and the entries of its tables.
use os.Base.{
  ℕ, zero, suc, ◌+◌, ◌-◌, ◌/◌, ◌%◌, ◌≡◌, ◌≢◌, refl, sym, ◌∙◌, ap, subst, ◌==◌, ltb, if◌then◌else◌,
  Bool, true, false, arith, some, Bool-cases, Option-cases, inl, inr, ok, from_ok, bind_ok,
}
use os.Fs.Disk.{Disk, put, set_word, find_free, balloc}
use os.Fs.Inode.{Inode, with_addr, entry, addr_of}
use os.Fs.Tree.{
  Slot, addr, single, leaf, is_slot, is_data, child, pointer, child_zero, IsTree, Adds, slot_cases,
  grown, nonzero, zero_of,
}
use os.Fs.Growth.{addr-Adds, placed, Adds-IsTree, b_real}

-- The block of number `bn` of the file.
abbrev pub slot_of : ℕ → Slot
slot_of bn =
    if ltb bn 12
    then addr bn
    else if ltb (bn - 12) 128
    then single (bn - 12)
    else leaf ((bn - 12 - 128) / 128) ((bn - 12 - 128) % 128)

-- The tree may have more blocks, and the contents are the same.
pub record Grows (d : Disk) (a : ℕ → ℕ) (d' : Disk) (a' : ℕ → ℕ) : Type 0 where
  pub place : ℕ → Slot
  pub tree : IsTree d' a' place
  pub same :
      (t : Slot)
      → is_slot t ≡ true
      → is_data t ≡ true
      → (k : ℕ) → child d' (pointer d' a' t) k ≡ child d (pointer d a t) k
  pub stays : (t : Slot) → is_slot t ≡ true → pointer d a t ≢ 0 → pointer d' a' t ≡ pointer d a t

pub Grows-refl : (d : Disk) (a : ℕ → ℕ) (place : ℕ → Slot) → IsTree d a place → Grows d a d a
Grows-refl d a place v = record {
  place = place;
  tree = v;
  same = λ t is_t data_t k. refl;
  stays = λ t is_t real. refl;
}

pub Grows-trans :
    {d d1 d2 : Disk} {a a1 a2 : ℕ → ℕ} → Grows d a d1 a1 → Grows d1 a1 d2 a2 → Grows d a d2 a2
Grows-trans {d} {d1} {d2} {a} {a1} {a2} f g = record {
  place = g.place;
  tree = g.tree;
  same = λ t is_t data_t k. g.same t is_t data_t k ∙ f.same t is_t data_t k;
  stays = λ t is_t real.
      let old = f.stays t is_t real in g.stays t is_t (subst (λ x. x ≢ 0) (sym old) real) ∙ old;
}

find_free-unused :
    (n b : ℕ) (used : ℕ → Bool) {r : ℕ} → find_free n b used ≡ some r → used r ≡ false
unfolding find_free
find_free-unused zero b used e = absurd (ground arith)
find_free-unused (suc n) b used {r} e = elim (Bool-cases (used b)) [
  | inl taken ↦ find_free-unused n (b + 1) used {r = r} (rw taken at e)
  | inr free ↦ let same : b ≡ r = ground arith in subst (λ x. used x ≡ false) same free
]

child_clear : (d : Disk) (x k : ℕ) → d.words x k ≡ 0 → child d x k ≡ 0
child_clear d x k e = elim (Bool-cases (x == 0)) [
  | inl nothing ↦ rw nothing refl
  | inr there ↦ rw there e
]

child_kept :
    (d d' : Disk) (x k : ℕ) → (x ≢ 0 → d'.words x k ≡ d.words x k) → child d' x k ≡ child d x k
child_kept d d' x k e = elim (Bool-cases (x == 0)) [
  | inl nothing ↦ rw nothing refl
  | inr there ↦ rw there (e (ground arith))
]

-- A new block in a free place.
Adds-Grows :
    (d : Disk) (a : ℕ → ℕ) (place : ℕ → Slot)
    → IsTree d a place
    → (b : ℕ) → d.used b ≡ false
    → (s : Slot) → pointer d a s ≡ 0
    → {d' : Disk} {a' : ℕ → ℕ} → Adds d a b s d' a'
    → Grows d a d' a'
Adds-Grows d a place v b unused s empty {d'} {a'} adds = record {
  place = placed d a place v b unused s;
  tree = Adds-IsTree d a place v b unused s adds;
  same = λ t is_t data_t k. elim (slot_cases t s) [
    | inl e ↦
        ap (λ (x : Slot). child d' (pointer d' a' x) k) e
        ∙ ap (λ x. child d' x k) adds.at_place
        ∙ child_clear d' b k (adds.cleared k)
        ∙ sym (child_zero d (pointer d a t) k (ap (pointer d a) e ∙ empty))
    | inr other ↦
        ap (λ x. child d' x k) (adds.elsewhere t is_t other)
        ∙ child_kept d d' (pointer d a t) k (λ real. adds.kept t is_t data_t real k)
  ];
  stays = λ t is_t real. elim (slot_cases t s) [
    | inl e ↦ absurd (real (ap (pointer d a) e ∙ empty))
    | inr other ↦ adds.elsewhere t is_t other
  ];
}

balloc-grown :
    (d : Disk) {b : ℕ} {d' : Disk} → balloc d ≡ ok (b, d') → (d.used b ≡ false) × (d' ≡ grown d b)
unfolding balloc
balloc-grown d {b} {d'} e = elim (Option-cases (find_free d.size 0 d.used)) [
  | inl full ↦ absurd (ground arith)
  | inr (r, found) ↦
      let same : (r, grown d r) ≡ (b, d') = from_ok (rw (balloc, found) at e) in
      let block : r ≡ b = ap (λ p. p.0) same in
      (
        subst (λ x. d.used x ≡ false) block (find_free-unused d.size 0 d.used found),
        sym (ap (λ p. p.1) same) ∙ ap (grown d) block,
      )
]

-- The block at a place, found or added.
abbrev pub Yields : Disk → (ℕ → ℕ) → Slot → ℕ → Disk → (ℕ → ℕ) → Type 0
Yields d a s b d' a' = Grows d a d' a' × (pointer d' a' s ≡ b) × (b ≢ 0)

Adds-Yields :
    (d : Disk) (a : ℕ → ℕ) (place : ℕ → Slot)
    → (v : IsTree d a place) → (b : ℕ) → (unused : d.used b ≡ false) → (s : Slot)
    → pointer d a s ≡ 0
    → {d' : Disk} {a' : ℕ → ℕ} → Adds d a b s d' a'
    → Yields d a s b d' a'
Adds-Yields d a place v b unused s empty adds =
    (Adds-Grows d a place v b unused s empty adds, adds.at_place, b_real d a place v b unused)

pub addr_of-Yields :
    (d : Disk) (ip : Inode) (place : ℕ → Slot) (i : ℕ) {b : ℕ} {ip' : Inode} {d' : Disk}
    → IsTree d ip.disk.addrs place
    → addr_of d ip i ≡ ok (b, ip', d')
    → Yields d ip.disk.addrs (addr i) b d' ip'.disk.addrs
      × (ip' ≡ record ip { disk = record ip.disk { addrs = ip'.disk.addrs } })
unfolding addr_of
addr_of-Yields d ip place i {b} {ip'} {d'} v e = elim (Bool-cases (ip.disk.addrs i == 0)) [
  | inr there ↦
      let same : (ip.disk.addrs i, ip, d) ≡ (b, ip', d') = from_ok (rw there at e) in
      subst
        (λ p.
          Yields d ip.disk.addrs (addr i) p.0 p.2 p.1.disk.addrs
          × (p.1 ≡ record ip { disk = record ip.disk { addrs = p.1.disk.addrs } }))
        same ((Grows-refl d ip.disk.addrs place v, refl, nonzero (ip.disk.addrs i) there), refl)
  | inl empty ↦
      let ((r, d1), got, rest) =
        bind_ok (balloc d) (λ r. ok (r.0, with_addr ip i r.0, r.1)) (rw empty at e) in
      let (unused, new) = balloc-grown d got in
      let same : (r, with_addr ip i r, d1) ≡ (b, ip', d') = from_ok rest in
      subst
        (λ p.
          Yields d ip.disk.addrs (addr i) p.0 p.2 p.1.disk.addrs
          × (p.1 ≡ record ip { disk = record ip.disk { addrs = p.1.disk.addrs } }))
        same
        (
          subst (λ x. Yields d ip.disk.addrs (addr i) r x (put ip.disk.addrs i r)) (sym new)
              (Adds-Yields d ip.disk.addrs place v r unused (addr i) (sym (zero_of _ empty))
                (addr-Adds d ip.disk.addrs place v r unused i (sym (zero_of _ empty)))),
          refl,
        )
]

pub child_real : (d : Disk) (x k : ℕ) → x ≢ 0 → child d x k ≡ d.words x k
child_real d x k real = let there : (x == 0) ≡ false = ground arith in rw there refl

-- The entry `i` of the table at the place `p`, which is the place `s`.
pub entry-Yields :
    (d : Disk) (a : ℕ → ℕ) (place : ℕ → Slot) (p s : Slot) (i : ℕ) {b : ℕ} {d' : Disk}
    → (v : IsTree d a place) → (real : pointer d a p ≢ 0)
    → pointer d a s ≡ child d (pointer d a p) i
    → ((r : ℕ)
        → (unused : d.used r ≡ false) → pointer d a s ≡ 0
        → Adds d a r s (set_word (grown d r) (pointer d a p) i r) a)
    → entry d (pointer d a p) i ≡ ok (b, d')
    → Yields d a s b d' a
unfolding entry
entry-Yields d a place p s i {b} {d'} v real at_p adds e =
    elim (Bool-cases (d.words (pointer d a p) i == 0)) [
      | inr there ↦
          let same : (d.words (pointer d a p) i, d) ≡ (b, d') = from_ok (rw there at e) in
          let here : child d (pointer d a p) i ≡ d.words (pointer d a p) i =
            child_real d (pointer d a p) i real in
          subst (λ q. Yields d a s q.0 q.1 a) same
            (Grows-refl d a place v, at_p ∙ here, nonzero (d.words (pointer d a p) i) there)
      | inl empty ↦
          let ((r, d1), got, rest) =
            bind_ok (balloc d) (λ r. ok (r.0, set_word r.1 (pointer d a p) i r.0))
              (rw empty at e) in
          let (unused, new) = balloc-grown d got in
          let here : child d (pointer d a p) i ≡ d.words (pointer d a p) i =
            child_real d (pointer d a p) i real in
          let none_yet : pointer d a s ≡ 0 = at_p ∙ here ∙ sym (zero_of _ empty) in
          subst (λ q. Yields d a s q.0 q.1 a) (from_ok rest)
            (subst (λ x. Yields d a s r (set_word x (pointer d a p) i r) a) (sym new)
              (Adds-Yields d a place v r unused s none_yet (adds r unused none_yet)))
    ]

pub Yields-trans :
    {d d1 d2 : Disk} {a a1 a2 : ℕ → ℕ} (s : Slot) {b : ℕ}
    → Grows d a d1 a1
    → Yields d1 a1 s b d2 a2
    → Yields d a s b d2 a2
Yields-trans s grows (more, at_s, real) = (Grows-trans grows more, at_s, real)
