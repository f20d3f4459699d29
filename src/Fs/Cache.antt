-- ===== src/Fs/Cache.antt =====
-- No inode is in two live entries of the inode cache.
use os.Base.{
  ℕ, zero, suc, ◌+◌, ◌-◌, ◌≤◌, ◌<◌, ◌≡◌, ◌≢◌, ◌⊎◌, inl, inr, refl, ap, ◌∙◌, sym, subst, ◌==◌, ltb,
  true, false, ◌&&◌, Option, none, some, List, [], ◌∷◌, get_elem?, arith, Bool-cases, modify,
  get_elem?-modify,
}
use os.Base.{if_false, bind_ok, from_ok, Outcome, ok, panic}
use os.Fs.Disk.{Disk}
use os.Fs.Inode.{
  Inode, Found, cached, recycle, full, search_cache, remember, recycled, iget, idup, ilock, iunlock,
  iput, itrunc, iupdate, emptied,
}

abbrev pub Holds : List Inode → ℕ → Inode → Type 0
Holds c i ip = get_elem? c i ≡ some ip

abbrev pub IsUnique : List Inode → Type 0
IsUnique c =
    (i j : ℕ) (p q : Inode)
    → Holds c i p
    → Holds c j q
    → 0 < p.ref
    → 0 < q.ref
    → p.dev ≡ q.dev
    → p.inum ≡ q.inum
    → i ≡ j

-- `q` stands for the inode that `p` does, and is live only if `p` is.
pub record Same (p q : Inode) : Type 0 where
  pub dev : p.dev ≡ q.dev
  pub inum : p.inum ≡ q.inum
  pub live : 0 < q.ref → 0 < p.ref

-- The callers hold a reference to the entry that they pass.
pub data Step (c : List Inode) : List Inode → Type 0 where
  gets : (dev inum i : ℕ) {c' : List Inode} → iget c dev inum ≡ ok (i, c') → Step c c'
  dups : (i : ℕ) (ip : Inode) → Holds c i ip → 0 < ip.ref → Step c (modify idup c i)
  locks :
      (d : Disk) (i : ℕ) (ip ip' : Inode)
      → Holds c i ip
      → ilock d ip ≡ ok (some ip')
      → Step c (modify (λ _. ip') c i)
  unlocks :
      (i : ℕ) (ip ip' : Inode) → Holds c i ip → iunlock ip ≡ ok ip' → Step c (modify (λ _. ip') c i)
  puts :
      (d d' : Disk) (i : ℕ) (ip ip' : Inode)
      → Holds c i ip
      → 0 < ip.ref
      → iput d ip ≡ ok (ip', d')
      → Step c (modify (λ _. ip') c i)

pub data Reach (c : List Inode) : List Inode → Type 0 where
  here : Reach c c
  next : {t u : List Inode} → Reach c t → Step t u → Reach c u

from_some : {p q : Inode} → some p ≡ some q → p ≡ q
from_some {p} {q} e = ap (λ o. elim o [ none ↦ p | some r ↦ r ]) e

modify-IsUnique :
    (f : Inode → Inode) (c : List Inode) (i : ℕ) (p : Inode)
    → Holds c i p
    → Same p (f p)
    → IsUnique c
    → IsUnique (modify f c i)
modify-IsUnique f c i p h s u a b x y hx hy lx ly ed en =
    let (x', hx', sx) = before a x hx in
    let (y', hy', sy) = before b y hy in
    u a b x' y' hx' hy' (sx.live lx) (sy.live ly) (sx.dev ∙ (ed ∙ sym sy.dev))
      (sx.inum ∙ (en ∙ sym sy.inum))
  where
    before : (j : ℕ) (z : Inode) → Holds (modify f c i) j z → (o : Inode) × Holds c j o × Same o z
    before j z hz = elim (get_elem?-modify f c i j h hz) [
      | inl (e, ez) ↦ (p, rw e at h, rw (← from_some ez) at s)
      | inr (ne, old) ↦ (z, old, record { dev = refl; inum = refl; live = λ l. l })
    ]

search_cache-cached :
    (dev inum i : ℕ) (e : Option ℕ) (c : List Inode) {j : ℕ}
    → search_cache dev inum i e c ≡ cached j
    → (i ≤ j) × (p : Inode) × Holds c (j - i) p × (0 < p.ref) × (p.dev ≡ dev) × (p.inum ≡ inum)
unfolding search_cache
search_cache-cached dev inum i none [] h = absurd (ground arith)
search_cache-cached dev inum i (some e) [] h = absurd (ground arith)
search_cache-cached dev inum i e (p ∷ ps) {j} h =
    elim (Bool-cases (ltb 0 p.ref && (p.dev == dev && p.inum == inum))) [
      | inl hit ↦
          let same : i ≡ j = ground arith in
          let first : j - i ≡ 0 = omega arith in
          (omega arith, p, rw first refl, ground arith, ground arith, ground arith)
      | inr miss ↦
          let (le, q, there, live, on_dev, numbered) =
            search_cache-cached dev inum (i + 1) (remember e i p) ps {j = j} (rw miss at h) in
          let step : j - i ≡ suc (j - (i + 1)) = omega arith in
          (omega arith, q, rw step there, live, on_dev, numbered)
    ]

remember_lem :
    (e : Option ℕ) (i : ℕ) (p : Inode) {j : ℕ}
    → remember e i p ≡ some j
    → (e ≡ some j) ⊎ ((i ≡ j) × (p.ref ≡ 0))
remember_lem none i p h = elim (Bool-cases (p.ref == 0)) [
  | inl free ↦ inr (ground arith)
  | inr live ↦ absurd (ground arith)
]
remember_lem (some e) i p h = inl h

-- No entry is live for the inode, and the slot is one that was free.
search_cache-recycle :
    (dev inum i : ℕ) (e : Option ℕ) (c : List Inode) {j : ℕ}
    → search_cache dev inum i e c ≡ recycle j
    → ((k : ℕ) (p : Inode) → Holds c k p → 0 < p.ref → p.dev ≡ dev → p.inum ≢ inum)
      × ((e ≡ some j) ⊎ ((i ≤ j) × (p : Inode) × Holds c (j - i) p × (p.ref ≡ 0)))
unfolding search_cache
search_cache-recycle dev inum i none [] h = absurd (ground arith)
search_cache-recycle dev inum i (some e) [] h = ((λ k p hp. cc), inl (ground arith))
search_cache-recycle dev inum i e (p ∷ ps) {j} h =
    elim (Bool-cases (ltb 0 p.ref && (p.dev == dev && p.inum == inum))) [
      | inl hit ↦ absurd (ground arith)
      | inr miss ↦
          let (none_live, slot) =
            search_cache-recycle dev inum (i + 1) (remember e i p) ps {j = j} (rw miss at h) in
          (
            others p ps miss none_live,
            elim slot [
              | inl early ↦ elim (remember_lem e i p early) [
                | inl old ↦ inl old
                | inr (same, free) ↦
                    let first : j - i ≡ 0 = omega arith in inr (omega arith, p, rw first refl, free)
              ]
              | inr (le, q, there, free) ↦
                  let step : j - i ≡ suc (j - (i + 1)) = omega arith in
                  inr (omega arith, q, rw step there, free)
            ],
          )
    ]
  where
    others :
        (p : Inode) (ps : List Inode)
        → (ltb 0 p.ref && (p.dev == dev && p.inum == inum)) ≡ false
        → ((k : ℕ) (q : Inode) → Holds ps k q → 0 < q.ref → q.dev ≡ dev → q.inum ≢ inum)
        → (k : ℕ) (q : Inode) → Holds (p ∷ ps) k q
        → 0 < q.ref
        → q.dev ≡ dev
        → q.inum ≢ inum
    others p ps miss later zero q hq lq ed en =
        let mine : p ≡ q = from_some hq in
        absurd (
          ground (
            arith,
            ap (λ (r : Inode). r.ref) mine,
            ap (λ (r : Inode). r.dev) mine,
            ap (λ (r : Inode). r.inum) mine,
          ))
    others p ps miss later (suc k) q hq lq ed en = later k q hq lq ed en

recycle-IsUnique :
    (c : List Inode) (dev inum i : ℕ) (p : Inode)
    → Holds c i p
    → ((k : ℕ) (q : Inode) → Holds c k q → 0 < q.ref → q.dev ≡ dev → q.inum ≢ inum)
    → IsUnique c
    → IsUnique (modify (recycled dev inum) c i)
recycle-IsUnique c dev inum i p h others u a b x y hx hy lx ly ed en =
    elim (get_elem?-modify (recycled dev inum) c i a h hx) [
      | inl (ea, ex) ↦ elim (get_elem?-modify (recycled dev inum) c i b h hy) [
        | inl (eb, ey) ↦ sym ea ∙ eb
        | inr (nb, oy) ↦
            let new = from_some ex in
            absurd (
              others b y oy ly (sym ed ∙ ap (λ (r : Inode). r.dev) new)
                (sym en ∙ ap (λ (r : Inode). r.inum) new))
      ]
      | inr (na, ox) ↦ elim (get_elem?-modify (recycled dev inum) c i b h hy) [
        | inl (eb, ey) ↦
            let new = from_some ey in
            absurd (
              others a x ox lx (ed ∙ ap (λ (r : Inode). r.dev) new)
                (en ∙ ap (λ (r : Inode). r.inum) new))
        | inr (nb, oy) ↦ u a b x y ox oy lx ly ed en
      ]
    ]

-- What iget, ilock, iunlock and iput do to an entry's key.
iget-IsUnique :
    (c : List Inode) (dev inum i : ℕ) (c' : List Inode)
    → iget c dev inum ≡ ok (i, c')
    → IsUnique c
    → IsUnique c'
unfolding iget
iget-IsUnique c dev inum i c' e u = go (search_cache dev inum 0 none c) refl e
  where
    go :
        (r : Found)
        → search_cache dev inum 0 none c ≡ r
        → elim r as (λ _. Outcome (ℕ × List Inode)) [
          | full ↦ panic
          | cached j ↦ ok (j, modify (λ ip. record ip { ref = ip.ref + 1 }) c j)
          | recycle j ↦ ok (j, modify (recycled dev inum) c j)
        ]
          ≡ ok (i, c')
        → IsUnique c'
    go full found e = absurd (ground arith)
    go (cached j) found e =
        let (le, p, there, live, on_dev, numbered) = search_cache-cached dev inum 0 none c found in
        let same : j - 0 ≡ j = omega arith in
        subst IsUnique (ap (λ r. r.1) (from_ok e)) (
          modify-IsUnique _ c j p (rw same at there)
            (record { dev = refl; inum = refl; live = λ l. live }) u)
    go (recycle j) found e =
        let (others, slot) = search_cache-recycle dev inum 0 none c found in
        elim slot [
          | inl impossible ↦ cc
          | inr (le, p, there, free) ↦
              let same : j - 0 ≡ j = omega arith in
              subst IsUnique (ap (λ r. r.1) (from_ok e))
                (recycle-IsUnique c dev inum j p (rw same at there) others u)
        ]

idup-Same : (ip : Inode) → 0 < ip.ref → Same ip (idup ip)
unfolding idup
idup-Same ip live = record { dev = refl; inum = refl; live = λ l. live }

ilock-Same : (d : Disk) (ip ip' : Inode) → ilock d ip ≡ ok (some ip') → Same ip ip'
unfolding ilock
ilock-Same d ip ip' e = record { dev = ground arith; inum = ground arith; live = λ l. ground arith }

iunlock-Same : (ip ip' : Inode) → iunlock ip ≡ ok ip' → Same ip ip'
unfolding iunlock
iunlock-Same ip ip' e = record { dev = ground arith; inum = ground arith; live = λ l. ground arith }

itrunc-Same :
    (d d' : Disk) (ip ip' : Inode)
    → itrunc d ip ≡ ok (ip', d')
    → (ip'.dev ≡ ip.dev) × (ip'.inum ≡ ip.inum)
unfolding itrunc
itrunc-Same d d' ip ip' e = elim (Bool-cases ip.symlnk) [
  | inl link ↦
      let same = ap (λ r. r.0) (from_ok (rw link at e)) in
      (sym (ap (λ (r : Inode). r.dev) same), sym (ap (λ (r : Inode). r.inum) same))
  | inr file ↦
      let (r, freed, last) =
        bind_ok _ (λ r. ok (emptied ip, iupdate r (emptied ip)))
          (sym (if_false ip.symlnk _ _ file refl) ∙ e) in
      let same = ap (λ r. r.0) (from_ok last) in
      (sym (ap (λ (r : Inode). r.dev) same), sym (ap (λ (r : Inode). r.inum) same))
]

iput-Same : (d d' : Disk) (ip ip' : Inode) → 0 < ip.ref → iput d ip ≡ ok (ip', d') → Same ip ip'
unfolding iput
iput-Same d d' ip ip' live e =
    elim (Bool-cases ((ip.ref == 1) && (ip.valid && (ip.disk.nlink == 0)))) [
      | inr kept ↦
          let same = ap (λ r. r.0) (from_ok (rw kept at e)) in
          record {
            dev = ap (λ (r : Inode). r.dev) same;
            inum = ap (λ (r : Inode). r.inum) same;
            live = λ l. live;
          }
      | inl last ↦ elim (Bool-cases ip.busy) [
        | inl locked ↦ absurd (ground arith)
        | inr unlocked ↦
            let ((q, t), cut, after) =
              bind_ok (itrunc d (record ip { busy = true })) _ (rw (last, unlocked) at e) in
            let same = ap (λ r. r.0) (from_ok after) in
            let (ed, en) = itrunc-Same d t (record ip { busy = true }) q cut in
            record {
              dev = sym ed ∙ ap (λ (r : Inode). r.dev) same;
              inum = sym en ∙ ap (λ (r : Inode). r.inum) same;
              live = λ l. live;
            }
      ]
    ]

Step-IsUnique : (c : List Inode) {c' : List Inode} → Step c c' → IsUnique c → IsUnique c'
Step-IsUnique c (gets dev inum i {c'} e) u = iget-IsUnique c dev inum i c' e u
Step-IsUnique c (dups i ip h live) u = modify-IsUnique idup c i ip h (idup-Same ip live) u
Step-IsUnique c (locks d i ip ip' h e) u =
    modify-IsUnique (λ _. ip') c i ip h (ilock-Same d ip ip' e) u
Step-IsUnique c (unlocks i ip ip' h e) u =
    modify-IsUnique (λ _. ip') c i ip h (iunlock-Same ip ip' e) u
Step-IsUnique c (puts d d' i ip ip' h live e) u =
    modify-IsUnique (λ _. ip') c i ip h (iput-Same d d' ip ip' live e) u

-- Whatever calls of iget, idup, ilock, iunlock and iput follow on a cache without live entries, by
-- callers that hold references to the entries they pass to idup and iput, two entries of the cache
-- with references never stand for the same inode.
pub live_entries_unique :
    {c t : List Inode}
    → ((i : ℕ) (p : Inode) → Holds c i p → p.ref ≡ 0)
    → Reach c t
    → (i j : ℕ) (p q : Inode) → Holds t i p
    → Holds t j q
    → 0 < p.ref
    → 0 < q.ref
    → p.dev ≡ q.dev
    → p.inum ≡ q.inum
    → i ≡ j
live_entries_unique free here i j p q hp hq lp lq ed en = absurd (ground (arith, free i p hp))
live_entries_unique free (next {t} r st) i j p q hp hq lp lq ed en =
    Step-IsUnique t st (live_entries_unique free r) i j p q hp hq lp lq ed en
