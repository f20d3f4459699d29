-- ===== src/Vm/Copy.antt =====
-- What copyout writes.
use os.Base.{
  ℕ, zero, suc, ◌+◌, ◌-◌, ◌*◌, ◌/◌, ◌%◌, ◌≤◌, ◌<◌, ◌≡◌, ◌≢◌, refl, sym, ◌∙◌, ap, subst, ◌==◌, ltb,
  leb, true, false, ◌&&◌, add32, sub32, arith, Bool-cases, inl, inr,
}
use os.Vm.{
  Tables, Bytes, page_round_down, walkpgdir, at_frame, uva2ka, put_bytes, copied, round_size,
  copy_run, copyout,
}

-- Addresses of one page are mapped alike.
uva2ka-page :
    (tables : Tables) (pgdir a b : ℕ)
    → a / 4096 ≡ b / 4096
    → uva2ka tables pgdir a ≡ uva2ka tables pgdir b
unfolding uva2ka walkpgdir
uva2ka-page tables pgdir a b same = rw (uva2ka, walkpgdir, same) refl

next_page : (va : ℕ) → va < 0x80000000 → add32 (page_round_down va) 4096 ≡ va / 4096 * 4096 + 4096
next_page va small = omega arith

page_offset : (va : ℕ) → va < 0x80000000 → sub32 va (page_round_down va) ≡ va % 4096
page_offset va small = omega arith

round_bounds :
    (va len : ℕ)
    → va < 0x80000000
    → 0 < len
    → (let n = round_size va len in
        (0 < n) × (n ≤ len) × (va % 4096 + n ≤ 4096) × (n < len → va % 4096 + n ≡ 4096))
round_bounds va len small pos =
    let off = page_offset va small in
    let n : sub32 4096 (va % 4096) ≡ 4096 - va % 4096 = omega arith in
    elim (Bool-cases (ltb len (4096 - va % 4096))) [
      | inl short ↦
          rw (off, n, short) (omega arith, omega arith, ground arith, λ less. absurd (omega arith))
      | inr long ↦ rw (off, n, long) (omega arith, ground arith, omega arith, λ less. omega arith)
    ]

abbrev pub IsMapped : Tables → ℕ → ℕ → ℕ → Type 0
IsMapped tables pgdir va len =
    (i : ℕ) → i < len → (f : ℕ) × (uva2ka tables pgdir (va + i) ≡ at_frame f)

-- No frame is mapped at two user pages.
abbrev pub OwnFrames : Tables → ℕ → Type 0
OwnFrames tables pgdir =
    (a b f : ℕ)
    → a < 0x80000000
    → b < 0x80000000
    → uva2ka tables pgdir a ≡ at_frame f
    → uva2ka tables pgdir b ≡ at_frame f
    → a / 4096 ≡ b / 4096

-- The bytes are at the addresses, and all other frames are as they were.
abbrev pub IsCopy : Tables → ℕ → Bytes → ℕ → (ℕ → ℕ) → ℕ → Bytes → Type 0
IsCopy tables pgdir bytes va buf len bytes' =
    ((i f : ℕ)
      → i < len
      → uva2ka tables pgdir (va + i) ≡ at_frame f
      → bytes' f ((va + i) % 4096) ≡ buf i)
    × ((f o : ℕ)
        → ((i : ℕ) → i < len → uva2ka tables pgdir (va + i) ≢ at_frame f)
        → bytes' f o ≡ bytes f o)

same_frame : {f g : ℕ} → at_frame f ≡ at_frame g → f ≡ g
same_frame e = cc

-- One round into the frame.
put-here :
    (bytes : Bytes) (f start n i : ℕ) (buf : ℕ → ℕ)
    → i < n
    → put_bytes bytes f start buf n f (start + i) ≡ buf i
put-here bytes f start n i buf lt =
    let inside : ((f == f) && (leb start (start + i) && ltb (start + i) (start + n))) ≡ true =
      ground arith in
    let same : start + i - start ≡ i = omega arith in rw (inside, same) refl

put-other :
    (bytes : Bytes) (f start n g o : ℕ) (buf : ℕ → ℕ)
    → g ≢ f
    → put_bytes bytes f start buf n g o ≡ bytes g o
put-other bytes f start n g o buf ne = let other : (g == f) ≡ false = ground arith in rw other refl

shift :
    (va len n v1 i : ℕ)
    → v1 ≡ va / 4096 * 4096 + 4096
    → (n < len → va % 4096 + n ≡ 4096)
    → i < len - n
    → va + (n + i) ≡ v1 + i
shift va len n v1 i next full lt = let whole = full (omega arith) in omega arith

shift_small :
    (va len n v1 : ℕ)
    → va + len ≤ 0x80000000
    → n ≤ len
    → 0 < len
    → v1 ≡ va / 4096 * 4096 + 4096
    → (n < len → va % 4096 + n ≡ 4096)
    → v1 + (len - n) ≤ 0x80000000
shift_small va len n v1 small le pos next full = elim (Bool-cases (ltb n len)) [
  | inl more ↦ let whole = full (ground arith) in omega arith
  | inr no_more ↦ let all : n ≡ len = ground arith in omega arith
]

index_left : (len n i : ℕ) → n ≤ len → i < len - n → n + i < len
index_left len n i le lt = omega arith

rounds_left : (len n k : ℕ) → len ≤ suc k → 0 < n → 0 < len → len - n ≤ k
rounds_left len n k le pos some_left = omega arith

module _ (tables : Tables) (pgdir : ℕ) (own : OwnFrames tables pgdir) where
  -- The bytes of one round and those of the later ones.
  round-IsCopy :
      (bytes bytes' : Bytes) (va : ℕ) (buf : ℕ → ℕ) (len n v1 f0 : ℕ)
      → 0 < len
      → va + len ≤ 0x80000000
      → v1 ≡ va / 4096 * 4096 + 4096
      → n ≤ len
      → va % 4096 + n ≤ 4096
      → (n < len → va % 4096 + n ≡ 4096)
      → uva2ka tables pgdir (va + 0) ≡ at_frame f0
      → IsCopy tables pgdir
          (put_bytes bytes f0 (va % 4096) buf n)
          v1
          (λ i. buf (n + i))
          (len - n)
          bytes'
      → IsCopy tables pgdir bytes va buf len bytes'
  round-IsCopy bytes bytes' va buf len n v1 f0 pos small next le_n fits full at0 (copies, others) =
      let later : (j : ℕ) → j < len - n → uva2ka tables pgdir (v1 + j) ≢ at_frame f0 = λ j lt e.
        let shifted = shift va len n v1 j next full lt in
        let same = own (v1 + j) (va + 0) f0 (omega arith) (omega arith) e at0 in
        absurd (omega arith) in
      (
        (λ i f lt e. elim (Bool-cases (ltb i n)) [
          | inl now ↦
              let inside : i < n = ground arith in
              let page = uva2ka-page tables pgdir (va + i) (va + 0) (omega arith) in
              let same : f ≡ f0 = same_frame (sym e ∙ page ∙ at0) in
              let offset : (va + i) % 4096 ≡ va % 4096 + i = omega arith in
              rw (same, offset)
                (others f0 (va % 4096 + i) later ∙ put-here bytes f0 (va % 4096) n i buf inside)
          | inr not_now ↦
              let beyond : n ≤ i = ground arith in
              let rest : i - n < len - n = omega arith in
              let shifted : v1 + (i - n) ≡ va + i =
                sym (shift va len n v1 (i - n) next full rest) ∙ ap (λ j. va + j) (omega arith) in
              let index : n + (i - n) ≡ i = omega arith in
              let there =
                copies (i - n) f rest
                  (subst (λ a. uva2ka tables pgdir a ≡ at_frame f) (sym shifted) e) in
              rw (shifted, index) at there
        ]),
        λ f o none_of.
            let other : f ≢ f0 = λ same. none_of 0 pos (rw same at0) in
            others f o (λ j lt e. none_of (n + j) (omega arith) (
              subst (λ a. uva2ka tables pgdir a ≡ at_frame f)
                (sym (shift va len n v1 j next full lt)) e))
            ∙ put-other bytes f0 (va % 4096) n f o buf other,
      )

  copy_run-IsCopy :
      (k : ℕ) (bytes : Bytes) (va : ℕ) (buf : ℕ → ℕ) (len : ℕ)
      → len ≤ k
      → va + len ≤ 0x80000000
      → IsMapped tables pgdir va len
      → (bytes' : Bytes) × (copy_run k tables pgdir bytes va buf len ≡ copied bytes')
        × IsCopy tables pgdir bytes va buf len bytes'
  unfolding copy_run
  copy_run-IsCopy zero bytes va buf len le small mapped =
      (bytes, refl, ((λ i f lt. absurd (omega arith)), λ f o none_of. refl))
  copy_run-IsCopy (suc k) bytes va buf len le small mapped = elim (Bool-cases (len == 0)) [
    | inl none_left ↦
        (bytes, rw none_left refl, ((λ i f lt. absurd (ground arith)), λ f o none_of. refl))
    | inr some_left ↦
        let lower : va < 0x80000000 = ground arith in
        let v1 = add32 (page_round_down va) 4096 in
        let n = round_size va len in
        let next = next_page va lower in
        let (pos, le_n, fits, full) = round_bounds va len lower (ground arith) in
        let (f0, at0) = mapped 0 (ground arith) in
        let here : uva2ka tables pgdir (page_round_down va) ≡ at_frame f0 =
          uva2ka-page tables pgdir (page_round_down va) (va + 0) (omega arith) ∙ at0 in
        let off = page_offset va lower in
        let (bytes', ran, copy) =
          copy_run-IsCopy k (put_bytes bytes f0 (sub32 va (page_round_down va)) buf n) v1
            (λ i. buf (n + i)) (len - n) (rounds_left len n k le pos (ground arith))
            (shift_small va len n v1 small le_n (ground arith) next full)
            (λ i lt.
              let (f, e) = mapped (n + i) (index_left len n i le_n lt) in
              (
                f,
                subst (λ a. uva2ka tables pgdir a ≡ at_frame f) (shift va len n v1 i next full lt)
                    e,
              )) in
        (
          bytes',
          rw (some_left, here) ran,
          round-IsCopy bytes bytes' va buf len n v1 f0 (ground arith) small next le_n fits full at0
              (subst
                (λ x.
                  IsCopy tables pgdir (put_bytes bytes f0 x buf n) v1 (λ i. buf (n + i)) (len - n)
                    bytes')
                off copy),
        )
  ]

-- Let every address from `va` to `va + len`, below KERNBASE, be mapped to a user page, and no frame
-- at two user pages. Then copyout ends and returns 0, with each byte of the buffer at its address
-- in the page that is mapped there, and no byte changed in any frame that none of these addresses
-- is mapped to.
pub copyout-IsCopy :
    (tables : Tables) (pgdir : ℕ) (bytes : Bytes) (va : ℕ) (buf : ℕ → ℕ) (len : ℕ)
    → OwnFrames tables pgdir
    → va + len ≤ 0x80000000
    → IsMapped tables pgdir va len
    → (bytes' : Bytes) × (copyout tables pgdir bytes va buf len ≡ copied bytes')
      × IsCopy tables pgdir bytes va buf len bytes'
unfolding copyout
copyout-IsCopy tables pgdir bytes va buf len own small mapped =
    copy_run-IsCopy tables pgdir own len bytes va buf len (omega arith) small mapped
