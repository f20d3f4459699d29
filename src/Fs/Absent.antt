-- ===== src/Fs/Absent.antt =====
-- Looking for a tag that is not there.
use os.Base.{
  ℕ, zero, suc, ◌+◌, ◌-◌, ◌≤◌, ◌<◌, ◌≡◌, refl, ◌==◌, if◌then◌else◌, false, ◌||◌, Option, none, List,
  arith, Bool-cases, inl, inr,
}
use os.Fs.Tag.{Tags, key_at, ended, lost, or_first, scan, no_tag, unending, fs_gettag}

-- None of the `m` slots from `j` on has the key.
abbrev pub IsAbsent : ℕ → List ℕ → (ℕ → ℕ) → ℕ → Type 0
IsAbsent zero key bytes j = Unit {0}
IsAbsent (suc m) key bytes j = (key_at bytes j key ≡ false) × IsAbsent m key bytes (j + 40)

-- How many of the `m` slots from `j` on are full.
abbrev pub full_slots : ℕ → (ℕ → ℕ) → ℕ → ℕ
full_slots zero bytes j = 0
full_slots (suc m) bytes j =
    let rest = full_slots m bytes (j + 40) in if bytes j == 0 then rest else (suc rest)

scan-lost :
    (m : ℕ) (key : List ℕ) (bytes : ℕ → ℕ) (n j : ℕ) (e : Option ℕ)
    → IsAbsent m key bytes j
    → full_slots m bytes j < n
    → scan m key bytes n j e ≡ lost
unfolding scan
scan-lost zero key bytes n j e a lt = ground arith
scan-lost (suc m) key bytes n j e (nope, a) lt =
    let more : (n == 0) ≡ false = ground arith in
    elim (Bool-cases (bytes j == 0)) [
      | inl empty ↦
          rw (more, nope, empty)
            (scan-lost m key bytes n (j + 40) (or_first e j) a (rw empty at lt))
      | inr full ↦
          let less : suc (full_slots m bytes (j + 40)) < n = rw full at lt in
          rw (more, nope, full) (scan-lost m key bytes (n - 1) (j + 40) e a (omega (arith, less)))
    ]

scan-ended :
    (m : ℕ) (key : List ℕ) (bytes : ℕ → ℕ) (n j : ℕ) (e : Option ℕ)
    → IsAbsent m key bytes j
    → n ≤ full_slots m bytes j
    → (o : Option ℕ) × (i : ℕ) × (scan m key bytes n j e ≡ ended o i)
unfolding scan
scan-ended zero key bytes n j e a le = (e, j, ground arith)
scan-ended (suc m) key bytes n j e (nope, a) le = elim (Bool-cases (n == 0)) [
  | inl no_more ↦ rw no_more (e, j, refl)
  | inr more ↦ elim (Bool-cases (bytes j == 0)) [
    | inl empty ↦
        rw (more, nope, empty) (scan-ended m key bytes n (j + 40) (or_first e j) a (rw empty at le))
    | inr full ↦
        let less : n ≤ suc (full_slots m bytes (j + 40)) = rw full at le in
        rw (more, nope, full) (scan-ended m key bytes (n - 1) (j + 40) e a (omega (arith, less)))
  ]
]

-- For a key that none of the first m slots has, on a file with tags: if tags_counter is at most
-- the number of full slots among them, fs_gettag fails within m slots; if tags_counter is greater,
-- its loop goes on behind them.
pub gettag_absent :
    (m : ℕ) (s : Tags) (key : List ℕ)
    → IsAbsent m key s.bytes 0
    → ((s.counter == 0) || (s.block == 0)) ≡ false
    → (s.counter ≤ full_slots m s.bytes 0 → fs_gettag m s key ≡ no_tag)
      × (full_slots m s.bytes 0 < s.counter → fs_gettag m s key ≡ unending)
unfolding fs_gettag
gettag_absent m s key a tagged = (
  λ le. let (o, i, e) = scan-ended m key s.bytes s.counter 0 none a le in rw (tagged, e) refl,
  λ lt. rw (tagged, scan-lost m key s.bytes s.counter 0 none a lt) refl,
)
