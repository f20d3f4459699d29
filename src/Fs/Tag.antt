-- ===== src/Fs/Tag.antt =====
-- fs.c: the tags of a file, kept in one block as slots of 40 bytes: the key from byte 0 on, the value
-- from byte 10 on. A slot whose first byte is 0 is empty. The functions run with the inode locked, and
-- log_write and iupdate write the block and the inode through; the state here is what they write.
use os.Base.{
  ℕ, zero, suc, ◌+◌, ◌-◌, ◌==◌, leb, ltb, if◌then◌else◌, Bool, true, false, ◌&&◌, ◌||◌, Option,
  none, some, List, [], ◌∷◌, add32, sub32,
}

-- ip->tags, ip->tags_counter, and the bytes from the start of the block's buffer on.
pub record Tags : Type 0 where
  pub block : ℕ
  pub counter : ℕ
  pub bytes : ℕ → ℕ

-- The string at `j` is the key: the test of strlen and memcmp, for a key without NULs.
abbrev pub key_at : (ℕ → ℕ) → ℕ → List ℕ → Bool
key_at bytes j [] = bytes j == 0
key_at bytes j (c ∷ cs) = (bytes j == c) && key_at bytes (j + 1) cs

-- How the scan ends: at the key, or behind as many full slots as it looked for with the first empty
-- slot seen, or not within the fuel.
pub data Scan : Type 0 where
  found : ℕ → Scan
  ended : Option ℕ → ℕ → Scan
  lost : Scan

abbrev pub or_first : Option ℕ → ℕ → Option ℕ
or_first none j = some j
or_first (some e) j = some e

-- The loop of fs_ftag, fs_funtag and fs_gettag, with `n` = tags_counter - i full slots to see from
-- `j` on, for as many slots as the fuel.
unfoldable pub scan : ℕ → List ℕ → (ℕ → ℕ) → ℕ → ℕ → Option ℕ → Scan
scan zero key bytes n j empty = if n == 0 then ended empty j else lost
scan (suc k) key bytes n j empty =
    let past_empty = scan k key bytes n (j + 40) (or_first empty j) in
    let past_full = scan k key bytes (n - 1) (j + 40) empty in
    if n == 0
    then ended empty j
    else if key_at bytes j key
    then found j
    else if bytes j == 0
    then past_empty
    else past_full

-- memset(data + j, 0, n) and memmove(data + j, s, strlen(s))
abbrev pub clear : (ℕ → ℕ) → ℕ → ℕ → ℕ → ℕ
clear bytes j n i = if leb j i && ltb i (j + n) then 0 else bytes i

abbrev pub copy_in : (ℕ → ℕ) → ℕ → List ℕ → ℕ → ℕ
copy_in bytes j [] = bytes
copy_in bytes j (c ∷ cs) = copy_in (λ i. if i == j then c else bytes i) (j + 1) cs

abbrev pub slot_of : Option ℕ → ℕ → ℕ
slot_of none j = j
slot_of (some e) j = e

-- balloc returns a block of zeros.
abbrev pub first_tag : ℕ → Tags → Tags
first_tag new_block s =
    if (s.counter == 0) && (s.block == 0)
    then record { block = new_block; counter = s.counter; bytes = λ i. 0 }
    else s

-- fs_ftag; `none` if its loop does not end within the fuel. `new_block` is what balloc would return.
unfoldable pub fs_ftag : ℕ → ℕ → Tags → List ℕ → List ℕ → Option Tags
unfolding scan
fs_ftag fuel new_block old key val =
    let s = first_tag new_block old in
    elim (scan fuel key s.bytes s.counter 0 none) [
      | found j ↦ some (record s {
        bytes = copy_in (clear s.bytes (j + 10) 30) (j + 10) val;
        counter = add32 s.counter 1;
      })
      | ended empty j ↦
          let at = slot_of empty j in
          some (record s {
            bytes = copy_in (copy_in (clear s.bytes at 40) at key) (at + 10) val;
            counter = add32 s.counter 1;
          })
      | lost ↦ none
    ]

-- fs_funtag: whether it succeeds, and the tags; `none` as above.
unfoldable pub fs_funtag : ℕ → Tags → List ℕ → Option (Bool × Tags)
unfolding scan
fs_funtag fuel s key =
    if (s.counter == 0) || (s.block == 0)
    then some (false, s)
    else elim (scan fuel key s.bytes s.counter 0 none) [
      | found j ↦ some (true, record s { bytes = clear s.bytes j 40; counter = sub32 s.counter 1 })
      | ended empty j ↦ some (false, s)
      | lost ↦ none
    ]

-- What fs_gettag copies to buf, as the address in the block of its 30 bytes; `no_tag` for -1.
pub data Got : Type 0 where
  no_tag : Got
  value_at : ℕ → Got
  unending : Got

unfoldable pub fs_gettag : ℕ → Tags → List ℕ → Got
unfolding scan
fs_gettag fuel s key =
    if (s.counter == 0) || (s.block == 0)
    then no_tag
    else elim (scan fuel key s.bytes s.counter 0 none) [
      | found j ↦ value_at (j + 10)
      | ended empty j ↦ no_tag
      | lost ↦ unending
    ]
