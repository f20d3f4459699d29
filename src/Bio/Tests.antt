-- ===== src/Bio/Tests.antt =====
-- A read on a new cache, and a write of a held buffer.
use os.Base.{ℕ, ◌<◌, ◌≤◌, none, ◌≡◌, ◌≢◌, refl, true, false, List, [], ◌∷◌, arith, ◌⊎◌}
use os.Bio.{
  Buf, Cache, no_dev, binit, change, unused_bufs, cached, panic, held, bread, bwrite, brelse,
}
use os.Bio.Content.{content, IsCoherent}
use os.Bio.Access.{Reads}
use os.Bio.Through.{bread-Reads, put_bytes, write_through, binit-IsCoherent}

abbrev numbered : ℕ → ℕ → List ℕ
numbered dev sector = sector ∷ []

abbrev disk_one : ℕ
disk_one = 1

bread-Reads_example :
    (disk_one ≡ 1
      → 5 < 100
      → (t : Cache) × (bread 1 5 (binit numbered 100) ≡ held t) × Reads 1 5 (binit numbered 100) t)
    × ((disk_one ≢ 1) ⊎ (100 ≤ 5)
        → cached 1 5 (unused_bufs 10) ≡ none
        → bread 1 5 (binit numbered 100) ≡ panic)
bread-Reads_example = bread-Reads 1 5 (binit numbered 100) (binit-IsCoherent numbered 100) refl

abbrev fifth : Buf
fifth = record { dev = 1; sector = 5; busy = true; valid = true; dirty = false; bytes = 5 ∷ [] }

abbrev one_buf : Cache
one_buf = record { bufs = fifth ∷ []; disk = numbered; disk_size = 100 }

one_buf-IsCoherent : IsCoherent one_buf
one_buf-IsCoherent = record {
  unique = (λ used. refl, tt);
  sound = ((λ e. refl, λ free. absurd (ground arith)), tt);
}

write_through_example :
    (t u : Cache) × (bwrite 1 5
        (record one_buf { bufs = change (put_bytes (7 ∷ [])) 1 5 (fifth ∷ []) })
      ≡ held t)
    × (brelse 1 5 t ≡ held u)
    × IsCoherent u
    × (u.disk 1 5 ≡ 7 ∷ [])
    × (content u 1 5 ≡ 7 ∷ [])
    × ((d' s' : ℕ) → d' ≢ no_dev → (1 ≢ d') ⊎ (5 ≢ s') → content u d' s' ≡ content one_buf d' s')
write_through_example =
    write_through 1 5 one_buf (7 ∷ []) refl (omega arith) one_buf-IsCoherent (refl, refl, refl)
