-- ===== src/Log/Sectors.antt =====
-- Disks, sector writes, and what a disk holds when the machine stops between two writes.
use os.Base.{ℕ, zero, suc, ◌≡◌, refl, List, [], ◌∷◌, ◌++◌, ◌==◌, if◌then◌else◌, take}

abbrev pub Block : Type 0
Block = ℕ → ℕ

abbrev pub Disk : Type 0
Disk = ℕ → Block

pub record Write : Type 0 where
  pub at : ℕ
  pub block : Block

abbrev pub put : Disk → Write → Disk
put d w x = if w.at == x then w.block else d x

unfoldable pub run_writes : Disk → List Write → Disk
run_writes d [] = d
run_writes d (w ∷ ws) = run_writes (put d w) ws

-- the disk when the machine stops after `k` of the writes
abbrev pub crash : Disk → List Write → ℕ → Disk
crash d ws k = run_writes d (take k ws)

pub run_writes-append :
    (d : Disk) (ws : List Write) (w : Write)
    → run_writes d (ws ++ (w ∷ [])) ≡ put (run_writes d ws) w
unfolding run_writes
run_writes-append d [] w = refl
run_writes-append d (v ∷ ws) w = run_writes-append (put d v) ws w

-- A further write adds one disk to those that a crash can leave.
pub crash-append :
    (P : Disk → Type 0) (d : Disk) (ws : List Write) (w : Write)
    → ((k : ℕ) → P (crash d ws k))
    → P (put (run_writes d ws) w)
    → (k : ℕ) → P (crash d (ws ++ (w ∷ [])) k)
unfolding run_writes
crash-append P d [] w all new zero = all 0
crash-append P d [] w all new (suc zero) = new
crash-append P d [] w all new (suc (suc k)) = new
crash-append P d (v ∷ ws) w all new zero = all 0
crash-append P d (v ∷ ws) w all new (suc k) = crash-append P (put d v) ws w (λ j. all (suc j)) new k
