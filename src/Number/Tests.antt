-- ===== src/Number/Tests.antt =====
-- Instances of the theorem about numbers.
use os.Base.{◌≡◌, ◌<◌, true, false}
use os.Number.{printint, atoi}
use os.Number.Decimal.{atoi-printint}

atoi-printint_example :
    (1024 < 0x80000000 → atoi (printint 1024 10 true) ≡ 1024)
    × (1024 < 0x100000000 → atoi (printint 1024 10 false) ≡ 1024)
atoi-printint_example = atoi-printint 1024
