-- ===== src/Vm/Tests.antt =====
-- A copy over the border of two pages.
use os.Base.{ℕ, ◌+◌, ◌*◌, ◌/◌, ◌<◌, ◌≡◌, ◌∙◌, sym, ap, true, arith}
use os.Vm.{Tables, Bytes, uva2ka, walkpgdir, at_frame, copied, copyout}
use os.Vm.Copy.{IsCopy, OwnFrames, copyout-IsCopy}

-- The directory is frame 0; entry i of it is table i + 1, and entry j of table t is a frame of its own.
abbrev flat : Tables
flat frame index = record {
  present = true;
  writable = true;
  user = true;
  frame = frame * 1024 + index + 1;
}

abbrev zeros : Bytes
zeros frame offset = 0

flat-frame : (va : ℕ) → va < 0x80000000 → uva2ka flat 0 va ≡ at_frame (va / 4096 + 1025)
unfolding uva2ka walkpgdir
flat-frame va small = ap at_frame (omega arith)

from_frame : {f g : ℕ} → at_frame f ≡ at_frame g → f ≡ g
from_frame e = cc

flat-OwnFrames : OwnFrames flat 0
flat-OwnFrames a b f small_a small_b at_a at_b =
    let same : a / 4096 + 1025 ≡ b / 4096 + 1025 =
      from_frame (sym (flat-frame a small_a) ∙ at_a ∙ sym at_b ∙ flat-frame b small_b) in
    omega arith

copyout-IsCopy_example :
    (bytes' : Bytes) × (copyout flat 0 zeros 4090 (λ i. i + 1) 10 ≡ copied bytes')
    × IsCopy flat 0 zeros 4090 (λ i. i + 1) 10 bytes'
copyout-IsCopy_example =
    copyout-IsCopy flat 0 zeros 4090 (λ i. i + 1) 10 flat-OwnFrames (omega arith)
      (λ i lt. ((4090 + i) / 4096 + 1025, flat-frame (4090 + i) (omega arith)))
