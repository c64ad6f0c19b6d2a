-- ===== src/Base/Memory.antt =====
-- Arrays as the lists of their cells, and copies into them; a copy past the end is a fault.
use Prim.Native.Nat.{ℕ, ◌+◌, ◌≤◌}
use mathlib.Core.Path.{◌≡◌}
use mathlib.Core.Option.{Option, none, some}
use mathlib.Core.List.{◌++◌, append_assoc}
use native.Mathlib.Omega.{arith}
use magit.Base.Lists.{
  Bytes, length, take, drop, length-append, length-take, length-drop, take-append_of_eq,
}
use magit.Base.Tests.{leb, le→leb, if◌then◌else◌}

unfoldable pub memcpy : Bytes → ℕ → Bytes → Option Bytes
memcpy dst pos src =
    if leb (pos + length src) (length dst)
    then some (take pos dst ++ (src ++ drop (pos + length src) dst))
    else none

-- What a copy into an array at `pos` gives.
abbrev pub Copied : Bytes → ℕ → Bytes → ℕ → Type 0
Copied dst pos src n =
    (buf : Bytes) × (memcpy dst pos src ≡ some buf)
    × (length buf ≡ length dst)
    × (take (pos + n) buf ≡ take pos dst ++ src)

-- A copy that fits writes the source at its place and keeps the size of the array.
pub memcpy_fits :
    (dst : Bytes) (pos : ℕ) (src : Bytes) (n : ℕ)
    → length src ≡ n
    → pos + n ≤ length dst
    → Copied dst pos src n
unfolding memcpy
memcpy_fits dst pos src n e h =
    let back = drop (pos + length src) dst in
    let front = take pos dst ++ src in
    (
      take pos dst ++ (src ++ back),
      rw (le→leb (pos + length src) (length dst) (omega arith)),
      omega (
        arith,
        length-append (take pos dst) (src ++ back),
        length-append src back,
        length-take pos dst,
        length-drop (pos + length src) dst,
      ),
      rw (← append_assoc (take pos dst) src back) (
          take-append_of_eq (pos + n) front back
            (omega (arith, length-append (take pos dst) src, length-take pos dst))),
    )
