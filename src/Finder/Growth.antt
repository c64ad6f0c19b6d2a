-- ===== src/Finder/Growth.antt =====
-- The doubling of an array that is full, as fuzzy.c, grep.c and search_helper.c write it.
use magit.Base.{ℕ, ◌*◌, ◌≤◌, ◌<◌, arith, leb, if◌then◌else◌}

abbrev pub grown : ℕ → ℕ → ℕ
grown size count = if leb size count then size * 2 else size

pub grown_room :
    (size count : ℕ) → 1 ≤ size → count ≤ size → (count < grown size count) × (1 ≤ grown size count)
grown_room size count h k = ground arith
