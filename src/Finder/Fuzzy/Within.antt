-- ===== src/Finder/Fuzzy/Within.antt =====
-- When the letters of a word stand in a line, and how the search of src/fuzzy.c moves on.
use magit.Base.{
  ℕ, zero, suc, ◌+◌, ◌≤◌, ◌<◌, ◌≡◌, ◌≢◌, refl, ◌∙◌, ◌⊎◌, inl, inr, arith, true, false, Option, none,
  some, List, [], ◌∷◌, ◌++◌, Bytes, length, ◌==◌, memcpy_fits, some_bind,
}
use magit.Git.Log.{to_lower}
use magit.Finder.Fuzzy.{Shared, Found, Local, better, note_recursive, mark}

-- The letters of the first text stand in the second in their order, in any case.
pub data Within : Bytes → Bytes → Type 0 where
  all_found : {line : Bytes} → Within [] line
  skips : {w line : Bytes} (c : ℕ) → Within w line → Within w (c ∷ line)
  finds :
      {w line : Bytes} (p c : ℕ)
      → (to_lower p == to_lower c) ≡ true
      → Within w line
      → Within (p ∷ w) (c ∷ line)

-- Without its first letter.
pub Within-rest : {p : ℕ} {w line : Bytes} → Within (p ∷ w) line → Within w line
Within-rest (skips c h) = skips c (Within-rest h)
Within-rest (finds p c e h) = skips c h

pub Within-greedy : {p c : ℕ} {w line : Bytes} → Within (p ∷ w) (c ∷ line) → Within w line
Within-greedy (skips c h) = Within-rest h
Within-greedy (finds p c e h) = h

pub Within-late :
    {p c : ℕ} {w line : Bytes}
    → (to_lower p == to_lower c) ≡ false
    → Within (p ∷ w) (c ∷ line)
    → Within (p ∷ w) line
Within-late e (skips c h) = h
Within-late e (finds p c same h) = cc

pub zero_or_not : (n : ℕ) → (n ≡ 0) ⊎ ((m : ℕ) × (n ≡ suc m))
zero_or_not zero = inl refl
zero_or_not (suc m) = inr (m, refl)

-- The shared state later in a run: as many cells, and as many calls or more.
pub record Later (old new : Shared) : Type 0 where
  pub calls : old.count ≤ new.count
  pub cells : length new.match_pos ≡ length old.match_pos

pub Later-refl : (t : Shared) → Later t t
Later-refl t = record { calls = omega arith; cells = refl }

pub Later-trans : (a b c : Shared) → Later a b → Later b c → Later a c
Later-trans a b c h k = record {
  calls = omega (arith, h.calls, k.calls);
  cells = k.cells ∙ h.cells;
}

pub mark_lem :
    (l : Local)
    → l.str_counter < length l.shared.match_pos
    → (t : Shared) × (mark l ≡ some (record l { shared = t }))
      × Later l.shared t
      × (t.count ≡ l.shared.count)
unfolding mark
mark_lem l h =
    let (buf, e, size, _) =
      memcpy_fits l.shared.match_pos l.str_counter (49 ∷ []) 1 refl (omega arith) in
    (
      record { count = l.shared.count; match_pos = buf },
      some_bind _ e,
      record { calls = omega arith; cells = size },
      refl,
    )

-- A recursive call's result that is not 0 comes from a text that stands in the line.
abbrev pub Honest : Bytes → Bytes → Option Found → Type 0
Honest w line best = (best ≡ none) ⊎ Within w line

pub note_recursive_lem :
    (w line : Bytes) (f : Found) (l : Local)
    → (f.ret ≢ 0 → Within w line)
    → Honest w line l.best
    → (b : Option Found) × (note_recursive f l ≡ record l { best = b; shared = f.shared })
      × Honest w line b
unfolding note_recursive
note_recursive_lem w line f l h k = elim (zero_or_not f.ret) [
  | inl e ↦ (l.best, rw e, k)
  | inr (n, e) ↦ (better l.best f, rw e, inr (h (λ z. omega arith)))
]

-- Numbers that rise from `lo` on and stay below `hi`.
abbrev pub Rising : ℕ → ℕ → List ℕ → Type 0
Rising lo hi [] = Unit
Rising lo hi (n ∷ ns) = (lo ≤ n) × (n < hi) × Rising (n + 1) hi ns

pub Rising-wider :
    (lo lo' hi' hi : ℕ) (ns : List ℕ) → lo ≤ lo' → hi' ≤ hi → Rising lo' hi' ns → Rising lo hi ns
Rising-wider lo lo' hi' hi [] h k r = tt
Rising-wider lo lo' hi' hi (n ∷ ns) h k (a, b, r) =
    (omega arith, omega arith, Rising-wider (n + 1) (n + 1) hi' hi ns (omega arith) k r)

-- What a part of the line adds to the matches.
abbrev pub Added : Local → ℕ → Local → Type 0
Added l size m =
    (added : List ℕ) × (m.matches ≡ l.matches ++ added) × Rising l.str_idx (l.str_idx + size) added
