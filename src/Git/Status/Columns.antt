-- ===== src/Git/Status/Columns.antt =====
-- The two columns of git status as src/git_handler.c writes them, and its comparison of paths.
use Prim.Native.Nat.{bit_or}
use magit.Base.{
  ℕ, ◌≡◌, ◌≢◌, refl, sym, ap, ◌∙◌, inl, inr, Bool, true, false, not, ◌&&◌, List, [], ◌∷◌, Bytes,
  ◌==◌, ==_iff, Bool-cases, if◌then◌else◌,
}
use magit.Git.Status.{StatusBits, has, equal, index_letter, worktree_letter, letters}

pub equal-true : (s t : Bytes) → equal s t ≡ true → s ≡ t
unfolding equal
equal-true [] [] e = refl
equal-true [] (d ∷ t) e = cc
equal-true (c ∷ s) [] e = cc
equal-true (c ∷ s) (d ∷ t) e = elim (Bool-cases (c == d)) [
  | inl same ↦
      let head : c ≡ d = (==_iff c d).0 same in
      let tail : s ≡ t = equal-true s t (rw same at e) in cc
  | inr other ↦ let clash : false ≡ true = rw other at e in cc
]

equal_refl : (s : Bytes) → equal s s ≡ true
unfolding equal
equal_refl [] = refl
equal_refl (c ∷ s) = rw ((==_iff c c).1 refl) (equal_refl s)

pub equal-false : (s t : Bytes) → equal s t ≡ false → s ≢ t
equal-false s t e same = let clash : true ≡ false = sym (equal_refl s) ∙ ap (equal s) same ∙ e in cc

module _ (b : StatusBits) where
  -- The letters of the two columns, by the first flag of an entry that the table names.
  abbrev index_table : List (ℕ × ℕ)
  index_table =
      (b.index_new, b'A')
      ∷ (b.index_modified, b'M')
      ∷ (b.index_deleted, b'D')
      ∷ (b.index_renamed, b'R')
      ∷ (b.index_typechange, b'T')
      ∷ []

  abbrev worktree_table : List (ℕ × ℕ)
  worktree_table =
      (b.wt_new, b'?')
      ∷ (b.wt_modified, b'M')
      ∷ (b.wt_deleted, b'D')
      ∷ (b.wt_renamed, b'R')
      ∷ (b.wt_typechange, b'T')
      ∷ []

  abbrev letter_in : List (ℕ × ℕ) → ℕ → ℕ
  letter_in [] s = b' '
  letter_in ((flag, letter) ∷ table) s = if has s flag then letter else letter_in table s

  -- `UU` for a conflict, `??` for a new file with no flag of the index, and else a letter for the
  -- index and one for the work tree.
  abbrev pub xy_of : ℕ → ℕ × ℕ
  xy_of s =
      let in_index : Bool = has s (
        bit_or
          (bit_or (bit_or (bit_or b.index_new b.index_modified) b.index_deleted) b.index_renamed)
          b.index_typechange) in
      if has s b.conflicted
      then (b'U', b'U')
      else if has s b.wt_new && not in_index
      then (b'?', b'?')
      else (letter_in index_table s, letter_in worktree_table s)

  two_columns :
      (conflict new in_index : Bool) (x y : ℕ)
      → ◌≡◌ {A = ℕ × ℕ}
          (if conflict
            then (b'U', b'U')
            else (if new && not in_index then b'?' else x, if new then b'?' else y))
          (if conflict
            then (b'U', b'U')
            else if new && not in_index
            then (b'?', b'?')
            else (x, if new then b'?' else y))
  two_columns true new in_index x y = refl
  two_columns false true true x y = refl
  two_columns false true false x y = refl
  two_columns false false in_index x y = refl

  pub letters-xy_of : (s : ℕ) → letters b s ≡ xy_of s
  unfolding letters index_letter worktree_letter
  letters-xy_of s = two_columns (has s b.conflicted) (has s b.wt_new) _ _ _
