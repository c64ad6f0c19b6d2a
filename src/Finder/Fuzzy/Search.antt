-- ===== src/Finder/Fuzzy/Search.antt =====
-- The loop of `fuzzy_match_recursive` in src/fuzzy.c.
use magit.Base.{
  ℕ, ◌+◌, ◌≤◌, ◌<◌, ◌≡◌, ◌≢◌, refl, sym, ap, subst, ◌∙◌, inl, inr, arith, Bool, true, false, Option,
  some, List, [], ◌∷◌, ◌++◌, append_assoc, append-nil, Bytes, length, length-append, leb, leb→le,
  leb→gt, Bool-cases, ◌==◌, ◌>>=◌, some_bind,
}
use magit.Git.Log.{to_lower}
use magit.Finder.Fuzzy.{
  Shared, Found, Local, Scan, early, ended, advance, record_match, Letter, stops, matches_on,
  match_letter, scan,
}
use magit.Finder.Fuzzy.Within.{
  all_found, skips, finds, Within, Within-greedy, Within-late, Later, Later-refl, Later-trans,
  mark_lem, Honest, note_recursive_lem, Rising-wider, Added,
}

module _ (limit : ℕ) (call : ℕ → List ℕ → Shared → Option Found) (w whole : Bytes) (calls size : ℕ)
    (good : (i : ℕ) (ms : List ℕ) (t : Shared)
      → calls ≤ t.count
      → length t.match_pos ≡ size
      → (f : Found) × (call i ms t ≡ some f)
        × (f.ret ≢ 0 → Within w whole)
        × Later t f.shared) where
  Letters : Local → Letter → Type 0
  Letters l (stops t) = Later l.shared t × (limit ≤ length l.matches)
  Letters l (matches_on m) =
      Later l.shared m.shared
      × Honest w whole m.best
      × (length m.matches ≡ length l.matches + 1)
      × (m.str_counter ≡ l.str_counter + 1)
      × (length l.matches < limit)
      × (m.matches ≡ l.matches ++ l.str_idx ∷ [])
      × (m.str_idx ≡ l.str_idx + 1)

  match_letter_lem :
      (l : Local)
      → calls ≤ l.shared.count
      → length l.shared.match_pos ≡ size
      → l.str_counter < size
      → Honest w whole l.best
      → (x : Letter) × (match_letter limit call l ≡ some x) × Letters l x
  unfolding match_letter Letters
  match_letter_lem l enough cells inside honest =
      let (t, marked, later, same) = mark_lem l (omega (arith, cells)) in
      let m : Local = record l { shared = t } in
      elim (Bool-cases (leb limit (length l.matches))) [
        | inl full ↦
            (stops t, some_bind _ marked ∙ rw full, (later, leb→le limit (length l.matches) full))
        | inr room ↦
            let (f, called, truth, later') =
              good (l.str_idx + 1) l.matches t (omega arith) (later.cells ∙ cells) in
            let (b, noted, honest') = note_recursive_lem w whole f m truth honest in
            (
              matches_on (advance (record_match (record m { best = b; shared = f.shared }))),
              some_bind _ marked
                  ∙ rw room (some_bind _ called)
                  ∙ ap (λ k. some (matches_on (advance (record_match k)))) noted,
              (
                Later-trans l.shared t f.shared later later',
                honest',
                length-append l.matches (l.str_idx ∷ []),
                refl,
                leb→gt limit (length l.matches) room,
                refl,
                refl,
              ),
            )
      ]

  on_letter :
      (l m : Local)
      → Letters l (matches_on m)
      → Later l.shared m.shared
        × Honest w whole m.best
        × (length m.matches ≡ length l.matches + 1)
        × (m.str_counter ≡ l.str_counter + 1)
        × (length l.matches < limit)
        × (m.matches ≡ l.matches ++ l.str_idx ∷ [])
        × (m.str_idx ≡ l.str_idx + 1)
  unfolding Letters
  on_letter l m h = h

  unfoldable pub Ends : Bytes → Bytes → Local → Scan → Type 0
  Ends pat line l (early t) = Later l.shared t × (limit < length l.matches + length pat)
  Ends pat line l (ended rest m) =
      Later l.shared m.shared
      × Honest w whole m.best
      × (rest ≡ [] → Within pat line × (length m.matches ≡ length l.matches + length pat))
      × (Within pat line → rest ≡ [])
      × (length l.matches ≤ limit → length m.matches ≤ limit)
      × Added l (length line) m

  unfoldable pub Scans : Bytes → Bytes → Local → Option Scan → Type 0
  Scans pat line l r = (x : Scan) × (r ≡ some x) × Ends pat line l x

  -- A letter of the line that is passed over.
  Ends-late :
      (p c : ℕ) (pat line : Bytes) (l : Local) (x : Scan)
      → (to_lower p == to_lower c) ≡ false
      → Ends (p ∷ pat) line (advance l) x
      → Ends (p ∷ pat) (c ∷ line) l x
  unfolding Ends
  Ends-late p c pat line l (early t) e h = h
  Ends-late p c pat line l (ended rest m) e
        (later, honest, found, complete, small, (added, same, rises)) =
      (
        later,
        honest,
        λ r. (skips c ((found r).0), (found r).1),
        λ h. complete (Within-late e h),
        small,
        (
          added,
          same,
          Rising-wider l.str_idx (l.str_idx + 1) (l.str_idx + 1 + length line)
              (l.str_idx + length (c ∷ line)) added (omega arith) (omega arith) rises,
        ),
      )

  -- A letter that matches.
  Ends-match :
      (p c : ℕ) (pat line : Bytes) (l m : Local) (x : Scan)
      → (to_lower p == to_lower c) ≡ true
      → Later l.shared m.shared
      → length m.matches ≡ length l.matches + 1
      → length l.matches < limit
      → m.matches ≡ l.matches ++ l.str_idx ∷ []
      → m.str_idx ≡ l.str_idx + 1
      → Ends pat line m x
      → Ends (p ∷ pat) (c ∷ line) l x
  unfolding Ends
  Ends-match p c pat line l m (early t) e before one room same moved (later, many) =
      (Later-trans l.shared m.shared t before later, omega (arith, one))
  Ends-match p c pat line l m (ended rest k) e before one room same moved
        (later, honest, found, complete, small, (added, same', rises)) =
      (
        Later-trans l.shared m.shared k.shared before later,
        honest,
        λ r. let (inside, size) = found r in (finds p c e inside, omega (arith, one, size)),
        λ h. complete (Within-greedy h),
        λ _. small (omega arith),
        (
          l.str_idx ∷ added,
          same' ∙ ap (λ ms. ms ++ added) same ∙ append_assoc l.matches (l.str_idx ∷ []) added,
          (
            omega arith,
            omega arith,
            Rising-wider (l.str_idx + 1) m.str_idx (m.str_idx + length line)
                (l.str_idx + length (c ∷ line)) added (omega arith) (omega arith) rises,
          ),
        ),
      )

  -- The loop's body at a letter, by the outcome of its test.
  scan_test :
      (c p : ℕ) (line pat : Bytes) (l : Local) (b : Bool)
      → (to_lower p == to_lower c) ≡ b
      → scan limit call (c ∷ line) (p ∷ pat) l ≡ elim b [
        | false ↦ scan limit call line (p ∷ pat) (advance l)
        | true ↦ match_letter limit call l >>= λ r. elim r [
          | stops s ↦ some (early s)
          | matches_on m ↦ scan limit call line pat m
        ]
      ]
  unfolding scan
  scan_test c p line pat l b e =
      ap
        (λ b. elim b as (λ _. Option Scan) [
          | false ↦ scan limit call line (p ∷ pat) (advance l)
          | true ↦ match_letter limit call l >>= λ r. elim r [
            | stops s ↦ some (early s)
            | matches_on m ↦ scan limit call line pat m
          ]
        ])
        e

  Scans-letter :
      (c p : ℕ) (line pat : Bytes) (l : Local) (x : Letter)
      → (to_lower p == to_lower c) ≡ true
      → match_letter limit call l ≡ some x
      → Letters l x
      → ((m : Local) → x ≡ matches_on m → Scans pat line m (scan limit call line pat m))
      → Scans (p ∷ pat) (c ∷ line) l (scan limit call (c ∷ line) (p ∷ pat) l)
  unfolding Letters Scans Ends
  Scans-letter c p line pat l (stops t) e ran (later, many) next =
      (early t, scan_test c p line pat l true e ∙ some_bind _ ran, (later, omega arith))
  Scans-letter c p line pat l (matches_on m) e ran
        (later, honest, one, moved, room, same, moved_idx) next =
      let (x, scanned, ends) = next m refl in
      (
        x,
        scan_test c p line pat l true e ∙ some_bind _ ran ∙ scanned,
        Ends-match p c pat line l m x e later one room same moved_idx ends,
      )

  pub scan_lem :
      (line pat : Bytes) (l : Local)
      → calls ≤ l.shared.count
      → length l.shared.match_pos ≡ size
      → l.str_counter + length line ≤ size
      → Honest w whole l.best
      → Scans pat line l (scan limit call line pat l)
  unfolding Scans scan Ends
  scan_lem [] [] l enough cells inside honest = (
    ended [] l,
    refl,
    (
      Later-refl l.shared,
      honest,
      λ r. (all_found, omega arith),
      λ h. refl,
      λ h. h,
      ([], sym (append-nil l.matches), tt),
    ),
  )
  scan_lem (c ∷ line) [] l enough cells inside honest = (
    ended [] l,
    refl,
    (
      Later-refl l.shared,
      honest,
      λ r. (all_found, omega arith),
      λ h. refl,
      λ h. h,
      ([], sym (append-nil l.matches), tt),
    ),
  )
  scan_lem [] (p ∷ pat) l enough cells inside honest = (
    ended (p ∷ pat) l,
    refl,
    (
      Later-refl l.shared,
      honest,
      λ r. cc,
      λ h. elim h [ ],
      λ h. h,
      ([], sym (append-nil l.matches), tt),
    ),
  )
  scan_lem (c ∷ line) (p ∷ pat) l enough cells inside honest =
      elim (Bool-cases (to_lower p == to_lower c)) [
        | inr e ↦
            let (x, ran, ends) =
              scan_lem line (p ∷ pat) (advance l) enough cells (omega arith) honest in
            (x, scan_test c p line pat l false e ∙ ran, Ends-late p c pat line l x e ends)
        | inl e ↦
            let (x, ran, lettered) = match_letter_lem l enough cells (omega arith) honest in
            Scans-letter c p line pat l x e ran lettered λ m same.
              let (later, honest', one, moved, room, same, moved_idx) =
                on_letter l m (subst (Letters l) same lettered) in
              scan_lem line pat m (omega (arith, later.calls)) (later.cells ∙ cells)
                (omega (arith, moved)) honest'
      ]
