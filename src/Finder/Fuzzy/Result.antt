-- ===== src/Finder/Fuzzy/Result.antt =====
-- What `fuzzy_match_recursive` of src/fuzzy.c returns.
use magit.Base.{
  ℕ, zero, suc, ◌+◌, ◌≤◌, ◌≡◌, ◌≢◌, refl, ap, ◌∙◌, ◌⊎◌, inl, inr, arith, Bool, true, false, Option,
  none, some, List, [], Bytes, length, length-drop, drop, leb, leb→le, leb→gt, Bool-cases, ◌>>=◌,
  some_bind,
}
use magit.Finder.Fuzzy.{
  max_fuzzy_matches, recursion_limit, Shared, Found, Local, scan, finish_search,
  fuzzy_match_recursive,
}
use magit.Finder.Fuzzy.Search.{Scans, scan_lem}
use magit.Finder.Fuzzy.Within.{Within, zero_or_not, Later, Later-refl}
use magit.Finder.Fuzzy.Finish.{Within-drop, Answers, finish_lem}

module _ (whole_word : Bytes) (str_len : ℕ) where
  abbrev below : ℕ → Bytes → Bytes → ℕ → List ℕ → Shared → Option Found
  below n w line i ms s =
      fuzzy_match_recursive whole_word str_len n max_fuzzy_matches w (drop 1 line) i 0 ms s

  -- A call by whether it is one too many.
  counted_call :
      (n limit : ℕ) (w line : Bytes) (i score : ℕ) (src : List ℕ) (t : Shared) (b : Bool)
      → leb recursion_limit (t.count + 1) ≡ b
      → fuzzy_match_recursive whole_word str_len (suc n) limit w line i score src t ≡ elim b [
        | true ↦ some (record {
          ret = 0;
          score = score;
          matches = src;
          shared = record t { count = t.count + 1 };
        })
        | false ↦
            scan limit (below n w line) line w (record {
              str_counter = 0;
              str_idx = i;
              matches = src;
              best = none;
              shared = record t { count = t.count + 1 };
            })
            >>= finish_search whole_word str_len score
      ]
  unfolding fuzzy_match_recursive
  counted_call n limit w line i score src t b e =
      ap
        (λ b. elim b as (λ _. Option Found) [
          | true ↦ some (record {
            ret = 0;
            score = score;
            matches = src;
            shared = record t { count = t.count + 1 };
          })
          | false ↦
              scan limit (below n w line) line w (record {
                str_counter = 0;
                str_idx = i;
                matches = src;
                best = none;
                shared = record t { count = t.count + 1 };
              })
              >>= finish_search whole_word str_len score
        ])
        e

  pub fuzzy_match_recursive_lem :
      (n limit : ℕ) (w line : Bytes) (i score : ℕ) (src : List ℕ) (t : Shared)
      → 1 ≤ length w
      → 1 ≤ n
      → recursion_limit + 1 ≤ t.count + n
      → length line ≤ length t.match_pos
      → (f : Found) × (fuzzy_match_recursive whole_word str_len n limit w line i score src t
          ≡ some f)
        × Answers str_len limit
            (t.count + 1)
            w
            line
            i
            score
            src
            (record t { count = t.count + 1 })
            f
  unfolding Scans
  fuzzy_match_recursive_lem zero limit w line i score src t filled fuel enough fits = elim fuel [ ]
  fuzzy_match_recursive_lem (suc n) limit w line i score src t filled fuel enough fits =
      let counted : Shared = record t { count = t.count + 1 } in
      elim (Bool-cases (leb recursion_limit (t.count + 1))) [
        | inl over ↦ (
          record { ret = 0; score = score; matches = src; shared = counted },
          counted_call n limit w line i score src t true over,
          (
            λ z. elim (z refl) [ ],
            λ few room h. omega (arith, leb→le recursion_limit (t.count + 1) over),
            λ _. omega arith,
            inl refl,
            λ from start same short. (
              inl refl,
              λ few room h. absurd (omega (arith, leb→le recursion_limit (t.count + 1) over)),
            ),
            Later-refl counted,
          ),
        )
        | inr under ↦
            let few = leb→gt recursion_limit (t.count + 1) under in
            let l : Local = record {
              str_counter = 0;
              str_idx = i;
              matches = src;
              best = none;
              shared = counted;
            } in
            let good : (i : ℕ) (ms : List ℕ) (s : Shared)
                → t.count + 1 ≤ s.count
                → length s.match_pos ≡ length t.match_pos
                → (f : Found) × (below n w line i ms s ≡ some f)
                  × (f.ret ≢ 0 → Within w line)
                  × Later s f.shared =
              λ i ms s later cells.
                let (f, e, (truth, found, small, kept, scores, after)) =
                  fuzzy_match_recursive_lem n max_fuzzy_matches w (drop 1 line) i 0 ms s filled
                    (omega arith) (omega arith) (omega (arith, cells, length-drop 1 line)) in
                (
                  f,
                  e,
                  λ z. Within-drop w line (truth z),
                  record { calls = omega (arith, after.calls); cells = after.cells },
                ) in
            let (x, scanned, ends) =
              scan_lem limit (below n w line) w line (t.count + 1) (length t.match_pos) good line w
                l (omega arith) refl (omega arith) (inl refl) in
            let (f, finished, answers) =
              finish_lem limit (below n w line) w line (t.count + 1) (length t.match_pos) good
                whole_word str_len score l x filled ends in
            (
              f,
              counted_call n limit w line i score src t false under
                  ∙ some_bind _ scanned
                  ∙ finished,
              answers,
            )
      ]

  -- For a word of 1 to 256 bytes, a line for each of whose bytes match_pos has a cell, and calls that
  -- may nest eleven deep or more, the first call of fuzzy_match_recursive for a line returns,
  -- writing within match_pos. It returns the length of the word if the letters of the word stand
  -- in the line in their order, upper and lower case being the same, and else 0.
  pub fuzzy_match_recursive-Within :
      (n : ℕ) (w line match_pos : Bytes) (score : ℕ)
      → 1 ≤ length w
      → length w ≤ max_fuzzy_matches
      → length line ≤ length match_pos
      → recursion_limit + 1 ≤ n
      → (f : Found) × (fuzzy_match_recursive whole_word str_len n max_fuzzy_matches w line 0 score
            []
            (record { count = 0; match_pos = match_pos })
          ≡ some f)
        × (Within w line → f.ret ≡ length w)
        × ((f.ret ≡ 0) ⊎ Within w line)
  fuzzy_match_recursive-Within n w line match_pos score filled room fits deep =
      let (f, e, (truth, found, small, kept, scores, after)) =
        fuzzy_match_recursive_lem n max_fuzzy_matches w line 0 score []
          (record { count = 0; match_pos = match_pos }) filled (omega arith) (omega arith) fits in
      (
        f,
        e,
        λ h. omega (arith, found (omega arith) (omega arith) h),
        elim (zero_or_not f.ret) [
          | inl z ↦ inl z
          | inr (m, some_more) ↦ inr (truth (λ z. omega arith))
        ],
      )
