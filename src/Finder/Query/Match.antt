-- ===== src/Finder/Query/Match.antt =====
-- What `fuzzy_match` of src/fuzzy.c scores a line with.
use magit.Base.{
  ℕ, zero, suc, ◌+◌, ◌≤◌, ◌<◌, ◌≡◌, ◌≢◌, ◌⊎◌, inl, inr, refl, ap, ◌∙◌, arith, true, false, Option,
  some, [], ◌∷◌, Bytes, All, length, length-replicate, replicate, lt→ltb, ==_ne, sub64, sub64_lem,
  ◌>>=◌, some_bind,
}
use magit.Finder.Fuzzy.{max_fuzzy_matches, recursion_limit, Found, Shared, fuzzy_match_recursive}
use magit.Finder.Fuzzy.Within.{Within, zero_or_not}
use magit.Finder.Fuzzy.Result.{fuzzy_match_recursive_lem}
use magit.Finder.Mru.{path_max}
use magit.Finder.Query.{match_loop, fuzzy_match}

-- No space.
abbrev pub IsWord : Bytes → Type 0
IsWord t = All (λ c. c ≢ 32) t

later_score : (a b c : ℕ) → (b ≡ a) ⊎ (0 < b) → (c ≡ b) ⊎ (0 < c) → (c ≡ a) ⊎ (0 < c)
later_score a b c h (inr k) = inr k
later_score a b c (inl h) (inl k) = inl (k ∙ h)
later_score a b c (inr h) (inl k) = inr (omega arith)

module _ (word line : Bytes) (line_len : ℕ) where
  -- What the loop promises of the score and the marks.
  abbrev Matched : Bytes → ℕ → ℕ → Shared → ℕ × Shared → Type 0
  Matched rest num score shared q =
      (length q.1.match_pos ≡ length shared.match_pos)
      × ((q.0 ≡ score) ⊎ Within rest line)
      × (line_len ≡ length line
          → length line ≤ 28
          → ((q.0 ≡ score) ⊎ (0 < q.0))
            × (1 ≤ length rest
                → shared.count + 1 < recursion_limit
                → num + length rest ≤ max_fuzzy_matches
                → Within rest line
                → 0 < q.0))

  match_call :
      (c : ℕ) (rest : Bytes) (num score : ℕ) (shared : Shared) (f : Found)
      → c ≢ 32
      → fuzzy_match_recursive word line_len
          (recursion_limit + 1)
          (sub64 max_fuzzy_matches num)
          (c ∷ rest)
          line
          0
          score
          []
          shared
        ≡ some f
      → match_loop word line line_len (c ∷ rest) num score shared ≡ elim f.ret [
        | zero ↦ some (f.score, f.shared)
        | suc n ↦ match_loop word line line_len rest (num + f.ret) f.score f.shared
      ]
  unfolding match_loop
  match_call c rest num score shared f h e =
      ap
        (λ b. elim b as (λ _. Option (ℕ × Shared)) [
          | true ↦ match_loop word line line_len rest num score shared
          | false ↦
              fuzzy_match_recursive word line_len (recursion_limit + 1)
                (sub64 max_fuzzy_matches num) (c ∷ rest) line 0 score [] shared
              >>= λ f. elim f.ret [
                | zero ↦ some (f.score, f.shared)
                | suc n ↦ match_loop word line line_len rest (num + f.ret) f.score f.shared
              ]
        ])
        (==_ne c 32 h)
      ∙ some_bind _ e

  -- The call's result taken apart.
  match_step :
      (c : ℕ) (rest : Bytes) (num score : ℕ) (shared : Shared) (f : Found) (r : ℕ)
      → c ≢ 32
      → fuzzy_match_recursive word line_len
          (recursion_limit + 1)
          (sub64 max_fuzzy_matches num)
          (c ∷ rest)
          line
          0
          score
          []
          shared
        ≡ some f
      → f.ret ≡ r
      → match_loop word line line_len (c ∷ rest) num score shared ≡ elim r [
        | zero ↦ some (f.score, f.shared)
        | suc n ↦ match_loop word line line_len rest (num + f.ret) f.score f.shared
      ]
  match_step c rest num score shared f r h e same =
      match_call c rest num score shared f h e
      ∙ ap
          (λ r. elim r as (λ _. Option (ℕ × Shared)) [
            | zero ↦ some (f.score, f.shared)
            | suc n ↦ match_loop word line line_len rest (num + f.ret) f.score f.shared
          ])
          same

  match_loop_lem :
      (rest : Bytes) (num score : ℕ) (shared : Shared)
      → IsWord rest
      → num ≤ max_fuzzy_matches
      → length line ≤ length shared.match_pos
      → (q : ℕ × Shared) × (match_loop word line line_len rest num score shared ≡ some q)
        × Matched rest num score shared q
  unfolding match_loop
  match_loop_lem [] num score shared h small fits = (
    (score, shared),
    refl,
    (refl, inl refl, λ whole short. (inl refl, λ some_letter. elim some_letter [ ])),
  )
  match_loop_lem (c ∷ rest) num score shared (solid, h) small fits =
      let left = sub64_lem max_fuzzy_matches num small (omega arith) in
      let (f, e, (truth, found, few, kept, scores, later)) =
        fuzzy_match_recursive_lem word line_len (recursion_limit + 1) (sub64 max_fuzzy_matches num)
          (c ∷ rest) line 0 score [] shared (omega arith) (omega arith) (omega arith) fits in
      elim (zero_or_not f.ret) [
        | inl z ↦ (
          (f.score, f.shared),
          match_step c rest num score shared f 0 solid e z,
          (
            later.cells,
            kept,
            λ whole short.
                let (either, sure) = scores refl refl whole short in
                (either, λ _ early room inside. sure early (omega arith) inside),
          ),
        )
        | inr (n, more) ↦
            let (q, ran, (cells, kept', scores')) =
              match_loop_lem rest (num + f.ret) f.score f.shared h
                (omega (arith, few (omega arith))) (omega (arith, later.cells)) in
            (
              q,
              match_step c rest num score shared f (suc n) solid e more ∙ ran,
              (
                cells ∙ later.cells,
                inr (truth (λ z. omega arith)),
                λ whole short.
                    let (either, sure) = scores refl refl whole short in
                    let (either', _) = scores' whole short in
                    (
                      later_score score f.score q.0 either either',
                      λ _ early room inside.
                          let positive = sure early (omega arith) inside in
                          elim either' [ inl same ↦ omega arith | inr above ↦ above ],
                    ),
              ),
            )
      ]

  -- fuzzy_match for a word without spaces.
  pub fuzzy_match_lem :
      IsWord word
      → length word < path_max
      → (q : ℕ × Shared) × (fuzzy_match word line line_len ≡ some q)
        × ((q.0 ≡ 0) ⊎ Within word line)
        × (1 ≤ length word
            → length word ≤ max_fuzzy_matches
            → line_len ≡ length line
            → length line ≤ 28
            → Within word line
            → 0 < q.0)
  unfolding fuzzy_match
  fuzzy_match_lem solid fits =
      let cells = length-replicate {A = ℕ} (length line) 48 in
      let (q, ran, (_, kept, scores)) =
        match_loop_lem word 0 0 (record { count = 0; match_pos = replicate (length line) 48 }) solid
          (omega arith) (omega (arith, cells)) in
      (
        q,
        rw (lt→ltb (length word) path_max fits) ran,
        kept,
        λ some_letter room whole short inside.
            (scores whole short).1 some_letter (omega arith) (omega arith) inside,
      )
