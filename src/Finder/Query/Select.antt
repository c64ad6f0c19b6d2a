-- ===== src/Finder/Query/Select.antt =====
-- Which files the loop of `start_fuzzy_response` in src/fuzzy.c takes, and where it gives up.
use magit.Base.{
  ℕ, zero, suc, ◌+◌, ◌≤◌, ◌<◌, ◌≡◌, ◌≢◌, inl, inr, refl, sym, ap, ◌∙◌, arith, Bool, true, false,
  Option, some, List, [], ◌∷◌, ◌++◌, append_assoc, append-nil, Bytes, length, length-append, lt→ltb,
  Bool-cases, ◌>>=◌, some_bind,
}
use magit.Finder.Fuzzy.{max_fuzzy_matches, Shared}
use magit.Finder.Fuzzy.Within.{Within, zero_or_not}
use magit.Finder.Growth.{grown, grown_room}
use magit.Finder.Lines.{File}
use magit.Finder.Query.{
  Result, fuzzy_match, Search, cancelled, finished, put_result, result_of, search_loop,
}
use magit.Finder.Query.Match.{IsWord, fuzzy_match_lem}

-- A name of at most 28 bytes, with its length.
abbrev pub IsShort : File → Type 0
IsShort f = (f.f_len ≡ length f.file_name) × (length f.file_name ≤ 28)

-- The results for some files: each is that of a file in whose name the letters of the word stand in
-- order, and no file with such a name of at most 28 bytes is left out.
pub data Selected (word : Bytes) : List File → List Result → Type 0 where
  nothing : Selected word [] []
  left_out :
      {files : List File} {rs : List Result} (f : File) (q : ℕ × Shared)
      → fuzzy_match word f.file_name f.f_len ≡ some q
      → q.0 ≡ 0
      → (IsShort f → ¬ Within word f.file_name)
      → Selected word files rs
      → Selected word (f ∷ files) rs
  taken :
      {files : List File} {rs : List Result} (f : File) (q : ℕ × Shared)
      → fuzzy_match word f.file_name f.f_len ≡ some q
      → q.0 ≢ 0
      → Within word f.file_name
      → Selected word files rs
      → Selected word (f ∷ files) (result_of f q ∷ rs)

module _ (word : Bytes) (cancel : ℕ → Bool) where
  -- How the loop ends from the file with number `i` on.
  unfoldable pub Searched : ℕ → List File → List Result → Search → Type 0
  Searched i files rs (cancelled n) =
      (j : ℕ) × (j < length files) × (cancel (i + j) ≡ true) × (n ≤ length rs + j)
  Searched i files rs (finished all) =
      ((j : ℕ) → j < length files → cancel (i + j) ≡ false)
      × ((more : List Result) × (all ≡ rs ++ more) × Selected word files more)

  never_next :
      (i n : ℕ)
      → cancel i ≡ false
      → ((j : ℕ) → j < n → cancel (suc i + j) ≡ false)
      → (j : ℕ) → j < suc n
      → cancel (i + j) ≡ false
  never_next i n here never zero h = let same : i + 0 ≡ i = omega arith in ap cancel same ∙ here
  never_next i n here never (suc j) h =
      let same : i + suc j ≡ suc i + j = omega arith in ap cancel same ∙ never j (omega arith)

  next_index : (i j : ℕ) → cancel (suc i + j) ≡ true → cancel (i + suc j) ≡ true
  next_index i j h = let same : i + suc j ≡ suc i + j = omega arith in ap cancel same ∙ h

  Searched-left :
      (i : ℕ) (f : File) (q : ℕ × Shared) (files : List File) (rs : List Result) (s : Search)
      → cancel i ≡ false
      → fuzzy_match word f.file_name f.f_len ≡ some q
      → q.0 ≡ 0
      → (IsShort f → ¬ Within word f.file_name)
      → Searched (suc i) files rs s
      → Searched i (f ∷ files) rs s
  unfolding Searched
  Searched-left i f q files rs (cancelled n) here e z not_in (j, below, gone, few) =
      (suc j, omega arith, next_index i j gone, omega arith)
  Searched-left i f q files rs (finished all) here e z not_in (never, (more, same, sel)) =
      (never_next i (length files) here never, (more, same, left_out f q e z not_in sel))

  Searched-taken :
      (i : ℕ) (f : File) (q : ℕ × Shared) (files : List File) (rs : List Result) (s : Search)
      → cancel i ≡ false
      → fuzzy_match word f.file_name f.f_len ≡ some q
      → q.0 ≢ 0
      → Within word f.file_name
      → Searched (suc i) files (rs ++ result_of f q ∷ []) s
      → Searched i (f ∷ files) rs s
  unfolding Searched
  Searched-taken i f q files rs (cancelled n) here e z inside (j, below, gone, few) = (
    suc j,
    omega arith,
    next_index i j gone,
    omega (arith, length-append rs (result_of f q ∷ [])),
  )
  Searched-taken i f q files rs (finished all) here e z inside (never, (more, same, sel)) = (
    never_next i (length files) here never,
    (
      result_of f q ∷ more,
      same ∙ append_assoc rs (result_of f q ∷ []) more,
      taken f q e z inside sel,
    ),
  )

  -- A round that is not cancelled, by the score of its file.
  search_step :
      (i : ℕ) (f : File) (files : List File) (size : ℕ) (rs : List Result) (q : ℕ × Shared) (n : ℕ)
      → cancel i ≡ false
      → fuzzy_match word f.file_name f.f_len ≡ some q
      → q.0 ≡ n
      → search_loop word cancel i (f ∷ files) size rs ≡ elim n [
        | zero ↦ search_loop word cancel (suc i) files size rs
        | suc m ↦ put_result rs (grown size (length rs)) (result_of f q) >>= λ more.
            search_loop word cancel (suc i) files (grown size (length rs)) more
      ]
  unfolding search_loop
  search_step i f files size rs q n here e same =
      ap
        (λ b. elim b as (λ _. Option Search) [
          | true ↦ some (cancelled (length rs))
          | false ↦ fuzzy_match word f.file_name f.f_len >>= λ q. elim q.0 [
            | zero ↦ search_loop word cancel (suc i) files size rs
            | suc m ↦ put_result rs (grown size (length rs)) (result_of f q) >>= λ more.
                search_loop word cancel (suc i) files (grown size (length rs)) more
          ]
        ])
        here
      ∙ some_bind _ e
      ∙ ap
          (λ n. elim n as (λ _. Option Search) [
            | zero ↦ search_loop word cancel (suc i) files size rs
            | suc m ↦ put_result rs (grown size (length rs)) (result_of f q) >>= λ more.
                search_loop word cancel (suc i) files (grown size (length rs)) more
          ])
          same

  search_stop :
      (i : ℕ) (f : File) (files : List File) (size : ℕ) (rs : List Result)
      → cancel i ≡ true
      → search_loop word cancel i (f ∷ files) size rs ≡ some (cancelled (length rs))
  unfolding search_loop
  search_stop i f files size rs here =
      ap
        (λ b. elim b as (λ _. Option Search) [
          | true ↦ some (cancelled (length rs))
          | false ↦ fuzzy_match word f.file_name f.f_len >>= λ q. elim q.0 [
            | zero ↦ search_loop word cancel (suc i) files size rs
            | suc m ↦ put_result rs (grown size (length rs)) (result_of f q) >>= λ more.
                search_loop word cancel (suc i) files (grown size (length rs)) more
          ]
        ])
        here

  search_put :
      (rs : List Result) (size : ℕ) (r : Result)
      → length rs < size
      → put_result rs size r ≡ some (rs ++ r ∷ [])
  unfolding put_result
  search_put rs size r h = rw (lt→ltb (length rs) size h)

  pub search_loop-Searched :
      (i : ℕ) (files : List File) (size : ℕ) (rs : List Result)
      → IsWord word
      → 1 ≤ length word
      → length word ≤ max_fuzzy_matches
      → 1 ≤ size
      → length rs ≤ size
      → (s : Search) × (search_loop word cancel i files size rs ≡ some s) × Searched i files rs s
  unfolding search_loop Searched
  search_loop-Searched i [] size rs solid some_letter room filled fits =
      (finished rs, refl, (λ j h. elim h [ ], ([], sym (append-nil rs), nothing)))
  search_loop-Searched i (f ∷ files) size rs solid some_letter room filled fits =
      let (q, ran, kept, sure) = fuzzy_match_lem word f.file_name f.f_len solid (omega arith) in
      let not_in : q.0 ≡ 0 → IsShort f → ¬ Within word f.file_name = λ z short inside.
        let positive = sure some_letter room short.0 short.1 inside in omega arith in
      elim (Bool-cases (cancel i)) [
        | inl here ↦ (
          cancelled (length rs),
          search_stop i f files size rs here,
          (
            0,
            omega arith,
            let same : i + 0 ≡ i = omega arith in ap cancel same ∙ here,
            omega arith,
          ),
        )
        | inr here ↦ elim (zero_or_not q.0) [
          | inl z ↦
              let (s, ran', end) =
                search_loop-Searched (suc i) files size rs solid some_letter room filled fits in
              (
                s,
                search_step i f files size rs q 0 here ran z ∙ ran',
                Searched-left i f q files rs s here ran z (not_in z) end,
              )
          | inr (n, e) ↦
              let (more, filled') = grown_room size (length rs) filled fits in
              let (s, ran', end) =
                search_loop-Searched (suc i) files (grown size (length rs))
                  (rs ++ result_of f q ∷ []) solid some_letter room filled'
                  (omega (arith, length-append rs (result_of f q ∷ []))) in
              (
                s,
                search_step i f files size rs q (suc n) here ran e
                    ∙ some_bind _ (search_put rs (grown size (length rs)) (result_of f q) more)
                    ∙ ran',
                Searched-taken i f q files rs s here ran (λ z. omega arith)
                    (elim kept [ inl z ↦ absurd (omega arith) | inr h ↦ h ]) end,
              )
        ]
      ]
