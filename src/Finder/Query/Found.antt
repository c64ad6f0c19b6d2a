-- ===== src/Finder/Query/Found.antt =====
-- What `start_fuzzy_response` of src/fuzzy.c answers.
use mathlib.Core.List.{Perm}
use magit.Base.{
  if_bind, ℕ, zero, suc, ◌+◌, ◌≤◌, ◌<◌, ◌≡◌, ◌⊎◌, inl, inr, ap, ◌∙◌, arith, Bool, true, false,
  Option, none, some, List, [], ◌∷◌, map, Bytes, length, take, ltb, ◌==◌, ==_iff, ltb→lt,
  Bool-cases, ℤ, pos, negsuc, ◌>>=◌, some_bind, if◌then◌else◌,
}
use magit.Finder.Fuzzy.{max_fuzzy_matches}
use magit.Finder.Lines.{File}
use magit.Finder.Query.{
  Result, Search, cancelled, finished, sanitize_word, result_compare, search_loop, found_entry,
  answer_search, start_fuzzy_response,
}
use magit.Finder.Query.Match.{IsWord}
use magit.Finder.Query.Select.{Selected, Searched, search_loop-Searched}
use magit.Finder.Reply.{max_response_lines, max_real_response_size}
use magit.Finder.Reply.Whole.{body, reply, send_res_from_file_info-writes}

-- Not above 0.
abbrev pub AtMostZero : ℤ → Type 0
AtMostZero (pos zero) = Unit
AtMostZero (pos (suc n)) = ⊥
AtMostZero (negsuc n) = Unit

abbrev pub Ascending : List Result → Type 0
Ascending [] = Unit
Ascending (r ∷ []) = Unit
Ascending (r ∷ (s ∷ rs)) = AtMostZero (result_compare r s) × Ascending (s ∷ rs)

-- What qsort promises: the same elements, in the order of the comparison.
pub record Sorts (qsort : (Result → Result → ℤ) → List Result → List Result) : Type 0 where
  pub permutes : (rs : List Result) → Perm (qsort result_compare rs) rs
  pub ascends : (rs : List Result) → Ascending (qsort result_compare rs)

-- The scores never rise.
abbrev pub IsBestFirst : List Result → Type 0
IsBestFirst [] = Unit
IsBestFirst (r ∷ []) = Unit
IsBestFirst (r ∷ (s ∷ rs)) = (s.fuzzy_score ≤ r.fuzzy_score) × IsBestFirst (s ∷ rs)

result_compare-le : (r s : Result) → AtMostZero (result_compare r s) → s.fuzzy_score ≤ r.fuzzy_score
unfolding result_compare
result_compare-le r s h = elim (Bool-cases (r.fuzzy_score == s.fuzzy_score)) [
  | inl e ↦ let same = (==_iff r.fuzzy_score s.fuzzy_score).0 e in omega arith
  | inr e ↦ elim (Bool-cases (ltb s.fuzzy_score r.fuzzy_score)) [
    | inl e' ↦ omega (arith, ltb→lt s.fuzzy_score r.fuzzy_score e')
    | inr e' ↦ absurd (rw (e, e') at h)
  ]
]

Ascending-IsBestFirst : (rs : List Result) → Ascending rs → IsBestFirst rs
Ascending-IsBestFirst [] h = tt
Ascending-IsBestFirst (r ∷ []) h = tt
Ascending-IsBestFirst (r ∷ (s ∷ rs)) (h, hs) =
    (result_compare-le r s h, Ascending-IsBestFirst (s ∷ rs) hs)

sanitize_word-IsWord : (t : Bytes) → IsWord (sanitize_word t)
unfolding sanitize_word
sanitize_word-IsWord [] = tt
sanitize_word-IsWord (c ∷ t) = elim (Bool-cases (c == 32)) [
  | inl e ↦ rw e (sanitize_word-IsWord t)
  | inr e ↦ rw e (ground arith, sanitize_word-IsWord t)
]

abbrev counted {ℓ} : {A : Type ℓ} → ℕ → A → Option (Option A × ℕ)
counted n t = some (some t, n)

module _ (decimal : ℕ → Bytes) (qsort : (Result → Result → ℤ) → List Result → List Result)
    (sorts : Sorts qsort) (cancel : ℕ → Bool) (keyword cmd : Bytes) (files : List File)
    (seq : ℤ) where
  -- The search gives up in some round.
  abbrev pub GivesUp : Type 0
  GivesUp =
      (j : ℕ) × (n : ℕ) × (j < length files)
      × (cancel j ≡ true)
      × (start_fuzzy_response decimal qsort cancel keyword cmd files seq ≡ some (none, n))

  -- The search looks at all files and answers.
  abbrev pub Answers : Type 0
  Answers =
      (found : List Result) × Selected (sanitize_word keyword) files found
      × ((j : ℕ) → j < length files → cancel j ≡ false)
      × Perm (qsort result_compare found) found
      × IsBestFirst (qsort result_compare found)
      × (start_fuzzy_response decimal qsort cancel keyword cmd files seq ≡ (
          let sent = take max_response_lines (map found_entry (qsort result_compare found)) in
          if ltb (length (body decimal cmd sent seq)) max_real_response_size
          then some (some (reply decimal cmd sent seq), length found)
          else none))

  answer_finished :
      (rs : List Result)
      → answer_search decimal qsort cmd seq (finished rs) ≡ (
          let sent = take max_response_lines (map found_entry (qsort result_compare rs)) in
          if ltb (length (body decimal cmd sent seq)) max_real_response_size
          then some (some (reply decimal cmd sent seq), length rs)
          else none)
  unfolding answer_search
  answer_finished rs =
      let all = map found_entry (qsort result_compare rs) in
      let sent = take max_response_lines all in
      ap (λ r. r >>= λ t. some (some t, length rs))
        (send_res_from_file_info-writes decimal cmd all seq)
      ∙ if_bind (ltb (length (body decimal cmd sent seq)) max_real_response_size)
          (reply decimal cmd sent seq) (counted (length rs))

  by_end :
      (s : Search)
      → search_loop (sanitize_word keyword) cancel 0 files 500 [] ≡ some s
      → Searched (sanitize_word keyword) cancel 0 files [] s
      → GivesUp ⊎ Answers
  unfolding start_fuzzy_response answer_search Searched
  by_end (cancelled n) e (j, below, gone, few) =
      let same : j ≡ 0 + j = omega arith in inl (j, n, below, ap cancel same ∙ gone, some_bind _ e)
  by_end (finished rs) e (never, (found, same, sel)) = inr (
    found,
    sel,
    λ j h. let same : j ≡ 0 + j = omega arith in ap cancel same ∙ never j h,
    sorts.permutes found,
    Ascending-IsBestFirst (qsort result_compare found) (sorts.ascends found),
    some_bind _ e
        ∙ ap (answer_search decimal qsort cmd seq) (ap finished same)
        ∙ answer_finished found,
  )

  -- For a keyword with 1 to 256 bytes that are no spaces, start_fuzzy_response never writes past an
  -- array. Either is_cancel_requested gives 1 in the round of some file, and nothing is sent; or
  -- it never does, and a reply is sent, if it fits its buffer, with the first 100 of the results
  -- in the order of their scores, the highest first. The results are those of files in whose
  -- names the letters of the keyword stand in their order, upper and lower case being the same,
  -- each at most once, and among them are all such files whose names have at most 28 bytes.
  pub start_fuzzy_response-answers :
      1 ≤ length (sanitize_word keyword)
      → length (sanitize_word keyword) ≤ max_fuzzy_matches
      → GivesUp ⊎ Answers
  start_fuzzy_response-answers some_letter room =
      let (s, e, end) =
        search_loop-Searched (sanitize_word keyword) cancel 0 files 500 []
          (sanitize_word-IsWord keyword) some_letter room (omega arith) (omega arith) in
      by_end s e end
