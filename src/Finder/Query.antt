-- ===== src/Finder/Query.antt =====
-- src/fuzzy.c: `fuzzy_match`, `sanitize_word`, `binstr_to_int`, `result_compare` and
-- `start_fuzzy_response`. qsort is a parameter, and so is what is_cancel_requested answers in each
-- round. A write past the end of an array is a fault, the result `none`.
pub mod Match
pub mod Select
pub mod Found
use magit.Base.{
  ℕ, zero, suc, ◌+◌, ◌-◌, ◌*◌, ◌^◌, min, Bool, true, false, Option, none, some, List, [], ◌∷◌, ◌++◌,
  map, Bytes, length, replicate, ltb, leb, ◌==◌, sub64, ℤ, pos, negsuc, ◌>>=◌, if◌then◌else◌,
}
use magit.Finder.Fuzzy.{max_fuzzy_matches, recursion_limit, Shared, fuzzy_match_recursive}
use magit.Finder.Growth.{grown}
use magit.Finder.Lines.{File}
use magit.Finder.Mru.{path_max}
use magit.Finder.Reply.{Entry, send_res_from_file_info}

-- The entries of file_res that are set.
pub record Result : Type 0 where
  pub file_path : Bytes
  pub fuzzy_score : ℕ
  pub f_len : ℕ
  pub match_pos_flag : ℕ

unfoldable pub sanitize_word : Bytes → Bytes
sanitize_word [] = []
sanitize_word (c ∷ word) = if c == 32 then sanitize_word word else c ∷ sanitize_word word

-- strtoul(s, NULL, 2), which stops at ULONG_MAX, behind `acc`
unfoldable pub binstr_value : ℕ → Bytes → ℕ
binstr_value acc [] = acc
binstr_value acc (c ∷ s) =
    let next = binstr_value (acc * 2 + (c - 48)) s in
    if c == 48 then next else (if c == 49 then next else acc)

unfoldable pub binstr_to_int : Bytes → ℕ
binstr_to_int s = min (binstr_value 0 s) (2 ^ 64 - 1)

-- A higher score goes first.
unfoldable pub result_compare : Result → Result → ℤ
result_compare r s =
    if r.fuzzy_score == s.fuzzy_score
    then pos 0
    else if ltb s.fuzzy_score r.fuzzy_score
    then negsuc 0
    else pos 1

module _ (word line : Bytes) (line_len : ℕ) where
  -- The loop over the search word, with numMatches, the score and what the calls share.
  unfoldable pub match_loop : Bytes → ℕ → ℕ → Shared → Option (ℕ × Shared)
  match_loop [] num score shared = some (score, shared)
  match_loop (c ∷ rest) num score shared = elim (c == 32) [
    | true ↦ match_loop rest num score shared
    | false ↦
        fuzzy_match_recursive word line_len (recursion_limit + 1) (sub64 max_fuzzy_matches num)
          (c ∷ rest) line 0 score [] shared
        >>= λ f. elim f.ret [
          | zero ↦ some (f.score, f.shared)
          | suc n ↦ match_loop rest (num + f.ret) f.score f.shared
        ]
  ]

  -- The score and the marks. The word is copied to an array of PATH_MAX bytes.
  unfoldable pub fuzzy_match : Option (ℕ × Shared)
  fuzzy_match =
      if ltb (length word) path_max
      then match_loop word 0 0 (record { count = 0; match_pos = replicate (length line) 48 })
      else none

-- What the loop over the files ends with.
pub data Search : Type 0 where
  cancelled : ℕ → Search
  finished : List Result → Search

-- file_res[matched_len] = ..., in an array of `size` entries
unfoldable pub put_result : List Result → ℕ → Result → Option (List Result)
put_result rs size r = if ltb (length rs) size then some (rs ++ r ∷ []) else none

abbrev pub result_of : File → ℕ × Shared → Result
result_of f q = record {
  file_path = f.file_path;
  fuzzy_score = q.0;
  f_len = f.f_len;
  match_pos_flag = binstr_to_int q.1.match_pos;
}

module _ (word : Bytes) (cancel : ℕ → Bool) where
  unfoldable pub search_loop : ℕ → List File → ℕ → List Result → Option Search
  search_loop i [] size rs = some (finished rs)
  search_loop i (f ∷ files) size rs = elim (cancel i) [
    | true ↦ some (cancelled (length rs))
    | false ↦ fuzzy_match word f.file_name f.f_len >>= λ q. elim q.0 [
      | zero ↦ search_loop (suc i) files size rs
      | suc n ↦ put_result rs (grown size (length rs)) (result_of f q) >>= λ more.
          search_loop (suc i) files (grown size (length rs)) more
    ]
  ]

abbrev pub found_entry : Result → Entry
found_entry r = record { file_path = r.file_path; match_pos_flag = r.match_pos_flag }

-- What is written to standard output, if anything, and the number that is returned.
module _ (decimal : ℕ → Bytes) (qsort : (Result → Result → ℤ) → List Result → List Result) where
  unfoldable pub answer_search : Bytes → ℤ → Search → Option (Option Bytes × ℕ)
  answer_search cmd seq (cancelled n) = some (none, n)
  answer_search cmd seq (finished rs) =
      send_res_from_file_info decimal cmd (map found_entry (qsort result_compare rs)) seq >>= λ t.
      some (some t, length rs)

  unfoldable pub start_fuzzy_response :
      (ℕ → Bool) → Bytes → Bytes → List File → ℤ → Option (Option Bytes × ℕ)
  start_fuzzy_response cancel keyword cmd files seq =
      search_loop (sanitize_word keyword) cancel 0 files 500 [] >>= answer_search cmd seq
