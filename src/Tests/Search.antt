-- ===== src/Tests/Search.antt =====
-- A search of the fuzzy finder, with insertion sort for qsort.
use mathlib.Core.List.{Perm}
use mathlib.Core.List.Perm
use magit.Base.{
  replicate, memcpy, sub64, ◌++◌, ◌^◌, ◌-◌, ℕ, zero, suc, ◌≡◌, refl, ◌⊎◌, inl, inr, arith, Bool,
  true, false, Option, none, some, List, [], ◌∷◌, Bytes, ℤ, pos, negsuc, ltb, lt→ltb, ◌<◌, ◌==◌,
  ==_ne, Bool-cases, if◌then◌else◌,
}
use magit.Git.Refs.{codes}
use magit.Finder.Lines.{File}
use magit.Finder.Fuzzy.{
  Shared, fuzzy_match_recursive, scan, match_letter, mark, note_recursive, finish_search,
  without_match, choose, fuzzy_match_compute_score, neighbor_bonus, order_bonuses,
}
use magit.Finder.Query.{fuzzy_match, match_loop, Result, result_compare, sanitize_word}
use magit.Finder.Query.Found.{
  AtMostZero, Ascending, Sorts, GivesUp, Answers, start_fuzzy_response-answers,
}

abbrev goes_first : ℤ → Bool
goes_first (pos zero) = true
goes_first (pos (suc n)) = false
goes_first (negsuc n) = true

insert_by : (Result → Result → ℤ) → Result → List Result → List Result
insert_by compare r [] = r ∷ []
insert_by compare r (s ∷ rs) =
    if goes_first (compare r s) then r ∷ (s ∷ rs) else s ∷ insert_by compare r rs

insertion_sort : (Result → Result → ℤ) → List Result → List Result
insertion_sort compare [] = []
insertion_sort compare (r ∷ rs) = insert_by compare r (insertion_sort compare rs)

insert_by-Perm : (r : Result) (rs : List Result) → Perm (insert_by result_compare r rs) (r ∷ rs)
unfolding insert_by
insert_by-Perm r [] = Perm.refl (r ∷ [])
insert_by-Perm r (s ∷ rs) = elim (Bool-cases (goes_first (result_compare r s))) [
  | inl e ↦ rw e (Perm.refl (r ∷ (s ∷ rs)))
  | inr e ↦ rw e (Perm.trans (Perm.cons s (insert_by-Perm r rs)) (Perm.swap r s rs))
]

insertion_sort-Perm : (rs : List Result) → Perm (insertion_sort result_compare rs) rs
unfolding insertion_sort
insertion_sort-Perm [] = Perm.refl []
insertion_sort-Perm (r ∷ rs) =
    Perm.trans (insert_by-Perm r (insertion_sort result_compare rs))
      (Perm.cons r (insertion_sort-Perm rs))

absurd_first {ℓ} : {A : Type ℓ} → true ≡ false → A
absurd_first h = cc

below :
    (a b : ℕ)
    → (a == b) ≡ false
    → ltb b a ≡ false
    → AtMostZero (if b == a then pos 0 else (if ltb a b then negsuc 0 else pos 1))
below a b h k =
    let lower : a < b = ground arith in rw (==_ne b a (λ e. omega arith)) (rw (lt→ltb a b lower) tt)

first_or_last :
    (r s : Result) → goes_first (result_compare r s) ≡ false → AtMostZero (result_compare s r)
unfolding result_compare
first_or_last r s h = elim (Bool-cases (r.fuzzy_score == s.fuzzy_score)) [
  | inl e ↦ absurd_first (rw e at h)
  | inr e ↦ elim (Bool-cases (ltb s.fuzzy_score r.fuzzy_score)) [
    | inl e' ↦ absurd_first (rw (e, e') at h)
    | inr e' ↦ below r.fuzzy_score s.fuzzy_score e e'
  ]
]

goes_first-AtMostZero : (z : ℤ) → goes_first z ≡ true → AtMostZero z
goes_first-AtMostZero (pos zero) h = tt
goes_first-AtMostZero (pos (suc n)) h = cc
goes_first-AtMostZero (negsuc n) h = tt

-- What is inserted behind a first element.
insert_behind :
    (r s : Result) (rs : List Result)
    → AtMostZero (result_compare s r)
    → Ascending (s ∷ rs)
    → Ascending (insert_by result_compare r rs)
    → Ascending (s ∷ insert_by result_compare r rs)
unfolding insert_by
insert_behind r s [] h k a = (h, tt)
insert_behind r s (t ∷ rs) h k a = elim (Bool-cases (goes_first (result_compare r t))) [
  | inl e ↦ let a' = (rw e at a) in rw e (h, a')
  | inr e ↦ let a' = (rw e at a) in rw e (k.0, a')
]

Ascending-tail : (s : Result) (rs : List Result) → Ascending (s ∷ rs) → Ascending rs
Ascending-tail s [] h = tt
Ascending-tail s (r ∷ rs) h = h.1

insert_by-Ascending :
    (r : Result) (rs : List Result) → Ascending rs → Ascending (insert_by result_compare r rs)
unfolding insert_by
insert_by-Ascending r [] h = tt
insert_by-Ascending r (s ∷ rs) h = elim (Bool-cases (goes_first (result_compare r s))) [
  | inl e ↦ rw e (goes_first-AtMostZero (result_compare r s) e, h)
  | inr e ↦ rw e (
      insert_behind r s rs (first_or_last r s e) h
        (insert_by-Ascending r rs (Ascending-tail s rs h)))
]

insertion_sort-Ascending : (rs : List Result) → Ascending (insertion_sort result_compare rs)
unfolding insertion_sort
insertion_sort-Ascending [] = tt
insertion_sort-Ascending (r ∷ rs) =
    insert_by-Ascending r (insertion_sort result_compare rs) (insertion_sort-Ascending rs)

insertion_sort-Sorts : Sorts insertion_sort
insertion_sort-Sorts = record { permutes = insertion_sort-Perm; ascends = insertion_sort-Ascending }

abbrev digits : ℕ → Bytes
digits n = codes "7"

abbrev main_file : File
main_file = record { file_path = codes "src/main.c"; file_name = codes "main.c"; f_len = 6 }

abbrev mru_file : File
mru_file = record { file_path = codes "src/mru.c"; file_name = codes "mru.c"; f_len = 5 }

abbrev two_files : List File
two_files = main_file ∷ (mru_file ∷ [])

abbrev never : ℕ → Bool
never i = false

start_fuzzy_response-answers_example :
    GivesUp digits insertion_sort insertion_sort-Sorts never
      (codes "m c")
      (codes "file")
      two_files
      (pos 3)
    ⊎ Answers digits insertion_sort insertion_sort-Sorts never
        (codes "m c")
        (codes "file")
        two_files
        (pos 3)
unfolding sanitize_word
start_fuzzy_response-answers_example =
    start_fuzzy_response-answers digits insertion_sort insertion_sort-Sorts never (codes "m c")
      (codes "file") two_files (pos 3) (omega arith) (omega arith)

-- A file with a long name that matches: a score of 0 leaves it out, and a score below 0 is a number
-- above all others.
abbrev long_line : ℕ → Bytes
long_line n = replicate n 120 ++ codes "a"

abbrev score_of : Option (ℕ × Shared) → Option ℕ
score_of none = none
score_of (some q) = some q.0

left_out_at_86 : score_of (fuzzy_match (codes "a") (long_line 85) 86) ≡ some 0
unfolding fuzzy_match match_loop fuzzy_match_recursive scan match_letter mark memcpy note_recursive
    finish_search without_match choose fuzzy_match_compute_score neighbor_bonus order_bonuses sub64
left_out_at_86 = refl

highest_at_87 : score_of (fuzzy_match (codes "a") (long_line 86) 87) ≡ some (2 ^ 64 - 1)
unfolding fuzzy_match match_loop fuzzy_match_recursive scan match_letter mark memcpy note_recursive
    finish_search without_match choose fuzzy_match_compute_score neighbor_bonus order_bonuses sub64
highest_at_87 = refl
