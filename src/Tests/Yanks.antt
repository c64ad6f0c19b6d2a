-- ===== src/Tests/Yanks.antt =====
-- A directory of yanks with one file, and what is not a regular file.
use magit.Base.{
  ◌≤◌, ◌≡◌, refl, subst, arith, Bool, true, false, Option, none, some, List, [], ◌∷◌, ◌++◌, map,
  take, Bytes, length, ltb, ◌==◌, ℤ, pos, negsuc, ℕ, zero, suc, if◌then◌else◌,
}
use magit.Git.Refs.{codes}
use magit.Finder.Escape.Inverse.{must_escape}
use magit.Finder.Reply.{max_response_lines, max_real_response_size}
use magit.Finder.Reply.Whole.{body, reply}
use magit.Finder.Yank.{YankFile, Dirent, Yank, YankCache, entry_of_yank, opened, init_yank}
use magit.Finder.Yank.Texts.{HasLine}
use magit.Finder.Yank.Loads.{Readable, Loaded, partly_sorted, init_yank-loads}

abbrev goes_behind : ℤ → Bool
goes_behind (pos zero) = false
goes_behind (pos (suc n)) = true
goes_behind (negsuc n) = false

insert_yank : (Yank → Yank → ℤ) → Yank → List Yank → List Yank
insert_yank compare y [] = y ∷ []
insert_yank compare y (z ∷ zs) =
    let rest = insert_yank compare y zs in
    if goes_behind (compare y z) then z ∷ rest else y ∷ (z ∷ zs)

insertion_sort : (Yank → Yank → ℤ) → List Yank → List Yank
insertion_sort compare [] = []
insertion_sort compare (y ∷ ys) = insert_yank compare y (insertion_sort compare ys)

abbrev digits : ℕ → Bytes
digits n = codes "7"

abbrev yanked : YankFile
yanked = record { mtime = pos 5; cells = codes "hi\n" ++ 0 ∷ 1 ∷ [] }

abbrev directory : List Dirent
directory =
    record { d_name = codes "."; is_regular = false }
    ∷ (record { d_name = codes "a"; is_regular = true } ∷ [])

abbrev opens : Bytes → Option YankFile
opens path = some yanked

abbrev lists : Bytes → Option (List Dirent)
lists path = some directory

abbrev no_yanks : YankCache
no_yanks = record { yanks = []; len = 0; current_size = 100 }

-- A line with a newline, which must be escaped, and letters, which need not be.
greeting : HasLine yanked.cells (codes "hi\n")
unfolding must_escape
greeting = (
  1 ∷ [],
  refl,
  ((λ z. ground arith), ((λ z. ground arith), ((λ z. ground arith), tt))),
  λ h. let clash : false ≡ true = h.0 in cc,
)

passed_over : Readable opens (codes "/y") (record { d_name = codes "."; is_regular = false })
unfolding opened
passed_over f h = cc

read_greeting : Readable opens (codes "/y") (record { d_name = codes "a"; is_regular = true })
unfolding opened
read_greeting f h =
    let same : yanked ≡ f = cc in
    (codes "hi\n", subst (λ f. HasLine f.cells (codes "hi\n")) same greeting)

init_yank-loads_example :
    (yanks : List Yank) × (size : ℕ) × Loaded opens (codes "/y") directory yanks
    × (length yanks ≤ size)
    × (init_yank digits insertion_sort lists opens (codes "/y") (pos 7) no_yanks ≡ (
        let all = partly_sorted insertion_sort yanks in
        let sent = take max_response_lines (map entry_of_yank all) in
        if length yanks == 0
        then none
        else if ltb (length (body digits (codes "yank") sent (pos 7))) max_real_response_size
        then some (
          record { yanks = all; len = length yanks; current_size = size },
          reply digits (codes "yank") sent (pos 7),
        )
        else none))
init_yank-loads_example =
    init_yank-loads digits insertion_sort lists opens (codes "/y") (pos 7) no_yanks
      (passed_over, (read_greeting, tt)) (omega arith)
