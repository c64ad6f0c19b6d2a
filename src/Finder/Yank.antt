-- ===== src/Finder/Yank.antt =====
-- src/yank.c: the list of yanked texts, from the directory that holds them to the reply. A write in
-- front of or past the end of an array is a fault, the result `none`, as is qsort over more
-- entries than there are. The strings of the pool are their texts; opendir, fopen and qsort are
-- parameters.
pub mod Texts
pub mod Loads
use magit.Base.{
  ℕ, ◌-◌, ◌^◌, min, to_int, Bool, true, false, Option, none, some, List, [], ◌∷◌, ◌++◌, map, Bytes,
  length, take, drop, ltb, ◌==◌, ℤ, pos, negsuc, ◌>>=◌, if◌then◌else◌,
}
use magit.Git.Refs.{codes}
use magit.Finder.Escape.{json_escape}
use magit.Finder.Growth.{grown}
use magit.Finder.Lines.{File}
use magit.Finder.Query.{Result, start_fuzzy_response}
use magit.Finder.Reply.{Entry, send_res_from_file_info}
use magit.Finder.Text.{c_string}

-- PATH_MAX * 2
abbrev pub result_len_max : ℕ
result_len_max = 8192

-- st_mtime of an open file, and all cells of the buffer that getline leaves for it.
pub record YankFile : Type 0 where
  pub mtime : ℤ
  pub cells : Bytes

pub record Dirent : Type 0 where
  pub d_name : Bytes
  pub is_regular : Bool

-- The fields of a file_info_t that are set; file_name is the text of file_path.
pub record Yank : Type 0 where
  pub file_path : Bytes
  pub f_len : ℕ
  pub yank_score : ℤ

-- A time as an int.
unfoldable pub int_of : ℤ → ℤ
int_of (pos n) = to_int n
int_of (negsuc n) = to_int (2 ^ 64 - 1 - n)

abbrev pub int_eq : ℤ → ℤ → Bool
int_eq (pos m) (pos n) = m == n
int_eq (negsuc m) (negsuc n) = m == n
int_eq (pos m) (negsuc n) = false
int_eq (negsuc m) (pos n) = false

abbrev pub int_lt : ℤ → ℤ → Bool
int_lt (pos m) (pos n) = ltb m n
int_lt (negsuc m) (negsuc n) = ltb n m
int_lt (pos m) (negsuc n) = false
int_lt (negsuc m) (pos n) = true

unfoldable pub yank_score_cmp : Yank → Yank → ℤ
yank_score_cmp s1 s2 =
    let v1 = int_of s1.yank_score in
    let v2 = int_of s2.yank_score in
    if int_eq v1 v2 then pos 0 else if int_lt v2 v1 then negsuc 0 else pos 1

-- What json_escape is given: yank_line_len is the size of the buffer, and its last cell is cleared.
unfoldable pub yank_line : Bytes → Option Bytes
yank_line [] = none
yank_line (c ∷ cells) = some (take (min (length (c ∷ cells) - 1) 150) (c ∷ cells))

-- What snprintf prints, before it is cut to the buffer.
unfoldable pub result_line : Bytes → Bytes → Bytes
result_line d_name escaped_line = d_name ++ (codes "| " ++ c_string escaped_line)

-- The length is above 0, as the text has a bar at least.
unfoldable pub yank_of : Dirent → YankFile → Option Yank
yank_of d f = yank_line f.cells >>= json_escape >>= λ escaped_line. some (record {
  file_path = take (result_len_max - 1) (result_line d.d_name escaped_line);
  f_len = length (result_line d.d_name escaped_line);
  yank_score = f.mtime;
})

-- (*file_info)[line_counter] = ..., in an array of `size` entries
unfoldable pub put_yank : List Yank → ℕ → Yank → Option (List Yank)
put_yank yanks size y = if ltb (length yanks) size then some (yanks ++ y ∷ []) else none

-- qsort is given line_counter - 1 entries, a size_t.
unfoldable pub sort_yanks :
    ((Yank → Yank → ℤ) → List Yank → List Yank) → List Yank → Option (List Yank)
sort_yanks qsort [] = none
sort_yanks qsort (y ∷ yanks) =
    let n = length (y ∷ yanks) - 1 in
    some (qsort yank_score_cmp (take n (y ∷ yanks)) ++ drop n (y ∷ yanks))

-- g_yank_cache, g_yank_len and current_size
pub record YankCache : Type 0 where
  pub yanks : List Yank
  pub len : ℕ
  pub current_size : ℕ

-- The strings of the pool go too.
abbrev pub deinit_yank : YankCache → YankCache
deinit_yank cache = record cache { yanks = []; len = 0 }

abbrev pub entry_of_yank : Yank → Entry
entry_of_yank y = record { file_path = y.file_path; match_pos_flag = 0 }

abbrev pub file_of_yank : Yank → File
file_of_yank y = record { file_path = y.file_path; file_name = y.file_path; f_len = y.f_len }

module _ (fopen : Bytes → Option YankFile) (yank_dir : Bytes) where
  unfoldable pub opened : Dirent → Option YankFile
  opened d =
      if d.is_regular then fopen (take (result_len_max - 1) (yank_dir ++ 47 ∷ d.d_name)) else none

  -- The loop over the directory, with current_size.
  unfoldable pub load_entries : ℕ → List Yank → List Dirent → Option (ℕ × List Yank)
  load_entries size yanks [] = some (size, yanks)
  load_entries size yanks (d ∷ dir) =
      let larger = grown size (length yanks) in
      elim (opened d) [
        | none ↦ load_entries larger yanks dir
        | some f ↦
            yank_of d f >>= λ y. put_yank yanks larger y >>= λ more. load_entries larger more dir
      ]

-- What readdir hands out; a directory that cannot be opened is as an empty one.
abbrev pub entries_of : Option (List Dirent) → List Dirent
entries_of none = []
entries_of (some dir) = dir

-- The cache of the loaded entries, and what is written to standard output.
unfoldable pub send_yanks : (ℕ → Bytes) → ℤ → ℕ → ℕ → List Yank → Option (YankCache × Bytes)
send_yanks decimal seq size len yanks =
    send_res_from_file_info decimal (codes "yank") (map entry_of_yank yanks) seq >>= λ reply.
    some (record { yanks = yanks; len = len; current_size = size }, reply)

module _ (decimal : ℕ → Bytes) (qsort : (Yank → Yank → ℤ) → List Yank → List Yank)
    (opendir : Bytes → Option (List Dirent)) (fopen : Bytes → Option YankFile) where
  -- The number of entries is taken to be an int.
  unfoldable pub init_yank : Bytes → ℤ → YankCache → Option (YankCache × Bytes)
  init_yank yank_path seq cache =
      load_entries fopen yank_path (deinit_yank cache).current_size []
        (entries_of (opendir yank_path))
      >>= λ r. sort_yanks qsort r.1 >>= send_yanks decimal seq r.0 (length r.1)

  -- The search of a job, with the list that was the cache when it was queued.
  unfoldable pub fuzzy_yank_search :
      ((Result → Result → ℤ) → List Result → List Result)
      → (ℕ → Bool)
      → Bytes
      → Bytes
      → ℤ
      → List Yank
      → YankCache
      → Option (YankCache × Option Bytes)
  fuzzy_yank_search qsort_results cancel [] yank_path seq snapshot cache =
      init_yank yank_path seq cache >>= λ r. some (r.0, some r.1)
  fuzzy_yank_search qsort_results cancel (c ∷ value) yank_path seq snapshot cache =
      start_fuzzy_response decimal qsort_results cancel (c ∷ value) (codes "yank")
        (map file_of_yank snapshot) seq
      >>= λ r. some (cache, r.0)
