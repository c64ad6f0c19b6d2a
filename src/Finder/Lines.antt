-- ===== src/Finder/Lines.antt =====
-- src/search_helper.c: `get_file_name`, `load_lines_from_fp_to_file_info` and `init_file`. A write
-- past the end of an array, or in front of it, is a fault, the result `none`, as is a loop that
-- its fuel does not end. The strings of the pool are their texts; popen's output is given.
pub mod Names
pub mod Rounds
pub mod Loaded
use magit.Base.{
  ℕ, zero, suc, ◌+◌, ◌*◌, Bool, true, false, Option, none, some, List, [], ◌∷◌, ◌++◌, map, Bytes,
  length, ltb, leb, ◌==◌, ℤ, ◌>>=◌, if◌then◌else◌,
}
use magit.Git.Refs.{codes}
use magit.Finder.Growth.{grown}
use magit.Finder.Jobs.{same_text}
use magit.Finder.Mru.{path_max, put_char}
use magit.Finder.Reply.{Entry, send_res_from_file_info}
use magit.Finder.Text.{c_string}

pub record File : Type 0 where
  pub file_path : Bytes
  pub file_name : Bytes
  pub f_len : ℕ

-- A slash clears the buffer.
unfoldable pub name_byte : Bytes → ℕ → Option Bytes
name_byte buf c = if c == 47 then some [] else put_char buf c

unfoldable pub name_loop : Bytes → Bytes → Option Bytes
name_loop buf [] = some buf
name_loop buf (c ∷ path) = name_byte buf c >>= λ b. name_loop b path

-- A buffer that is full has no NUL for pool_str to stop at.
unfoldable pub get_file_name : Bytes → Option Bytes
get_file_name path =
    name_loop [] path >>= λ buf. if ltb (length buf) path_max then some buf else none

-- At most `n` bytes of a file, up to a newline, and what is left.
unfoldable pub fgets : ℕ → Bytes → Bytes × Bytes
fgets zero file = ([], file)
fgets (suc n) [] = ([], [])
fgets (suc n) (c ∷ file) =
    let rest = fgets n file in if c == 10 then (c ∷ [], file) else (c ∷ rest.0, rest.1)

-- path_buf[strlen(path_buf) - 1] = '\0'
unfoldable pub cut_last : Bytes → Option Bytes
cut_last [] = none
cut_last (c ∷ []) = some []
cut_last (c ∷ (d ∷ s)) = cut_last (d ∷ s) >>= λ t. some (c ∷ t)

unfoldable pub load_line : Bool → Bytes → Option File
load_line no_path_trim read = cut_last (c_string read) >>= λ path.
    (if no_path_trim then some path else get_file_name path) >>= λ name.
    some (record { file_path = path; file_name = name; f_len = length name })

-- (*file_info)[counter] = ..., in an array of `size` entries
unfoldable pub put_file : List File → ℕ → File → Option (List File)
put_file files size f = if ltb (length files) size then some (files ++ f ∷ []) else none

unfoldable pub load_loop : ℕ → Bool → ℕ → List File → Bytes → Option (List File)
load_loop zero no_path_trim size files file = none
load_loop (suc n) no_path_trim size files file =
    let larger = grown size (length files) in
    elim ((fgets 4095 file).0) [
      | [] ↦ some files
      | c ∷ read ↦ load_line no_path_trim (c ∷ read) >>= λ f. put_file files larger f >>= λ more.
          load_loop n no_path_trim larger more (fgets 4095 file).1
    ]

-- A round takes a byte at least.
unfoldable pub load_lines_from_fp_to_file_info : Bool → ℕ → Bytes → Option (List File)
load_lines_from_fp_to_file_info no_path_trim size file =
    load_loop (length file + 2) no_path_trim size [] file

-- g_f_cache and g_f_cache_len
pub record Cache : Type 0 where
  pub files : List File
  pub len : ℕ

abbrev pub entry_of : File → Entry
entry_of f = record { file_path = f.file_path; match_pos_flag = 0 }

module _ (decimal : ℕ → Bytes) where
  -- The cache and what was written to standard output. Without a pipe to the command the cache
  -- is memory that was not written, with the length that it had.
  unfoldable pub init_file : Bytes → Option Bytes → ℤ → Cache → Option (Cache × Bytes)
  init_file cmd none seq cache = some (record cache { files = [] }, [])
  init_file cmd (some output) seq cache =
      load_lines_from_fp_to_file_info (same_text cmd (codes "init_path")) 5000 output >>= λ files.
      send_res_from_file_info decimal (codes "file") (map entry_of files) seq >>= λ reply.
      some (record { files = files; len = length files }, reply)
