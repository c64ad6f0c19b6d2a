-- ===== src/Finder/Grep.antt =====
-- src/grep.c: `handle_grep_out`, `read_pipe` and `on_proc_exit`, on what the process writes. A write
-- or a string that passes the end of an array is a fault, the result `none`. What
-- is_cancel_requested answers at a read is given with the read.
pub mod Tokens
pub mod Rounds
pub mod Lists
use magit.Base.{
  ℕ, ◌+◌, ◌*◌, Bool, true, false, ◌||◌, Option, none, some, List, [], ◌∷◌, ◌++◌, Bytes, length, min,
  ltb, leb, ◌==◌, ℤ, ◌>>=◌, if◌then◌else◌,
}
use magit.Git.Refs.{codes}
use magit.Finder.Escape.{json_escape}
use magit.Finder.Growth.{grown}
use magit.Finder.Input.{max_vim_input}
use magit.Finder.Reply.{Entry, send_res_from_file_info}
use magit.Finder.Text.{c_string}

-- proc_ctx_T: file_res with its size.
pub record Context : Type 0 where
  pub seq : ℤ
  pub file_res : List Entry
  pub file_res_buf_size : ℕ

abbrev pub started : ℤ → Context
started n = record { seq = n; file_res = []; file_res_buf_size = 100 }

abbrev pub is_end : ℕ → Bool
is_end c = (c == 13) || (c == 10)

abbrev pub flush : Bytes → List Bytes
flush [] = []
flush (c ∷ t) = (c ∷ t) ∷ []

-- strtok_r with "\r\n", behind the bytes of a token that were read.
unfoldable pub tokens : Bytes → Bytes → List Bytes
tokens seen [] = flush seen
tokens seen (c ∷ s) = elim (is_end c) [
  | true ↦ flush seen ++ tokens [] s
  | false ↦ tokens (seen ++ c ∷ []) s
]

unfoldable pub put_entry : Context → Bytes → Option Context
put_entry ctx path =
    let count = length ctx.file_res in
    let size = grown ctx.file_res_buf_size count in
    if ltb count size
    then some (record ctx {
      file_res = ctx.file_res ++ record { file_path = path; match_pos_flag = 0 } ∷ [];
      file_res_buf_size = size;
    })
    else none

-- A line that is too long is passed over.
unfoldable pub grep_line : Context → Bytes → Option Context
grep_line ctx token =
    if ltb 512 (min (length token) 600) then some ctx else (json_escape token >>= put_entry ctx)

unfoldable pub grep_lines : Context → List Bytes → Option Context
grep_lines ctx [] = some ctx
grep_lines ctx (t ∷ ts) = grep_line ctx t >>= λ more. grep_lines more ts

unfoldable pub handle_grep_out : Bool → Context → Bytes → Option Context
handle_grep_out true ctx lines = some ctx
handle_grep_out false ctx lines = grep_lines ctx (tokens [] (c_string lines))

-- A read that fills the buffer leaves no NUL behind it.
unfoldable pub read_pipe : Bool → Context → Bytes → Option Context
read_pipe cancel ctx [] = some ctx
read_pipe cancel ctx (c ∷ bytes) =
    if ltb (length (c ∷ bytes)) max_vim_input then handle_grep_out cancel ctx (c ∷ bytes) else none

unfoldable pub read_all : Context → List (Bool × Bytes) → Option Context
read_all ctx [] = some ctx
read_all ctx ((cancel, bytes) ∷ reads) = read_pipe cancel ctx bytes >>= λ more. read_all more reads

abbrev pub sigint : ℕ
sigint = 2

module _ (decimal : ℕ → Bytes) where
  -- What is written to standard output, if anything.
  unfoldable pub on_proc_exit : ℕ → Context → Option (Option Bytes)
  on_proc_exit term_signal ctx =
      if term_signal == sigint
      then some none
      else (send_res_from_file_info decimal (codes "grep") ctx.file_res ctx.seq >>= λ t.
          some (some t))

  -- A grep from its start to the end of the process.
  unfoldable pub grep : ℤ → List (Bool × Bytes) → ℕ → Option (Option Bytes)
  grep seq reads term_signal = read_all (started seq) reads >>= on_proc_exit term_signal
