-- ===== src/Finder/Input.antt =====
-- src/vim9-fuzzy.c: `read_stdin` and `alloc_buffer`. The arrays `line` and `json_line` are what was
-- written to them since they were cleared; a write or a string that passes the end of an array
-- is a fault, the result `none`. handle_json_msg is a parameter.
pub mod Digits
pub mod Steps
pub mod Frames
use magit.Base.{
  ℕ, ◌+◌, Bool, true, false, ◌&&◌, Option, none, some, [], ◌∷◌, ◌++◌, Bytes, length, ltb, ◌==◌, ℤ,
  pos, negsuc, ◌>>=◌, if◌then◌else◌,
}
use magit.Finder.Text.{c_string, behind, atoi}
use magit.Git.Refs.{codes}

abbrev pub max_vim_input : ℕ
max_vim_input = 65536

abbrev pub length_header : Bytes
length_header = codes "Content-Length: "

-- The static variables, with the loop that handle_json_msg works on.
pub record Input (L : Type 0) : Type 0 where
  pub line : Bytes
  pub content_len : ℤ
  pub start : Bool
  pub json_line : Bytes
  pub loop : L

abbrev pub between : {L : Type 0} → L → Input L
between l = record { line = []; content_len = pos 0; start = false; json_line = []; loop = l }

-- Whether the loop over the bytes goes on or was left.
pub data Flow (L : Type 0) : Type 0 where
  goes_on breaks : Input L → Flow L

-- buf[counter] = c
unfoldable pub put_char : Bytes → ℕ → Option Bytes
put_char buf c = if ltb (length buf) max_vim_input then some (buf ++ c ∷ []) else none

-- json_counter == content_len
abbrev pub is_count : ℕ → ℤ → Bool
is_count n (pos m) = n == m
is_count n (negsuc m) = false

-- The array as a string; one without a NUL would be read past its end.
unfoldable pub whole_string : Bytes → Option Bytes
whole_string buf = if ltb (length (c_string buf)) max_vim_input then some (c_string buf) else none

module _ {L : Type 0} (handle : L → Bytes → L) where
  -- At the end of a line of the header, and at what only looks like one.
  unfoldable pub end_line : Bytes → Input L → Input L
  end_line text s = elim (behind length_header text) [
    | some number ↦ record s { line = []; content_len = atoi number }
    | none ↦ record s { line = []; start = if length text == 2 then true else s.start }
  ]

  -- The NUL behind the last byte is written too.
  unfoldable pub end_message : Input L → Option (Flow L)
  end_message s =
      if ltb (length s.json_line) max_vim_input
      then some (breaks (between (handle s.loop (c_string s.json_line))))
      else none

  unfoldable pub put_json : ℕ → Input L → Option (Flow L)
  put_json c s = put_char s.json_line c >>= λ j.
      let t : Input L = record s { json_line = j } in
      if is_count (length s.json_line) s.content_len then end_message t else some (goes_on t)

  unfoldable pub close_line : Bytes → Input L → Option (Flow L)
  close_line line s = whole_string line >>= λ text. some (goes_on (end_line text s))

  unfoldable pub read_byte : ℕ → ℕ → Input L → Option (Flow L)
  read_byte prev c s = put_char s.line c >>= λ line.
      let t : Input L = record s { line = line } in
      if (c == 10) && (prev == 13)
      then close_line line s
      else (if s.start then put_json c t else some (goes_on t))

  -- `prev` is the byte in front, and 0 at the first one of the buffer.
  unfoldable pub read_bytes : ℕ → Bytes → Input L → Option (Input L)
  read_bytes prev [] s = some s
  read_bytes prev (c ∷ cs) s =
      read_byte prev c s >>= λ f. elim f [ goes_on t ↦ read_bytes c cs t | breaks t ↦ some t ]

  -- A read of `nread` bytes; the loop takes one more, which alloc_buffer cleared.
  unfoldable pub read_stdin : Bytes → Input L → Option (Input L)
  read_stdin bytes s =
      if ltb (length bytes) max_vim_input then read_bytes 0 (bytes ++ 0 ∷ []) s else none
