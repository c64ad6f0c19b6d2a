-- ===== src/Finder/Escape.antt =====
-- src/json_msg_handler.c: `json_escape`. The buffer is what was written to it so far; a write
-- past the end of what malloc was asked for is a fault, the result `none`.
pub mod Inverse
use magit.Base.{
  ℕ, zero, suc, ◌*◌, ◌/◌, ◌%◌, ◌^◌, Option, none, some, List, [], ◌∷◌, ◌++◌, Bytes, length, ltb,
  ◌==◌, ◌>>=◌, if◌then◌else◌,
}

abbrev pub newline : ℕ
newline = 10

abbrev pub carriage_return : ℕ
carriage_return = 13

abbrev pub tab : ℕ
tab = 9

abbrev pub quote : ℕ
quote = 34

abbrev pub backslash : ℕ
backslash = 92

-- What the loop does with a byte: leaves it out, writes a backslash and a letter, or copies it.
pub data Treatment : Type 0 where
  skip : Treatment
  pair : ℕ → Treatment
  copy : Treatment

-- The first test is that of the two highest bits.
unfoldable pub treatment : ℕ → Treatment
treatment c =
    if c / 64 % 4 == 3
    then skip
    else if c == newline
    then pair 110
    else if c == carriage_return
    then pair 114
    else if c == tab
    then pair 116
    else if c == quote
    then pair quote
    else if c == backslash
    then pair backslash
    else copy

-- buf[counter] = c; counter++
unfoldable pub put_byte : ℕ → Bytes → ℕ → Option Bytes
put_byte size buf c = if ltb (length buf) size then some (buf ++ c ∷ []) else none

unfoldable pub put_escaped : ℕ → Bytes → ℕ → Treatment → Option Bytes
put_escaped size buf c skip = some buf
put_escaped size buf c (pair d) = put_byte size buf backslash >>= λ b. put_byte size b d
put_escaped size buf c copy = put_byte size buf c

unfoldable pub escape_loop : ℕ → Bytes → Bytes → Option Bytes
escape_loop size buf [] = some buf
escape_loop size buf (c ∷ json) =
    put_escaped size buf c (treatment c) >>= λ b. escape_loop size b json

-- The string that is returned, without its NUL.
unfoldable pub json_escape : Bytes → Option Bytes
json_escape json =
    let size = length json * 2 % 2 ^ 64 in
    escape_loop size [] json >>= λ buf. put_byte size buf 0 >>= λ _. some buf
