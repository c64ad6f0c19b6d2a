-- ===== src/Finder/Input/Frames.antt =====
-- What `read_stdin` of src/vim9-fuzzy.c makes of a framed message.
use magit.Base.{
  ◌+◌, ◌≤◌, ◌<◌, ◌≡◌, ap, ◌∙◌, arith, some, [], ◌∷◌, ◌++◌, append_assoc, Bytes, length,
  length-append, take, lt→ltb,
}
use magit.Finder.Text.{c_string, digits_value}
use magit.Finder.Input.{max_vim_input, length_header, between, read_bytes, read_stdin}
use magit.Finder.Input.Steps.{read_bytes-next}
use magit.Finder.Input.Digits.{IsText, crlf, framed, AllDigits}

framed-append :
    (digits body rest : Bytes) → framed digits body ++ rest ≡ framed digits (body ++ rest)
framed-append digits body rest =
    ap (λ t. length_header ++ t) (append_assoc digits (crlf ++ (crlf ++ body)) rest)

length-framed :
    (digits body : Bytes) → length (framed digits body) ≡ length digits + length body + 20
length-framed digits body = omega (arith, length-append digits (crlf ++ (crlf ++ body)))

module _ {L : Type 0} (handle : L → Bytes → L) where
  -- If a read of less than 65536 bytes between two messages starts with a framed message, whose
  -- text has neither a NUL nor a carriage return, then handle_json_msg gets the text, or, if the
  -- read goes on behind it, the text with the next byte, up to its NUL if it is one; what
  -- follows in the same read is lost. Afterwards read_stdin is between two messages again.
  pub read_stdin-frame :
      (l : L) (digits body rest : Bytes)
      → AllDigits digits
      → 1 ≤ length digits
      → digits_value 0 digits ≡ length body
      → IsText body
      → length (framed digits body ++ rest) < max_vim_input
      → read_stdin handle (framed digits body ++ rest) (between l)
        ≡ some (between (handle l (body ++ c_string (take 1 rest))))
  unfolding read_stdin
  read_stdin-frame l digits body rest number some_digits value plain fits =
      rw (lt→ltb (length (framed digits body ++ rest)) max_vim_input fits) (
        ap (λ t. read_bytes handle 0 t (between l))
          (append_assoc (framed digits body) rest (0 ∷ [])
            ∙ framed-append digits body (rest ++ 0 ∷ []))
        ∙ read_bytes-next handle l digits body rest number some_digits value plain
            (omega (arith, length-append (framed digits body) rest, length-framed digits body)))
