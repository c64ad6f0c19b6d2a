-- ===== src/Finder/Input/Steps.antt =====
-- How `read_stdin` of src/vim9-fuzzy.c goes over the lines and the text of a message.
use magit.Base.{
  ℕ, ◌+◌, ◌≤◌, ◌<◌, ◌≡◌, ◌≢◌, refl, ap, ◌∙◌, arith, true, false, ◌&&◌, some, [], ◌∷◌, ◌++◌,
  append_assoc, Bytes, All-append, length, length-append, take, lt→ltb, ◌==◌, ==_iff, ==_ne, ℤ, pos,
  some_bind,
}
use magit.Finder.Text.{c_string, behind, digits_value, atoi}
use magit.Finder.Input.{
  max_vim_input, length_header, Input, between, goes_on, breaks, close_line, end_line, end_message,
  put_json, read_byte, read_bytes,
}
use magit.Git.Refs.{starts_with}
use magit.Finder.Input.Digits.{
  IsText, crlf, framed, no_end, c_string-text, put_char_fits, whole_string-line, AllDigits,
  digits-IsText, atoi-digits, length_header-IsText,
}

module _ {L : Type 0} (handle : L → Bytes → L) (l : L) where
  abbrev pub in_header : Bytes → ℤ → Input L
  in_header line n = record {
    line = line;
    content_len = n;
    start = false;
    json_line = [];
    loop = l;
  }

  abbrev pub in_message : Bytes → ℕ → Bytes → Input L
  in_message line n json = record {
    line = line;
    content_len = pos n;
    start = true;
    json_line = json;
    loop = l;
  }

  -- A byte that ends no line, before the message.
  pub read_byte_line :
      (prev c : ℕ) (line : Bytes) (n : ℤ)
      → ((c == 10) && (prev == 13)) ≡ false
      → length line < max_vim_input
      → read_byte handle prev c (in_header line n) ≡ some (goes_on (in_header (line ++ c ∷ []) n))
  unfolding read_byte
  read_byte_line prev c line n e h = some_bind _ (put_char_fits line c h) ∙ rw e

  pub goes_lem :
      (prev c : ℕ) (cs : Bytes) (s t : Input L)
      → read_byte handle prev c s ≡ some (goes_on t)
      → read_bytes handle prev (c ∷ cs) s ≡ read_bytes handle c cs t
  unfolding read_bytes
  goes_lem prev c cs s t e = some_bind _ e

  pub breaks_lem :
      (prev c : ℕ) (cs : Bytes) (s t : Input L)
      → read_byte handle prev c s ≡ some (breaks t)
      → read_bytes handle prev (c ∷ cs) s ≡ some t
  unfolding read_bytes
  breaks_lem prev c cs s t e = some_bind _ e

  -- The newline behind a carriage return.
  pub read_byte_end :
      (line : Bytes) (n : ℤ)
      → IsText line
      → length line + 2 < max_vim_input
      → read_byte handle 13 10 (in_header (line ++ 13 ∷ []) n)
        ≡ some (goes_on (end_line handle (line ++ crlf) (in_header [] n)))
  unfolding read_byte close_line end_line
  read_byte_end line n plain fits =
      some_bind _ (put_char_fits (line ++ 13 ∷ []) 10 (omega (arith, length-append line (13 ∷ []))))
      ∙ ap (λ k. close_line handle k (in_header (line ++ 13 ∷ []) n))
          (append_assoc line (13 ∷ []) (10 ∷ []))
      ∙ some_bind _ (whole_string-line line plain fits)

  -- A line of the header, with what its end makes of it.
  pub read_bytes-line :
      (prev : ℕ) (t rest line : Bytes) (n : ℤ)
      → prev ≢ 13
      → IsText t
      → IsText line
      → length line + length t + 2 < max_vim_input
      → read_bytes handle prev (t ++ (13 ∷ 10 ∷ rest)) (in_header line n)
        ≡ read_bytes handle 10 rest (end_line handle (line ++ (t ++ crlf)) (in_header [] n))
  read_bytes-line prev [] rest line n h plain plain' fits =
      goes_lem prev 13 (10 ∷ rest) _ _ (read_byte_line prev 13 line n refl (omega arith))
      ∙ goes_lem 13 10 rest _ _ (read_byte_end line n plain' (omega arith))
  read_bytes-line prev (c ∷ t) rest line n h ((a, b), plain) plain' fits =
      goes_lem prev c (t ++ (13 ∷ 10 ∷ rest)) _ _
        (read_byte_line prev c line n (no_end prev c h) (omega arith))
      ∙ read_bytes-line c t rest (line ++ c ∷ []) n b plain
          (All-append (λ c. (c ≢ 0) × (c ≢ 13)) line (c ∷ []) plain' ((a, b), tt))
          (omega (arith, length-append line (c ∷ [])))
      ∙ ap (λ k. read_bytes handle 10 rest (end_line handle k (in_header [] n)))
          (append_assoc line (c ∷ []) (t ++ crlf))

  pub read_byte_last :
      (prev c : ℕ) (line : Bytes) (n : ℕ) (json : Bytes)
      → ((c == 10) && (prev == 13)) ≡ false
      → length line < max_vim_input
      → length json + 1 < max_vim_input
      → length json ≡ n
      → read_byte handle prev c (in_message line n json)
        ≡ some (breaks (between (handle l (c_string (json ++ c ∷ [])))))
  unfolding read_byte put_json end_message
  read_byte_last prev c line n json e h k full =
      some_bind _ (put_char_fits line c h)
      ∙ rw e (
          some_bind _ (put_char_fits json c (omega arith))
          ∙ rw ((==_iff (length json) n).1 full) (
              rw (
                lt→ltb (length (json ++ c ∷ [])) max_vim_input
                  (omega (arith, length-append json (c ∷ []))))))

  pub read_byte_more :
      (prev c : ℕ) (line : Bytes) (n : ℕ) (json : Bytes)
      → ((c == 10) && (prev == 13)) ≡ false
      → length line < max_vim_input
      → length json < max_vim_input
      → length json < n
      → read_byte handle prev c (in_message line n json)
        ≡ some (goes_on (in_message (line ++ c ∷ []) n (json ++ c ∷ [])))
  unfolding read_byte put_json
  read_byte_more prev c line n json e h k few =
      some_bind _ (put_char_fits line c h)
      ∙ rw e
          (some_bind _ (put_char_fits json c k) ∙ rw (==_ne (length json) n (λ same. omega arith)))

  -- The bytes of a message and one more.
  pub read_bytes-message :
      (prev : ℕ) (t : Bytes) (last : ℕ) (rest line : Bytes) (n : ℕ) (json : Bytes)
      → prev ≢ 13
      → IsText t
      → length line + length t + 1 < max_vim_input
      → n + 1 < max_vim_input
      → length json + length t ≡ n
      → read_bytes handle prev (t ++ last ∷ rest) (in_message line n json)
        ≡ some (between (handle l (c_string (json ++ (t ++ last ∷ [])))))
  read_bytes-message prev [] last rest line n json h plain fits fits' full =
      breaks_lem prev last rest _ _ (
        read_byte_last prev last line n json (no_end prev last h) (omega arith) (omega arith)
          (omega arith))
  read_bytes-message prev (c ∷ t) last rest line n json h ((a, b), plain) fits fits' full =
      goes_lem prev c (t ++ last ∷ rest) _ _ (
        read_byte_more prev c line n json (no_end prev c h) (omega arith) (omega arith)
          (omega arith))
      ∙ read_bytes-message c t last rest (line ++ c ∷ []) n (json ++ c ∷ []) b plain
          (omega (arith, length-append line (c ∷ []))) fits'
          (omega (arith, length-append json (c ∷ [])))
      ∙ ap (λ k. some (between (handle l (c_string k))))
          (append_assoc json (c ∷ []) (t ++ last ∷ []))

  pub end_line_header :
      (digits : Bytes) (n : ℕ)
      → atoi (digits ++ crlf) ≡ pos n
      → end_line handle (length_header ++ (digits ++ crlf)) (in_header [] (pos 0))
        ≡ in_header [] (pos n)
  unfolding end_line behind starts_with
  end_line_header digits n e = ap (in_header []) e

  pub end_line_blank : (n : ℕ) → end_line handle crlf (in_header [] (pos n)) ≡ in_message [] n []
  unfolding end_line behind starts_with
  end_line_blank n = refl

  pub read_bytes-frame :
      (digits body : Bytes) (last : ℕ) (rest : Bytes)
      → AllDigits digits
      → 1 ≤ length digits
      → digits_value 0 digits ≡ length body
      → IsText body
      → length digits + length body + 20 < max_vim_input
      → read_bytes handle 0 (framed digits (body ++ last ∷ rest)) (between l)
        ≡ some (between (handle l (c_string (body ++ last ∷ []))))
  read_bytes-frame digits body last rest number some_digits value plain fits =
      let size = length body in
      let x = body ++ last ∷ rest in
      let number_read = atoi-digits digits number some_digits ∙ ap pos value in
      let header_text = digits-IsText digits number in
      read_bytes-line 0 (length_header ++ digits) (crlf ++ x) [] (pos 0) (λ e. ground arith)
        (All-append (λ c. (c ≢ 0) × (c ≢ 13)) length_header digits length_header-IsText header_text)
        tt (omega (arith, length-append length_header digits))
      ∙ ap (λ s. read_bytes handle 10 (crlf ++ x) s) (end_line_header digits size number_read)
      ∙ read_bytes-line 10 [] x [] (pos size) (λ e. ground arith) tt tt (omega arith)
      ∙ ap (λ s. read_bytes handle 10 x s) (end_line_blank size)
      ∙ read_bytes-message 10 body last rest [] size [] (λ e. ground arith) plain (omega arith)
          (omega arith) (omega arith)

  -- The same behind any rest of the buffer.
  pub read_bytes-next :
      (digits body rest : Bytes)
      → AllDigits digits
      → 1 ≤ length digits
      → digits_value 0 digits ≡ length body
      → IsText body
      → length digits + length body + 20 < max_vim_input
      → read_bytes handle 0 (framed digits (body ++ (rest ++ 0 ∷ []))) (between l)
        ≡ some (between (handle l (body ++ c_string (take 1 rest))))
  unfolding c_string
  read_bytes-next digits body [] number some_digits value plain fits =
      read_bytes-frame digits body 0 [] number some_digits value plain fits
      ∙ ap (λ t. some (between (handle l t))) (c_string-text body (0 ∷ []) plain)
  read_bytes-next digits body (r ∷ rest) number some_digits value plain fits =
      read_bytes-frame digits body r (rest ++ 0 ∷ []) number some_digits value plain fits
      ∙ ap (λ t. some (between (handle l t))) (c_string-text body (r ∷ []) plain)
