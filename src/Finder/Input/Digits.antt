-- ===== src/Finder/Input/Digits.antt =====
-- The texts and numbers that vim9-fuzzy.c reads.
use magit.Base.{
  ℕ, ◌+◌, ◌*◌, ◌-◌, ◌≤◌, ◌<◌, ◌≡◌, ◌≢◌, refl, ap, ◌∙◌, inl, inr, arith, true, false, ◌&&◌, some, [],
  ◌∷◌, ◌++◌, Bytes, All, All-weaken, length, length-append, lt→ltb, ◌==◌, ==_ne, pos, Bool-cases,
}
use magit.Finder.Text.{c_string-append, c_string, is_digit, digits_value, atoi}
use magit.Finder.Input.{max_vim_input, length_header, put_char, whole_string}

-- No NUL and no carriage return.
abbrev pub IsText : Bytes → Type 0
IsText t = All (λ c. (c ≢ 0) × (c ≢ 13)) t

abbrev pub crlf : Bytes
crlf = 13 ∷ 10 ∷ []

abbrev pub framed : Bytes → Bytes → Bytes
framed digits body = length_header ++ (digits ++ (crlf ++ (crlf ++ body)))

-- No line ends behind a byte that is no carriage return.
pub no_end : (prev c : ℕ) → prev ≢ 13 → ((c == 10) && (prev == 13)) ≡ false
no_end prev c h = rw (==_ne prev 13 h) (elim (Bool-cases (c == 10)) [ inl e ↦ rw e | inr e ↦ rw e ])

pub c_string-text : (t s : Bytes) → IsText t → c_string (t ++ s) ≡ t ++ c_string s
c_string-text t s h = c_string-append t s (All-weaken t (λ c p. p.0) h)

pub put_char_fits :
    (buf : Bytes) (c : ℕ) → length buf < max_vim_input → put_char buf c ≡ some (buf ++ c ∷ [])
unfolding put_char
put_char_fits buf c h = rw (lt→ltb (length buf) max_vim_input h)

pub whole_string-line :
    (line : Bytes)
    → IsText line
    → length line + 2 < max_vim_input
    → whole_string (line ++ crlf) ≡ some (line ++ crlf)
unfolding whole_string c_string
whole_string-line line plain fits =
    rw (c_string-text line crlf plain)
      (rw (lt→ltb (length (line ++ crlf)) max_vim_input (omega (arith, length-append line crlf))))

abbrev pub AllDigits : Bytes → Type 0
AllDigits t = All (λ c. is_digit c ≡ true) t

pub digit-IsText : (c : ℕ) → is_digit c ≡ true → (c ≢ 0) × (c ≢ 13)
unfolding is_digit
digit-IsText c h = (λ e. ground arith, λ e. ground arith)

pub digits-IsText : (t : Bytes) → AllDigits t → IsText t
digits-IsText [] h = tt
digits-IsText (c ∷ t) (h, hs) = (digit-IsText c h, digits-IsText t hs)

pub digits_value-append :
    (n : ℕ) (t s : Bytes)
    → AllDigits t
    → digits_value n (t ++ s) ≡ digits_value (digits_value n t) s
unfolding digits_value
digits_value-append n [] s h = refl
digits_value-append n (c ∷ t) s (h, hs) = rw h (digits_value-append (n * 10 + (c - 48)) t s hs)

pub atoi-digit :
    (c : ℕ) (t : Bytes) → is_digit c ≡ true → atoi (c ∷ t) ≡ pos (digits_value 0 (c ∷ t))
unfolding atoi is_digit
atoi-digit c t h = ground arith

-- The number is read up to the end of its line.
pub atoi-digits :
    (t : Bytes) → AllDigits t → 1 ≤ length t → atoi (t ++ crlf) ≡ pos (digits_value 0 t)
unfolding digits_value is_digit
atoi-digits [] h few = elim few [ ]
atoi-digits (c ∷ t) h few =
    atoi-digit c (t ++ crlf) h.0 ∙ ap pos (digits_value-append 0 (c ∷ t) crlf h)

pub length_header-IsText : IsText length_header
length_header-IsText = ground arith
