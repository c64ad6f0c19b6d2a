-- ===== src/Finder/Escape/Inverse.antt =====
-- What `json_escape` of src/json_msg_handler.c writes reads back, and where it writes too much.
use magit.Base.{
  ℕ, ◌+◌, ◌*◌, ◌/◌, ◌%◌, ◌^◌, ◌≤◌, ◌<◌, ◌≡◌, refl, sym, ap, ◌∙◌, ◌⊎◌, inl, inr, arith, Bool, true,
  false, Option, none, some, [], ◌∷◌, ◌++◌, append_assoc, append-nil, Bytes, All, length,
  length-append, ltb, lt→ltb, ltb→lt, ltb→le, Bool-cases, ◌==◌, if◌then◌else◌, ◌>>=◌, some_bind,
  ◌||◌,
}
use magit.Finder.Escape.{
  newline, carriage_return, tab, quote, backslash, Treatment, skip, pair, copy, treatment, put_byte,
  put_escaped, escape_loop, json_escape,
}

-- The byte that a letter behind a backslash stands for.
unfoldable pub decode : ℕ → Option ℕ
decode d =
    if d == 110
    then some newline
    else if d == 114
    then some carriage_return
    else if d == 116
    then some tab
    else if d == quote
    then some quote
    else if d == backslash
    then some backslash
    else none

-- A byte that must not stand in a JSON string as it is.
unfoldable pub must_escape : ℕ → Bool
must_escape c =
    (c == newline) || ((c == carriage_return) || ((c == tab) || ((c == quote) || (c == backslash))))

-- The reading of the inside of a JSON string, behind a backslash or not.
unfoldable pub unescape_from : Bool → Bytes → Option Bytes
unescape_from true [] = none
unescape_from false [] = some []
unescape_from true (d ∷ rest) = decode d >>= λ c. unescape_from false rest >>= λ t. some (c ∷ t)
unescape_from false (c ∷ rest) =
    let quoted = unescape_from true rest in
    let bare = unescape_from false rest in
    if c == backslash then quoted else if must_escape c then none else (bare >>= λ t. some (c ∷ t))

abbrev pub unescape : Bytes → Option Bytes
unescape = unescape_from false

-- The bytes that are not left out.
unfoldable pub ascii_only : Bytes → Bytes
ascii_only [] = []
ascii_only (c ∷ rest) = let kept = ascii_only rest in if c / 64 % 4 == 3 then kept else c ∷ kept

abbrev pub escaped_by : ℕ → Treatment → Bytes
escaped_by c skip = []
escaped_by c (pair d) = backslash ∷ d ∷ []
escaped_by c copy = c ∷ []

-- What is written for a text.
unfoldable pub escaped : Bytes → Bytes
escaped [] = []
escaped (c ∷ rest) = escaped_by c (treatment c) ++ escaped rest

-- How a byte is treated, and what that means for the reading.
unfoldable pub Treated : ℕ → Treatment → Type 0
Treated c t =
    ((t ≡ skip) × ((c / 64 % 4 == 3) ≡ true))
    ⊎ (((d : ℕ) × (t ≡ pair d)
          × (decode d ≡ some c)
          × (must_escape c ≡ true)
          × ((c / 64 % 4 == 3) ≡ false))
        ⊎ ((t ≡ copy)
            × ((c == backslash) ≡ false)
            × (must_escape c ≡ false)
            × ((c / 64 % 4 == 3) ≡ false)))

pub treatment_lem : (c : ℕ) → Treated c (treatment c)
unfolding Treated treatment decode must_escape
treatment_lem c = ground arith

-- What a byte is written as, for the reading, for what is kept and for the size.
unescape-step :
    (c : ℕ) (t : Treatment) (rest : Bytes) (kept : Bytes)
    → Treated c t
    → unescape rest ≡ some (ascii_only kept)
    → unescape (escaped_by c t ++ rest) ≡ some (ascii_only (c ∷ kept))
unfolding Treated unescape_from ascii_only
unescape-step c t rest kept (inl (e, high)) h = rw (e, high) h
unescape-step c t rest kept (inr (inl (d, e, back, must, low))) h = rw (e, back, h, low)
unescape-step c t rest kept (inr (inr (e, plain, fine, low))) h = rw (e, plain, fine, h, low)

pub unescape-escaped : (s : Bytes) → unescape (escaped s) ≡ some (ascii_only s)
unfolding escaped unescape_from ascii_only
unescape-escaped [] = refl
unescape-escaped (c ∷ s) =
    unescape-step c (treatment c) (escaped s) s (treatment_lem c) (unescape-escaped s)

width_le : (c : ℕ) (t : Treatment) → length (escaped_by c t) ≤ 2
width_le c skip = omega arith
width_le c (pair d) = omega arith
width_le c copy = omega arith

length-escaped : (s : Bytes) → length (escaped s) ≤ length s * 2
unfolding escaped
length-escaped [] = omega arith
length-escaped (c ∷ s) = omega (
  arith,
  length-append (escaped_by c (treatment c)) (escaped s),
  width_le c (treatment c),
  length-escaped s,
)

put_byte_lem :
    (size : ℕ) (buf : Bytes) (c : ℕ)
    → length buf < size
    → put_byte size buf c ≡ some (buf ++ c ∷ [])
unfolding put_byte
put_byte_lem size buf c h = rw (lt→ltb (length buf) size h)

put_byte_full :
    (size : ℕ) (buf : Bytes) (c : ℕ) → ltb (length buf) size ≡ false → put_byte size buf c ≡ none
unfolding put_byte
put_byte_full size buf c h = rw h

put_escaped_lem :
    (size : ℕ) (buf : Bytes) (c : ℕ) (t : Treatment)
    → length buf + length (escaped_by c t) ≤ size
    → put_escaped size buf c t ≡ some (buf ++ escaped_by c t)
unfolding put_escaped
put_escaped_lem size buf c skip h = ap some (sym (append-nil buf))
put_escaped_lem size buf c (pair d) h =
    some_bind _ (put_byte_lem size buf backslash (omega arith))
    ∙ put_byte_lem size (buf ++ backslash ∷ []) d
        (omega (arith, length-append buf (backslash ∷ [])))
    ∙ ap some (append_assoc buf (backslash ∷ []) (d ∷ []))
put_escaped_lem size buf c copy h = put_byte_lem size buf c (omega arith)

escape_loop_lem :
    (size : ℕ) (buf s : Bytes)
    → length buf + length (escaped s) ≤ size
    → escape_loop size buf s ≡ some (buf ++ escaped s)
unfolding escape_loop escaped
escape_loop_lem size buf [] h = ap some (sym (append-nil buf))
escape_loop_lem size buf (c ∷ s) h =
    let here = escaped_by c (treatment c) in
    let more = length-append here (escaped s) in
    some_bind _ (put_escaped_lem size buf c (treatment c) (omega arith))
    ∙ escape_loop_lem size (buf ++ here) s (omega (arith, length-append buf here))
    ∙ ap some (append_assoc buf here (escaped s))

-- A byte that is written as two is one that must be escaped.
wide_must :
    (c : ℕ) (t : Treatment) → Treated c t → 2 ≤ length (escaped_by c t) → must_escape c ≡ true
unfolding Treated
wide_must c skip h w = elim w [ ]
wide_must c (pair d) (inl (e, _)) w = cc
wide_must c (pair d) (inr (inl (d', e, back, must, low))) w = must
wide_must c (pair d) (inr (inr (e, _, _, _))) w = cc
wide_must c copy h (Prim.Native.Nat.suc-le-suc w) = elim w [ ]

full_must : (s : Bytes) → length s * 2 ≤ length (escaped s) → All (λ c. must_escape c ≡ true) s
unfolding escaped
full_must [] h = tt
full_must (c ∷ s) h =
    let here = escaped_by c (treatment c) in
    let more = length-append here (escaped s) in
    let w = width_le c (treatment c) in
    let b = length-escaped s in
    (wide_must c (treatment c) (treatment_lem c) (omega arith), full_must s (omega arith))

escaped_fits :
    (json : Bytes)
    → length json * 2 < 2 ^ 64
    → length (escaped json) < length json * 2
    → json_escape json ≡ some (escaped json)
unfolding json_escape
escaped_fits json small room =
    let size = length json * 2 % 2 ^ 64 in
    some_bind (λ buf. put_byte size buf 0 >>= λ _. some buf)
      (escape_loop_lem size [] json (omega arith))
    ∙ some_bind _ (put_byte_lem size (escaped json) 0 (omega arith))

-- A text with a byte that need not be escaped.
pub json_escape-escaped :
    (json : Bytes)
    → length json * 2 < 2 ^ 64
    → ¬ All (λ c. must_escape c ≡ true) json
    → json_escape json ≡ some (escaped json)
json_escape-escaped json small h =
    elim (Bool-cases (ltb (length (escaped json)) (length json * 2))) [
      | inl room ↦ escaped_fits json small (ltb→lt (length (escaped json)) (length json * 2) room)
      | inr full ↦
          absurd (h (full_must json (ltb→le (length (escaped json)) (length json * 2) full)))
    ]

-- For a text whose doubled length a size_t holds, json_escape writes what reads back as the text
-- without the bytes from 192 on, or every byte of the text is one that must be escaped, and then
-- the final NUL is written past the end of the buffer.
pub json_escape-unescape :
    (json : Bytes)
    → length json * 2 < 2 ^ 64
    → ((t : Bytes) × (json_escape json ≡ some t) × (unescape t ≡ some (ascii_only json)))
      ⊎ (All (λ c. must_escape c ≡ true) json × (json_escape json ≡ none))
unfolding json_escape
json_escape-unescape json small =
    let size = length json * 2 % 2 ^ 64 in
    let same : size ≡ length json * 2 = omega arith in
    let b = length-escaped json in
    let loop =
      some_bind (λ buf. put_byte size buf 0 >>= λ _. some buf)
        (escape_loop_lem size [] json (omega arith)) in
    elim (Bool-cases (ltb (length (escaped json)) size)) [
      | inl room ↦ inl (
        escaped json,
        escaped_fits json small (omega (arith, ltb→lt (length (escaped json)) size room)),
        unescape-escaped json,
      )
      | inr full ↦ inr (
        full_must json (omega (arith, ltb→le (length (escaped json)) size full)),
        loop ∙ ap (λ r. r >>= λ _. some (escaped json)) (put_byte_full size (escaped json) 0 full),
      )
    ]
