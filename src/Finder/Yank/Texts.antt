-- ===== src/Finder/Yank/Texts.antt =====
-- The text of a yank: the first line of its file, up to 150 bytes.
use magit.Base.{
  ℕ, zero, suc, ◌+◌, ◌-◌, ◌≤◌, min, ◌≡◌, ◌≢◌, refl, sym, ap, ◌∙◌, inl, inr, arith, true, some, List,
  [], ◌∷◌, ◌++◌, append_assoc, append-nil, Bytes, All, All-append, length, length-append,
  length-take, take, take-all, take-append_le, leb, leb→le, leb→gt, Bool-cases, some_bind,
}
use magit.Git.Refs.{codes}
use magit.Finder.Escape.{skip, pair, copy, Treatment, treatment, json_escape}
use magit.Finder.Escape.Inverse.{
  must_escape, decode, escaped, escaped_by, Treated, treatment_lem, unescape, ascii_only,
  unescape-escaped, json_escape-escaped,
}
use magit.Finder.Text.{c_string, c_string-append}
use magit.Finder.Yank.{YankFile, Dirent, Yank, yank_line, yank_of, result_line, result_len_max}

abbrev NotNul : ℕ → Type 0
NotNul c = c ≢ 0

All-front {ℓ κ} : {A : Type ℓ} (P : A → Type κ) (xs ys : List A) → All P (xs ++ ys) → All P xs
All-front P [] ys h = tt
All-front P (x ∷ xs) ys (h, hs) = (h, All-front P xs ys hs)

All-take {ℓ κ} : {A : Type ℓ} (P : A → Type κ) (n : ℕ) (xs : List A) → All P xs → All P (take n xs)
All-take P zero xs h = tt
All-take P (suc n) [] h = tt
All-take P (suc n) (x ∷ xs) (h, hs) = (h, All-take P n xs hs)

take_over {ℓ} :
    {A : Type ℓ} (n : ℕ) (xs ys : List A)
    → length xs ≤ n
    → take n (xs ++ ys) ≡ xs ++ take (n - length xs) ys
take_over n [] ys h = let e : n ≡ n - 0 = omega arith in ap (λ m. take m ys) e
take_over zero (x ∷ xs) ys h = elim h [ ]
take_over (suc n) (x ∷ xs) ys h =
    let e : n - length xs ≡ suc n - suc (length xs) = omega arith in
    ap (◌∷◌ x) (take_over n xs ys (omega arith) ∙ ap (λ m. xs ++ take m ys) e)

escaped-append : (s t : Bytes) → escaped (s ++ t) ≡ escaped s ++ escaped t
unfolding escaped
escaped-append [] t = refl
escaped-append (c ∷ s) t =
    ap (λ u. escaped_by c (treatment c) ++ u) (escaped-append s t)
    ∙ sym (append_assoc (escaped_by c (treatment c)) (escaped s) (escaped t))

decode_plain : (d c : ℕ) → decode d ≡ some c → d ≢ 0
unfolding decode
decode_plain zero c h e = cc
decode_plain (suc d) c h e = cc

escaped_by_plain : (c : ℕ) (t : Treatment) → Treated c t → c ≢ 0 → All NotNul (escaped_by c t)
unfolding Treated
escaped_by_plain c skip h plain = tt
escaped_by_plain c (pair d) (inl (e, _)) plain = cc
escaped_by_plain c (pair d) (inr (inl (d', e, back, _, _))) plain =
    (λ z. ground arith, (λ z. decode_plain d' c back cc, tt))
escaped_by_plain c (pair d) (inr (inr (e, _, _, _))) plain = cc
escaped_by_plain c copy h plain = (plain, tt)

escaped_plain : (s : Bytes) → All NotNul s → All NotNul (escaped s)
unfolding escaped
escaped_plain [] h = tt
escaped_plain (c ∷ s) (h, hs) =
    All-append NotNul (escaped_by c (treatment c)) (escaped s)
      (escaped_by_plain c (treatment c) (treatment_lem c) h) (escaped_plain s hs)

-- Bytes that nothing is printed of.
abbrev Silent : Bytes → Type 0
Silent t = c_string (escaped t) ≡ []

Silent-nil : Silent []
unfolding escaped c_string
Silent-nil = refl

Silent-nul : (t : Bytes) → Silent (0 ∷ t)
unfolding escaped c_string treatment
Silent-nul t = refl

printed_part : (s t : Bytes) → All NotNul s → Silent t → c_string (escaped (s ++ t)) ≡ escaped s
printed_part s t h silent =
    ap c_string (escaped-append s t)
    ∙ c_string-append (escaped s) (escaped t) (escaped_plain s h)
    ∙ ap (λ u. escaped s ++ u) silent
    ∙ append-nil (escaped s)

yank_line_lem :
    (cells : Bytes)
    → 1 ≤ length cells
    → yank_line cells ≡ some (take (min (length cells - 1) 150) cells)
unfolding yank_line
yank_line_lem [] h = elim h [ ]
yank_line_lem (c ∷ cells) h = refl

same_front :
    (line : Bytes) (rest n : ℕ)
    → n ≡ min (length line + rest) 150
    → n ≤ length line
    → take n line ≡ take 150 line
same_front line rest n e h = elim (Bool-cases (leb 150 (length line + rest))) [
  | inl k ↦
      let far = leb→le 150 (length line + rest) k in
      let full : n ≡ 150 = omega arith in ap (λ m. take m line) full
  | inr k ↦
      let near = leb→gt 150 (length line + rest) k in
      take-all n line (omega arith) ∙ sym (take-all 150 line (omega arith))
]

-- The first line as it is cut, and what follows it in the buffer.
cut_line :
    (line rest : Bytes) (n : ℕ)
    → n ≡ min (length line + length rest) 150
    → (t : Bytes) × (take n (line ++ 0 ∷ rest) ≡ take 150 line ++ t) × Silent t
cut_line line rest n e = elim (Bool-cases (leb n (length line))) [
  | inl h ↦
      let near = leb→le n (length line) h in
      (
        [],
        take-append_le n line (0 ∷ rest) near
            ∙ same_front line (length rest) n e near
            ∙ sym (append-nil (take 150 line)),
        Silent-nil,
      )
  | inr h ↦
      let far = leb→gt n (length line) h in
      let k = n - length line - 1 in
      let more : n - length line ≡ suc k = omega arith in
      (
        0 ∷ take k rest,
        take_over n line (0 ∷ rest) (omega arith)
            ∙ ap (λ m. line ++ take m (0 ∷ rest)) more
            ∙ ap (λ l. l ++ 0 ∷ take k rest) (sym (take-all 150 line (omega arith))),
        Silent-nul (take k rest),
      )
]

-- What is listed of a file whose first line is `line`.
abbrev pub IsYank : Dirent → YankFile → Bytes → Yank → Type 0
IsYank d f line y =
    (shown : Bytes) × (unescape shown ≡ some (ascii_only (take 150 line)))
    × (y.file_path ≡ take (result_len_max - 1) (d.d_name ++ (codes "| " ++ shown)))
    × (y.f_len ≡ length (d.d_name ++ (codes "| " ++ shown)))
    × (y.yank_score ≡ f.mtime)

-- A buffer of getline: the first line, its NUL and what lies behind it, with a byte that need not
-- be escaped among the first 150 of the line.
abbrev pub HasLine : Bytes → Bytes → Type 0
HasLine cells line =
    (rest : Bytes) × (cells ≡ line ++ 0 ∷ rest)
    × All (λ c. c ≢ 0) line
    × ¬ All (λ c. must_escape c ≡ true) (take 150 line)

pub yank_of_lem :
    (d : Dirent) (f : YankFile) (line : Bytes)
    → HasLine f.cells line
    → (y : Yank) × (yank_of d f ≡ some y) × IsYank d f line y
unfolding yank_of result_line
yank_of_lem d f line (rest, e, plain, mixed) =
    let n = min (length f.cells - 1) 150 in
    let size : length f.cells ≡ length line + suc (length rest) =
      ap length e ∙ length-append line (0 ∷ rest) in
    let (t, cut, silent) = cut_line line rest n (omega arith) in
    let shown = take 150 line in
    let read : yank_line f.cells ≡ some (shown ++ t) =
      yank_line_lem f.cells (omega arith) ∙ ap some (ap (take n) e ∙ cut) in
    let small : length (shown ++ t) ≤ 150 =
      omega (arith, ap length cut, length-take n (line ++ 0 ∷ rest)) in
    let written =
      json_escape-escaped (shown ++ t) (omega arith) (λ h. mixed (All-front _ shown t h)) in
    let text = printed_part shown t (All-take NotNul 150 line plain) silent in
    (
      _,
      some_bind _ (some_bind json_escape read ∙ written),
      (
        escaped shown,
        unescape-escaped shown,
        ap (λ s. take (result_len_max - 1) (d.d_name ++ (codes "| " ++ s))) text,
        ap (λ s. length (d.d_name ++ (codes "| " ++ s))) text,
        refl,
      ),
    )
