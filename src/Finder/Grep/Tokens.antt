-- ===== src/Finder/Grep/Tokens.antt =====
-- The tokens that strtok_r makes of whole lines.
use magit.Base.{
  ℕ, ◌≡◌, ◌≢◌, refl, sym, ap, ◌∙◌, true, false, List, [], ◌∷◌, ◌++◌, append_assoc, append-nil,
  Bytes, All, All-weaken, ==_ne,
}
use magit.Finder.Text.{c_string-append, c_string}
use magit.Finder.Grep.{is_end, flush, tokens}
use magit.Finder.Lines.Rounds.{terminated}

-- Some bytes, none of them a NUL or the end of a line.
abbrev pub IsPlain : Bytes → Type 0
IsPlain t = All (λ c. (c ≢ 0) × (c ≢ 10) × (c ≢ 13)) t

abbrev pub IsFilled : Bytes → Type 0
IsFilled [] = ⊥
IsFilled (c ∷ t) = IsPlain (c ∷ t)

tokens-byte :
    (seen : Bytes) (c : ℕ) (s : Bytes)
    → c ≢ 10
    → c ≢ 13
    → tokens seen (c ∷ s) ≡ tokens (seen ++ c ∷ []) s
unfolding tokens
tokens-byte seen c s h k =
    ap
      (λ b. elim b as (λ _. List Bytes) [
        | true ↦ flush seen ++ tokens [] s
        | false ↦ tokens (seen ++ c ∷ []) s
      ])
      (is_end_no c h k)
  where
    is_end_no : (c : ℕ) → c ≢ 10 → c ≢ 13 → is_end c ≡ false
    is_end_no c h k = rw (==_ne c 13 k) (==_ne c 10 h)

tokens-line :
    (seen t s : Bytes) → IsPlain t → tokens seen (t ++ 10 ∷ s) ≡ flush (seen ++ t) ++ tokens [] s
unfolding tokens
tokens-line seen [] s h = ap (λ k. flush k ++ tokens [] s) (sym (append-nil seen))
tokens-line seen (c ∷ t) s ((a, b, d), h) =
    tokens-byte seen c (t ++ 10 ∷ s) b d
    ∙ tokens-line (seen ++ c ∷ []) t s h
    ∙ ap (λ k. flush k ++ tokens [] s) (append_assoc seen (c ∷ []) t)

pub tokens-terminated :
    (lines : List Bytes) → All IsFilled lines → tokens [] (terminated lines) ≡ lines
unfolding tokens
tokens-terminated [] h = refl
tokens-terminated ([] ∷ lines) (bad, h) = absurd bad
tokens-terminated ((c ∷ t) ∷ lines) (plain, h) =
    ap (tokens []) (append_assoc (c ∷ t) (10 ∷ []) (terminated lines))
    ∙ tokens-line [] (c ∷ t) (terminated lines) plain
    ∙ ap (λ ls. (c ∷ t) ∷ ls) (tokens-terminated lines h)

c_string-plain : (t s : Bytes) → IsPlain t → c_string (t ++ s) ≡ t ++ c_string s
c_string-plain t s h = c_string-append t s (All-weaken t (λ c p. p.0) h)

pub c_string-terminated :
    (lines : List Bytes) → All IsFilled lines → c_string (terminated lines) ≡ terminated lines
unfolding c_string
c_string-terminated [] h = refl
c_string-terminated ([] ∷ lines) (bad, h) = absurd bad
c_string-terminated ((c ∷ t) ∷ lines) (plain, h) =
    let whole = append_assoc (c ∷ t) (10 ∷ []) (terminated lines) in
    ap c_string whole
    ∙ c_string-plain (c ∷ t) (10 ∷ terminated lines) plain
    ∙ ap (λ s. (c ∷ t) ++ 10 ∷ s) (c_string-terminated lines h)
    ∙ sym whole
