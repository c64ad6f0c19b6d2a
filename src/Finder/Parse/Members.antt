-- ===== src/Finder/Parse/Members.antt =====
-- What the parsing in `handle_json_msg` of src/json_msg_handler.c takes from the tokens.
use magit.Base.{
  ℕ, zero, suc, ◌<◌, ◌≡◌, refl, ap, ◌∙◌, Bool, true, false, Option, none, some, List, [], ◌∷◌, ◌++◌,
  append-nil, Bytes, length, drop, lt→ltb, Bool-cases, inl, inr, ℤ, ◌>>=◌, some_bind, if◌then◌else◌,
}
use magit.Finder.Jobs.{same_text}
use magit.Finder.Mru.{path_max}
use magit.Finder.Parse.{
  Token, slice, is_primitive, Key, cmd, value, mru_path, yank_path, list_cmd, key_of, Elements,
  same_key, put_element, put_number, other_token, scan_tokens,
}
use magit.Finder.Text.{atoi}

-- What a message holds: an element under a key, a number, or a token that the code passes over.
pub data Part : Type 0 where
  element : Key → Bytes → Part
  number : Bytes → Part
  passed : Part

-- The tokens of some parts in a text.
pub data Tokenised (json : Bytes) : List Part → List Token → Type 0 where
  nothing : Tokenised json [] []
  element_tokens :
      {ps : List Part} {ts : List Token} (k : Key) (text : Bytes) (name v : Token)
      → key_of json name ≡ some k
      → slice json v ≡ some text
      → length text < path_max
      → Tokenised json ps ts
      → Tokenised json (element k text ∷ ps) (name ∷ v ∷ ts)
  number_token :
      {ps : List Part} {ts : List Token} (digits : Bytes) (t : Token)
      → key_of json t ≡ none
      → is_primitive t.kind ≡ true
      → slice json t ≡ some digits
      → length digits < 100
      → Tokenised json ps ts
      → Tokenised json (number digits ∷ ps) (t ∷ ts)
  passed_token :
      {ps : List Part} {ts : List Token} (t : Token)
      → key_of json t ≡ none
      → is_primitive t.kind ≡ false
      → Tokenised json ps ts
      → Tokenised json (passed ∷ ps) (t ∷ ts)

-- The element under a key, or the empty text; and the last number, or `n`.
unfoldable pub element_of : Key → List Part → Bytes
element_of j [] = []
element_of j (element k text ∷ ps) = if same_key j k then text else element_of j ps
element_of j (number digits ∷ ps) = element_of j ps
element_of j (passed ∷ ps) = element_of j ps

unfoldable pub number_of : ℤ → List Part → ℤ
number_of n [] = n
number_of n (element k text ∷ ps) = number_of n ps
number_of n (number digits ∷ ps) = number_of (atoi digits) ps
number_of n (passed ∷ ps) = number_of n ps

unfoldable pub has_key : Key → List Part → Bool
has_key j [] = false
has_key j (element k text ∷ ps) = if same_key j k then true else has_key j ps
has_key j (number digits ∷ ps) = has_key j ps
has_key j (passed ∷ ps) = has_key j ps

-- No key comes twice.
abbrev pub IsDistinct : List Part → Type 0
IsDistinct [] = Unit
IsDistinct (element k text ∷ ps) = (has_key k ps ≡ false) × IsDistinct ps
IsDistinct (number digits ∷ ps) = IsDistinct ps
IsDistinct (passed ∷ ps) = IsDistinct ps

-- What is still to come into an array that is empty where its key is still to come.
abbrev pub Holds : Elements → List Part → Elements → Type 0
Holds e ps r =
    (r.seq ≡ number_of e.seq ps)
    × ((j : Key) → r.cell j ≡ (if has_key j ps then element_of j ps else e.cell j))

abbrev pub Fresh : Elements → List Part → Type 0
Fresh e ps = (j : Key) → has_key j ps ≡ true → e.cell j ≡ []

same_key-eq : (j k : Key) → same_key j k ≡ true → j ≡ k
unfolding same_text
same_key-eq cmd cmd h = refl
same_key-eq value value h = refl
same_key-eq mru_path mru_path h = refl
same_key-eq yank_path yank_path h = refl
same_key-eq list_cmd list_cmd h = refl
same_key-eq j k h = cc

drop-nil : (n : ℕ) → drop {A = ℕ} n [] ≡ []
drop-nil zero = refl
drop-nil (suc n) = refl

-- The elements behind one that was copied.
abbrev with_element : Key → Bytes → Elements → Elements
with_element k text e = record e {
  cell = λ j. if same_key j k then text ++ drop (length text) (e.cell j) else e.cell j;
}

with_element-Fresh :
    (k : Key) (text : Bytes) (e : Elements) (ps : List Part)
    → has_key k ps ≡ false
    → Fresh e (element k text ∷ ps)
    → Fresh (with_element k text e) ps
unfolding has_key
with_element-Fresh k text e ps once fresh j later = elim (Bool-cases (same_key j k)) [
  | inl same ↦ let gone = ap (λ j. has_key j ps) (same_key-eq j k same) in cc
  | inr other ↦ rw other (fresh j (rw other later))
]

with_element-Holds :
    (k : Key) (text : Bytes) (e : Elements) (ps : List Part) (r : Elements)
    → has_key k ps ≡ false
    → Fresh e (element k text ∷ ps)
    → Holds (with_element k text e) ps r
    → Holds e (element k text ∷ ps) r
unfolding has_key element_of number_of
with_element-Holds k text e ps r once fresh (seq, cells) = (
  seq,
  λ j. elim (Bool-cases (same_key j k)) [
    | inl same ↦
        let gone : has_key j ps ≡ false = ap (λ j. has_key j ps) (same_key-eq j k same) ∙ once in
        let empty : e.cell j ≡ [] = fresh j (rw same refl) in
        let copied : text ++ drop (length text) (e.cell j) ≡ text =
          ap (λ c. text ++ drop (length text) c) empty
          ∙ ap (λ c. text ++ c) (drop-nil (length text))
          ∙ append-nil text in
        let cell = cells j in rw same (rw (gone, same) at cell ∙ copied)
    | inr other ↦ let cell = cells j in rw other (rw other at cell)
  ],
)

scan_other :
    (json : Bytes) (t : Token) (ts : List Token) (e next : Elements)
    → key_of json t ≡ none
    → other_token json t e ≡ some next
    → scan_tokens json (t ∷ ts) e ≡ scan_tokens json ts next
unfolding scan_tokens
scan_other json t [] e next h k =
    ap (λ o. elim o as (λ _. Option Elements) [ some k ↦ none | none ↦ other_token json t e ]) h ∙ k
scan_other json t (v ∷ ts) e next h k =
    ap
      (λ o. elim o as (λ _. Option Elements) [
        | some k ↦
            slice json v >>= λ text. put_element k text e >>= λ next. scan_tokens json ts next
        | none ↦ other_token json t e >>= λ next. scan_tokens json (v ∷ ts) next
      ])
      h
    ∙ some_bind _ k

scan_key :
    (json : Bytes) (name v : Token) (ts : List Token) (e : Elements) (k : Key) (text : Bytes)
    → key_of json name ≡ some k
    → slice json v ≡ some text
    → length text < path_max
    → scan_tokens json (name ∷ (v ∷ ts)) e ≡ scan_tokens json ts (with_element k text e)
unfolding scan_tokens put_element
scan_key json name v ts e k text h spelt fits =
    ap
      (λ o. elim o as (λ _. Option Elements) [
        | some k ↦
            slice json v >>= λ text. put_element k text e >>= λ next. scan_tokens json ts next
        | none ↦ other_token json name e >>= λ next. scan_tokens json (v ∷ ts) next
      ])
      h
    ∙ some_bind _ spelt
    ∙ rw (lt→ltb (length text) path_max fits)

other_number :
    (json : Bytes) (t : Token) (digits : Bytes) (e : Elements)
    → is_primitive t.kind ≡ true
    → slice json t ≡ some digits
    → length digits < 100
    → other_token json t e ≡ some (record e { seq = atoi digits })
unfolding other_token put_number
other_number json t digits e h spelt fits =
    rw h (some_bind _ spelt ∙ rw (lt→ltb (length digits) 100 fits))

other_passed :
    (json : Bytes) (t : Token) (e : Elements)
    → is_primitive t.kind ≡ false
    → other_token json t e ≡ some e
unfolding other_token
other_passed json t e h = rw h

pub scan_tokens_lem :
    (json : Bytes) (e : Elements) (ps : List Part) (ts : List Token)
    → Tokenised json ps ts
    → IsDistinct ps
    → Fresh e ps
    → (r : Elements) × (scan_tokens json ts e ≡ some r) × Holds e ps r
unfolding scan_tokens element_of number_of has_key
scan_tokens_lem json e _ _ nothing d fresh = (e, refl, (refl, λ j. refl))
scan_tokens_lem json e _ _ (element_tokens {ps} {ts} k text name v named spelt fits h) d fresh =
    let (r, ran, held) =
      scan_tokens_lem json (with_element k text e) ps ts h d.1
        (with_element-Fresh k text e ps d.0 fresh) in
    (
      r,
      scan_key json name v ts e k text named spelt fits ∙ ran,
      with_element-Holds k text e ps r d.0 fresh held,
    )
scan_tokens_lem json e _ _ (number_token {ps} {ts} digits t no_key is_number spelt fits h) d fresh =
    let next : Elements = record e { seq = atoi digits } in
    let (r, ran, held) = scan_tokens_lem json next ps ts h d fresh in
    (
      r,
      scan_other json t ts e next no_key (other_number json t digits e is_number spelt fits) ∙ ran,
      held,
    )
scan_tokens_lem json e _ _ (passed_token {ps} {ts} t no_key other h) d fresh =
    let (r, ran, held) = scan_tokens_lem json e ps ts h d fresh in
    (r, scan_other json t ts e e no_key (other_passed json t e other) ∙ ran, held)
