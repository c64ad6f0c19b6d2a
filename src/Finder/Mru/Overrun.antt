-- ===== src/Finder/Mru/Overrun.antt =====
-- The loop of `load_mru_to_file_info` in src/mru.c does not see the end of the file.
use magit.Base.{
  ℕ, zero, suc, ◌+◌, ◌≤◌, ◌≡◌, ◌≢◌, refl, ap, ◌∙◌, arith, Bool, true, false, Option, none, some,
  List, [], ◌∷◌, ◌++◌, Bytes, All, length, length-append, replicate, ltb, lt→ltb, le→ltb, ltb→le,
  ltb→lt, ◌<◌, ◌==◌, Bool-cases, inl, inr, ℤ, ◌>>=◌, some_bind, none_bind, ◌⊎◌, if◌then◌else◌,
}
use magit.Finder.Mru.{
  path_max, Load, Flow, goes_on, put_char, end_key, eof, end_line, put_other, load_char, load_chars,
}

-- The buffer that the next ordinary byte goes to.
unfoldable pub room_used : Bool → Load → ℕ
room_used true l = length l.val_buf
room_used false l = length l.key_buf

put_char_full : (buf : Bytes) (c : ℕ) → path_max ≤ length buf → put_char buf c ≡ none
unfolding put_char
put_char_full buf c h = rw (le→ltb (length buf) path_max h)

put_char_fits :
    (buf : Bytes) (c : ℕ) → length buf < path_max → put_char buf c ≡ some (buf ++ c ∷ [])
unfolding put_char
put_char_fits buf c h = rw (lt→ltb (length buf) path_max h)

-- A byte that is put into the buffer in use, or does not fit.
put_other_full : (b : Bool) (l : Load) (c : ℕ) → path_max ≤ room_used b l → put_other b l c ≡ none
unfolding put_other room_used
put_other_full true l c h =
    ap (λ r. r >>= λ b. some (goes_on (record l { val_buf = b }))) (put_char_full l.val_buf c h)
put_other_full false l c h =
    ap (λ r. r >>= λ b. some (goes_on (record l { key_buf = b }))) (put_char_full l.key_buf c h)

put_other_fits :
    (b : Bool) (l : Load) (c : ℕ)
    → room_used b l < path_max
    → (m : Load) × (put_other b l c ≡ some (goes_on m))
      × (m.in_value ≡ l.in_value)
      × (room_used b m ≡ room_used b l + 1)
unfolding put_other room_used
put_other_fits true l c h = (
  record l { val_buf = l.val_buf ++ c ∷ [] },
  some_bind _ (put_char_fits l.val_buf c h),
  refl,
  length-append l.val_buf (c ∷ []),
)
put_other_fits false l c h = (
  record l { key_buf = l.key_buf ++ c ∷ [] },
  some_bind _ (put_char_fits l.key_buf c h),
  refl,
  length-append l.key_buf (c ∷ []),
)

-- A step of the loop that does not leave it.
abbrev Going : Option Flow → Type 0
Going r = ((m : Load) × (r ≡ some (goes_on m))) ⊎ (r ≡ none)

Going-if : (b : Bool) (m : Load) → Going (if b then some (goes_on m) else none)
Going-if true m = inl (m, refl)
Going-if false m = inr refl

put_other_cases : (b : Bool) (l : Load) (c : ℕ) → Going (put_other b l c)
put_other_cases b l c = elim (Bool-cases (ltb (room_used b l) path_max)) [
  | inl room ↦
      let (m, ran, _, _) = put_other_fits b l c (ltb→lt (room_used b l) path_max room) in
      inl (m, ran)
  | inr full ↦ inr (put_other_full b l c (ltb→le (room_used b l) path_max full))
]

module _ (atoi : Bytes → ℤ) where
  eof_char : (b : Bool) (l : Load) → l.in_value ≡ b → load_char atoi l eof ≡ put_other b l eof
  unfolding load_char
  eof_char b l e = ap (λ v. put_other v l eof) e

  -- Behind the end of the file every byte is put into a buffer, until it is full.
  eof_fills :
      (k : ℕ) (b : Bool) (l : Load)
      → l.in_value ≡ b
      → path_max + 1 ≤ room_used b l + suc k
      → load_chars atoi l (replicate (suc k) eof) ≡ none
  unfolding load_chars
  eof_fills zero b l e h = none_bind _ (eof_char b l e ∙ put_other_full b l eof (omega arith))
  eof_fills (suc k) b l e h = elim (Bool-cases (ltb (room_used b l) path_max)) [
    | inl room ↦
        let (m, ran, same, grown) = put_other_fits b l eof (ltb→lt (room_used b l) path_max room) in
        some_bind _ (eof_char b l e ∙ ran) ∙ eof_fills k b m (same ∙ e) (omega (arith, grown))
    | inr full ↦
        none_bind _ (eof_char b l e ∙ put_other_full b l eof (ltb→le (room_used b l) path_max full))
  ]

  -- Only a NUL leaves the loop.
  load_char_cases :
      (l : Load) (c : ℕ)
      → c ≢ 0
      → ((m : Load) × (load_char atoi l c ≡ some (goes_on m))) ⊎ (load_char atoi l c ≡ none)
  unfolding load_char end_key end_line
  load_char_cases l c h = elim (Bool-cases (c == 58)) [
    | inl e ↦ rw e (Going-if _ _)
    | inr e ↦ elim (Bool-cases (c == 10)) [
      | inl e' ↦ rw (e, e') (Going-if _ _)
      | inr e' ↦ elim (Bool-cases (c == 0)) [
        | inl z ↦ let same : c ≡ 0 = ground arith in elim (h same) [ ]
        | inr z ↦ rw (e, e', z) (put_other_cases l.in_value l c)
      ]
    ]
  ]

  -- From any state of the loop and for any file without a NUL, a write passes the end of an array
  -- at the latest when fgetc has answered EOF 4097 times: the loop does not see the end of the file.
  pub load_chars_overrun :
      (file : List ℕ) (l : Load)
      → All (λ c. c ≢ 0) file
      → load_chars atoi l (file ++ replicate (path_max + 1) eof) ≡ none
  unfolding load_chars
  load_chars_overrun [] l h = eof_fills path_max l.in_value l refl (omega arith)
  load_chars_overrun (c ∷ file) l (h, hs) = elim (load_char_cases l c h) [
    | inl (m, e) ↦ some_bind _ e ∙ load_chars_overrun file m hs
    | inr e ↦ none_bind _ e
  ]
