-- ===== src/Git/Log/Lines.antt =====
-- The line that `gh_log` of src/git_handler.c writes, and where it is cut.
use magit.Base.{
  ℕ, zero, suc, ◌+◌, ◌-◌, ◌≤◌, ◌<◌, ◌≡◌, ◌≢◌, refl, sym, ap, subst, ◌∙◌, Bool, true, not, ◌&&◌,
  ◌==◌, List, [], ◌∷◌, ◌++◌, arith, Bytes, All, concat, length, take, take-all, length-take,
  length-append, replicate, leb, leb→le, leb→gt, Bool-cases, inl, inr, if◌then◌else◌,
  take-append_le, take-take,
}
use magit.Git.Store.{Level, debug, info, warn, error_level, off}
use magit.Git.Refs.{codes}
use magit.Git.Log.{
  newline, msg_size, buf_size, printed, pad_right, pad_zeros, set_last, gh_log_level_name, Call,
  line_parts, whole_line, gh_log_line,
}

-- No newline among these bytes.
abbrev pub IsPlain : Bytes → Type 0
IsPlain t = All (λ c. c ≢ newline) t

IsPlain-append : (s t : Bytes) → IsPlain s → IsPlain t → IsPlain (s ++ t)
IsPlain-append [] t h k = k
IsPlain-append (c ∷ s) t (h, hs) k = (h, IsPlain-append s t hs k)

IsPlain-take : (n : ℕ) (t : Bytes) → IsPlain t → IsPlain (take n t)
IsPlain-take zero t h = tt
IsPlain-take (suc n) [] h = tt
IsPlain-take (suc n) (c ∷ t) (h, hs) = (h, IsPlain-take n t hs)

IsPlain-replicate : (n c : ℕ) → c ≢ newline → IsPlain (replicate n c)
IsPlain-replicate zero c h = tt
IsPlain-replicate (suc n) c h = (h, IsPlain-replicate n c h)

-- A line that does not fit an array is cut.
cut_line :
    (n m : ℕ) (body : Bytes)
    → n ≤ m
    → n ≤ length body
    → take n (take m (body ++ newline ∷ [])) ++ newline ∷ [] ≡ take n body ++ newline ∷ []
cut_line n m body h k =
    ap (λ t. t ++ newline ∷ [])
      (take-take n m (body ++ newline ∷ []) h ∙ take-append_le n body (newline ∷ []) k)

-- The texts of the format have no newline.
plain : Bytes → Bool
plain [] = true
plain (c ∷ t) = not (c == newline) && plain t

plain→IsPlain : (t : Bytes) → plain t ≡ true → IsPlain t
unfolding plain
plain→IsPlain [] h = tt
plain→IsPlain (c ∷ t) h = elim (Bool-cases (c == newline)) [
  | inl e ↦ cc
  | inr e ↦ (ground arith, plain→IsPlain t (rw e at h))
]

level_name-IsPlain : (l : Level) → IsPlain (gh_log_level_name l)
unfolding gh_log_level_name plain
level_name-IsPlain debug = plain→IsPlain (codes "DEBUG") refl
level_name-IsPlain info = plain→IsPlain (codes "INFO") refl
level_name-IsPlain warn = plain→IsPlain (codes "WARN") refl
level_name-IsPlain error_level = plain→IsPlain (codes "ERROR") refl
level_name-IsPlain off = plain→IsPlain (codes "?") refl

IsPlain-concat : (ts : List Bytes) → All IsPlain ts → IsPlain (concat ts)
IsPlain-concat [] h = tt
IsPlain-concat (t ∷ ts) (h, hs) = IsPlain-append t (concat ts) h (IsPlain-concat ts hs)

-- The line in the array, of a text that is to be followed by a newline.
fitted : Bytes → Bytes
fitted body =
    let whole = body ++ newline ∷ [] in
    if leb buf_size (length whole)
    then set_last (buf_size - 1) newline (printed buf_size whole)
    else printed buf_size whole

-- The text in front of the newline in the array.
kept : Bytes → Bytes
kept body = take (buf_size - 2) body

fitted-kept : (body : Bytes) → fitted body ≡ kept body ++ newline ∷ []
unfolding fitted kept
fitted-kept body =
    let whole = body ++ newline ∷ [] in
    let size : length whole ≡ length body + 1 = length-append body (newline ∷ []) in
    elim (Bool-cases (leb buf_size (length whole))) [
      | inl long ↦
          let enough : buf_size ≤ length whole = leb→le buf_size (length whole) long in
          rw long (cut_line (buf_size - 2) (buf_size - 1) body (omega arith) (omega arith))
      | inr short ↦
          let small : length whole < buf_size = leb→gt buf_size (length whole) short in
          rw short (
            take-all (buf_size - 1) whole (omega arith)
            ∙ ap (λ t. t ++ newline ∷ []) (sym (take-all (buf_size - 2) body (omega arith))))
    ]

length-fitted : (body : Bytes) → length (fitted body) < buf_size
unfolding kept
length-fitted body =
    subst (λ n. n < buf_size)
      (sym (ap length (fitted-kept body) ∙ length-append (kept body) (newline ∷ [])))
      (omega (arith, length-take (buf_size - 2) body))

module _ (decimal : ℕ → Bytes) where
  -- The parts of a line that come from outside have no newline.
  pub record Plain (c : Call) : Type 0 where
    pub decimals : (n : ℕ) → IsPlain (decimal n)
    pub time : IsPlain c.time
    pub func : IsPlain c.func
    pub message : IsPlain c.message

  line_parts-IsPlain : (c : Call) → Plain c → All IsPlain (line_parts decimal c)
  unfolding pad_right pad_zeros plain
  line_parts-IsPlain c h = (
    h.time,
    (
      plain→IsPlain (codes ".") refl,
      (
        IsPlain-append (replicate (3 - length (decimal c.millis)) 48) (decimal c.millis)
            (IsPlain-replicate (3 - length (decimal c.millis)) 48 (omega arith))
            (h.decimals c.millis),
        (
          plain→IsPlain (codes " [") refl,
          (
            IsPlain-append (gh_log_level_name c.level) _ (level_name-IsPlain c.level)
                (IsPlain-replicate (5 - length (gh_log_level_name c.level)) 32 (omega arith)),
            (
              plain→IsPlain (codes "] [") refl,
              (
                h.decimals c.thread,
                (
                  plain→IsPlain (codes "] ") refl,
                  (
                    h.func,
                    (
                      plain→IsPlain (codes ":") refl,
                      (
                        h.decimals c.line,
                        (
                          plain→IsPlain (codes ": ") refl,
                          (IsPlain-take (msg_size - 1) c.message h.message, tt),
                        ),
                      ),
                    ),
                  ),
                ),
              ),
            ),
          ),
        ),
      ),
    ),
  )

  -- Where the decimals, the time, the function's name and the message have no newline, gh_log
  -- writes just one line: it ends in its only newline and fits the array with its final NUL, and
  -- what stands in front of the newline is as much as fits of the parts of the line.
  pub gh_log_line-ends :
      (c : Call)
      → Plain c
      → (t : Bytes) × (gh_log_line decimal c ≡ t ++ newline ∷ [])
        × IsPlain t
        × (length (gh_log_line decimal c) < buf_size)
        × (t ≡ take (buf_size - 2) (concat (line_parts decimal c)))
  unfolding gh_log_line whole_line fitted kept
  gh_log_line-ends c h =
      let body = concat (line_parts decimal c) in
      (
        take (buf_size - 2) body,
        fitted-kept body,
        IsPlain-take (buf_size - 2) body
            (IsPlain-concat (line_parts decimal c) (line_parts-IsPlain c h)),
        length-fitted body,
        refl,
      )
