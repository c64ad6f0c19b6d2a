-- ===== src/Finder/Grep/Rounds.antt =====
-- How grep.c goes over the lines of one read.
use magit.Base.{
  ◌≤◌, ◌<◌, ◌≡◌, inl, inr, refl, sym, ap, ◌∙◌, arith, Bool, true, false, some, List, [], ◌∷◌, ◌++◌,
  append_assoc, append-nil, Bytes, All, length, length-append, min, ltb, lt→ltb, ltb→lt, ltb→le,
  Bool-cases, some_bind,
}
use magit.Finder.Escape.Inverse.{unescape, ascii_only, must_escape, json_escape-unescape}
use magit.Finder.Grep.{
  Context, tokens, put_entry, grep_line, grep_lines, handle_grep_out, read_pipe,
}
use magit.Finder.Grep.Tokens.{IsFilled, tokens-terminated, c_string-terminated}
use magit.Finder.Growth.{grown, grown_room}
use magit.Finder.Input.{max_vim_input}
use magit.Finder.Lines.Loaded.{listed}
use magit.Finder.Lines.Rounds.{terminated}
use magit.Finder.Reply.{Entry}

-- The entries for some lines: a line of more than 512 bytes has none, and the text of another reads
-- back, as the inside of a JSON string, as the line without its bytes from 192 on.
pub data Listed : List Bytes → List Entry → Type 0 where
  nothing : Listed [] []
  too_long :
      {ls : List Bytes} {es : List Entry} (l : Bytes)
      → 512 < length l
      → Listed ls es
      → Listed (l ∷ ls) es
  shown :
      {ls : List Bytes} {es : List Entry} (l t : Bytes)
      → length l ≤ 512
      → unescape t ≡ some (ascii_only l)
      → Listed ls es
      → Listed (l ∷ ls) (listed t ∷ es)

-- Not every byte must be escaped.
abbrev pub IsMixed : Bytes → Type 0
IsMixed l = ¬ All (λ c. must_escape c ≡ true) l

pub Listed-append :
    {ls ls' : List Bytes} {es es' : List Entry}
    → Listed ls es
    → Listed ls' es'
    → Listed (ls ++ ls') (es ++ es')
Listed-append nothing k = k
Listed-append (too_long l long h) k = too_long l long (Listed-append h k)
Listed-append (shown l t short same h) k = shown l t short same (Listed-append h k)

-- The array of the entries is not too small.
pub record HasRoom (ctx : Context) : Type 0 where
  pub filled : 1 ≤ ctx.file_res_buf_size
  pub room : length ctx.file_res ≤ ctx.file_res_buf_size

-- A context with more entries, in an array that is large enough.
pub record Grown (ctx : Context) (es : List Entry) (next : Context) : Type 0 where
  pub same_seq : next.seq ≡ ctx.seq
  pub entries : next.file_res ≡ ctx.file_res ++ es
  pub has_room : HasRoom next

pub put_entry_lem :
    (ctx : Context) (path : Bytes)
    → HasRoom ctx
    → (next : Context) × (put_entry ctx path ≡ some next) × Grown ctx (listed path ∷ []) next
unfolding put_entry
put_entry_lem ctx path h =
    let count = length ctx.file_res in
    let size = grown ctx.file_res_buf_size count in
    let (more, filled) = grown_room ctx.file_res_buf_size count h.filled h.room in
    (
      _,
      rw (lt→ltb count size more),
      record {
        same_seq = refl;
        entries = refl;
        has_room = record {
          filled = filled;
          room = omega (arith, length-append ctx.file_res (listed path ∷ []));
        };
      },
    )

pub grep_line_lem :
    (ctx : Context) (l : Bytes)
    → IsMixed l
    → HasRoom ctx
    → (es : List Entry) × (next : Context) × (grep_line ctx l ≡ some next)
      × Listed (l ∷ []) es
      × Grown ctx es next
unfolding grep_line
grep_line_lem ctx l mixed h = elim (Bool-cases (ltb 512 (min (length l) 600))) [
  | inl long ↦ (
    [],
    ctx,
    rw long refl,
    too_long l (omega (arith, ltb→lt 512 (min (length l) 600) long)) nothing,
    record { same_seq = refl; entries = sym (append-nil ctx.file_res); has_room = h },
  )
  | inr short ↦
      let few = ltb→le 512 (min (length l) 600) short in
      elim (json_escape-unescape l (omega arith)) [
        | inr (all, fault) ↦ absurd (mixed all)
        | inl (t, ran, same) ↦
            let (next, put, more) = put_entry_lem ctx t h in
            (
              listed t ∷ [],
              next,
              rw short (some_bind _ ran ∙ put),
              shown l t (omega arith) same nothing,
              more,
            )
      ]
]

pub Grown-trans :
    (ctx mid next : Context) (es fs : List Entry)
    → Grown ctx es mid
    → Grown mid fs next
    → Grown ctx (es ++ fs) next
Grown-trans ctx mid next es fs h k = record {
  same_seq = k.same_seq ∙ h.same_seq;
  entries = k.entries ∙ ap (λ r. r ++ fs) h.entries ∙ append_assoc ctx.file_res es fs;
  has_room = k.has_room;
}

pub grep_lines_lem :
    (ctx : Context) (lines : List Bytes)
    → All IsMixed lines
    → HasRoom ctx
    → (es : List Entry) × (next : Context) × (grep_lines ctx lines ≡ some next)
      × Listed lines es
      × Grown ctx es next
unfolding grep_lines
grep_lines_lem ctx [] mixed h = (
  [],
  ctx,
  refl,
  nothing,
  record { same_seq = refl; entries = sym (append-nil ctx.file_res); has_room = h },
)
grep_lines_lem ctx (l ∷ lines) (one, mixed) h =
    let (es, mid, ran, list, more) = grep_line_lem ctx l one h in
    let (es', next, ran', list', more') = grep_lines_lem mid lines mixed more.has_room in
    (
      es ++ es',
      next,
      some_bind _ ran ∙ ran',
      Listed-append list list',
      Grown-trans ctx mid next es es' more more',
    )

-- A read of whole lines that are not empty.
abbrev pub IsRead : List Bytes → Type 0
IsRead lines = All IsFilled lines × All IsMixed lines × (length (terminated lines) < max_vim_input)

abbrev pub uncancelled : List Bytes → Bool × Bytes
uncancelled lines = (false, terminated lines)

pub handle_lines :
    (ctx : Context) (lines : List Bytes)
    → All IsFilled lines
    → handle_grep_out false ctx (terminated lines) ≡ grep_lines ctx lines
unfolding handle_grep_out
handle_lines ctx lines h =
    ap (λ s. grep_lines ctx (tokens [] s)) (c_string-terminated lines h)
    ∙ ap (grep_lines ctx) (tokens-terminated lines h)

pub read_lines :
    (ctx : Context) (lines : List Bytes)
    → IsRead lines
    → read_pipe false ctx (terminated lines) ≡ grep_lines ctx lines
unfolding read_pipe grep_lines
read_lines ctx [] h = refl
read_lines ctx ([] ∷ lines) ((bad, _), _, _) = absurd bad
read_lines ctx ((c ∷ t) ∷ lines) (plain, mixed, fits) =
    let whole = terminated ((c ∷ t) ∷ lines) in
    rw (lt→ltb (length whole) max_vim_input fits) (handle_lines ctx ((c ∷ t) ∷ lines) plain)
