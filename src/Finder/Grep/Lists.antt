-- ===== src/Finder/Grep/Lists.antt =====
-- What a grep of src/grep.c replies.
use magit.Base.{
  if_bind, ℕ, ◌≡◌, ◌≢◌, refl, sym, ap, ◌∙◌, arith, none, some, List, [], ◌∷◌, ◌++◌, append-nil, map,
  concat, Bytes, All, take, length, ltb, ==_ne, ℤ, ◌>>=◌, some_bind, if◌then◌else◌,
}
use magit.Git.Refs.{codes}
use magit.Finder.Grep.{Context, started, read_all, sigint, on_proc_exit, grep}
use magit.Finder.Reply.{Entry, max_response_lines, max_real_response_size, send_res_from_file_info}
use magit.Finder.Reply.Whole.{body, reply, send_res_from_file_info-writes}
use magit.Finder.Grep.Rounds.{
  nothing, Listed, Listed-append, HasRoom, Grown, Grown-trans, grep_lines_lem, IsRead, uncancelled,
  read_lines,
}

read_all_lem :
    (ctx : Context) (reads : List (List Bytes))
    → All IsRead reads
    → HasRoom ctx
    → (es : List Entry) × (next : Context) × (read_all ctx (map uncancelled reads) ≡ some next)
      × Listed (concat reads) es
      × Grown ctx es next
unfolding read_all
read_all_lem ctx [] h room = (
  [],
  ctx,
  refl,
  nothing,
  record { same_seq = refl; entries = sym (append-nil ctx.file_res); has_room = room },
)
read_all_lem ctx (lines ∷ reads) (one, h) room =
    let (es, mid, ran, list, more) = grep_lines_lem ctx lines one.1 room in
    let (es', next, ran', list', more') = read_all_lem mid reads h more.has_room in
    (
      es ++ es',
      next,
      some_bind _ (read_lines ctx lines one ∙ ran) ∙ ran',
      Listed-append list list',
      Grown-trans ctx mid next es es' more more',
    )

started-HasRoom : (n : ℤ) → HasRoom (started n)
started-HasRoom n = record { filled = omega arith; room = omega arith }

-- If a grep writes its lines so that each read gets whole lines, less than 65536 bytes of them, and
-- nothing cancels it, then at the end of its process, unless that is by SIGINT, the reply lists
-- the first 100 entries, where it fits its buffer. The lines are not empty and have no NUL and
-- no carriage return, and not every byte of one must be escaped. There is an entry for each
-- line of at most 512 bytes, in order, and its text reads back as the line without its bytes
-- from 192 on.
pub grep-Listed :
    (decimal : ℕ → Bytes) (seq : ℤ) (reads : List (List Bytes)) (term_signal : ℕ)
    → All IsRead reads
    → term_signal ≢ sigint
    → (es : List Entry) × Listed (concat reads) es
      × (grep decimal seq (map uncancelled reads) term_signal ≡ (
          let sent = take max_response_lines es in
          if ltb (length (body decimal (codes "grep") sent seq)) max_real_response_size
          then some (some (reply decimal (codes "grep") sent seq))
          else none))
unfolding grep on_proc_exit
grep-Listed decimal seq reads term_signal h signal =
    let (es, next, ran, list, more) = read_all_lem (started seq) reads h (started-HasRoom seq) in
    let sent = take max_response_lines es in
    (
      es,
      list,
      some_bind _ ran
          ∙ rw (==_ne term_signal sigint signal) (
              ap (λ r. r >>= λ t. some (some t))
                (ap (λ fs. send_res_from_file_info decimal (codes "grep") fs next.seq) more.entries
                  ∙ ap (send_res_from_file_info decimal (codes "grep") es) more.same_seq
                  ∙ send_res_from_file_info-writes decimal (codes "grep") es seq)
              ∙ if_bind (ltb (length (body decimal (codes "grep") sent seq)) max_real_response_size)
                  (reply decimal (codes "grep") sent seq) (λ t. some (some t))),
    )
