-- ===== src/Git/Capture/Runs.antt =====
-- `run_git_capture` of src/git_handler.c: its descriptors, its output and its end.
use magit.Base.{
  ℕ, ◌<◌, ◌≡◌, refl, sym, ap, subst, ◌∙◌, Bool, true, false, ◌||◌, Option, none, some, [], ◌∷◌,
  ◌++◌, arith, Bytes, length, take, take-append, take-all, length-replicate, ◌⊎◌, inl, inr,
  if◌then◌else◌, ◌>>=◌,
}
use magit.Git.Api.{error, success, failure}
use magit.Git.Store.{error_level}
use magit.Git.Capture.{
  stdout_read, stdout_write, remove_fd, same_fd, both_pipes, or_else, exited, System, Capture, Run,
  blocked, returned, error_size, text, restore, Polled, polling, left, close, wait_loop,
  after_polls, close_all, parent, with_pipes, begun, refuse, gh_log, run_git_capture,
}
use magit.Git.Capture.Reads.{IsValid, read_ends}
use magit.Git.Capture.Loop.{stdout_still, stderr_still, stdout_of, Loop, Looped, poll_loop_lem}
use magit.Git.Capture.Waits.{first_answer, Answered, Waited, wait_loop_lem, close_ends}

-- What run_git_capture promises of each way in which it can end.
abbrev pub Captured : System → Option Bytes → Run → Type 0
Captured os out (blocked c) =
    (c.error_length < error_size)
    × (((stdout_still true os.polls || stderr_still true os.polls) ≡ true)
        ⊎ (first_answer os.waits ≡ none))
Captured os out (returned success c) =
    (c.fds ≡ [])
    × (text c.out ≡ text out ++ stdout_of true os.polls)
    × (stdout_still true os.polls ≡ false)
    × (stderr_still true os.polls ≡ false)
    × (first_answer os.waits ≡ some (exited 0))
Captured os out (returned (failure e) c) = (c.fds ≡ []) × (text c.out ≡ text out)

-- The length of the text is enough to restore it.
restore_lem :
    (out later : Option Bytes) (x : Bytes)
    → text later ≡ text out ++ x
    → text (restore (length (text out)) later) ≡ text out
unfolding restore
restore_lem out none x e =
    sym (take-all (length (text out)) [] (omega arith))
    ∙ ap (take (length (text out))) e
    ∙ take-append (text out) x
restore_lem out (some t) x e = ap (take (length (text out))) e ∙ take-append (text out) x

after_wait :
    (os : System) (out : Option Bytes) (c0 c1 : Bool) (d : Capture) (q : Run)
    → IsValid c0 c1 d
    → Loop true true (text out) os.polls (left d)
    → Answered (length (text out)) (record d { fds = [] }) os.waits q
    → Captured os out q
unfolding Loop Answered
after_wait os out c0 c1 d (blocked c) v l (h, same) =
    (subst (λ x. x.error_length < error_size) (sym same) v.within, inr h)
after_wait os out c0 c1 d (returned success c) v (_, _, _, grown, whole) (fds, kept, ok, answer) =
    let (t, s0, s1) = whole ok in (fds, ap text kept ∙ t, s0, s1, answer)
after_wait os out c0 c1 d (returned (failure e) c) v (_, _, _, (x, grown), whole)
      (fds, restored, w, h) =
    (fds, ap text restored ∙ restore_lem out d.out x grown)

abbrev Captures : System → Option Bytes → Option Run → Type 0
Captures os out r = (q : Run) × (r ≡ some q) × Captured os out q

blocked_in_poll :
    (os : System) (out : Option Bytes) (d : Capture)
    → Loop true true (text out) os.polls (polling d)
    → Captured os out (blocked d)
unfolding Loop
blocked_in_poll os out d (still, within) = (within, inl still)

left_IsValid :
    (os : System) (out : Option Bytes) (d : Capture)
    → Loop true true (text out) os.polls (left d)
    → (c0 : Bool) × (c1 : Bool) × IsValid c0 c1 d
unfolding Loop
left_IsValid os out d (c0, c1, v, _, _) = (c0, c1, v)

after_polls_lem :
    (os : System) (out : Option Bytes) (q : Polled)
    → Loop true true (text out) os.polls q
    → Captures os out (after_polls (length (text out)) os.waits q)
unfolding after_polls Waited
after_polls_lem os out (polling d) l = (blocked d, refl, blocked_in_poll os out d l)
after_polls_lem os out (left d) l =
    let start = length (text out) in
    let (c0, c1, v) = left_IsValid os out d l in
    let (q, waits, answered) =
      wait_loop_lem start (record d { fds = [] }) os.waits v.cells v.within in
    (
      q,
      close_ends c0 c1 d (λ d. wait_loop start d os.waits) v ∙ waits,
      after_wait os out c0 c1 d q v l answered,
    )

parent_lem :
    (os : System) (out : Option Bytes)
    → Captures os out (parent os (record (begun out) { fds = both_pipes }))
unfolding parent close_all close remove_fd same_fd Looped
parent_lem os out =
    let c : Capture = record (begun out) { fds = read_ends true true } in
    let (q, loops, l) =
      poll_loop_lem true true os.polls c
        (record {
          flag0 = refl;
          flag1 = refl;
          ends = refl;
          cells = length-replicate {A = ℕ} error_size 0;
          within = omega arith;
        })
        refl in
    let (r, ends, captured) = after_polls_lem os out q l in
    (r, ap (λ p. p >>= after_polls (length (text out)) os.waits) loops ∙ ends, captured)

Captures-if :
    (os : System) (out : Option Bytes) (b : Bool) {r q : Option Run}
    → Captures os out r
    → Captures os out q
    → Captures os out (if b then r else q)
Captures-if os out true h k = h
Captures-if os out false h k = k

refuse_lem :
    (os : System) (out : Option Bytes) (c : Capture)
    → c.fds ≡ []
    → text c.out ≡ text out
    → Captures os out (some (returned (failure error) (gh_log error_level c)))
refuse_lem os out c closed same = (_, refl, (closed, same))

with_pipes_lem :
    (os : System) (out : Option Bytes)
    → Captures os out (with_pipes os (record (begun out) { fds = both_pipes }))
unfolding with_pipes close_all close remove_fd same_fd
with_pipes_lem os out =
    let refused = refuse_lem os out (begun out) refl refl in
    Captures-if os out _ (Captures-if os out os.fork (parent_lem os out) refused) refused

-- Whatever the system answers, run_git_capture ends without a fault, that is, it closes no
-- descriptor twice and writes within its array, or it is blocked in a call because an output has
-- not ended yet or waitpid has not answered. When it returns, all its
-- descriptors are closed. With 0, the buffer has grown by all the bytes that were read from standard
-- output, both outputs were read to their ends, and the command exited with status 0; with
-- another code the text of the buffer is what it was.
pub run_git_capture-Captured :
    (os : System) (out : Option Bytes)
    → (r : Run) × (run_git_capture os out ≡ some r) × Captured os out r
unfolding run_git_capture close_all close remove_fd same_fd
run_git_capture-Captured os out =
    elim (or_else os.workdir os.repository_path)
      as (λ path. Captures os out (elim path [
        | none ↦ refuse [] (begun out)
        | some p ↦
            if os.pipe_stdout
            then (if os.pipe_stderr
                then with_pipes os (record (begun out) { fds = both_pipes })
                else refuse (stdout_read ∷ stdout_write ∷ [])
                    (record (begun out) { fds = stdout_read ∷ stdout_write ∷ [] }))
            else refuse [] (begun out)
      ])) [
        | none ↦ refuse_lem os out (begun out) refl refl
        | some path ↦
            let refused = refuse_lem os out (begun out) refl refl in
            Captures-if os out os.pipe_stdout
              (Captures-if os out os.pipe_stderr (with_pipes_lem os out) refused) refused
      ]
