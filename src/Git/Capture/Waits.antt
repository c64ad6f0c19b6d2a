-- ===== src/Git/Capture/Waits.antt =====
-- `run_git_capture` of src/git_handler.c from the end of its loop on: the last descriptors and `waitpid`.
use magit.Base.{
  ℕ, zero, suc, ◌<◌, ◌≡◌, refl, ap, ◌∙◌, Bool, true, false, Option, none, some, List, [], ◌∷◌,
  arith, Bytes, length, memcpy_fits, ◌>>=◌,
}
use magit.Git.Api.{Code, success, failure}
use magit.Git.Capture.{
  stdout_read, stderr_read, Wait, wait_interrupted, wait_failed, exited, signalled, Capture, Run,
  blocked, returned, error_size, restore, close_if, end_error, give_up, finish_status, wait_loop,
}
use magit.Git.Capture.Reads.{IsValid, read_ends, close_stdout, close_stderr}

-- The answer of waitpid that the function goes by.
abbrev pub first_answer : List Wait → Option Wait
first_answer [] = none
first_answer (wait_interrupted ∷ ws) = first_answer ws
first_answer (w ∷ ws) = some w

unfoldable pub Answered : ℕ → Capture → List Wait → Run → Type 0
Answered start c ws (blocked d) = (first_answer ws ≡ none) × (d ≡ c)
Answered start c ws (returned success d) =
    (d.fds ≡ c.fds) × (d.out ≡ c.out) × (c.ret ≡ success) × (first_answer ws ≡ some (exited 0))
Answered start c ws (returned (failure e) d) =
    (d.fds ≡ c.fds) × (d.out ≡ restore start c.out) × (w : Wait) × (first_answer ws ≡ some w)

unfoldable pub Waited : ℕ → Capture → List Wait → Option Run → Type 0
Waited start c ws r = (q : Run) × (r ≡ some q) × Answered start c ws q

-- The end of the text of standard error is written within its array.
end_error_lem :
    (c : Capture)
    → length c.error_output ≡ error_size
    → c.error_length < error_size
    → (buf : Bytes) × (end_error c ≡ some (record c { error_output = buf }))
unfolding end_error
end_error_lem c cells within =
    let (buf, e, _, _) =
      memcpy_fits c.error_output c.error_length (0 ∷ []) 1 refl (omega (arith, cells)) in
    (buf, rw e)

finish_status_lem :
    (start : ℕ) (c : Capture) (buf : Bytes) (code : Code) (w : Wait) (ws : List Wait)
    → c.ret ≡ code
    → first_answer ws ≡ some w
    → Answered start c ws (finish_status start code w (record c { error_output = buf }))
unfolding finish_status give_up Answered
finish_status_lem start c buf (failure e) w ws at h = (refl, refl, w, h)
finish_status_lem start c buf success (exited zero) ws at h = (refl, refl, at, h)
finish_status_lem start c buf success (exited (suc n)) ws at h = (refl, refl, _, h)
finish_status_lem start c buf success signalled ws at h = (refl, refl, _, h)
finish_status_lem start c buf success wait_interrupted ws at h = (refl, refl, _, h)
finish_status_lem start c buf success wait_failed ws at h = (refl, refl, _, h)

wait_end :
    (start : ℕ) (c : Capture) (w : Wait) (ws : List Wait)
    → length c.error_output ≡ error_size
    → c.error_length < error_size
    → first_answer ws ≡ some w
    → Waited start c ws (end_error c >>= λ d. some (finish_status start d.ret w d))
unfolding Waited
wait_end start c w ws cells within h =
    let (buf, e) = end_error_lem c cells within in
    (
      finish_status start c.ret w (record c { error_output = buf }),
      rw e,
      finish_status_lem start c buf c.ret w ws refl h,
    )

Answered-interrupted :
    (start : ℕ) (c : Capture) (ws : List Wait) (q : Run)
    → Answered start c ws q
    → Answered start c (wait_interrupted ∷ ws) q
unfolding Answered
Answered-interrupted start c ws (blocked d) a = a
Answered-interrupted start c ws (returned success d) a = a
Answered-interrupted start c ws (returned (failure e) d) a = a

pub wait_loop_lem :
    (start : ℕ) (c : Capture) (ws : List Wait)
    → length c.error_output ≡ error_size
    → c.error_length < error_size
    → Waited start c ws (wait_loop start c ws)
unfolding Waited wait_loop Answered give_up
wait_loop_lem start c [] cells within = (blocked c, refl, (refl, refl))
wait_loop_lem start c (wait_interrupted ∷ ws) cells within =
    let (q, e, a) = wait_loop_lem start c ws cells within in
    (q, e, Answered-interrupted start c ws q a)
wait_loop_lem start c (wait_failed ∷ ws) cells within = (_, refl, (refl, refl, wait_failed, refl))
wait_loop_lem start c (exited n ∷ ws) cells within =
    wait_end start c (exited n) (exited n ∷ ws) cells within refl
wait_loop_lem start c (signalled ∷ ws) cells within =
    wait_end start c signalled (signalled ∷ ws) cells within refl

close_if_stdout :
    (b b1 : Bool) (c : Capture)
    → c.fds ≡ read_ends b b1
    → close_if b stdout_read c ≡ some (record c { fds = read_ends false b1 })
unfolding close_if
close_if_stdout true b1 c e = close_stdout b1 c e
close_if_stdout false b1 c e = ap (λ ks. some (record c { fds = ks })) e

close_if_stderr :
    (b : Bool) (c : Capture)
    → c.fds ≡ read_ends false b
    → close_if b stderr_read c ≡ some (record c { fds = [] })
unfolding close_if
close_if_stderr true c e = close_stderr false c e
close_if_stderr false c e = ap (λ ks. some (record c { fds = ks })) e

pub close_ends :
    (c0 c1 : Bool) (c : Capture) (k : Capture → Option Run)
    → IsValid c0 c1 c
    → (close_if c.stdout_open stdout_read c >>= λ d. close_if c.stderr_open stderr_read d >>= k)
      ≡ k (record c { fds = [] })
close_ends c0 c1 c k v =
    let then_stderr : Capture → Option Run = λ d. close_if c.stderr_open stderr_read d >>= k in
    let after : Capture = record c { fds = read_ends false c1 } in
    ap (λ b. close_if b stdout_read c >>= then_stderr) v.flag0
    ∙ ap (λ r. r >>= then_stderr) (close_if_stdout c0 c1 c v.ends)
    ∙ ap (λ b. close_if b stderr_read after >>= k) v.flag1
    ∙ ap (λ r. r >>= k) (close_if_stderr c1 after refl)
