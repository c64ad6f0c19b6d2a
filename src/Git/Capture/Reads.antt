-- ===== src/Git/Capture/Reads.antt =====
-- The loop of `run_git_capture` in src/git_handler.c around `poll`: what each round keeps.
use magit.Base.{
  ℕ, ◌+◌, ◌<◌, ◌≡◌, refl, sym, ap, ◌∙◌, min, Bool, true, false, Option, some, List, [], ◌∷◌, ◌++◌,
  append-nil, arith, Bytes, length, take, length-take, sub64, sub64_lem, memcpy_fits, inl, inr,
  ◌>>=◌,
}
use magit.Git.Store.{Level, Code-cases}
use magit.Git.Api.{Code, success}
use magit.Git.Capture.{
  Fd, remove_fd, same_fd, stdout_read, stderr_read, bytes, eof, interrupted, broken, Event, quiet,
  readable, Poll, poll_interrupted, poll_failed, ready, Capture, error_size, close, text, kputsn,
  read_stdout, read_stderr, at_event, unless_failed, poll_round,
}

-- The descriptors that are open while the loop runs.
abbrev pub read_ends : Bool → Bool → List Fd
read_ends true true = stdout_read ∷ stderr_read ∷ []
read_ends true false = stdout_read ∷ []
read_ends false true = stderr_read ∷ []
read_ends false false = []

-- The flags say which descriptors are open, and the text of standard error ends within its array.
pub record IsValid (b0 b1 : Bool) (c : Capture) : Type 0 where
  pub flag0 : c.stdout_open ≡ b0
  pub flag1 : c.stderr_open ≡ b1
  pub ends : c.fds ≡ read_ends b0 b1
  pub cells : length c.error_output ≡ error_size
  pub within : c.error_length < error_size

-- What an event adds to standard output's text, and whether the descriptor is open behind it.
abbrev pub event_text : Bool → Event → Bytes
event_text true (readable (bytes t)) = t
event_text _ _ = []

abbrev pub stays_open : Bool → Event → Bool
stays_open true (readable eof) = false
stays_open b _ = b

abbrev pub At : Bool → Bool → Bytes → Option Capture → Type 0
At b0 b1 t r = (d : Capture) × (r ≡ some d) × IsValid b0 b1 d × (text d.out ≡ t)

pub close_stdout :
    (b1 : Bool) (c : Capture)
    → c.fds ≡ read_ends true b1
    → close stdout_read c ≡ some (record c { fds = read_ends false b1 })
unfolding close remove_fd same_fd
close_stdout true c e = rw e
close_stdout false c e = rw e

pub close_stderr :
    (b0 : Bool) (c : Capture)
    → c.fds ≡ read_ends b0 true
    → close stderr_read c ≡ some (record c { fds = read_ends b0 false })
unfolding close remove_fd same_fd
close_stderr true c e = rw e
close_stderr false c e = rw e

-- The invariant does not speak of the text, the log and the return code.
IsValid-others :
    {b0 b1 : Bool} {c : Capture} (out : Option Bytes) (ret : Code) (log : List Level)
    → IsValid b0 b1 c
    → IsValid b0 b1 (record c { out = out; ret = ret; log = log })
IsValid-others out ret log v = record {
  flag0 = v.flag0;
  flag1 = v.flag1;
  ends = v.ends;
  cells = v.cells;
  within = v.within;
}

read_stdout_lem :
    (b0 b1 : Bool) (e : Event) (c : Capture)
    → IsValid b0 b1 c
    → At (stays_open b0 e) b1 (text c.out ++ event_text b0 e) (at_event read_stdout b0 e c)
unfolding read_stdout kputsn
read_stdout_lem false b1 e c v = (c, refl, v, sym (append-nil (text c.out)))
read_stdout_lem true b1 quiet c v = (c, refl, v, sym (append-nil (text c.out)))
read_stdout_lem true b1 (readable (bytes t)) c v = (_, refl, IsValid-others _ c.ret c.log v, refl)
read_stdout_lem true b1 (readable eof) c v = (
  record c { fds = read_ends false b1; stdout_open = false },
  rw (close_stdout b1 c v.ends),
  record { flag0 = refl; flag1 = v.flag1; ends = refl; cells = v.cells; within = v.within },
  sym (append-nil (text c.out)),
)
read_stdout_lem true b1 (readable interrupted) c v = (c, refl, v, sym (append-nil (text c.out)))
read_stdout_lem true b1 (readable broken) c v =
    (_, refl, IsValid-others c.out _ _ v, sym (append-nil (text c.out)))

-- What of standard error's bytes is kept never passes the end of its array.
copy_fits : (n m : ℕ) → n < error_size → n + min (sub64 2047 n) m < error_size
copy_fits n m h = omega (arith, sub64_lem 2047 n (omega arith) (omega arith))

read_stderr_lem :
    (b0 b1 : Bool) (e : Event) (c : Capture)
    → IsValid b0 b1 c
    → At b0 (stays_open b1 e) (text c.out) (at_event read_stderr b1 e c)
unfolding read_stderr
read_stderr_lem b0 false e c v = (c, refl, v, refl)
read_stderr_lem b0 true quiet c v = (c, refl, v, refl)
read_stderr_lem b0 true (readable (bytes t)) c v =
    let copy = min (sub64 2047 c.error_length) (length t) in
    let fits : c.error_length + copy < error_size = copy_fits c.error_length (length t) v.within in
    let (buf, e, cells, _) =
      memcpy_fits c.error_output c.error_length (take copy t) copy
        (omega (arith, length-take copy t)) (omega (arith, v.cells)) in
    (
      record c { error_output = buf; error_length = c.error_length + copy },
      rw e,
      record {
        flag0 = v.flag0;
        flag1 = v.flag1;
        ends = v.ends;
        cells = cells ∙ v.cells;
        within = fits;
      },
      refl,
    )
read_stderr_lem b0 true (readable eof) c v = (
  record c { fds = read_ends b0 false; stderr_open = false },
  rw (close_stderr b0 c v.ends),
  record { flag0 = v.flag0; flag1 = refl; ends = refl; cells = v.cells; within = v.within },
  refl,
)
read_stderr_lem b0 true (readable interrupted) c v = (c, refl, v, refl)
read_stderr_lem b0 true (readable broken) c v = (_, refl, IsValid-others c.out _ _ v, refl)

-- The same for a round, whose second half is left out when the first fails.
abbrev pub round_text : Bool → Poll → Bytes
round_text b0 (ready e0 e1) = event_text b0 e0
round_text b0 _ = []

abbrev pub stdout_stays : Bool → Poll → Bool
stdout_stays b0 (ready e0 e1) = stays_open b0 e0
stdout_stays b0 _ = b0

abbrev pub stderr_stays : Bool → Poll → Bool
stderr_stays b1 (ready e0 e1) = stays_open b1 e1
stderr_stays b1 _ = b1

abbrev pub Round : Bool → Bool → Poll → Capture → Option Capture → Type 0
Round b0 b1 p c r =
    (d : Capture) × (r ≡ some d)
    × (b : Bool) × IsValid (stdout_stays b0 p) b d
    × (text d.out ≡ text c.out ++ round_text b0 p)
    × (d.ret ≡ success → b ≡ stderr_stays b1 p)

pub poll_round_lem :
    (b0 b1 : Bool) (p : Poll) (c : Capture) → IsValid b0 b1 c → Round b0 b1 p c (poll_round c p)
unfolding poll_round
poll_round_lem b0 b1 poll_interrupted c v =
    (c, refl, b1, v, sym (append-nil (text c.out)), λ h. refl)
poll_round_lem b0 b1 poll_failed c v =
    (_, refl, b1, IsValid-others c.out _ _ v, sym (append-nil (text c.out)), λ h. refl)
poll_round_lem b0 b1 (ready e0 e1) c v =
    let (d, e, w, t) = read_stdout_lem b0 b1 e0 c v in
    let (d', e', w', t') = read_stderr_lem (stays_open b0 e0) b1 e1 d w in
    let second : Bool → Capture → Option Capture =
      λ b x. unless_failed x.ret (at_event read_stderr b e1) x in
    let first =
      ap (λ b. at_event read_stdout b e0 c >>= second c.stderr_open) v.flag0
      ∙ ap (λ r. r >>= second c.stderr_open) e
      ∙ ap (λ b. second b d) v.flag1 in
    elim (Code-cases d.ret) [
      | inl good ↦ (
        d',
        first ∙ ap (λ r. unless_failed r (at_event read_stderr b1 e1) d) good ∙ e',
        stays_open b1 e1,
        w',
        t' ∙ t,
        λ h. refl,
      )
      | inr (err, bad) ↦ (
        d,
        first ∙ ap (λ r. unless_failed r (at_event read_stderr b1 e1) d) bad,
        b1,
        w,
        t,
        λ h. cc,
      )
    ]
