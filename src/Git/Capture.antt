-- ===== src/Git/Capture.antt =====
-- src/git_handler.c: `run_git_capture`. The system is the parameter `os`: what its calls answer, the
-- calls of `poll` and `waitpid` as lists that are worked off in order. When a list is used up, the
-- function is still blocked in that call.
pub mod Reads
pub mod Loop
pub mod Waits
pub mod Runs
use magit.Base.{
  ℕ, zero, suc, ◌+◌, ◌-◌, min, Bool, true, false, not, ◌&&◌, ◌||◌, Option, none, some, List, [],
  ◌∷◌, ◌++◌, Bytes, length, take, replicate, sub64, memcpy, ◌>>=◌, leb, if◌then◌else◌,
}
use magit.Git.Api.{error, Code, success, failure}
use magit.Git.Store.{Level, debug, error_level}

-- The two ends of the two pipes.
pub data Fd : Type 0 where
  stdout_read stdout_write stderr_read stderr_write : Fd

-- One `read`, and what `poll` and `read` answer for a descriptor.
pub data Read : Type 0 where
  bytes : Bytes → Read
  eof interrupted broken : Read

pub data Event : Type 0 where
  quiet : Event
  readable : Read → Event

pub data Poll : Type 0 where
  poll_interrupted poll_failed : Poll
  ready : Event → Event → Poll

pub data Wait : Type 0 where
  wait_interrupted wait_failed : Wait
  exited : ℕ → Wait
  signalled : Wait

pub record System : Type 0 where
  pub workdir : Option Bytes
  pub repository_path : Option Bytes
  pub pipe_stdout : Bool
  pub pipe_stderr : Bool
  pub set_cloexec : Fd → Bool
  pub fork : Bool
  pub polls : List Poll
  pub waits : List Wait

-- The buffer `out`, where `none` is NULL, the descriptors that are open, and the locals.
pub record Capture : Type 0 where
  pub out : Option Bytes
  pub fds : List Fd
  pub stdout_open : Bool
  pub stderr_open : Bool
  pub error_output : Bytes
  pub error_length : ℕ
  pub ret : Code
  pub log : List Level

-- Whether the function returned, or is still blocked.
pub data Run : Type 0 where
  blocked : Capture → Run
  returned : Code → Capture → Run

abbrev pub error_size : ℕ
error_size = 2048

same_fd : Fd → Fd → Bool
same_fd stdout_read stdout_read = true
same_fd stdout_write stdout_write = true
same_fd stderr_read stderr_read = true
same_fd stderr_write stderr_write = true
same_fd _ _ = false

remove_fd : Fd → List Fd → Option (List Fd)
remove_fd f [] = none
remove_fd f (k ∷ ks) =
    if same_fd f k
    then some ks
    else elim (remove_fd f ks) [ none ↦ none | some rest ↦ some (k ∷ rest) ]

-- close, a fault on a descriptor that is not open
unfoldable pub close : Fd → Capture → Option Capture
unfolding remove_fd same_fd
close f c = remove_fd f c.fds >>= λ ks. some (record c { fds = ks })

abbrev pub text : Option Bytes → Bytes
text none = []
text (some t) = t

-- kputsn
unfoldable pub kputsn : Bytes → Option Bytes → Option Bytes
kputsn t out = some (text out ++ t)

-- if (out->s) { out->l = output_start; … }
unfoldable pub restore : ℕ → Option Bytes → Option Bytes
restore n none = none
restore n (some t) = some (take n t)

abbrev pub gh_log : Level → Capture → Capture
gh_log l c = record c { log = c.log ++ l ∷ [] }

-- The body of the loop over the two descriptors, for standard output.
unfoldable pub read_stdout : Capture → Read → Option Capture
read_stdout c (bytes t) = some (record c { out = kputsn t c.out })
read_stdout c eof = close stdout_read c >>= λ d. some (record d { stdout_open = false })
read_stdout c interrupted = some c
read_stdout c broken = some (gh_log error_level (record c { ret = failure error }))

-- For standard error, of which what fits is kept.
unfoldable pub read_stderr : Capture → Read → Option Capture
read_stderr c (bytes t) =
    let copy = min (sub64 (error_size - 1) c.error_length) (length t) in
    memcpy c.error_output c.error_length (take copy t) >>= λ buf.
    some (record c { error_output = buf; error_length = c.error_length + copy })
read_stderr c eof = close stderr_read c >>= λ d. some (record d { stderr_open = false })
read_stderr c interrupted = some c
read_stderr c broken = some (gh_log error_level (record c { ret = failure error }))

abbrev pub at_event : (Capture → Read → Option Capture) → Bool → Event → Capture → Option Capture
at_event handle false e c = some c
at_event handle true quiet c = some c
at_event handle true (readable r) c = handle c r

abbrev pub unless_failed : Code → (Capture → Option Capture) → Capture → Option Capture
unless_failed success next c = next c
unless_failed (failure e) next c = some c

-- One round of the loop; `fds` is set up before the first descriptor is read.
unfoldable pub poll_round : Capture → Poll → Option Capture
poll_round c poll_interrupted = some c
poll_round c poll_failed = some (gh_log error_level (record c { ret = failure error }))
poll_round c (ready e0 e1) = at_event read_stdout c.stdout_open e0 c >>= λ d.
    unless_failed d.ret (at_event read_stderr c.stderr_open e1) d

-- How the loop stands: blocked in `poll`, or left.
pub data Polled : Type 0 where
  polling left : Capture → Polled

-- The test of `ret` behind a round.
abbrev pub after_round : Code → Capture → Option Polled → Option Polled
after_round success d more = more
after_round (failure e) d more = some (left d)

unfoldable pub poll_loop : Capture → List Poll → Option Polled
poll_loop c [] = some (if c.stdout_open || c.stderr_open then polling c else left c)
poll_loop c (p ∷ ps) =
    if c.stdout_open || c.stderr_open
    then (poll_round c p >>= λ d. after_round d.ret d (poll_loop d ps))
    else some (left c)

unfoldable pub close_if : Bool → Fd → Capture → Option Capture
close_if true f c = close f c
close_if false f c = some c

-- error_output[error_length] = '\0'
unfoldable pub end_error : Capture → Option Capture
end_error c =
    memcpy c.error_output c.error_length (0 ∷ []) >>= λ buf. some (record c { error_output = buf })

unfoldable pub give_up : ℕ → Capture → Capture
give_up start c = record c { out = restore start c.out }

-- After waitpid has answered with a status.
unfoldable pub finish_status : ℕ → Code → Wait → Capture → Run
finish_status start (failure e) w c = returned (failure e) (give_up start c)
finish_status start success (exited zero) c = returned success c
finish_status start success w c = returned (failure error) (gh_log debug (give_up start c))

unfoldable pub wait_loop : ℕ → Capture → List Wait → Option Run
wait_loop start c [] = some (blocked c)
wait_loop start c (wait_interrupted ∷ ws) = wait_loop start c ws
wait_loop start c (wait_failed ∷ ws) =
    some (returned (failure error) (gh_log error_level (give_up start c)))
wait_loop start c (w ∷ ws) = end_error c >>= λ d. some (finish_status start d.ret w d)

unfoldable pub after_polls : ℕ → List Wait → Polled → Option Run
after_polls start ws (polling c) = some (blocked c)
after_polls start ws (left c) = close_if c.stdout_open stdout_read c >>= λ d.
    close_if c.stderr_open stderr_read d >>= λ d. wait_loop start d ws

unfoldable pub close_all : List Fd → Capture → Option Capture
close_all [] c = some c
close_all (f ∷ fs) c = close f c >>= λ d. close_all fs d

-- Closes what is open, logs and returns -1.
abbrev pub refuse : List Fd → Capture → Option Run
refuse fs c = close_all fs c >>= λ d. some (returned (failure error) (gh_log error_level d))

abbrev pub both_pipes : List Fd
both_pipes = stdout_read ∷ stdout_write ∷ stderr_read ∷ stderr_write ∷ []

-- The parent from `fork` on.
unfoldable pub parent : System → Capture → Option Run
parent os c = close_all (stdout_write ∷ stderr_write ∷ []) c >>= λ d.
    poll_loop d os.polls >>= λ p. after_polls (length (text c.out)) os.waits p

unfoldable pub with_pipes : System → Capture → Option Run
with_pipes os c =
    if os.set_cloexec stdout_read
      && (os.set_cloexec stdout_write
          && (os.set_cloexec stderr_read && os.set_cloexec stderr_write))
    then (if os.fork then parent os c else refuse both_pipes c)
    else refuse both_pipes c

abbrev pub or_else : Option Bytes → Option Bytes → Option Bytes
or_else none b = b
or_else (some a) b = some a

abbrev pub begun : Option Bytes → Capture
begun out = record {
  out = out;
  fds = [];
  stdout_open = true;
  stderr_open = true;
  error_output = replicate error_size 0;
  error_length = 0;
  ret = success;
  log = [];
}

unfoldable pub run_git_capture : System → Option Bytes → Option Run
run_git_capture os out = elim (or_else os.workdir os.repository_path) [
  | none ↦ refuse [] (begun out)
  | some path ↦
      if os.pipe_stdout
      then (if os.pipe_stderr
          then with_pipes os (record (begun out) { fds = both_pipes })
          else refuse (stdout_read ∷ stdout_write ∷ [])
              (record (begun out) { fds = stdout_read ∷ stdout_write ∷ [] }))
      else refuse [] (begun out)
]

-- The child: it ends with a status, or runs the command with these ends still open.
pub data Child : Type 0 where
  exits : ℕ → Child
  executes : List Fd → Child

-- What the child's calls of `dup2` for each descriptor and of `execvp` answer.
unfoldable pub child : Bool → Bool → Bool → Capture → Option Child
child dup_stdout dup_stderr exec c = close_all (stdout_read ∷ stderr_read ∷ []) c >>= λ d.
    if dup_stdout && dup_stderr
    then (close_all (stdout_write ∷ stderr_write ∷ []) d >>= λ e.
        some (if exec then executes e.fds else exits 127))
    else some (exits 126)
