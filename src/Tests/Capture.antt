-- ===== src/Tests/Capture.antt =====
-- `run_git_capture` of src/git_handler.c on a command that writes "ab" in two pieces.
use magit.Base.{◌≡◌, true, none, some, [], ◌∷◌, Option, Bytes}
use magit.Git.Refs.{codes}
use magit.Git.Capture.{
  bytes, eof, interrupted, quiet, readable, poll_interrupted, ready, wait_interrupted, exited,
  System, Run, run_git_capture,
}
use magit.Git.Capture.Runs.{Captured, run_git_capture-Captured}

abbrev system : System
system = record {
  workdir = some (codes "/w/");
  repository_path = none;
  pipe_stdout = true;
  pipe_stderr = true;
  set_cloexec = λ f. true;
  fork = true;
  polls =
      ready (readable (bytes (codes "a"))) quiet
      ∷ poll_interrupted
      ∷ ready (readable interrupted) (readable (bytes (codes "warning")))
      ∷ ready (readable (bytes (codes "b"))) (readable eof)
      ∷ ready (readable eof) quiet
      ∷ [];
  waits = wait_interrupted ∷ exited 0 ∷ [];
}

abbrev before : Option Bytes
before = some (codes ">")

run_git_capture-Captured_example :
    (r : Run) × (run_git_capture system before ≡ some r) × Captured system before r
run_git_capture-Captured_example = run_git_capture-Captured system before
