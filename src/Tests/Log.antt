-- ===== src/Tests/Log.antt =====
-- `gh_log` of src/git_handler.c on two calls, with the log in a file.
use magit.Base.{
  ℕ, ◌<◌, ◌≡◌, arith, none, some, List, [], ◌∷◌, ◌++◌, ◌-◌, Bytes, length, take, concat, true,
}
use magit.Git.Store.{info, warn}
use magit.Git.Refs.{codes}
use magit.Git.Status.{equal}
use magit.Git.Log.{newline, buf_size, Environment, unset, Call, line_parts, gh_log_line}
use magit.Git.Log.Lines.{IsPlain, Plain, gh_log_line-ends}
use magit.Git.Log.Calls.{gh_log_all, lines_from, gh_log_all-written}

-- One digit is enough here.
abbrev digit : ℕ → Bytes
digit n = 53 ∷ []

abbrev call : Call
call = record {
  level = warn;
  time = codes "10:00:00";
  millis = 5;
  thread = 5;
  func = codes "main";
  line = 5;
  message = codes "hi";
}

abbrev env : Environment
env = record {
  log_level = some (codes "Warn");
  log_file = some (codes "l");
  opens = true;
  strerror = [];
}

abbrev later : Environment
later = record { log_level = some (codes "debug"); log_file = none; opens = true; strerror = [] }

call-Plain : Plain digit call
call-Plain = record {
  decimals = λ n. (ground arith, tt);
  time = ground arith;
  func = ground arith;
  message = ground arith;
}

gh_log_line-ends_example :
    (t : Bytes) × (gh_log_line digit call ≡ t ++ newline ∷ [])
    × IsPlain t
    × (length (gh_log_line digit call) < buf_size)
    × (t ≡ take (buf_size - 2) (concat (line_parts digit call)))
gh_log_line-ends_example = gh_log_line-ends digit call call-Plain

abbrev calls : List (Environment × Call)
calls = (later, record call { level = info }) ∷ (later, call) ∷ []

gh_log_all-written_example :
    let written = lines_from digit warn ((env, call) ∷ calls) in
    let l = gh_log_all digit ((env, call) ∷ calls) unset in (l.file ≡ written) × (l.stderr ≡ [])
unfolding equal
gh_log_all-written_example = gh_log_all-written digit env call calls
