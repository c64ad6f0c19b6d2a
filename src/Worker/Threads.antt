-- ===== src/Worker/Threads.antt =====
-- src/git_handler.c: `RUN_PARALLEL_TASKS`, as the answers in the order of the tasks. The threads
-- share nothing but the log and libgit2's own state, and all are joined before an answer is read;
-- how they interleave is not modelled.
use magit.Base.{Option, none, some, List, [], ◌∷◌}
use magit.Worker.Tasks.{Answer}

-- An answer in front of those of the other threads, if none of them faulted.
abbrev pub add : Option Answer → Option (List Answer) → Option (List Answer)
add none r = none
add (some a) none = none
add (some a) (some rest) = some (a ∷ rest)

module _ {T : Type 0} (run : T → Option Answer) where
  unfoldable pub run_parallel_tasks : List T → Option (List Answer)
  run_parallel_tasks [] = some []
  run_parallel_tasks (t ∷ ts) = add (run t) (run_parallel_tasks ts)
