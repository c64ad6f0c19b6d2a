-- ===== src/Worker/Handler.antt =====
-- src/git_handler.c: `git_root_worker`, `after_git_root`, `git_handler_queue_git_status` and
-- `git_handler_repo_init`.
use magit.Base.{
  ℕ, zero, suc, Bool, true, false, ◌&&◌, Option, none, some, List, [], ◌∷◌, ◌++◌, Bytes,
  if◌then◌else◌,
}
use magit.Git.Api.{error, Reply, ok, failed, Code, success, failure, Git}
use magit.Git.Refs.{codes, git_rev_head}
use magit.Git.Status.{StatusBits}
use magit.Git.Graph.{load_commit_graph, git_version_create}
use magit.Message.Response.{Res}
use magit.Worker.Request
use magit.Worker.Request.{Field, Strings, put, git_root_request_cleanup, Request}
use magit.Worker.Tasks.{
  Answer, and_then, run_query, tasks, parallel_task_runner, task_symbolic_ref_short_head,
  task_branch_upstream_name, task_upstream_subj,
}
use magit.Worker.Threads.{run_parallel_tasks}

-- ret == 0
abbrev pub is_zero : Code → Bool
is_zero success = true
is_zero (failure e) = false

abbrev pub is_some : Option Bytes → Bool
is_some none = false
is_some (some t) = true

-- tasks[i]
unfoldable pub row : ℕ → List Answer → Answer
row n [] = (failure error, [])
row zero (a ∷ rest) = a
row (suc n) (a ∷ rest) = row n rest

-- The fields of the buffers that the tasks fill, in the order of the tasks.
unfoldable pub task_fields : List Field
task_fields =
    Request.list_z ∷ Request.subj ∷ Request.tag_desc ∷ Request.opt_tag_desc_head
    ∷ Request.worktree_porcelain ∷ Request.config_status_show_untracked_files ∷ Request.status
    ∷ Request.diff ∷ Request.staged ∷ Request.stash ∷ Request.branches ∷ Request.revision_by_idx
    ∷ Request.logs ∷ Request.rev_short_head ∷ Request.tag_master ∷ Request.tag_origin_master
    ∷ Request.tag_origin_head ∷ Request.origin_head ∷ Request.upstream_branch_master ∷ []

fill : ℕ → List Field → List Answer → Strings → Strings
fill n [] answers strings = strings
fill n (f ∷ fs) answers strings = fill (suc n) fs answers (put f (some ((row n answers).1)) strings)

-- str_create(root, strlen(root) - 1), where a root ends in a slash
unfoldable pub trim_slash : Bytes → Bytes
trim_slash [] = []
trim_slash (c ∷ []) = []
trim_slash (c ∷ d ∷ rest) = c ∷ trim_slash (d ∷ rest)

-- The condition under which the result is complete.
unfoldable pub gates : Option Bytes → Code → List Answer → Bool
gates root_path rev_ret answers =
    is_some root_path
    && (is_zero rev_ret
        && (is_zero ((row 0 answers).0)
            && (is_zero ((row 1 answers).0)
                && (is_zero ((row 3 answers).0)
                    && (is_zero ((row 4 answers).0)
                        && (is_zero ((row 5 answers).0) && is_zero ((row 6 answers).0)))))))

-- The answers of the steps that run in the worker itself.
pub record Phases : Type 0 where
  pub rev : Answer
  pub branch : Answer
  pub upstream : Answer
  pub upstream_subj : Answer

-- What is kept of a request when its cleanup is done, and the response that was sent.
pub record After : Type 0 where
  pub sent : Option Res
  pub left : Strings

-- uv_queue_work with a request: its code, and the request where it stays alive.
pub record Queued : Type 0 where
  pub code : Code
  pub request : Option Request
  pub left : Strings

-- The response of a request: `upstream_branch` is given twice, `upstream_branch_master` never.
unfoldable pub response_of : Request → Res
response_of req = record {
  id = req.id;
  git_root = req.strings Request.root;
  rev_head = req.strings Request.rev_head;
  list_z = req.strings Request.list_z;
  branch = req.strings Request.branch;
  upstream_branch = req.strings Request.upstream_branch;
  head_log_line = req.strings Request.head_log_line;
  upstream_subj = req.strings Request.upstream_subj;
  tag_desc = req.strings Request.tag_desc;
  opt_tag_desc_head = req.strings Request.opt_tag_desc_head;
  version = req.strings Request.version;
  worktree_porcelain = req.strings Request.worktree_porcelain;
  dot_git_dir = req.strings Request.dot_git_dir;
  config_status_show_untracked_files = req.strings Request.config_status_show_untracked_files;
  status = req.strings Request.status;
  diff = req.strings Request.diff;
  staged = req.strings Request.staged;
  is_bare = req.is_bare;
  stash = req.strings Request.stash;
  branches = req.strings Request.branches;
  revision_by_idx = req.strings Request.revision_by_idx;
  logs = req.strings Request.logs;
  rev_short_head = req.strings Request.rev_short_head;
  tag_master = req.strings Request.tag_master;
  tag_origin_master = req.strings Request.tag_origin_master;
  origin_head = req.strings Request.origin_head;
  tag_origin_head = req.strings Request.tag_origin_head;
  upstream_branch_master = none;
}

unfoldable pub after_git_root : Code → Request → After
after_git_root (failure e) req = record { sent = none; left = git_root_request_cleanup req.strings }
after_git_root success req = elim req.result [
  | failure e ↦ record { sent = none; left = git_root_request_cleanup req.strings }
  | success ↦ record { sent = some (response_of req); left = git_root_request_cleanup req.strings }
]

no_strings : Strings
no_strings f = none

module _ (g : Git) where
  open g use {Repo}

  -- `g_repo` and `g_dot_git_dir`, where `none` is NULL.
  pub record Globals : Type 0 where
    pub repo : Option Repo
    pub dot_git_dir : Option Bytes

module _ (g : Git) (b : StatusBits) where
  open g use {Repo}

  unfoldable pub run_phases : Repo → Option Phases
  run_phases repo = and_then (git_rev_head g repo (record { out = []; held = []; log = [] })) λ rev.
      and_then (run_query (task_symbolic_ref_short_head g b repo)) λ branch.
        and_then
          (if is_zero (branch.0)
            then run_query (task_branch_upstream_name g b repo (branch.1))
            else some (failure error, []))
          λ upstream.
            and_then
              (if is_zero (upstream.0)
                then run_query (task_upstream_subj g b repo (codes "refs/remotes/" ++ upstream.1))
                else some (failure error, []))
              λ subj.
                some (record {
                  rev = rev.0;
                  branch = branch;
                  upstream = upstream;
                  upstream_subj = subj;
                })

  -- The buffers of the tasks and of the later phases.
  unfoldable pub fill_request : List Answer → Phases → Strings → Strings
  unfolding fill
  fill_request answers p strings = put Request.head_log_line (some []) (
      put Request.upstream_subj (some (p.upstream_subj.1)) (
        put Request.upstream_branch (some (p.upstream.1))
          (put Request.branch (some (p.branch.1)) (fill 0 task_fields answers strings))))

  unfoldable pub complete : Bytes → List Answer → Phases → Strings → Strings
  complete root_path answers p strings = put Request.version (some (git_version_create g)) (
      put Request.head_log_line (some (p.rev.1 ++ (codes " " ++ (row 1 answers).1))) (
        put Request.rev_head (some (p.rev.1))
          (put Request.root (some (trim_slash root_path)) strings)))

  root_of : Option Bytes → Bytes
  root_of none = []
  root_of (some r) = r

  -- From the end of the threads on.
  unfoldable pub finish : Request → Repo → List Answer → Phases → Request
  unfolding root_of
  finish req repo answers p =
      let root_path = g.repository_workdir repo in
      let filled = fill_request answers p req.strings in
      let done = gates root_path (p.rev.0) answers in
      record req {
        strings = if done then complete (root_of root_path) answers p filled else filled;
        opened = true;
        is_bare = if g.repository_is_bare repo then 1 else 0;
        result = if done then success else req.result;
      }

  unfoldable pub git_root_worker : Request → Option Request
  git_root_worker req = and_then (req.strings Request.repo_path) λ path.
      elim (g.repository_open_ext path) [
        | failed e ↦ some req
        | ok repo ↦ and_then (run_query (load_commit_graph g repo)) λ _.
            and_then (run_parallel_tasks (parallel_task_runner g b path) (tasks g b))
              λ answers. and_then (run_phases repo) λ p. some (finish req repo answers p)
      ]

  refuse_request : Strings → Queued
  refuse_request strings = record {
    code = failure error;
    request = none;
    left = git_root_request_cleanup strings;
  }

  -- From uv_queue_work on, whose code is `queued`.
  unfoldable pub queue_work : ℕ → Code → Strings → Queued
  queue_work id success strings = record {
    code = success;
    request = some (record {
      id = id;
      strings = strings;
      opened = false;
      is_bare = 0;
      result = failure error;
    });
    left = λ f. none;
  }
  queue_work id (failure e) strings = record {
    code = failure e;
    request = none;
    left = git_root_request_cleanup strings;
  }

  abbrev pub or_else : Option Bytes → Option Bytes → Option Bytes
  or_else none b = b
  or_else (some a) b = some a

  unfoldable pub git_handler_queue_git_status : Globals g → Code → ℕ → Option Bytes → Queued
  unfolding refuse_request no_strings
  git_handler_queue_git_status globals queued id pwd =
      let strings = put Request.pwd pwd no_strings in
      elim globals.repo [
        | none ↦ refuse_request strings
        | some repo ↦ elim (or_else (g.repository_workdir repo) (g.repository_path repo)) [
          | none ↦ refuse_request strings
          | some path ↦ queue_work id queued (
              put Request.dot_git_dir globals.dot_git_dir
                (put Request.repo_path (some path) strings))
        ]
      ]

  discovered : Reply Bytes → Option Bytes → Option Bytes
  discovered (ok gitdir) old = some gitdir
  discovered (failed e) old = old

  unfoldable pub git_handler_repo_init : Bytes → Globals g → Code × Globals g
  unfolding discovered
  git_handler_repo_init path globals =
      let found = discovered (g.repository_discover path) globals.dot_git_dir in
      elim (g.repository_open_ext path) [
        | failed e ↦ (failure e, record { repo = globals.repo; dot_git_dir = found })
        | ok repo ↦ (success, record { repo = some repo; dot_git_dir = found })
      ]
