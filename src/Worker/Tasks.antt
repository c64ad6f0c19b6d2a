-- ===== src/Worker/Tasks.antt =====
-- src/git_handler.c: the task wrappers and `parallel_task_runner`.
use magit.Base.{Option, none, some, List, [], ◌∷◌, Bytes}
use magit.Git.Api.{ok, failed, Code, failure, Git}
use magit.Git.Store.{M}
use magit.Git.Refs.{
  codes, get_upstream_branch, get_rev_parse_short_head, get_origin_head, get_ref_oid, get_stash_oid,
  get_tag_master_oid, get_rev_parse_verify, get_branch_upstream_name, git_head_subject,
  git_symbolic_ref_short_head,
}
use magit.Git.History.{get_log}
use magit.Git.Branches.{get_branch_list}
use magit.Git.Status.{StatusBits, get_status_porcelain_z}
use magit.Git.Config.{get_config_status_show_untracked_files, git_config_list_z}
use magit.Git.Diffs.{get_diff_patch, get_staged}
use magit.Git.Tags.{get_tag_desc_if_match, get_tag_desc}
use magit.Git.Worktrees.{list_worktrees_porcelain}

-- The code of a task and the contents of its buffer.
abbrev pub Answer : Type 0
Answer = Code × Bytes

abbrev pub and_then : {A B : Type 0} → Option A → (A → Option B) → Option B
and_then none f = none
and_then (some a) f = f a

-- What a query leaves in a buffer that was empty.
unfoldable pub run_query : M Code → Option Answer
run_query m = elim (m (record { out = []; held = []; log = [] })) [
  | none ↦ none
  | some (c, s) ↦ some (c, s.out)
]

module _ (g : Git) (b : StatusBits) where
  open g use {Repo}

  unfoldable pub task_config_list_z : Repo → M Code
  task_config_list_z = git_config_list_z g

  unfoldable pub task_head_subject : Repo → M Code
  task_head_subject repo = git_head_subject g repo (codes "HEAD")

  unfoldable pub task_symbolic_ref_short_head : Repo → M Code
  task_symbolic_ref_short_head = git_symbolic_ref_short_head g

  unfoldable pub task_branch_upstream_name : Repo → Bytes → M Code
  task_branch_upstream_name repo branch_name = get_branch_upstream_name g repo branch_name

  unfoldable pub task_tag_desc : Repo → M Code
  task_tag_desc = get_tag_desc g

  unfoldable pub task_tag_desc_if_match : Repo → M Code
  task_tag_desc_if_match = get_tag_desc_if_match g

  unfoldable pub task_worktrees_porcelain : Repo → M Code
  task_worktrees_porcelain = list_worktrees_porcelain g

  unfoldable pub task_config_show_untracked : Repo → M Code
  task_config_show_untracked = get_config_status_show_untracked_files g

  unfoldable pub task_status_porcelain_z : Repo → M Code
  task_status_porcelain_z = get_status_porcelain_z g b

  unfoldable pub task_diff_patch : Repo → M Code
  task_diff_patch = get_diff_patch g

  unfoldable pub task_staged : Repo → M Code
  task_staged = get_staged g

  unfoldable pub task_stash_oid : Repo → M Code
  task_stash_oid = get_stash_oid g

  unfoldable pub task_branch_list : Repo → M Code
  task_branch_list = get_branch_list g

  unfoldable pub task_rev_parse_verify : Repo → M Code
  task_rev_parse_verify repo = get_rev_parse_verify g repo (codes "HEAD~30")

  unfoldable pub task_log : Repo → M Code
  task_log repo = get_log g repo 30

  unfoldable pub task_rev_parse_short_head : Repo → M Code
  task_rev_parse_short_head = get_rev_parse_short_head g

  unfoldable pub task_tag_master : Repo → M Code
  task_tag_master = get_tag_master_oid g

  unfoldable pub task_tag_origin_master : Repo → M Code
  task_tag_origin_master repo = get_ref_oid g repo (codes "refs/tags/origin/master")

  unfoldable pub task_tag_origin_head : Repo → M Code
  task_tag_origin_head repo = get_ref_oid g repo (codes "refs/tags/origin/HEAD")

  unfoldable pub task_origin_head : Repo → M Code
  task_origin_head = get_origin_head g

  unfoldable pub task_upstream_branch_master : Repo → M Code
  task_upstream_branch_master repo = get_upstream_branch g repo (codes "master")

  unfoldable pub task_upstream_subj : Repo → Bytes → M Code
  task_upstream_subj repo target = git_head_subject g repo target

  -- The rows of the array `tasks`, in its order.
  unfoldable pub tasks : List (Repo → M Code)
  tasks =
      task_config_list_z ∷ task_head_subject ∷ task_tag_desc ∷ task_tag_desc_if_match
      ∷ task_worktrees_porcelain ∷ task_config_show_untracked ∷ task_status_porcelain_z
      ∷ task_diff_patch ∷ task_staged ∷ task_stash_oid ∷ task_branch_list ∷ task_rev_parse_verify
      ∷ task_log ∷ task_rev_parse_short_head ∷ task_tag_master ∷ task_tag_origin_master
      ∷ task_tag_origin_head ∷ task_origin_head ∷ task_upstream_branch_master ∷ []

  -- Each task opens a repository of its own.
  unfoldable pub parallel_task_runner : Bytes → (Repo → M Code) → Option Answer
  parallel_task_runner repo_path task_fn = elim (g.repository_open_ext repo_path) [
    | failed e ↦ some (failure e, [])
    | ok repo ↦ run_query (task_fn repo)
  ]
