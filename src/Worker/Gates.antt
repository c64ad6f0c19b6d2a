-- ===== src/Worker/Gates.antt =====
-- When the worker of src/git_handler.c answers a request, and with what.
use magit.Base.{
  ◌≡◌, refl, Bool, true, false, ◌&&◌, Option, none, some, List, [], ◌∷◌, ◌++◌, Bytes, if◌then◌else◌,
}
use magit.Git.Api.{error, success, failure, Git}
use magit.Git.Refs.{codes}
use magit.Git.Status.{StatusBits}
use magit.Git.Graph.{git_version_create}
use magit.Message.Response.{Res}
use magit.Worker.Request
use magit.Worker.Request.{Field, offset, Strings, put, Request}
use magit.Worker.Tasks.{Answer}
use magit.Worker.Handler.{
  is_zero, row, task_fields, trim_slash, gates, Phases, response_of, after_git_root, fill_request,
  complete, finish,
}

and-true : (x : Bool) → (x && true) ≡ x
and-true true = refl
and-true false = refl

-- The answers that a response needs: those of the configuration, the subject of HEAD, its tag, the
-- worktrees, the setting for untracked files and the status.
abbrev pub required : Answer → List Answer → List Answer
required rev a = rev ∷ row 0 a ∷ row 1 a ∷ row 3 a ∷ row 4 a ∷ row 5 a ∷ row 6 a ∷ []

abbrev pub all_zero : List Answer → Bool
all_zero [] = true
all_zero (a ∷ rest) = is_zero (a.0) && all_zero rest

module _ (g : Git) (b : StatusBits) where
  open g use {Repo}

  -- The response to a request, by its answers.
  abbrev pub response : Request → Repo → Bytes → List Answer → Phases → Res
  response req repo root_path a p = record {
    id = req.id;
    git_root = some (trim_slash root_path);
    rev_head = some (p.rev.1);
    list_z = some ((row 0 a).1);
    branch = some (p.branch.1);
    upstream_branch = some (p.upstream.1);
    head_log_line = some (p.rev.1 ++ (codes " " ++ (row 1 a).1));
    upstream_subj = some (p.upstream_subj.1);
    tag_desc = some ((row 2 a).1);
    opt_tag_desc_head = some ((row 3 a).1);
    version = some (git_version_create g);
    worktree_porcelain = some ((row 4 a).1);
    dot_git_dir = req.strings Request.dot_git_dir;
    config_status_show_untracked_files = some ((row 5 a).1);
    status = some ((row 6 a).1);
    diff = some ((row 7 a).1);
    staged = some ((row 8 a).1);
    is_bare = if g.repository_is_bare repo then 1 else 0;
    stash = some ((row 9 a).1);
    branches = some ((row 10 a).1);
    revision_by_idx = some ((row 11 a).1);
    logs = some ((row 12 a).1);
    rev_short_head = some ((row 13 a).1);
    tag_master = some ((row 14 a).1);
    tag_origin_master = some ((row 15 a).1);
    origin_head = some ((row 17 a).1);
    tag_origin_head = some ((row 16 a).1);
    upstream_branch_master = none;
  }

  -- The response, or none where the repository has no work tree or a required answer failed.
  abbrev pub answer : Request → Repo → List Answer → Phases → Option Bytes → Option Res
  answer req repo a p none = none
  answer req repo a p (some root_path) =
      if all_zero (required p.rev a) then some (response req repo root_path a p) else none

  gates-required :
      (root_path : Bytes) (rev : Answer) (a : List Answer)
      → gates (some root_path) (rev.0) a ≡ all_zero (required rev a)
  unfolding gates
  gates-required root_path rev a = simp and-true

  sent_if :
      (req : Request) (repo : Repo) (a : List Answer) (p : Phases) (root_path : Bytes) (d : Bool)
      → req.result ≡ failure error
      → g.repository_workdir repo ≡ some root_path
      → gates (some root_path) (p.rev.0) a ≡ d
      → (after_git_root success (finish g b req repo a p)).sent
        ≡ (if d then some (response req repo root_path a p) else none)
  unfolding finish after_git_root fill_request complete response_of put offset task_fields
  sent_if req repo a p root_path true fresh h e = rw (h, e)
  sent_if req repo a p root_path false fresh h e = rw (h, e, fresh)

  sent_without_root :
      (req : Request) (repo : Repo) (a : List Answer) (p : Phases)
      → req.result ≡ failure error
      → g.repository_workdir repo ≡ none
      → (after_git_root success (finish g b req repo a p)).sent ≡ none
  unfolding finish after_git_root gates
  sent_without_root req repo a p fresh h = rw (h, fresh)

  finish-answer_at :
      (req : Request) (repo : Repo) (a : List Answer) (p : Phases) (r : Option Bytes)
      → req.result ≡ failure error
      → g.repository_workdir repo ≡ r
      → (after_git_root success (finish g b req repo a p)).sent ≡ answer req repo a p r
  finish-answer_at req repo a p none fresh h = sent_without_root req repo a p fresh h
  finish-answer_at req repo a p (some root_path) fresh h =
      sent_if req repo a p root_path (all_zero (required p.rev a)) fresh h
        (gates-required root_path p.rev a)

  -- When the worker's result is delivered for a request that was queued, a response is sent exactly
  -- if the repository has a work tree and each of the seven required answers has code 0, and it
  -- holds the request's id, the work tree's path without its last slash, the log line of HEAD and
  -- the text of every task; the upstream of master is always left out. Otherwise nothing is sent.
  pub finish-answer :
      (req : Request) (repo : Repo) (a : List Answer) (p : Phases)
      → req.result ≡ failure error
      → (after_git_root success (finish g b req repo a p)).sent
        ≡ answer req repo a p (g.repository_workdir repo)
  finish-answer req repo a p fresh =
      finish-answer_at req repo a p (g.repository_workdir repo) fresh refl
