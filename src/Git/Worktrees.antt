-- ===== src/Git/Worktrees.antt =====
-- src/git_handler.c: `list_worktrees_porcelain`.
pub mod Entries
use magit.Base.{ℕ, Bool, true, false, Option, none, some, List, [], ◌∷◌, Bytes, if◌then◌else◌}
use magit.Git.Api.{GitError, Reply, ok, failed, Code, success, failure, Lock, Git}
use magit.Git.Store.{
  Handle, reference, repository, worktree, strarray, buf, warn, debug, M, pure, ◌>>=◌, ◌>>◌,
  acquire, release, kputs, kputc, kputs_or_fault, gh_log, gh_log_git_err, check,
}
use magit.Git.Refs.{codes}

-- The reason with the space in front of it, where it is not empty.
abbrev pub reason_text : Option Bytes → Bytes
reason_text none = []
reason_text (some []) = []
reason_text (some (c ∷ cs)) = b' ' ∷ c ∷ cs

unfoldable pub put_lock : Lock → M (Unit {0})
put_lock l =
    if l.is_locked
    then (do kputs (codes "locked"); kputs (reason_text l.reason); kputc 0)
    else pure tt

module _ (g : Git) where
  open g use {Repo, Ref, Worktree}

  -- git_oid_tostr, which writes an empty text for a NULL oid
  abbrev pub target_text : Ref → Bytes
  target_text head_ref = elim (g.reference_target head_ref) [
    | none ↦ []
    | some oid ↦ g.oid_tostr oid
  ]

  unfoldable pub put_head : Repo → M (Unit {0})
  put_head repo =
      check (g.repository_head repo) (λ e. gh_log_git_err e)
        λ head_ref. do
          acquire reference
          kputs (codes "HEAD ")
          kputs (target_text head_ref)
          kputc 0
          if g.repository_head_detached repo
              then kputs (codes "detached")
              else (do kputs (codes "branch "); kputs (g.reference_name head_ref))
          kputc 0
          release reference

  abbrev pub main_path : Repo → Option Bytes
  main_path repo =
      if g.repository_is_bare repo then g.repository_path repo else g.repository_workdir repo

  unfoldable pub put_bare : Repo → M (Unit {0})
  put_bare repo = if g.repository_is_bare repo then (do kputs (codes "bare"); kputc 0) else pure tt

  unfoldable pub put_main : Repo → M (Unit {0})
  put_main repo = do
    kputs (codes "worktree ")
    kputs_or_fault (main_path repo)
    kputc 0
    put_head repo
    put_bare repo
    kputc 0

  unfoldable pub put_worktree_head : Worktree → M (Unit {0})
  put_worktree_head wt =
      check (g.worktree_open wt) (λ e. gh_log warn)
        λ wt_repo. do acquire repository; put_head wt_repo; release repository

  unfoldable pub put_prunable : Worktree → M (Unit {0})
  put_prunable wt =
      if g.worktree_is_prunable wt then (do kputs (codes "prunable"); kputc 0) else pure tt

  -- The body of the loop over the names.
  unfoldable pub put_linked : Repo → Bytes → M (Unit {0})
  put_linked repo name =
      check (g.worktree_lookup repo name) (λ e. gh_log warn)
        λ wt. do
          acquire worktree
          kputs (codes "worktree ")
          kputs (g.worktree_path wt)
          kputc 0
          put_worktree_head wt
          put_lock (g.worktree_is_locked wt)
          put_prunable wt
          kputc 0
          release worktree

  unfoldable pub worktree_loop : Repo → List Bytes → M (Unit {0})
  worktree_loop repo [] = pure tt
  worktree_loop repo (name ∷ rest) = do put_linked repo name; worktree_loop repo rest

  unfoldable pub list_worktrees_porcelain : Repo → M Code
  list_worktrees_porcelain repo = do
    put_main repo
    check (g.worktree_list repo) (λ e. do gh_log_git_err e; pure (failure e))
        λ names. do
          acquire strarray
          gh_log debug
          worktree_loop repo names
          release strarray
          pure success
