-- ===== src/Git/Diffs.antt =====
-- src/git_handler.c: `get_staged` and `get_diff_patch`.
pub mod Patches
use magit.Base.{ℕ, Option, none, some, List, [], ◌∷◌, Bytes}
use magit.Git.Api.{
  GitError, not_found, unborn_branch, Reply, ok, failed, Code, success, failure, Git,
}
use magit.Git.Store.{
  reference, object, index, diff, buf, debug, M, pure, ◌>>=◌, ◌>>◌, acquire, release, kputs, gh_log,
  gh_log_git_err, check,
}

module _ (g : Git) where
  open g use {Repo, Ref, Tree, Index, Diff}

  -- From git_diff_find_similar on: the renames, the patch and the label `out` with a held diff.
  unfoldable pub put_patch : Diff → M Code
  put_patch d =
      check (g.diff_find_similar d) (λ e. do gh_log_git_err e; release diff; pure (failure e))
        λ d'.
          check (g.diff_to_buf d') (λ e. do gh_log_git_err e; release diff; pure (failure e))
            λ patch. do
              acquire buf
              kputs patch
              gh_log debug
              release buf
              release diff
              pure success

  unfoldable pub get_diff_patch : Repo → M Code
  get_diff_patch repo =
      check (g.diff_index_to_workdir repo) (λ e. do gh_log_git_err e; pure (failure e))
        λ d. do acquire diff; put_patch d

  -- From git_diff_tree_to_index on, without the handles of the HEAD.
  unfoldable pub staged_patch : Repo → Option Tree → Index → M Code
  staged_patch repo tree idx =
      check (g.diff_tree_to_index repo tree idx) (λ e. do gh_log_git_err e; pure (failure e))
        λ d. do acquire diff; put_patch d

  -- The answer of git_repository_head that is an error: unborn, or the end.
  unfoldable pub without_head : Repo → Index → GitError → M Code
  without_head repo idx unborn_branch = do gh_log debug; staged_patch repo none idx
  without_head repo idx not_found = do gh_log debug; staged_patch repo none idx
  without_head repo idx e = do gh_log_git_err e; pure (failure e)

  unfoldable pub staged_with : Repo → Index → Tree → M Code
  staged_with repo idx tree = do
    acquire object
    ret ← staged_patch repo (some tree) idx
    release object
    pure ret

  unfoldable pub with_head : Repo → Index → Ref → M Code
  with_head repo idx head_ref = do
    acquire reference
    ret ←
        check (g.reference_peel_tree head_ref) (λ e. do gh_log_git_err e; pure (failure e))
          (staged_with repo idx)
    release reference
    pure ret

  -- From git_repository_head on.
  unfoldable pub staged_head : Repo → Index → M Code
  staged_head repo idx = check (g.repository_head repo) (without_head repo idx) (with_head repo idx)

  unfoldable pub get_staged : Repo → M Code
  get_staged repo =
      check (g.repository_index repo) (λ e. do gh_log_git_err e; pure (failure e))
        λ opened. do
          acquire index
          ret ←
              check (g.index_read opened) (λ e. do gh_log_git_err e; pure (failure e))
                (staged_head repo)
          release index
          pure ret
