-- ===== src/Git/Config.antt =====
-- src/git_handler.c: `get_config_status_show_untracked_files` and `git_config_list_z`.
pub mod Listing
use magit.Base.{ℕ, Option, none, some, List, [], ◌∷◌, Bytes}
use magit.Git.Api.{
  GitError, iter_over, Reply, ok, failed, Code, success, failure, ConfigEntry, Walk, Git,
}
use magit.Git.Store.{
  config, config_iterator, buf, M, pure, ◌>>=◌, ◌>>◌, acquire, release, kputs, kputc,
  gh_log_git_err, check,
}
use magit.Git.Refs.{codes}

unfoldable pub put_value : Option Bytes → M (Unit {0})
put_value none = pure tt
put_value (some v) = kputs v

module _ (g : Git) where
  open g use {Repo}

  unfoldable pub get_config_status_show_untracked_files : Repo → M Code
  unfolding put_value
  get_config_status_show_untracked_files repo =
      check (g.repository_config repo) (λ e. do gh_log_git_err e; pure (failure e))
        λ cfg. do
          acquire config
          check (g.config_get_string_buf cfg (codes "status.showUntrackedFiles"))
              (λ e. do gh_log_git_err e; release config; pure success)
              λ value. do acquire buf; put_value value; release buf; release config; pure success

  -- The loop over the entries that `git_config_next` hands out.
  unfoldable pub config_loop : List ConfigEntry → M (Unit {0})
  unfolding put_value
  config_loop [] = pure tt
  config_loop (e ∷ rest) = do
    kputs e.name
    kputc b'\n'
    put_value e.value
    kputc 0
    config_loop rest

  unfoldable pub config_end : GitError → M Code
  config_end iter_over = pure success
  config_end e = do gh_log_git_err e; pure (failure e)

  unfoldable pub git_config_list_z : Repo → M Code
  git_config_list_z repo =
      check (g.repository_config repo) (λ e. do gh_log_git_err e; pure (failure e))
        λ cfg. do
          acquire config
          check (g.config_iterator_new cfg)
              (λ e. do gh_log_git_err e; release config; pure (failure e))
              λ walk. do
                acquire config_iterator
                config_loop walk.items
                release config_iterator
                release config
                config_end walk.end_code
