-- ===== src/Git/Graph.antt =====
-- src/git_handler.c: `load_commit_graph` and `git_version_create`. `malloc` is taken to succeed.
use magit.Base.{none, some, ◌++◌, Bytes, pos}
use magit.Git.Api.{error, Code, success, failure, Git}
use magit.Git.Store.{
  odb, commit_graph, text, debug, info, error_level, M, pure, ◌>>◌, acquire, release, gh_log, check,
}
use magit.Git.Refs.{codes}

module _ (g : Git) where
  open g use {Repo, Odb}

  -- With the object database held and the repository's path known.
  unfoldable pub attach_commit_graph : Odb → Bytes → M Code
  attach_commit_graph db repo_path = do
    acquire text
    release text
    check (g.commit_graph_open (repo_path ++ codes "objects/info"))
        (λ e. do gh_log debug; release odb; pure success)
        λ cgraph. do
          acquire commit_graph
          check (g.odb_set_commit_graph db cgraph)
              (λ e. do gh_log error_level; release commit_graph; release odb; pure (failure e))
              λ _. do release commit_graph; gh_log info; release odb; pure success

  unfoldable pub load_commit_graph : Repo → M Code
  load_commit_graph repo =
      check (g.repository_odb repo) (λ e. do gh_log debug; pure (failure e))
        λ db. do
          acquire odb
          elim (g.repository_path repo) [
            | none ↦ (do gh_log debug; release odb; pure (failure error))
            | some repo_path ↦ attach_commit_graph db repo_path
          ]

  unfoldable pub git_version_create : Bytes
  git_version_create =
      let (major, minor, rev) = g.libgit2_version in
      codes "git version "
      ++ (g.decimal (pos major)
          ++ (codes "." ++ (g.decimal (pos minor) ++ (codes "." ++ g.decimal (pos rev)))))
