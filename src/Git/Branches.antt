-- ===== src/Git/Branches.antt =====
-- src/git_handler.c: `shorten_upstream`, `append_branch_record` and `get_branch_list`.
pub mod Records
pub mod Listing
use magit.Base.{
  ℕ, ◌+◌, Bool, true, false, not, ◌&&◌, Option, none, some, List, [], ◌∷◌, ◌++◌, Bytes, ℤ, pos,
  drop, ◌==◌, if◌then◌else◌,
}
use magit.Git.Api.{
  GitError, not_found, iter_over, error, Reply, ok, failed, Code, success, failure, Walk, Git,
}
use magit.Git.Store.{
  reference, commit, buf, branch_iterator, debug, error_level, Store, M, pure, ◌>>=◌, ◌>>◌, acquire,
  release, kputs, kputc, gh_log, gh_log_git_err, check,
}
use magit.Git.Refs.{codes, starts_with}

unfoldable pub shorten_upstream : Bytes → Bytes
shorten_upstream name =
    if starts_with (codes "refs/remotes/") name
    then drop 13 name
    else if starts_with (codes "refs/heads/") name
    then drop 11 name
    else name

-- `track`: 0, 1 with both counts, 2
pub data Track : Type 0 where
  untracked gone : Track
  counts : ℕ → ℕ → Track

abbrev nonzero : ℕ → Bool
nonzero n = not (n == 0)

abbrev pub or_empty : Option Bytes → Bytes
or_empty none = []
or_empty (some t) = t

abbrev pub short_or_empty : Option Bytes → Bytes
short_or_empty none = []
short_or_empty (some t) = shorten_upstream t

module _ (g : Git) where
  open g use {Repo, Ref, Oid}

  -- The text of the upstream's state.
  unfoldable pub track_text : Track → Bytes
  track_text untracked = []
  track_text gone = codes "[gone]"
  track_text (counts ahead behind) =
      if nonzero ahead && nonzero behind
      then codes "[ahead "
        ++ (g.decimal (pos ahead) ++ (codes ", behind " ++ (g.decimal (pos behind) ++ codes "]")))
      else if nonzero ahead
      then codes "[ahead " ++ (g.decimal (pos ahead) ++ codes "]")
      else if nonzero behind
      then codes "[behind " ++ (g.decimal (pos behind) ++ codes "]")
      else []

  -- From "Everything is computed" to the end.
  unfoldable pub write_branch_record : Ref → Bytes → Option Bytes → Track → Bytes → M (Unit {0})
  write_branch_record ref short_name up_name track subject = do
    kputs (if g.branch_is_head ref then codes "*" else codes " ")
    kputc 0
    kputs short_name
    kputc 0
    kputs (g.reference_name ref)
    kputc 0
    kputs (short_or_empty up_name)
    kputc 0
    kputs (or_empty up_name)
    kputc 0
    kputs (track_text track)
    kputc 0
    kputc 0
    kputc 0
    kputc 0
    kputs subject
    kputc b'\n'

  unfoldable pub free_buf : Option Bytes → M (Unit {0})
  free_buf none = pure tt
  free_buf (some t) = release buf

  -- The commit's summary, where there is an oid and it can be looked up; else the empty text.
  unfoldable pub finish_record : Repo → Ref → Bytes → Option Bytes → Option Oid → Track → M Code
  unfolding free_buf
  finish_record repo ref short_name up_name none track = do
    gh_log debug
    write_branch_record ref short_name up_name track []
    free_buf up_name
    pure success
  finish_record repo ref short_name up_name (some oid) track =
      check (g.commit_lookup repo oid)
        (λ e. do
          gh_log debug
          write_branch_record ref short_name up_name track []
          free_buf up_name
          pure success)
        λ c. do
          acquire commit
          write_branch_record ref short_name up_name track (or_empty (g.commit_summary c))
          release commit
          free_buf up_name
          pure success

  -- From `if (up_name && have_oid)` on.
  unfoldable pub track_record : Repo → Ref → Bytes → Option Bytes → Option Oid → M Code
  track_record repo ref short_name (some up) (some oid) =
      check (g.reference_name_to_id repo up)
        (λ e. do gh_log debug; finish_record repo ref short_name (some up) (some oid) gone)
        λ up_oid.
          check (g.graph_ahead_behind repo oid up_oid)
            (λ e. do gh_log_git_err e; release buf; pure (failure e))
            λ n. finish_record repo ref short_name (some up) (some oid) (counts n.0 n.1)
  track_record repo ref short_name up_name have_oid =
      finish_record repo ref short_name up_name have_oid untracked

  -- From `name_to_id` of the branch on.
  unfoldable pub resolve_record : Repo → Ref → Bytes → Option Bytes → M Code
  resolve_record repo ref short_name up_name =
      check (g.reference_name_to_id repo (g.reference_name ref))
        (λ e. do gh_log debug; track_record repo ref short_name up_name none)
        λ oid. track_record repo ref short_name up_name (some oid)

  unfoldable pub upstream_failed : Repo → Ref → Bytes → GitError → M Code
  upstream_failed repo ref short_name not_found = resolve_record repo ref short_name none
  upstream_failed repo ref short_name e = do gh_log_git_err e; pure (failure e)

  unfoldable pub append_branch_record : Repo → Ref → M Code
  unfolding upstream_failed
  append_branch_record repo ref =
      check (g.branch_name ref) (λ e. do gh_log_git_err e; pure (failure e))
        λ short_name.
          check (g.branch_upstream_name repo (g.reference_name ref))
            (λ e. upstream_failed repo ref short_name e)
            λ up_name. do acquire buf; resolve_record repo ref short_name (some up_name)

  -- What is done with the code of one record: an error leaves the loop.
  unfoldable pub after_record : Code → M Code → M Code
  after_record success rest = do release reference; rest
  after_record (failure e) rest = do gh_log error_level; release reference; pure (failure e)

  unfoldable pub branch_loop : Repo → M Code → List Ref → M Code
  unfolding after_record
  branch_loop repo finish [] = finish
  branch_loop repo finish (ref ∷ rest) = do
    acquire reference
    ret ← append_branch_record repo ref
    let others = branch_loop repo finish rest
    after_record ret others

  unfoldable pub branches_end : GitError → M Code
  branches_end iter_over = pure success
  branches_end e = do gh_log_git_err e; pure (failure e)

  unfoldable pub get_branch_list : Repo → M Code
  unfolding branches_end
  get_branch_list repo =
      check (g.branch_iterator repo) (λ e. do gh_log_git_err e; pure (failure e))
        λ walk. do
          acquire branch_iterator
          ret ← branch_loop repo (branches_end walk.end_code) walk.items
          release branch_iterator
          pure ret
