-- ===== src/Git/Refs.antt =====
-- The queries of src/git_handler.c on references and object names.
pub mod Outcomes
use Prim.Native.Char.{code}
use Prim.Native.String.{String}
use magit.Base.{
  ℕ, ◌≡◌, refl, Bool, true, false, Option, none, some, List, [], ◌∷◌, ◌++◌, Bytes, if◌then◌else◌,
  drop, length, ◌==◌, ◌&&◌,
}
use magit.Git.Api.{GitError, error, not_found, Reply, ok, failed, Code, success, failure, Git}
use magit.Git.Store.{
  Handle, reference, object, commit, buf, Level, debug, error_level, gh_git_err_level, Store, M,
  pure, ◌>>=◌, ◌>>◌, acquire, release, kputs, kputc, kputs_or_fault, gh_log, gh_log_git_err, check,
}

-- The code points of a literal: its bytes, as it is ASCII.
abbrev pub codes : String → Bytes
codes String.[] = []
codes (String.◌∷◌ c s) = code c ∷ codes s

-- strncmp(s, prefix, strlen(prefix)) == 0
unfoldable pub starts_with : Bytes → Bytes → Bool
starts_with [] s = true
starts_with (p ∷ ps) [] = false
starts_with (p ∷ ps) (c ∷ cs) = p == c && starts_with ps cs

module _ (g : Git) where
  open g use {Repo, Oid}

  unfoldable pub get_upstream_branch : Repo → Bytes → M Code
  get_upstream_branch repo name =
      check (g.branch_lookup repo name) (λ e. do gh_log_git_err e; pure (failure e))
        λ branch. do
          acquire reference
          check (g.branch_upstream branch)
              (λ e. do gh_log_git_err e; release reference; pure (failure e))
              λ upstream. do
                acquire reference
                check (g.branch_name upstream)
                    (λ e. do
                      gh_log_git_err e
                      release reference
                      release reference
                      pure (failure e))
                    λ short_name. do
                      kputs short_name
                      kputc b'\n'
                      release reference
                      release reference
                      pure success

  unfoldable pub get_rev_parse_short_head : Repo → M Code
  get_rev_parse_short_head repo =
      check (g.revparse_single repo (codes "HEAD")) (λ e. pure (failure e))
        λ obj. do
          acquire object
          check (g.object_short_id obj) (λ e. do release object; pure (failure e))
              λ sid. do
                acquire buf
                kputs sid
                kputc b'\n'
                release buf
                release object
                pure success

  unfoldable pub symbolic_target : Option Bytes → M Code
  symbolic_target none = do release reference; pure (failure not_found)
  symbolic_target (some target) = do kputs target; kputc b'\n'; release reference; pure success

  unfoldable pub get_symbolic_ref : Repo → Bytes → M Code
  unfolding symbolic_target
  get_symbolic_ref repo refname =
      check (g.reference_lookup repo refname) (λ e. do gh_log_git_err e; pure (failure e))
        λ ref. do
          acquire reference
          if g.reference_is_symbolic ref
              then symbolic_target (g.reference_symbolic_target ref)
              else (do release reference; pure (failure not_found))

  unfoldable pub get_origin_head : Repo → M Code
  get_origin_head repo = get_symbolic_ref repo (codes "refs/remotes/origin/HEAD")

  unfoldable pub get_ref_oid : Repo → Bytes → M Code
  get_ref_oid repo refname =
      check (g.reference_name_to_id repo refname) (λ e. do gh_log_git_err e; pure (failure e))
        λ oid. do kputs (g.oid_tostr oid); kputc b'\n'; pure success

  unfoldable pub get_stash_oid : Repo → M Code
  get_stash_oid repo = get_ref_oid repo (codes "refs/stash")

  unfoldable pub get_tag_master_oid : Repo → M Code
  get_tag_master_oid repo = get_ref_oid repo (codes "refs/tags/master")

  unfoldable pub get_rev_parse_verify : Repo → Bytes → M Code
  get_rev_parse_verify repo spec =
      check (g.revparse_single repo spec) (λ e. do gh_log_git_err e; pure (failure e))
        λ obj. do
          acquire object
          kputs (g.oid_tostr (g.object_id obj))
          kputc b'\n'
          release object
          pure success

  -- The last test is `ret == 0`, and the code of `git_branch_name` is returned either way.
  unfoldable pub get_branch_upstream_name : Repo → Bytes → M Code
  get_branch_upstream_name repo name =
      check (g.branch_lookup repo name) (λ e. do gh_log_git_err e; pure (failure e))
        λ branch. do
          acquire reference
          check (g.branch_upstream branch)
              (λ e. do release reference; gh_log_git_err e; pure (failure e))
              λ upstream. do
                acquire reference
                release reference
                check (g.branch_name upstream)
                    (λ e. do gh_log_git_err e; release reference; pure (failure e))
                    λ short_name. do kputs short_name; release reference; pure success

  unfoldable pub git_head_subject : Repo → Bytes → M Code
  git_head_subject repo target =
      check (g.reference_lookup repo target) (λ e. do gh_log_git_err e; pure (failure e))
        λ head. do
          acquire reference
          check (g.reference_peel_commit head)
              (λ e. do release reference; gh_log_git_err e; pure (failure e))
              λ c. do
                acquire commit
                release reference
                kputs_or_fault (g.commit_summary c)
                release commit
                pure success

  -- The name shown for a target that does not resolve.
  unfoldable pub shorthand_of : Bytes → Bytes
  shorthand_of target = if starts_with (codes "refs/heads/") target then drop 11 target else target

  unfoldable pub resolve_head : Repo → Option Bytes → M Code
  resolve_head repo none = do gh_log error_level; release reference; pure (failure error)
  resolve_head repo (some target) =
      check (g.reference_lookup repo target)
        (λ e. do gh_log debug; kputs (shorthand_of target); release reference; pure success)
        λ resolved. do
          acquire reference
          kputs (g.reference_shorthand resolved)
          release reference
          release reference
          pure success

  unfoldable pub git_symbolic_ref_short_head : Repo → M Code
  unfolding resolve_head
  git_symbolic_ref_short_head repo =
      check (g.reference_lookup repo (codes "HEAD")) (λ e. do gh_log_git_err e; pure (failure e))
        λ head. do
          acquire reference
          if g.reference_is_symbolic head
              then resolve_head repo (g.reference_symbolic_target head)
              else (do gh_log debug; release reference; pure (failure not_found))

  unfoldable pub rev_head_target : Option Oid → M (Code × Bytes)
  rev_head_target none = do gh_log error_level; release reference; pure (failure error, [])
  rev_head_target (some oid) = do release reference; pure (success, g.oid_tostr oid)

  -- The second component is what `result_buf` holds afterwards; it is only read after success.
  unfoldable pub git_rev_head : Repo → M (Code × Bytes)
  unfolding rev_head_target
  git_rev_head repo =
      check (g.repository_head repo) (λ e. do gh_log_git_err e; pure (failure e, []))
        λ head. do acquire reference; rev_head_target (g.reference_target head)
