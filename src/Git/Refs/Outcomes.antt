-- ===== src/Git/Refs/Outcomes.antt =====
-- What the queries of src/git_handler.c on references append, return and log, in pure form.
use magit.Base.{
  ◌≡◌, Option, none, some, [], ◌∷◌, ◌++◌, append_assoc, append-nil, Bytes, if◌then◌else◌, arith,
}
use magit.Git.Api.{error, not_found, Reply, ok, failed, success, failure, Git}
use magit.Git.Store.{
  debug, error_level, Store, Outcome, done, refuse, ◌▷◌, ends, quiet, ends_or_fault,
}
use magit.Git.Refs.{
  codes, shorthand_of, get_upstream_branch, get_rev_parse_short_head, get_symbolic_ref, get_ref_oid,
  get_rev_parse_verify, get_branch_upstream_name, git_head_subject, git_symbolic_ref_short_head,
  git_rev_head,
}

module _ (g : Git) where
  open g use {Repo, Oid}

  abbrev pub line : Bytes → Outcome
  line t = done (t ++ b'\n' ∷ [])

  abbrev pub upstream_branch : Repo → Bytes → Outcome
  upstream_branch repo name = g.branch_lookup repo name ▷ λ branch.
      g.branch_upstream branch ▷ λ upstream. g.branch_name upstream ▷ λ short_name. line short_name

  -- `get_upstream_branch` looks the branch, its upstream and the upstream's name up in this order;
  -- the first failure is returned, logged once, and appends nothing, and success appends the name
  -- and a newline. Either way every reference is freed once.
  pub get_upstream_branch-ends :
      (repo : Repo) (name : Bytes) (s : Store)
      → get_upstream_branch g repo name s ≡ ends s (upstream_branch repo name)
  unfolding get_upstream_branch
  get_upstream_branch-ends repo name s = grind (arith, append_assoc, append-nil)

  abbrev quiet_line : Reply Bytes → Outcome
  quiet_line (failed e) = quiet e
  quiet_line (ok t) = line t

  abbrev short_head : Reply (g.Object) → Outcome
  short_head (failed e) = quiet e
  short_head (ok obj) = quiet_line (g.object_short_id obj)

  pub get_rev_parse_short_head-ends :
      (repo : Repo) (s : Store)
      → get_rev_parse_short_head g repo s
        ≡ ends s (short_head (g.revparse_single repo (codes "HEAD")))
  unfolding get_rev_parse_short_head
  get_rev_parse_short_head-ends repo s = grind (arith, append_assoc, append-nil)

  abbrev target_line : Option Bytes → Outcome
  target_line none = quiet not_found
  target_line (some t) = line t

  abbrev pub symbolic_ref : Repo → Bytes → Outcome
  symbolic_ref repo refname = g.reference_lookup repo refname ▷ λ ref.
      if g.reference_is_symbolic ref
      then target_line (g.reference_symbolic_target ref)
      else quiet not_found

  -- `get_symbolic_ref` appends the target of a symbolic reference and a newline. A reference that
  -- is not symbolic, or has no target, is GIT_ENOTFOUND with no log line, and only a failed lookup
  -- is logged. The reference is freed on every path.
  pub get_symbolic_ref-ends :
      (repo : Repo) (refname : Bytes) (s : Store)
      → get_symbolic_ref g repo refname s ≡ ends s (symbolic_ref repo refname)
  unfolding get_symbolic_ref
  get_symbolic_ref-ends repo refname s = grind (arith, append_assoc, append-nil)

  pub get_ref_oid-ends :
      (repo : Repo) (refname : Bytes) (s : Store)
      → get_ref_oid g repo refname s
        ≡ ends s (g.reference_name_to_id repo refname ▷ λ oid. line (g.oid_tostr oid))
  unfolding get_ref_oid
  get_ref_oid-ends repo refname s = grind (arith, append_assoc, append-nil)

  pub get_rev_parse_verify-ends :
      (repo : Repo) (spec : Bytes) (s : Store)
      → get_rev_parse_verify g repo spec s
        ≡ ends s (g.revparse_single repo spec ▷ λ obj. line (g.oid_tostr (g.object_id obj)))
  unfolding get_rev_parse_verify
  get_rev_parse_verify-ends repo spec s = grind (arith, append_assoc, append-nil)

  abbrev pub branch_upstream_name : Repo → Bytes → Outcome
  branch_upstream_name repo name = g.branch_lookup repo name ▷ λ branch.
      g.branch_upstream branch ▷ λ upstream. g.branch_name upstream ▷ λ short_name. done short_name

  pub get_branch_upstream_name-ends :
      (repo : Repo) (name : Bytes) (s : Store)
      → get_branch_upstream_name g repo name s ≡ ends s (branch_upstream_name repo name)
  unfolding get_branch_upstream_name
  get_branch_upstream_name-ends repo name s = grind (arith, append_assoc, append-nil)

  abbrev summary_of : Option Bytes → Option Outcome
  summary_of none = none
  summary_of (some t) = some (done t)

  abbrev peeled : Reply (g.Commit) → Option Outcome
  peeled (failed e) = some (refuse e)
  peeled (ok c) = summary_of (g.commit_summary c)

  abbrev pub subject : Repo → Bytes → Option Outcome
  subject repo target = elim (g.reference_lookup repo target) [
    | failed e ↦ some (refuse e)
    | ok head ↦ peeled (g.reference_peel_commit head)
  ]

  -- `git_head_subject` appends the summary of the commit that a reference peels to; it faults
  -- exactly where that commit has no summary, whose NULL it would read.
  pub git_head_subject-ends :
      (repo : Repo) (target : Bytes) (s : Store)
      → git_head_subject g repo target s ≡ ends_or_fault s (subject repo target)
  unfolding git_head_subject
  git_head_subject-ends repo target s = grind (arith, append_assoc, append-nil)

  abbrev resolved : Repo → Option Bytes → Outcome
  resolved repo none = record { code = failure error; appends = []; logs = error_level ∷ [] }
  resolved repo (some target) = elim (g.reference_lookup repo target) [
    | failed e ↦ record { code = success; appends = shorthand_of g target; logs = debug ∷ [] }
    | ok r ↦ done (g.reference_shorthand r)
  ]

  abbrev pub short_symbolic_head : Repo → Outcome
  short_symbolic_head repo = g.reference_lookup repo (codes "HEAD") ▷ λ head.
      if g.reference_is_symbolic head
      then resolved repo (g.reference_symbolic_target head)
      else record { code = failure not_found; appends = []; logs = debug ∷ [] }

  -- `git_symbolic_ref_short_head` appends the short name of the branch that HEAD names: of the
  -- reference if it resolves, and otherwise (an unborn branch) its target less "refs/heads/". A
  -- detached HEAD is GIT_ENOTFOUND and a missing target GIT_ERROR; both references are freed.
  pub git_symbolic_ref_short_head-ends :
      (repo : Repo) (s : Store)
      → git_symbolic_ref_short_head g repo s ≡ ends s (short_symbolic_head repo)
  unfolding git_symbolic_ref_short_head
  git_symbolic_ref_short_head-ends repo s = grind (arith, append_assoc, append-nil)

  abbrev oid_text : Option Oid → Outcome
  oid_text none = record { code = failure error; appends = []; logs = error_level ∷ [] }
  oid_text (some oid) = done (g.oid_tostr oid)

  -- Here `appends` is what the result buffer holds.
  abbrev pub rev_head : Repo → Outcome
  rev_head repo = g.repository_head repo ▷ λ head. oid_text (g.reference_target head)

  -- `git_rev_head` puts the hash of HEAD's target into its buffer; a failure is returned and
  -- logged once, a HEAD without a direct target as -1. The output buffer keeps its bytes, and the
  -- reference is freed.
  pub git_rev_head-ends :
      (repo : Repo) (s : Store)
      → git_rev_head g repo s
        ≡ some (
          ((rev_head repo).code, (rev_head repo).appends),
          record s { log = s.log ++ (rev_head repo).logs },
        )
  unfolding git_rev_head
  git_rev_head-ends repo s = grind (arith, append-nil)
