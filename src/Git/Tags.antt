-- ===== src/Git/Tags.antt =====
-- src/git_handler.c: `tag_cb`, `get_tag_desc_if_match` and `get_tag_desc`. The commit variable of
-- `get_tag_desc` is modelled, as it is freed at the end wherever it is not NULL.
pub mod Match
pub mod OnCommit
pub mod Nearest
pub mod Fault
use magit.Base.{
  ℕ, ◌+◌, Bool, true, false, Option, none, some, List, [], ◌∷◌, ◌++◌, Bytes, pos, drop, ◌==◌, ltb,
  if◌then◌else◌,
}
use magit.Git.Api.{GitError, not_found, Code, success, failure, Git}
use magit.Git.Store.{
  reference, object, commit, walker, strarray, tag, text, warn, debug, M, pure, ◌>>=◌, ◌>>◌,
  acquire, release, kputs, gh_log, gh_log_git_err, check,
}
use magit.Git.Refs.{codes, starts_with}

unfoldable pub short_tag_name : Bytes → Bytes
short_tag_name name = if starts_with (codes "refs/tags/") name then drop 10 name else name

module _ (g : Git) where
  open g use {Repo, Oid, Commit, Tag}

  -- The name of a match, where the callback stops the iteration.
  unfoldable pub tag_cb : Repo → Oid → Bytes → Oid → M (Option Bytes)
  tag_cb repo target name oid =
      check (g.object_lookup repo oid) (λ e. do gh_log debug; pure none)
        λ obj. do
          acquire object
          check (g.object_peel_commit obj) (λ e. do release object; pure none)
              λ peeled. do
                acquire object
                match ←
                    if g.oid_equal (g.object_id peeled) target
                    then (do acquire text; pure (some (short_tag_name name)))
                    else pure none
                release object
                release object
                pure match

  -- git_tag_foreach over the tags that it hands out.
  unfoldable pub tag_foreach : Repo → Oid → List (Bytes × Oid) → M (Option Bytes)
  tag_foreach repo target [] = pure none
  tag_foreach repo target ((name, oid) ∷ rest) = do
    match ← tag_cb repo target name oid
    let others = tag_foreach repo target rest
    elim match [ some n ↦ pure (some n) | none ↦ others ]

  unfoldable pub put_match : Option Bytes → M Code
  put_match none = pure success
  put_match (some n) = do gh_log debug; kputs n; release text; pure success

  -- The code of git_tag_foreach that is not an error.
  unfoldable pub foreach_failed : GitError → M Code
  foreach_failed not_found = do release object; pure success
  foreach_failed e = do release object; gh_log_git_err e; pure (failure e)

  unfoldable pub get_tag_desc_if_match : Repo → M Code
  get_tag_desc_if_match repo =
      check (g.revparse_single repo (codes "HEAD")) (λ e. do gh_log_git_err e; pure (failure e))
        λ head. do
          acquire object
          check (g.tag_foreach repo) foreach_failed λ tags. do
            match ← tag_foreach repo (g.object_id head) tags
            release object
            put_match match

  -- Whether the tag of this name is a tag object whose target is the commit `oid`.
  unfoldable pub tag_matches : Repo → Oid → Bytes → M Bool
  tag_matches repo oid name =
      check (g.reference_lookup repo name) (λ e. pure false)
        λ tag_ref. do
          acquire reference
          elim (g.reference_target tag_ref) [
            | none ↦ (do release reference; pure false)
            | some tag_oid ↦
                check (g.tag_lookup repo tag_oid) (λ e. do release reference; pure false)
                  λ t. do
                    release reference
                    acquire tag
                    check (g.commit_lookup repo (g.tag_target_id t))
                        (λ e. do release tag; pure false)
                        λ tag_commit. do
                          acquire commit
                          release tag
                          release commit
                          pure (g.oid_equal (g.commit_id tag_commit) oid)
          ]

  -- The loop over the names, up to the first that matches.
  unfoldable pub tag_names_loop : Repo → Oid → List Bytes → M (Option Bytes)
  tag_names_loop repo oid [] = pure none
  tag_names_loop repo oid (name ∷ rest) = do
    found ← tag_matches repo oid name
    let others = tag_names_loop repo oid rest
    if found then (do acquire text; pure (some (short_tag_name name))) else others

  -- How the walk ends: the tag's name, the commits passed over and the last oid; and whether
  -- `commit` is not NULL.
  pub record Found : Type 0 where
    pub name : Option Bytes
    pub commits_since_tag : ℕ
    pub last : Option Oid
    pub commit_set : Bool

module _ (g : Git) where
  open g use {Repo, Oid, Commit}

  -- The body of the loop, with the ways in which it goes on: `continue` after a failed lookup,
  -- `continue` after a failed git_tag_list, and the end of the body.
  unfoldable pub visit_commit :
      Repo → Oid → ℕ → M (Found g) → M (Found g) → M (Found g) → M (Found g)
  visit_commit repo oid n skipped dangling passed =
      check (g.commit_lookup repo oid) (λ e. do gh_log warn; skipped)
        λ c. do
          acquire commit
          check (g.tag_list repo) (λ e. do gh_log warn; release commit; dangling)
              λ names. do
                acquire strarray
                match ← tag_names_loop g repo oid names
                release strarray
                elim match [
                  | some name ↦ pure (record {
                    name = some name;
                    commits_since_tag = n;
                    last = some oid;
                    commit_set = true;
                  })
                  | none ↦ (do release commit; passed)
                ]

  -- The loop of the walk: `set` says whether `commit` is not NULL, `n` is commits_since_tag and
  -- `last` the value of `oid`. A failed lookup leaves `commit` as it is, a failed git_tag_list
  -- frees the commit and leaves the pointer.
  unfoldable pub describe_loop : Repo → List Oid → Bool → ℕ → Option Oid → M (Found g)
  describe_loop repo [] set n last =
      pure (record { name = none; commits_since_tag = n; last = last; commit_set = set })
  describe_loop repo (oid ∷ rest) set n last =
      let skipped = describe_loop repo rest set n (some oid) in
      let dangling = describe_loop repo rest true n (some oid) in
      let passed = describe_loop repo rest false (n + 1) (some oid) in
      let visit = visit_commit repo oid n skipped dangling passed in
      if ltb n 1000
      then visit
      else pure (record { name = none; commits_since_tag = n; last = some oid; commit_set = set })

  abbrev pub oid_text : Option Oid → Bytes
  oid_text none = []
  oid_text (some oid) = g.oid_tostr oid

  -- From the label `found_tag` to the label `out`.
  unfoldable pub put_tag_name : Found g → M (Unit {0})
  put_tag_name f = elim f.name [
    | none ↦ pure tt
    | some name ↦ (do
      kputs name
      if f.commits_since_tag == 0
          then pure tt
          else kputs
              (b'-' ∷ (g.decimal (pos f.commits_since_tag) ++ (codes "-g" ++ oid_text f.last)))
      release text)
  ]

  -- The walk with its end: a commit that is not NULL is freed, and the walker.
  unfoldable pub describe_walk : Repo → List Oid → M Code
  describe_walk repo oids = do
    found ← describe_loop repo oids false 0 none
    put_tag_name found
    if found.commit_set then release commit else pure tt
    release walker
    pure success

  unfoldable pub get_tag_desc : Repo → M Code
  get_tag_desc repo =
      check (g.repository_head repo) (λ e. do gh_log debug; pure success)
        λ head_ref. do
          acquire reference
          check (g.reference_peel_commit head_ref)
              (λ e. do release reference; gh_log warn; pure (failure e))
              λ head_obj. do
                acquire object
                release reference
                release object
                check (g.revwalk_new repo) (λ e. do gh_log_git_err e; pure (failure e))
                    λ walk. do
                      acquire walker
                      check (g.revwalk_push_head walk)
                          (λ e. do gh_log_git_err e; release walker; pure (failure e))
                          λ pushed. describe_walk repo (g.revwalk pushed).items
