-- ===== src/Git/Diffs/Patches.antt =====
-- What `get_staged` and `get_diff_patch` of src/git_handler.c append and return.
use magit.Base.{◌≡◌, refl, ◌∙◌, Option, none, some, [], ◌∷◌, ◌++◌, append_assoc, append-nil, arith}
use magit.Git.Api.{
  GitError, error, not_found, unborn_branch, iter_over, other, Reply, ok, failed, success, Git,
}
use magit.Git.Store.{
  reference, index, diff, Level, debug, Store, Outcome, refuse, ends, check-ends, checked,
  checked-ends, refused, holding-ends, object, ◌▷◌,
}
use magit.Git.Diffs.{
  put_patch, get_diff_patch, staged_patch, without_head, with_head, staged_with, staged_head,
  get_staged,
}

module _ (g : Git) where
  open g use {Repo, Ref, Tree, Index, Diff}

  abbrev pub patch : Diff → Outcome
  patch d = g.diff_find_similar d ▷ λ d'.
      g.diff_to_buf d' ▷ λ t. record { code = success; appends = t; logs = debug ∷ [] }

  put_patch-ends :
      (d : Diff) (s : Store) → put_patch g d (record s { held = diff ∷ s.held }) ≡ ends s (patch d)
  unfolding put_patch
  put_patch-ends d s = grind (arith, append_assoc, append-nil)

  abbrev pub workdir_patch : Repo → Outcome
  workdir_patch repo = g.diff_index_to_workdir repo ▷ patch

  -- `get_diff_patch` appends the patch of the index against the work tree, renames found, and
  -- returns 0. If one of its three calls of libgit2 fails it returns that code, appends nothing and
  -- logs the failure. The diff and the buffer are freed on every path.
  pub get_diff_patch-ends :
      (repo : Repo) (s : Store) → get_diff_patch g repo s ≡ ends s (workdir_patch repo)
  unfolding get_diff_patch
  get_diff_patch-ends repo s =
      check-ends (g.diff_index_to_workdir repo) _ _ _ s s (λ e. simp append-nil)
        λ d. put_patch-ends d s

  abbrev pub tree_patch : Repo → Option Tree → Index → Outcome
  tree_patch repo tree idx = g.diff_tree_to_index repo tree idx ▷ patch

  staged_patch-ends :
      (repo : Repo) (tree : Option Tree) (idx : Index) (s : Store)
      → staged_patch g repo tree idx s ≡ ends s (tree_patch repo tree idx)
  unfolding staged_patch
  staged_patch-ends repo tree idx s =
      check-ends (g.diff_tree_to_index repo tree idx) _ _ _ s s (λ e. simp append-nil)
        λ d. put_patch-ends d s

  -- A log line in front.
  abbrev pub after_log : Level → Outcome → Outcome
  after_log l o = record o { logs = l ∷ o.logs }

  -- The tree that the index is compared with: that of HEAD, or none where HEAD is unborn.
  abbrev pub staged_from : Repo → Index → Reply Ref → Outcome
  staged_from repo idx (failed unborn_branch) = after_log debug (tree_patch repo none idx)
  staged_from repo idx (failed not_found) = after_log debug (tree_patch repo none idx)
  staged_from repo idx (failed e) = refuse e
  staged_from repo idx (ok head_ref) =
      g.reference_peel_tree head_ref ▷ λ tree. tree_patch repo (some tree) idx

  abbrev pub staged : Repo → Outcome
  staged repo = g.repository_index repo ▷ λ opened.
      g.index_read opened ▷ λ idx. staged_from repo idx (g.repository_head repo)

  without_head-ends :
      (repo : Repo) (idx : Index) (e : GitError) (s : Store)
      → without_head g repo idx e s ≡ ends s (staged_from repo idx (failed e))
  unfolding without_head
  without_head-ends repo idx unborn_branch s =
      staged_patch-ends repo none idx (record s { log = s.log ++ debug ∷ [] }) ∙ simp append_assoc
  without_head-ends repo idx not_found s =
      staged_patch-ends repo none idx (record s { log = s.log ++ debug ∷ [] }) ∙ simp append_assoc
  without_head-ends repo idx error s = simp append-nil
  without_head-ends repo idx iter_over s = simp append-nil
  without_head-ends repo idx (other n) s = simp append-nil

  staged_with-ends :
      (repo : Repo) (idx : Index) (tree : Tree) (s : Store)
      → staged_with g repo idx tree s ≡ ends s (tree_patch repo (some tree) idx)
  unfolding staged_with
  staged_with-ends repo idx tree s =
      holding-ends object (staged_patch g repo (some tree) idx) s (tree_patch repo (some tree) idx)
        (staged_patch-ends repo (some tree) idx (record s { held = object ∷ s.held }))

  with_head-ends :
      (repo : Repo) (idx : Index) (head_ref : Ref) (s : Store)
      → with_head g repo idx head_ref s ≡ ends s (staged_from repo idx (ok head_ref))
  unfolding with_head
  with_head-ends repo idx head_ref s =
      holding-ends reference (checked (g.reference_peel_tree head_ref) (staged_with g repo idx)) s
        (staged_from repo idx (ok head_ref))
        (checked-ends (g.reference_peel_tree head_ref) (staged_with g repo idx)
          (λ tree. tree_patch repo (some tree) idx) (record s { held = reference ∷ s.held })
          (λ tree. staged_with-ends repo idx tree (record s { held = reference ∷ s.held })))

  staged_head-ends :
      (repo : Repo) (idx : Index) (r : Reply Ref) (s : Store)
      → g.repository_head repo ≡ r
      → staged_head g repo idx s ≡ ends s (staged_from repo idx r)
  unfolding staged_head
  staged_head-ends repo idx (failed e) s h = rw h (without_head-ends repo idx e s)
  staged_head-ends repo idx (ok head_ref) s h = rw h (with_head-ends repo idx head_ref s)

  -- `get_staged` appends the patch of HEAD's tree against the index, read afresh, renames found,
  -- and returns 0; where HEAD is unborn or not found it compares with the empty tree instead of
  -- failing. If another call of libgit2 fails it returns that code, appends nothing and logs the
  -- failure. The index, the reference, the tree, the diff and the buffer are freed on every path.
  pub get_staged-ends : (repo : Repo) (s : Store) → get_staged g repo s ≡ ends s (staged repo)
  unfolding get_staged
  get_staged-ends repo s =
      check-ends (g.repository_index repo) _ _ _ s s (λ e. refused e s)
        λ opened.
          holding-ends index (checked (g.index_read opened) (staged_head g repo)) s
            (g.index_read opened ▷ λ idx. staged_from repo idx (g.repository_head repo))
            (checked-ends (g.index_read opened) (staged_head g repo)
              (λ idx. staged_from repo idx (g.repository_head repo))
              (record s { held = index ∷ s.held })
              (λ idx.
                staged_head-ends repo idx (g.repository_head repo)
                  (record s { held = index ∷ s.held }) refl))
