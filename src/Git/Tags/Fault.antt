-- ===== src/Git/Tags/Fault.antt =====
-- What `get_tag_desc` of src/git_handler.c does when the tags cannot be listed.
use magit.Base.{◌≡◌, refl, none, [], ◌∷◌}
use magit.Git.Api.{GitError, ok, failed, Git}
use magit.Git.Store.{walker, Store}
use magit.Git.Tags.{visit_commit, describe_loop, put_tag_name, describe_walk, get_tag_desc}

module _ (g : Git) where
  open g use {Repo, Ref, Oid, Commit, Walker}

  describe_walk_faults :
      (repo : Repo) (oid : Oid) (c : Commit) (e : GitError) (s : Store)
      → g.commit_lookup repo oid ≡ ok c
      → g.tag_list repo ≡ failed e
      → s.held ≡ walker ∷ []
      → describe_walk g repo (oid ∷ []) s ≡ none
  unfolding describe_walk describe_loop visit_commit put_tag_name
  describe_walk_faults repo oid c e s found unlisted alone = rw (found, unlisted, alone)

  -- If git_tag_list fails at the one commit of the history, `get_tag_desc` frees that commit twice:
  -- once in the loop and again at its end. Here HEAD, its commit and the walk are there, and
  -- nothing else is held.
  pub get_tag_desc_faults :
      (repo : Repo) (head_ref : Ref) (h c : Commit) (w p : Walker) (oid : Oid) (e : GitError)
      (s : Store)
      → g.repository_head repo ≡ ok head_ref
      → g.reference_peel_commit head_ref ≡ ok h
      → g.revwalk_new repo ≡ ok w
      → g.revwalk_push_head w ≡ ok p
      → (g.revwalk p).items ≡ oid ∷ []
      → g.commit_lookup repo oid ≡ ok c
      → g.tag_list repo ≡ failed e
      → s.held ≡ []
      → get_tag_desc g repo s ≡ none
  unfolding get_tag_desc
  get_tag_desc_faults repo head_ref h c w p oid e s headed peeled made pushed walk found unlisted
        alone =
      rw (headed, peeled, made, pushed, walk, alone)
        (describe_walk_faults repo oid c e (record s { held = walker ∷ [] }) found unlisted refl)
