-- ===== src/Git/Tags/Match.antt =====
-- What `get_tag_desc_if_match` of src/git_handler.c appends.
use magit.Base.{
  ◌≡◌, refl, ◌∙◌, Option, none, some, List, [], ◌∷◌, ◌++◌, append_assoc, append-nil, Bytes,
  if◌then◌else◌, arith,
}
use magit.Git.Api.{
  error, not_found, unborn_branch, iter_over, other, Reply, ok, failed, success, Git,
}
use magit.Git.Store.{
  Handle, text, object, Level, debug, Store, M, pure, ◌>>=◌, ◌>>◌, bind_some, release, check,
  Outcome, done, refuse, refused, ends, check-ends, ◌▷◌,
}
use magit.Git.Refs.{codes}
use magit.Git.Tags.{
  short_tag_name, tag_cb, tag_foreach, put_match, foreach_failed, get_tag_desc_if_match,
}

-- The name that was found, if any, and the log lines.
abbrev pub Search : Type 0
Search = Option Bytes × List Level

abbrev or_next : Search → Search → Search
or_next (some n, logs) next = (some n, logs)
or_next (none, logs) next = (next.0, logs ++ next.1)

-- The copy of a name that was found is held.
abbrev with_copy : Option Bytes → List Handle → List Handle
with_copy none held = held
with_copy (some n) held = text ∷ held

abbrev Finds : Search → Store → Option (Option Bytes × Store) → Type 0
Finds x s r = r ≡ some (x.0, record s { held = with_copy (x.0) s.held; log = s.log ++ x.1 })

-- What is appended for a search that ended.
abbrev pub described : Search → Outcome
described (none, logs) = record { code = success; appends = []; logs = logs }
described (some n, logs) = record { code = success; appends = n; logs = logs ++ debug ∷ [] }

module _ (g : Git) where
  open g use {Repo, Oid}

  -- The short name of a tag that peels to the commit `target`.
  abbrev pub match_of : Repo → Oid → Bytes → Oid → Search
  match_of repo target name oid = elim (g.object_lookup repo oid) [
    | failed e ↦ (none, debug ∷ [])
    | ok obj ↦ elim (g.object_peel_commit obj) [
      | failed e ↦ (none, [])
      | ok peeled ↦
          (if g.oid_equal (g.object_id peeled) target then some (short_tag_name name) else none, [])
    ]
  ]

  tag_cb-Finds :
      (repo : Repo) (target : Oid) (name : Bytes) (oid : Oid) (s : Store)
      → Finds (match_of repo target name oid) s (tag_cb g repo target name oid s)
  unfolding tag_cb
  tag_cb-Finds repo target name oid s = grind (arith, append-nil)

  -- The first match, with the log lines up to it.
  abbrev pub first_match : Repo → Oid → List (Bytes × Oid) → Search
  first_match repo target [] = (none, [])
  first_match repo target ((name, oid) ∷ rest) =
      or_next (match_of repo target name oid) (first_match repo target rest)

  or_next-Finds :
      (others : M (Option Bytes)) (x next : Search) (s : Store)
      → ((t : Store) → Finds next t (others t))
      → Finds (or_next x next) s (
          (elim (x.0) as (λ _. M (Option Bytes)) [ some n ↦ pure (some n) | none ↦ others ])
            (record s { held = with_copy (x.0) s.held; log = s.log ++ x.1 }))
  or_next-Finds others (some n, logs) next s found = refl
  or_next-Finds others (none, logs) next s found =
      found (record s { log = s.log ++ logs }) ∙ simp append_assoc

  tag_foreach-Finds :
      (repo : Repo) (target : Oid) (tags : List (Bytes × Oid)) (s : Store)
      → Finds (first_match repo target tags) s (tag_foreach g repo target tags s)
  unfolding tag_foreach
  tag_foreach-Finds repo target [] s = simp append-nil
  tag_foreach-Finds repo target ((name, oid) ∷ rest) s =
      bind_some (tag_cb g repo target name oid) _ (tag_cb-Finds repo target name oid s)
      ∙ or_next-Finds (tag_foreach g repo target rest) (match_of repo target name oid)
          (first_match repo target rest) s (tag_foreach-Finds repo target rest)

  abbrev pub found_by : Repo → Oid → Reply (List (Bytes × Oid)) → Outcome
  found_by repo target (failed not_found) = done []
  found_by repo target (failed e) = refuse e
  found_by repo target (ok tags) = described (first_match repo target tags)

  abbrev pub name_at_head : Repo → Outcome
  name_at_head repo = g.revparse_single repo (codes "HEAD") ▷ λ head.
      found_by repo (g.object_id head) (g.tag_foreach repo)

  put_match-described :
      (x : Search) (s : Store)
      → (release object >> put_match g (x.0))
          (record s { held = with_copy (x.0) (object ∷ s.held); log = s.log ++ x.1 })
        ≡ ends s (described x)
  unfolding put_match
  put_match-described (none, logs) s = simp append-nil
  put_match-described (some n, logs) s = simp append_assoc

  found_by-ends :
      (repo : Repo) (target : Oid) (r : Reply (List (Bytes × Oid))) (s : Store)
      → check r
          (foreach_failed g)
          (λ tags. tag_foreach g repo target tags >>= λ match. release object >> put_match g match)
          (record s { held = object ∷ s.held })
        ≡ ends s (found_by repo target r)
  unfolding foreach_failed
  found_by-ends repo target (failed not_found) s = simp append-nil
  found_by-ends repo target (failed error) s = simp append-nil
  found_by-ends repo target (failed unborn_branch) s = simp append-nil
  found_by-ends repo target (failed iter_over) s = simp append-nil
  found_by-ends repo target (failed (other n)) s = simp append-nil
  found_by-ends repo target (ok tags) s =
      bind_some (tag_foreach g repo target tags) (λ match. release object >> put_match g match)
        (tag_foreach-Finds repo target tags (record s { held = object ∷ s.held }))
      ∙ put_match-described (first_match repo target tags) s

  -- `get_tag_desc_if_match` appends the short name of the first tag, in libgit2's order, that peels
  -- to HEAD's commit, and returns 0; without such a tag, or where no tag is found at all, it
  -- appends nothing and returns 0. A tag that cannot be looked up is passed over. If HEAD cannot be
  -- resolved or the tags cannot be listed it returns that code. Objects and the copy of the name
  -- are freed on every path.
  pub get_tag_desc_if_match-ends :
      (repo : Repo) (s : Store) → get_tag_desc_if_match g repo s ≡ ends s (name_at_head repo)
  unfolding get_tag_desc_if_match
  get_tag_desc_if_match-ends repo s =
      check-ends (g.revparse_single repo (codes "HEAD")) _ _ _ s s (λ e. refused e s)
        λ head. found_by-ends repo (g.object_id head) (g.tag_foreach repo) s
