-- ===== src/Git/Tags/Nearest.antt =====
-- What `get_tag_desc` of src/git_handler.c finds when the tags can be listed.
use magit.Base.{
  ℕ, ◌+◌, ◌≡◌, refl, ◌∙◌, Bool, true, false, Option, none, some, List, [], ◌∷◌, ◌++◌, append_assoc,
  append-nil, Bytes, pos, ltb, ◌==◌, if◌then◌else◌, arith,
}
use magit.Git.Api.{Reply, ok, failed, Code, success, failure, Git}
use magit.Git.Store.{
  Handle, commit, walker, strarray, Level, debug, warn, Store, M, pure, ◌>>◌, bind_some, release,
  Outcome, ends, ◌▷◌,
}
use magit.Git.Refs.{codes}
use magit.Git.Tags.OnCommit.{with_copy, tag_on, tag_names_loop-tag_on}
use magit.Git.Tags.{
  tag_names_loop, Found, visit_commit, describe_loop, oid_text, put_tag_name, describe_walk,
  get_tag_desc,
}

abbrev with_handle_if : Bool → Handle → List Handle → List Handle
with_handle_if true h held = h ∷ held
with_handle_if false h held = held

module _ (g : Git) where
  open g use {Repo, Oid}

  -- The walk: the first commit with a tag among those that can be looked up, within the first 1000.
  abbrev visited :
      Repo
      → Oid
      → List Bytes
      → ℕ
      → Reply (g.Commit)
      → Found g × List Level
      → Found g × List Level
      → Found g × List Level
  visited repo oid names n (failed e) skipped passed = (skipped.0, warn ∷ skipped.1)
  visited repo oid names n (ok c) skipped passed = elim (tag_on g repo oid names) [
    | some name ↦
        (record { name = some name; commits_since_tag = n; last = some oid; commit_set = true }, [])
    | none ↦ passed
  ]

  abbrev pub nearest : Repo → List Bytes → List Oid → ℕ → Option Oid → Found g × List Level
  nearest repo names [] n last =
      (record { name = none; commits_since_tag = n; last = last; commit_set = false }, [])
  nearest repo names (oid ∷ rest) n last =
      let skipped = nearest repo names rest n (some oid) in
      let passed = nearest repo names rest (n + 1) (some oid) in
      let seen = visited repo oid names n (g.commit_lookup repo oid) skipped passed in
      if ltb n 1000
      then seen
      else (record { name = none; commits_since_tag = n; last = some oid; commit_set = false }, [])

  abbrev Finds : Found g × List Level → Store → Option (Found g × Store) → Type 0
  Finds x s r =
      r
      ≡ some (
        x.0,
        record s {
          held = with_copy ((x.0).name) (with_handle_if ((x.0).commit_set) commit s.held);
          log = s.log ++ x.1;
        },
      )

  -- What is done with the name that was found, the list of names still held.
  abbrev take_name : Oid → ℕ → M (Found g) → Option Bytes → M (Found g)
  take_name oid n passed match = release strarray >> elim match as (λ _. M (Found g)) [
    | some name ↦
        pure
          (record { name = some name; commits_since_tag = n; last = some oid; commit_set = true })
    | none ↦ release commit >> passed
  ]

  take_name-Finds :
      (oid : Oid) (n : ℕ) (passed : M (Found g)) (x : Option Bytes) (p : Found g × List Level)
      (s : Store)
      → ((t : Store) → Finds p t (passed t))
      → Finds
          (elim x [
            | some name ↦ (
              record {
                name = some name;
                commits_since_tag = n;
                last = some oid;
                commit_set = true;
              },
              [],
            )
            | none ↦ p
          ])
          s
          (take_name oid n passed x (record s { held = with_copy x (strarray ∷ commit ∷ s.held) }))
  take_name-Finds oid n passed none p s found = found s
  take_name-Finds oid n passed (some name) p s found = simp append-nil

  visit_commit-Finds :
      (repo : Repo) (oid : Oid) (names : List Bytes) (n : ℕ) (skip dangle pass : M (Found g))
      (sk ps : Found g × List Level) (r : Reply (g.Commit)) (s : Store)
      → g.tag_list repo ≡ ok names
      → g.commit_lookup repo oid ≡ r
      → ((t : Store) → Finds sk t (skip t))
      → ((t : Store) → Finds ps t (pass t))
      → Finds (visited repo oid names n r sk ps) s (visit_commit g repo oid n skip dangle pass s)
  unfolding visit_commit
  visit_commit-Finds repo oid names n skip dangle pass sk ps (failed e) s listed h skips passes =
      rw h (skips (record s { log = s.log ++ warn ∷ [] }) ∙ simp append_assoc)
  visit_commit-Finds repo oid names n skip dangle pass sk ps (ok c) s listed h skips passes =
      rw (h, listed)
        (bind_some (tag_names_loop g repo oid names) (take_name oid n pass) (
            tag_names_loop-tag_on g repo oid names (record s { held = strarray ∷ commit ∷ s.held }))
          ∙ take_name-Finds oid n pass (tag_on g repo oid names) ps s passes)

  bounded-Finds :
      (d : Bool) (x y : Found g × List Level) (m k : M (Found g)) (s : Store)
      → Finds x s (m s)
      → Finds y s (k s)
      → Finds (if d then x else y) s ((if d then m else k) s)
  bounded-Finds true x y m k s a b = a
  bounded-Finds false x y m k s a b = b

  describe_loop-nearest :
      (repo : Repo) (names : List Bytes) (oids : List Oid) (n : ℕ) (last : Option Oid)
      → g.tag_list repo ≡ ok names
      → (s : Store)
      → Finds (nearest repo names oids n last) s (describe_loop g repo oids false n last s)
  unfolding describe_loop
  describe_loop-nearest repo names [] n last listed s = simp append-nil
  describe_loop-nearest repo names (oid ∷ rest) n last listed s =
      bounded-Finds (ltb n 1000) _ _ _ _ s
        (visit_commit-Finds repo oid names n _ _ _ _ _ (g.commit_lookup repo oid) s listed refl
          (describe_loop-nearest repo names rest n (some oid) listed)
          (describe_loop-nearest repo names rest (n + 1) (some oid) listed))
        (simp append-nil)

  -- `TAG`, or `TAG-N-gHASH` for a tag N commits away.
  abbrev pub tag_text : Option Bytes → ℕ → Option Oid → Bytes
  tag_text none n last = []
  tag_text (some name) n last =
      if n == 0
      then name
      else (name ++ (b'-' ∷ (g.decimal (pos n) ++ (codes "-g" ++ oid_text g last))))

  put_name :
      (name : Option Bytes) (n : ℕ) (last : Option Oid) (set : Bool) (s : Store)
      → put_tag_name g
          (record { name = name; commits_since_tag = n; last = last; commit_set = set })
          (record s { held = with_copy name s.held })
        ≡ some (tt, record s { out = s.out ++ tag_text name n last })
  unfolding put_tag_name
  put_name none n last set s = simp append-nil
  put_name (some name) n last set s = grind (arith, append_assoc, append-nil)

  free_walk :
      (set : Bool) (s : Store)
      → ((if set then release commit else pure tt) >> (release walker >> pure success))
          (record s { held = with_handle_if set commit (walker ∷ s.held) })
        ≡ some (success, s)
  free_walk true s = refl
  free_walk false s = refl

  abbrev pub walked : Found g × List Level → Outcome
  walked (f, logs) = record {
    code = success;
    appends = tag_text f.name f.commits_since_tag f.last;
    logs = logs;
  }

  abbrev walk_rest : Found g → M Code
  walk_rest f =
      put_tag_name g f
      >> ((if f.commit_set then release commit else pure tt) >> (release walker >> pure success))

  walk_end :
      (name : Option Bytes) (n : ℕ) (last : Option Oid) (set : Bool) (logs : List Level) (s : Store)
      → walk_rest
          (record { name = name; commits_since_tag = n; last = last; commit_set = set })
          (record s {
            held = with_copy name (with_handle_if set commit (walker ∷ s.held));
            log = s.log ++ logs;
          })
        ≡ ends s (record { code = success; appends = tag_text name n last; logs = logs })
  walk_end name n last set logs s =
      bind_some
        (put_tag_name g
          (record { name = name; commits_since_tag = n; last = last; commit_set = set }))
        (λ _. (if set then release commit else pure tt) >> (release walker >> pure success))
        (put_name name n last set
          (record s { held = with_handle_if set commit (walker ∷ s.held); log = s.log ++ logs }))
      ∙ free_walk set (record s { out = s.out ++ tag_text name n last; log = s.log ++ logs })

  describe_walk-walked :
      (repo : Repo) (names : List Bytes) (oids : List Oid) (s : Store)
      → g.tag_list repo ≡ ok names
      → describe_walk g repo oids (record s { held = walker ∷ s.held })
        ≡ ends s (walked (nearest repo names oids 0 none))
  unfolding describe_walk
  describe_walk-walked repo names oids s listed =
      let x = nearest repo names oids 0 none in
      bind_some (describe_loop g repo oids false 0 none) walk_rest
        (describe_loop-nearest repo names oids 0 none listed (record s { held = walker ∷ s.held }))
      ∙ walk_end ((x.0).name) ((x.0).commits_since_tag) ((x.0).last) ((x.0).commit_set) (x.1) s

  -- HEAD, its commit and the walk, up to the tag that was found.
  abbrev pub description : Repo → List Bytes → Outcome
  description repo names = elim (g.repository_head repo) [
    | failed e ↦ record { code = success; appends = []; logs = debug ∷ [] }
    | ok head_ref ↦ elim (g.reference_peel_commit head_ref) [
      | failed e ↦ record { code = failure e; appends = []; logs = warn ∷ [] }
      | ok c ↦ g.revwalk_new repo ▷ λ walk. g.revwalk_push_head walk ▷ λ pushed.
          walked (nearest repo names (g.revwalk pushed).items 0 none)
    ]
  ]

  -- Where the tags can be listed, `get_tag_desc` appends `TAG`, or `TAG-N-gHASH` where N commits
  -- come first, for the first commit of the walk, among the first 1000 that can be looked up, that
  -- a listed name resolves to as a tag object; with no such commit, or without a HEAD, it appends
  -- nothing. Both return 0. It fails only on HEAD's commit or on setting up the walk, and what it
  -- took is freed once on every path.
  pub get_tag_desc-ends :
      (repo : Repo) (names : List Bytes) (s : Store)
      → g.tag_list repo ≡ ok names
      → get_tag_desc g repo s ≡ ends s (description repo names)
  unfolding get_tag_desc
  get_tag_desc-ends repo names s listed = grind (arith, append-nil, describe_walk-walked repo names)
