-- ===== src/Git/Worktrees/Entries.antt =====
-- What `list_worktrees_porcelain` of src/git_handler.c appends.
use magit.Base.{
  ◌≡◌, refl, ap, ◌∙◌, Bool, true, false, Option, some, List, [], ◌∷◌, ◌++◌, append_assoc,
  append-nil, Bytes, if◌then◌else◌, arith,
}
use magit.Git.Api.{Reply, ok, failed, Code, success, failure, Lock, Git}
use magit.Git.Store.{
  Level, worktree, strarray, debug, warn, gh_git_err_level, kputc, kputs_or_fault, check, gh_log,
  gh_log_git_err, acquire, release, Store, M, pure, ◌>>◌, bind_some, Outcome, ends,
}
use magit.Git.Refs.{codes}
use magit.Git.Worktrees.{
  target_text, put_head, main_path, put_bare, put_main, reason_text, put_lock, put_worktree_head,
  put_prunable, put_linked, worktree_loop, list_worktrees_porcelain,
}

-- A text and its log lines.
abbrev pub Written : Type 0
Written = Bytes × List Level

abbrev pub nothing : Written
nothing = ([], [])

infixl 6 ◌and◌
abbrev pub ◌and◌ : Written → Written → Written
a and b = (a.0 ++ b.0, a.1 ++ b.1)

abbrev pub line : Bytes → Written
line t = (t ++ 0 ∷ [], [])

abbrev pub line_if : Bool → Bytes → Written
line_if true t = line t
line_if false t = nothing

module _ (g : Git) where
  open g use {Repo, Ref, Worktree}

  -- It writes this and holds what it held.
  abbrev Writes : Written → Store → Option (Unit {0} × Store) → Type 0
  Writes w s r = r ≡ some (tt, record s { out = s.out ++ w.0; log = s.log ++ w.1 })

  abbrev pub branch_text : Repo → Ref → Bytes
  branch_text repo head_ref =
      if g.repository_head_detached repo
      then codes "detached"
      else (codes "branch " ++ g.reference_name head_ref)

  abbrev pub head_lines : Repo → Written
  head_lines repo = elim (g.repository_head repo) [
    | failed e ↦ ([], gh_git_err_level e ∷ [])
    | ok head_ref ↦
        line (codes "HEAD " ++ target_text g head_ref) and line (branch_text repo head_ref)
  ]

  put_head-lines : (repo : Repo) (s : Store) → Writes (head_lines repo) s (put_head g repo s)
  unfolding put_head
  put_head-lines repo s = grind (arith, append_assoc, append-nil)

  abbrev pub opened_lines : Worktree → Written
  opened_lines wt = elim (g.worktree_open wt) [
    | failed e ↦ ([], warn ∷ [])
    | ok wt_repo ↦ head_lines wt_repo
  ]

  put_worktree_head-lines :
      (wt : Worktree) (s : Store) → Writes (opened_lines wt) s (put_worktree_head g wt s)
  unfolding put_worktree_head
  put_worktree_head-lines wt s = grind (arith, append_assoc, append-nil, put_head-lines)

  put_lock-lines :
      (l : Lock) (s : Store)
      → Writes (line_if l.is_locked (codes "locked" ++ reason_text l.reason)) s (put_lock l s)
  unfolding put_lock
  put_lock-lines l s = grind (arith, append_assoc, append-nil)

  put_prunable-lines :
      (wt : Worktree) (s : Store)
      → Writes (line_if (g.worktree_is_prunable wt) (codes "prunable")) s (put_prunable g wt s)
  unfolding put_prunable
  put_prunable-lines wt s = grind (arith, append_assoc, append-nil)

  -- One part of an entry in front of the parts up to the release of its worktree.
  Writes-then :
      (m k : M (Unit {0})) (a b : Written) (s : Store)
      → ((t : Store) → Writes a t (m t))
      → ((t : Store) → Writes b t (k (record t { held = worktree ∷ t.held })))
      → Writes (a and b) s ((m >> k) (record s { held = worktree ∷ s.held }))
  Writes-then m k a b s first next =
      bind_some m (λ _. k) (first (record s { held = worktree ∷ s.held }))
      ∙ next (record s { out = s.out ++ a.0; log = s.log ++ a.1 })
      ∙ simp append_assoc

  abbrev close : M (Unit {0})
  close = kputc 0 >> release worktree

  abbrev pub locked_lines : Worktree → Written
  locked_lines wt =
      line_if (g.worktree_is_locked wt).is_locked
        (codes "locked" ++ reason_text (g.worktree_is_locked wt).reason)

  abbrev pub entry_lines : Worktree → Written
  entry_lines wt =
      line (codes "worktree " ++ g.worktree_path wt)
      and (opened_lines wt
          and (locked_lines wt
              and (line_if (g.worktree_is_prunable wt) (codes "prunable") and line [])))

  entry-lines :
      (wt : Worktree) (s : Store)
      → Writes
          (opened_lines wt
            and (locked_lines wt
                and (line_if (g.worktree_is_prunable wt) (codes "prunable") and line [])))
          s
          ((put_worktree_head g wt
              >> (put_lock (g.worktree_is_locked wt) >> (put_prunable g wt >> close)))
            (record s { held = worktree ∷ s.held }))
  entry-lines wt s =
      Writes-then (put_worktree_head g wt) _ (opened_lines wt) _ s (put_worktree_head-lines wt) λ t.
        Writes-then (put_lock (g.worktree_is_locked wt)) _ (locked_lines wt) _ t
          (put_lock-lines (g.worktree_is_locked wt))
          λ u.
            Writes-then (put_prunable g wt) close
              (line_if (g.worktree_is_prunable wt) (codes "prunable")) (line []) u
              (put_prunable-lines wt) λ v. simp append-nil

  -- One linked worktree; one that cannot be looked up is left out.
  abbrev pub linked_at : Reply Worktree → Written
  linked_at (failed e) = ([], warn ∷ [])
  linked_at (ok wt) = entry_lines wt

  put_linked-lines_at :
      (repo : Repo) (name : Bytes) (r : Reply Worktree) (s : Store)
      → g.worktree_lookup repo name ≡ r
      → Writes (linked_at r) s (put_linked g repo name s)
  unfolding put_linked
  put_linked-lines_at repo name (failed e) s h = rw h (simp append-nil)
  put_linked-lines_at repo name (ok wt) s h = rw h (
      entry-lines wt
        (record s { out = ((s.out ++ codes "worktree ") ++ g.worktree_path wt) ++ 0 ∷ [] })
      ∙ simp append_assoc)

  abbrev pub linked_lines : Repo → List Bytes → Written
  linked_lines repo [] = nothing
  linked_lines repo (name ∷ rest) =
      linked_at (g.worktree_lookup repo name) and linked_lines repo rest

  worktree_loop-lines :
      (repo : Repo) (names : List Bytes) (s : Store)
      → Writes (linked_lines repo names) s (worktree_loop g repo names s)
  unfolding worktree_loop
  worktree_loop-lines repo [] s = simp append-nil
  worktree_loop-lines repo (name ∷ rest) s =
      bind_some (put_linked g repo name) (λ _. worktree_loop g repo rest)
        (put_linked-lines_at repo name (g.worktree_lookup repo name) s refl)
      ∙ worktree_loop-lines repo rest _
      ∙ simp append_assoc

  -- The entry of the main worktree, whose path is given.
  abbrev pub main_lines : Repo → Bytes → Written
  main_lines repo path =
      line (codes "worktree " ++ path)
      and (head_lines repo and (line_if (g.repository_is_bare repo) (codes "bare") and line []))

  put_bare-lines :
      (repo : Repo) (s : Store)
      → Writes (line_if (g.repository_is_bare repo) (codes "bare")) s (put_bare g repo s)
  unfolding put_bare
  put_bare-lines repo s = grind (arith, append_assoc, append-nil)

  put_main-lines :
      (repo : Repo) (path : Bytes) (s : Store)
      → main_path g repo ≡ some path
      → Writes (main_lines repo path) s (put_main g repo s)
  unfolding put_main
  put_main-lines repo path s h =
      bind_some (kputs_or_fault (main_path g repo))
        (λ _. kputc 0 >> (put_head g repo >> (put_bare g repo >> kputc 0)))
        (ap (λ o. kputs_or_fault o (record s { out = s.out ++ codes "worktree " })) h)
      ∙ bind_some (put_head g repo) (λ _. put_bare g repo >> kputc 0)
          (put_head-lines repo
            (record s { out = ((s.out ++ codes "worktree ") ++ path) ++ 0 ∷ [] }))
      ∙ bind_some (put_bare g repo) (λ _. kputc 0) (put_bare-lines repo _)
      ∙ simp (append_assoc, append-nil)

  -- The whole listing, when the main worktree has a path.
  abbrev pub listed : Written → Repo → Reply (List Bytes) → Outcome
  listed m repo (failed e) = record {
    code = failure e;
    appends = m.0;
    logs = m.1 ++ gh_git_err_level e ∷ [];
  }
  listed m repo (ok names) = record {
    code = success;
    appends = m.0 ++ (linked_lines repo names).0;
    logs = m.1 ++ (debug ∷ (linked_lines repo names).1);
  }

  -- From git_worktree_list on, behind what was written.
  abbrev list_linked : Repo → Reply (List Bytes) → M Code
  list_linked repo r =
      check r (λ e. gh_log_git_err e >> pure (failure e))
        λ names.
          acquire strarray
          >> (gh_log debug >> (worktree_loop g repo names >> (release strarray >> pure success)))

  list_linked-listed :
      (m : Written) (repo : Repo) (r : Reply (List Bytes)) (s : Store)
      → list_linked repo r (record s { out = s.out ++ m.0; log = s.log ++ m.1 })
        ≡ ends s (listed m repo r)
  list_linked-listed m repo (failed e) s = simp append_assoc
  list_linked-listed m repo (ok names) s =
      bind_some (worktree_loop g repo names) (λ _. release strarray >> pure success)
        (worktree_loop-lines repo names (record {
          out = s.out ++ m.0;
          held = strarray ∷ s.held;
          log = (s.log ++ m.1) ++ debug ∷ [];
        }))
      ∙ simp append_assoc

  -- `list_worktrees_porcelain` appends the entry of the main worktree and then one entry for each
  -- linked worktree that can be looked up, in libgit2's order: the path, the hash and branch of its
  -- HEAD where they can be read, and its marks, each ended by a NUL and the entry by one more. It
  -- returns 0, or the code of a failed listing with the main entry still appended. What it opened
  -- is freed. The condition is that the main worktree has a path.
  pub list_worktrees_porcelain-ends :
      (repo : Repo) (path : Bytes) (s : Store)
      → main_path g repo ≡ some path
      → list_worktrees_porcelain g repo s
        ≡ ends s (listed (main_lines repo path) repo (g.worktree_list repo))
  unfolding list_worktrees_porcelain
  list_worktrees_porcelain-ends repo path s h =
      bind_some (put_main g repo) (λ _. list_linked repo (g.worktree_list repo))
        (put_main-lines repo path s h)
      ∙ list_linked-listed (main_lines repo path) repo (g.worktree_list repo) s
