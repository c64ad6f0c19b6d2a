-- ===== src/Worker/Collected.antt =====
-- Which query of src/git_handler.c each answer of a worker is the answer of.
use magit.Base.{
  ℕ, zero, suc, ◌≡◌, refl, sym, ap, subst, ◌∙◌, Option, none, some, List, [], ◌∷◌, ◌++◌, Bytes,
  if◌then◌else◌,
}
use magit.Git.Api.{error, ok, Code, success, failure, Git}
use magit.Git.Store.{Store, M}
use magit.Git.Refs.{
  codes, get_upstream_branch, get_rev_parse_short_head, get_origin_head, get_ref_oid, get_stash_oid,
  get_tag_master_oid, get_rev_parse_verify, get_branch_upstream_name, git_head_subject,
  git_symbolic_ref_short_head, git_rev_head,
}
use magit.Git.History.{get_log}
use magit.Git.Branches.{get_branch_list}
use magit.Git.Status.{StatusBits, get_status_porcelain_z}
use magit.Git.Config.{get_config_status_show_untracked_files, git_config_list_z}
use magit.Git.Diffs.{get_diff_patch, get_staged}
use magit.Git.Tags.{get_tag_desc_if_match, get_tag_desc}
use magit.Git.Worktrees.{list_worktrees_porcelain}
use magit.Worker.Tasks.{
  Answer, and_then, run_query, tasks, parallel_task_runner, task_config_list_z, task_head_subject,
  task_tag_desc, task_tag_desc_if_match, task_worktrees_porcelain, task_config_show_untracked,
  task_status_porcelain_z, task_diff_patch, task_staged, task_stash_oid, task_branch_list,
  task_rev_parse_verify, task_log, task_rev_parse_short_head, task_tag_master,
  task_tag_origin_master, task_tag_origin_head, task_origin_head, task_upstream_branch_master,
  task_symbolic_ref_short_head, task_branch_upstream_name, task_upstream_subj,
}
use magit.Worker.Threads.{add, run_parallel_tasks}
use magit.Worker.Handler.{is_zero, row, Phases, run_phases}

-- A chain that has a result, taken apart at its head.
pub and_then-head :
    {A B : Type 0} (o : Option A) (f : A → Option B) (r : B)
    → and_then o f ≡ some r
    → (a : A) × (o ≡ some a) × (f a ≡ some r)
and_then-head none f r e = cc
and_then-head (some a) f r e = (a, refl, e)

abbrev empty_store : Store
empty_store = record { out = []; held = []; log = [] }

-- A query that is run with an empty buffer ends with this code, and leaves this text.
abbrev Ran : M Code → Answer → Type 0
Ran m a = (s : Store) × (m empty_store ≡ some (a.0, s)) × (s.out ≡ a.1)

-- A query that is run only behind a success; behind a failure its answer is -1 without a text.
abbrev RanAfter : Code → M Code → Answer → Type 0
RanAfter success m a = Ran m a
RanAfter (failure e) m a = a ≡ (failure error, [])

outcome-Ran :
    (r : Option (Code × Store)) (m : M Code) (a : Answer)
    → m empty_store ≡ r
    → (elim r as (λ _. Option Answer) [ none ↦ none | some (c, s) ↦ some (c, s.out) ]) ≡ some a
    → Ran m a
outcome-Ran none m a h e = cc
outcome-Ran (some (c, s)) m a h e =
    let same : (c, s.out) ≡ a = cc in subst (λ a. Ran m a) same (s, h, refl)

run_query-Ran : (m : M Code) (a : Answer) → run_query m ≡ some a → Ran m a
unfolding run_query
run_query-Ran m a e = outcome-Ran (m empty_store) m a refl e

-- The answers are those of the tasks, each at its task's place.
abbrev Each : {T : Type 0} → (T → Option Answer) → List T → List Answer → Type 0
Each run [] answers = Unit
Each run (t ∷ ts) [] = ⊥
Each run (t ∷ ts) (a ∷ rest) = (run t ≡ some a) × Each run ts rest

add-Each :
    {T : Type 0} (run : T → Option Answer) (t : T) (ts : List T) (r : Option Answer)
    (q : Option (List Answer)) (answers : List Answer)
    → run t ≡ r
    → ((rest : List Answer) → q ≡ some rest → Each run ts rest)
    → add r q ≡ some answers
    → Each run (t ∷ ts) answers
add-Each run t ts none q answers ran each e = cc
add-Each run t ts (some a) none answers ran each e = cc
add-Each run t ts (some a) (some rest) [] ran each e = cc
add-Each run t ts (some a) (some rest) (x ∷ xs) ran each e = (cc, each xs cc)

run_parallel_tasks-Each :
    {T : Type 0} (run : T → Option Answer) (ts : List T) (answers : List Answer)
    → run_parallel_tasks run ts ≡ some answers
    → Each run ts answers
unfolding run_parallel_tasks
run_parallel_tasks-Each run [] answers e = tt
run_parallel_tasks-Each run (t ∷ ts) answers e =
    add-Each run t ts (run t) (run_parallel_tasks run ts) answers refl
      (run_parallel_tasks-Each run ts) e

abbrev task_at : {T : Type 0} → ℕ → List T → Option T
task_at n [] = none
task_at zero (t ∷ ts) = some t
task_at (suc n) (t ∷ ts) = task_at n ts

Each-row :
    {T : Type 0} (run : T → Option Answer) (n : ℕ) (ts : List T) (answers : List Answer) (t : T)
    → Each run ts answers
    → task_at n ts ≡ some t
    → run t ≡ some (row n answers)
unfolding row
Each-row run n [] answers t each e = cc
Each-row run n (x ∷ xs) [] t each e = elim each [ ]
Each-row run zero (x ∷ xs) (a ∷ rest) t each e = let same : x ≡ t = cc in ap run (sym same) ∙ each.0
Each-row run (suc n) (x ∷ xs) (a ∷ rest) t each e = Each-row run n xs rest t each.1 e

module _ (g : Git) (b : StatusBits) where
  open g use {Repo}

  -- The answers of the threads, by the queries that they are to answer.
  abbrev pub Collected : Repo → List Answer → Type 0
  Collected repo a =
      Ran (git_config_list_z g repo) (row 0 a)
      × Ran (git_head_subject g repo (codes "HEAD")) (row 1 a)
      × Ran (get_tag_desc g repo) (row 2 a)
      × Ran (get_tag_desc_if_match g repo) (row 3 a)
      × Ran (list_worktrees_porcelain g repo) (row 4 a)
      × Ran (get_config_status_show_untracked_files g repo) (row 5 a)
      × Ran (get_status_porcelain_z g b repo) (row 6 a)
      × Ran (get_diff_patch g repo) (row 7 a)
      × Ran (get_staged g repo) (row 8 a)
      × Ran (get_stash_oid g repo) (row 9 a)
      × Ran (get_branch_list g repo) (row 10 a)
      × Ran (get_rev_parse_verify g repo (codes "HEAD~30")) (row 11 a)
      × Ran (get_log g repo 30) (row 12 a)
      × Ran (get_rev_parse_short_head g repo) (row 13 a)
      × Ran (get_tag_master_oid g repo) (row 14 a)
      × Ran (get_ref_oid g repo (codes "refs/tags/origin/master")) (row 15 a)
      × Ran (get_ref_oid g repo (codes "refs/tags/origin/HEAD")) (row 16 a)
      × Ran (get_origin_head g repo) (row 17 a)
      × Ran (get_upstream_branch g repo (codes "master")) (row 18 a)

  -- The answers of the worker's own steps: HEAD, its branch, where that is found its upstream, and
  -- where that is found the subject of the upstream's commit.
  abbrev pub Phased : Repo → Phases → Type 0
  Phased repo p =
      ((s : Store) × (git_rev_head g repo empty_store ≡ some (p.rev, s)))
      × Ran (git_symbolic_ref_short_head g repo) p.branch
      × RanAfter (p.branch.0) (get_branch_upstream_name g repo (p.branch.1)) p.upstream
      × RanAfter (p.upstream.0) (git_head_subject g repo (codes "refs/remotes/" ++ p.upstream.1))
          p.upstream_subj

  thread-Ran :
      (repo : Repo) (path : Bytes) (answers : List Answer) (n : ℕ) (m : Repo → M Code)
      → g.repository_open_ext path ≡ ok repo
      → Each (parallel_task_runner g b path) (tasks g b) answers
      → task_at n (tasks g b) ≡ some m
      → Ran (m repo) (row n answers)
  unfolding parallel_task_runner
  thread-Ran repo path answers n m o each at =
      let ran = Each-row (parallel_task_runner g b path) n (tasks g b) answers m each at in
      run_query-Ran (m repo) (row n answers) (rw (parallel_task_runner, o) at ran)

  pub run_parallel_tasks-Collected :
      (repo : Repo) (path : Bytes) (answers : List Answer)
      → g.repository_open_ext path ≡ ok repo
      → run_parallel_tasks (parallel_task_runner g b path) (tasks g b) ≡ some answers
      → Collected repo answers
  unfolding tasks task_config_list_z task_head_subject task_tag_desc task_tag_desc_if_match
      task_worktrees_porcelain task_config_show_untracked task_status_porcelain_z task_diff_patch
      task_staged task_stash_oid task_branch_list task_rev_parse_verify task_log
      task_rev_parse_short_head task_tag_master task_tag_origin_master task_tag_origin_head
      task_origin_head task_upstream_branch_master
  run_parallel_tasks-Collected repo path answers o e =
      let each = run_parallel_tasks-Each (parallel_task_runner g b path) (tasks g b) answers e in
      let ran : (n : ℕ) (m : Repo → M Code)
          → task_at n (tasks g b) ≡ some m
          → Ran (m repo) (row n answers) =
        λ n m at. thread-Ran repo path answers n m o each at in
      (
        ran 0 _ refl,
        ran 1 _ refl,
        ran 2 _ refl,
        ran 3 _ refl,
        ran 4 _ refl,
        ran 5 _ refl,
        ran 6 _ refl,
        ran 7 _ refl,
        ran 8 _ refl,
        ran 9 _ refl,
        ran 10 _ refl,
        ran 11 _ refl,
        ran 12 _ refl,
        ran 13 _ refl,
        ran 14 _ refl,
        ran 15 _ refl,
        ran 16 _ refl,
        ran 17 _ refl,
        ran 18 _ refl,
      )

  abbrev guarded : Code → M Code → Option Answer
  guarded c m = if is_zero c then run_query m else some (failure error, [])

  guarded-RanAfter : (c : Code) (m : M Code) (a : Answer) → guarded c m ≡ some a → RanAfter c m a
  guarded-RanAfter success m a e = run_query-Ran m a e
  guarded-RanAfter (failure f) m a e = cc

  pub run_phases-Phased : (repo : Repo) (p : Phases) → run_phases g b repo ≡ some p → Phased repo p
  unfolding run_phases task_symbolic_ref_short_head task_branch_upstream_name task_upstream_subj
  run_phases-Phased repo p e =
      let ((rev, s), headed, e1) = and_then-head (git_rev_head g repo empty_store) _ p e in
      let (branch, on_branch, e2) =
        and_then-head (run_query (git_symbolic_ref_short_head g repo)) _ p e1 in
      let up_of = get_branch_upstream_name g repo (branch.1) in
      let (upstream, up, e3) = and_then-head (guarded (branch.0) up_of) _ p e2 in
      let subj_of = git_head_subject g repo (codes "refs/remotes/" ++ upstream.1) in
      let (subj, down, e4) = and_then-head (guarded (upstream.0) subj_of) _ p e3 in
      let q : Phases = record {
        rev = rev;
        branch = branch;
        upstream = upstream;
        upstream_subj = subj;
      } in
      let same : q ≡ p = cc in
      subst (λ p. Phased repo p) same
        (
          (s, headed),
          run_query-Ran (git_symbolic_ref_short_head g repo) branch on_branch,
          guarded-RanAfter (branch.0) up_of upstream up,
          guarded-RanAfter (upstream.0) subj_of subj down,
        )
