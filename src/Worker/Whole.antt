-- ===== src/Worker/Whole.antt =====
-- A queued request of src/git_handler.c from `git_root_worker` to its response.
use magit.Base.{◌≡◌, sym, ap, ◌∙◌, ◌⊎◌, inl, inr, Option, none, some, List, Bytes}
use magit.Git.Api.{GitError, error, ok, failed, success, failure, Git}
use magit.Git.Store.{Reply-cases}
use magit.Git.Status.{StatusBits}
use magit.Git.Graph.{load_commit_graph}
use magit.Worker.Request
use magit.Worker.Request.{Request}
use magit.Worker.Tasks.{Answer, and_then, run_query, tasks, parallel_task_runner}
use magit.Worker.Collected.{
  and_then-head, Collected, Phased, run_parallel_tasks-Collected, run_phases-Phased,
}
use magit.Worker.Threads.{run_parallel_tasks}
use magit.Worker.Handler.{Phases, after_git_root, finish, run_phases, git_root_worker}
use magit.Worker.Gates.{answer, finish-answer}

some_injective : {A : Type 0} (a b : A) → some a ≡ some b → a ≡ b
some_injective a b e = cc

-- A request whose result is still -1 is not answered.
unsent : (req : Request) → req.result ≡ failure error → (after_git_root success req).sent ≡ none
unfolding after_git_root
unsent req fresh = rw fresh

module _ (g : Git) (b : StatusBits) where
  open g use {Repo}

  abbrev opened : Request → Bytes → Repo → Option Request
  opened req path repo = and_then (run_query (load_commit_graph g repo)) λ _.
      and_then (run_parallel_tasks (parallel_task_runner g b path) (tasks g b))
        λ answers. and_then (run_phases g b repo) λ p. some (finish g b req repo answers p)

  opened-finish :
      (req done : Request) (path : Bytes) (repo : Repo)
      → g.repository_open_ext path ≡ ok repo
      → opened req path repo ≡ some done
      → (answers : List Answer) × (p : Phases) × Collected g b repo answers
        × Phased g b repo p
        × (finish g b req repo answers p ≡ done)
  opened-finish req done path repo o e =
      let (_, _, e1) = and_then-head (run_query (load_commit_graph g repo)) _ done e in
      let (answers, ran, e2) =
        and_then-head (run_parallel_tasks (parallel_task_runner g b path) (tasks g b)) _ done e1 in
      let (p, phased, e3) = and_then-head (run_phases g b repo) _ done e2 in
      (
        answers,
        p,
        run_parallel_tasks-Collected g b repo path answers o ran,
        run_phases-Phased g b repo p phased,
        cc,
      )

  -- When git_root_worker has worked off a queued request without a fault, either the repository
  -- could not be opened and nothing is sent; or each of the 19 answers of the threads is what its
  -- query gives on the repository, HEAD and its branch are what their queries give, the upstream
  -- is asked for exactly behind a branch that was found, and its subject exactly behind an
  -- upstream that was found, with -1 and no text for what was not asked for. Then a response is
  -- sent exactly if there is a work tree and the seven required answers have code 0, and each of
  -- its fields is the text of that field's query.
  pub git_root_worker-answer :
      (req done : Request) (path : Bytes)
      → req.strings Request.repo_path ≡ some path
      → req.result ≡ failure error
      → git_root_worker g b req ≡ some done
      → ((e : GitError) × (g.repository_open_ext path ≡ failed e)
          × ((after_git_root success done).sent ≡ none))
        ⊎ ((repo : Repo) × (g.repository_open_ext path ≡ ok repo)
            × (answers : List Answer) × (p : Phases) × Collected g b repo answers
            × Phased g b repo p
            × ((after_git_root success done).sent
                ≡ answer g b req repo answers p (g.repository_workdir repo)))
  unfolding git_root_worker
  git_root_worker-answer req done path at fresh e =
      let after_path : (elim (g.repository_open_ext path) as (λ _. Option Request) [
        | failed e ↦ some req
        | ok repo ↦ opened req path repo
      ])
          ≡ some done =
        ap
          (λ o. and_then o λ q. elim (g.repository_open_ext q) as (λ _. Option Request) [
            | failed e ↦ some req
            | ok repo ↦ opened req q repo
          ])
          (sym at)
        ∙ e in
      elim (Reply-cases (g.repository_open_ext path)) [
        | inl (repo, o) ↦
            let (answers, p, collected, phased, finished) =
              opened-finish req done path repo o (rw o at after_path) in
            inr (
              repo,
              o,
              answers,
              p,
              collected,
              phased,
              ap (λ d. (after_git_root success d).sent) (sym finished)
                  ∙ finish-answer g b req repo answers p fresh,
            )
        | inr (err, o) ↦
            let same : req ≡ done = some_injective req done (rw o at after_path) in
            inl (err, o, ap (λ d. (after_git_root success d).sent) (sym same) ∙ unsent req fresh)
      ]
