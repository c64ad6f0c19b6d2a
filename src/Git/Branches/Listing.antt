-- ===== src/Git/Branches/Listing.antt =====
-- What `get_branch_list` of src/git_handler.c appends for all branches.
use magit.Base.{
  ◌≡◌, subst, ◌∙◌, inl, inr, Option, some, List, [], ◌∷◌, ◌++◌, append_assoc, append-nil, Bytes,
}
use magit.Git.Api.{
  GitError, error, not_found, unborn_branch, iter_over, other, Reply, ok, failed, Code, success,
  failure, Walk, Git,
}
use magit.Git.Store.{
  reference, branch_iterator, Level, error_level, gh_git_err_level, Store, M, Answers, Reply-cases,
  ◌>>=◌, bind_some,
}
use magit.Git.Branches.{
  append_branch_record, after_record, branch_loop, branches_end, get_branch_list,
}
use magit.Git.Branches.Records.{branch_record, append_branch_record-Answers}

module _ (g : Git) where
  open g use {Repo, Ref}

  abbrev pub end_of : GitError → Code
  end_of iter_over = success
  end_of e = failure e

  -- The records up to the first failure, and the code.
  abbrev pub records : Repo → GitError → List Ref → Bytes × Code
  records repo end_code [] = ([], end_of end_code)
  records repo end_code (ref ∷ rest) = elim (branch_record g repo ref) [
    | failed e ↦ ([], failure e)
    | ok t ↦ (t ++ (records repo end_code rest).0, (records repo end_code rest).1)
  ]

  abbrev pub Ran : Bytes × Code → Store → Option (Code × Store) → Type 0
  Ran x s r =
      (logs : List Level) × (r ≡ some (x.1, record s { out = s.out ++ x.0; log = s.log ++ logs }))

  branches_end-Ran : (e : GitError) (s : Store) → Ran ([], end_of e) s (branches_end g e s)
  unfolding branches_end
  branches_end-Ran iter_over s = ([], simp append-nil)
  branches_end-Ran error s = (gh_git_err_level error ∷ [], simp append-nil)
  branches_end-Ran not_found s = (gh_git_err_level not_found ∷ [], simp append-nil)
  branches_end-Ran unborn_branch s = (gh_git_err_level unborn_branch ∷ [], simp append-nil)
  branches_end-Ran (other n) s = (gh_git_err_level (other n) ∷ [], simp append-nil)

  -- The head of the loop, once the record's query is known.
  after_success :
      (repo : Repo) (finish : M Code) (ref : Ref) (rest : List Ref) (o : Bytes) (l : List Level)
      (s : Store)
      → append_branch_record g repo ref (record s { held = reference ∷ s.held })
        ≡ some (success, record { out = o; held = reference ∷ s.held; log = l })
      → branch_loop g repo finish (ref ∷ rest) s
        ≡ branch_loop g repo finish rest (record { out = o; held = s.held; log = l })
  unfolding branch_loop after_record
  after_success repo finish ref rest o l s ran =
      bind_some (append_branch_record g repo ref)
        (λ ret. after_record g ret (branch_loop g repo finish rest)) ran

  after_failure :
      (repo : Repo) (finish : M Code) (ref : Ref) (rest : List Ref) (f : GitError) (l : List Level)
      (s : Store)
      → append_branch_record g repo ref (record s { held = reference ∷ s.held })
        ≡ some (failure f, record { out = s.out; held = reference ∷ s.held; log = l })
      → branch_loop g repo finish (ref ∷ rest) s
        ≡ some (failure f, record s { log = l ++ error_level ∷ [] })
  unfolding branch_loop after_record
  after_failure repo finish ref rest f l s ran =
      bind_some (append_branch_record g repo ref)
        (λ ret. after_record g ret (branch_loop g repo finish rest)) ran

  after_failure_nil :
      (s : Store) (f : GitError) (logs : List Level) {r : Option (Code × Store)}
      → r ≡ some (failure f, record s { log = (s.log ++ logs) ++ error_level ∷ [] })
      → r
        ≡ some
            (failure f, record s { out = s.out ++ []; log = s.log ++ (logs ++ error_level ∷ []) })
  after_failure_nil s f logs e = e ∙ simp (append_assoc, append-nil)

  abbrev Query : Ref → Repo → Store → Reply Bytes → Type 0
  Query ref repo s a =
      Answers a (record s { held = reference ∷ s.held })
        (append_branch_record g repo ref (record s { held = reference ∷ s.held }))

  query :
      (repo : Repo) (ref : Ref) (s : Store) (a : Reply Bytes)
      → branch_record g repo ref ≡ a
      → Query ref repo s a
  query repo ref s a e =
      subst (Query ref repo s) e
        (append_branch_record-Answers g repo ref (record s { held = reference ∷ s.held }))

  step_ok :
      (repo : Repo) (finish : M Code) (ref : Ref) (rest : List Ref) (t : Bytes) (s : Store)
      → Query ref repo s (ok t)
      → (logs : List Level) × (branch_loop g repo finish (ref ∷ rest) s
          ≡ branch_loop g repo finish rest (record s { out = s.out ++ t; log = s.log ++ logs }))
  step_ok repo finish ref rest t s (logs, ran) =
      (logs, after_success repo finish ref rest (s.out ++ t) (s.log ++ logs) s ran)

  step_failed :
      (repo : Repo) (finish : M Code) (ref : Ref) (rest : List Ref) (f : GitError) (s : Store)
      → Query ref repo s (failed f)
      → Ran ([], failure f) s (branch_loop g repo finish (ref ∷ rest) s)
  step_failed repo finish ref rest f s (logs, ran) = (
    logs ++ error_level ∷ [],
    after_failure_nil s f logs (after_failure repo finish ref rest f (s.log ++ logs) s ran),
  )

  Ran-append :
      (s : Store) (t : Bytes) (ls : List Level) (x : Bytes × Code) (r : Option (Code × Store))
      → Ran x (record s { out = s.out ++ t; log = s.log ++ ls }) r
      → Ran (t ++ x.0, x.1) s r
  Ran-append s t ls x r (logs, e) =
      (ls ++ logs, rw (append_assoc s.log ls logs, append_assoc s.out t x.0) at e)

  branch_loop-Ran :
      (repo : Repo) (end_code : GitError) (refs : List Ref) (s : Store)
      → Ran (records repo end_code refs) s (branch_loop g repo (branches_end g end_code) refs s)
  branch_loop-Ran repo end_code [] s = unfold branch_loop in branches_end-Ran end_code s
  branch_loop-Ran repo end_code (ref ∷ rest) s = elim (Reply-cases (branch_record g repo ref)) [
    | inr (f, e) ↦
        rw (e, records)
          (step_failed repo (branches_end g end_code) ref rest f s (query repo ref s (failed f) e))
    | inl (t, e) ↦
        let (logs, stepped) =
          step_ok repo (branches_end g end_code) ref rest t s (query repo ref s (ok t) e) in
        rw (e, records, stepped)
          (Ran-append s t logs (records repo end_code rest) _ (
            branch_loop-Ran repo end_code rest
              (record s { out = s.out ++ t; log = s.log ++ logs })))
  ]

  -- `get_branch_list` appends the records of the branches in the iterator's order, up to the first
  -- that fails, whose code it returns; with no failure it returns 0 at GIT_ITEROVER and else the
  -- code that ended the iterator. The iterator and every reference are freed.
  pub get_branch_list-Ran :
      (repo : Repo) (walk : Walk Ref) (s : Store)
      → g.branch_iterator repo ≡ ok walk
      → Ran (records repo walk.end_code walk.items) s (get_branch_list g repo s)
  unfolding get_branch_list
  get_branch_list-Ran repo walk s e =
      let (logs, ran) =
        branch_loop-Ran repo walk.end_code walk.items
          (record s { held = branch_iterator ∷ s.held }) in
      (logs, rw e (rw (ran, ◌>>=◌)))
