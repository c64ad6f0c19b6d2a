-- ===== src/Git/History/Records.antt =====
-- What `get_log` of src/git_handler.c appends.
use mathlib.Core.Path.{fun_ext}
use magit.Base.{
  ℕ, zero, suc, ◌+◌, ◌<◌, ◌≡◌, refl, ◌∙◌, Option, some, List, [], ◌∷◌, ◌++◌, append_assoc,
  append-nil, Bytes, map, take, concat, ◌⊎◌, inl, inr, arith, le→leb, lt→leb,
}
use magit.Git.Api.{
  GitError, iter_over, error, not_found, unborn_branch, other, Reply, ok, failed, Code, success,
  failure, Git,
}
use magit.Git.Store.{Handle, walker, Level, warn, Store, ends, refuse, Reply-cases, kputs}
use magit.Git.History.{
  form_feed, first_line, author_name, author_time, or_empty, put_log_line, log_loop, log_end,
  get_log,
}

module _ (g : Git) where
  open g use {Repo, Oid, Commit, Walker}

  -- A line: the hash, two empty fields, the author, the time and the subject.
  abbrev pub log_line : Oid × Commit → Bytes
  log_line (oid, c) =
      g.oid_tostr oid
      ++ (form_feed
          ∷ form_feed
          ∷ form_feed
          ∷ (author_name (g.commit_author c)
              ++ (form_feed
                  ∷ (g.decimal (author_time (g.commit_author c))
                      ++ (form_feed
                          ∷ (first_line (or_empty (g.commit_message c)) ++ b'\n' ∷ []))))))

  -- The commits that can be looked up.
  abbrev pub found : Repo → List Oid → List (Oid × Commit)
  found repo [] = []
  found repo (oid ∷ rest) = elim (g.commit_lookup repo oid) [
    | failed e ↦ found repo rest
    | ok c ↦ (oid, c) ∷ found repo rest
  ]

  put_log_line-kputs : (oid : Oid) (c : Commit) → put_log_line g oid c ≡ kputs (log_line (oid, c))
  unfolding put_log_line
  put_log_line-kputs oid c = fun_ext λ s. simp append_assoc

  abbrev LoopEnds : GitError → Store → Bytes → Option (Code × Store) → Type 0
  LoopEnds end_code s t r =
      (ret : Code) × (logs : List Level) × (r
        ≡ some (ret, record s { out = s.out ++ t; log = s.log ++ logs }))
      × ((ret ≡ success) ⊎ (ret ≡ failure end_code))

  LoopEnds-append :
      (end_code : GitError) (s : Store) (a b : Bytes) (r : Option (Code × Store))
      → LoopEnds end_code (record s { out = s.out ++ a }) b r
      → LoopEnds end_code s (a ++ b) r
  LoopEnds-append end_code s a b r (ret, logs, ran, code) =
      (ret, logs, rw (← append_assoc s.out a b) ran, code)

  LoopEnds-log :
      (end_code : GitError) (s : Store) (l : Level) (t : Bytes) (r : Option (Code × Store))
      → LoopEnds end_code (record s { log = s.log ++ l ∷ [] }) t r
      → LoopEnds end_code s t r
  LoopEnds-log end_code s l t r (ret, logs, ran, code) =
      (ret, l ∷ logs, rw (append_assoc s.log (l ∷ []) logs) at ran, code)

  log_loop_hit :
      (repo : Repo) (limit : ℕ) (end_code : GitError) (count : ℕ) (oid : Oid) (rest : List Oid)
      (c : Commit) (s : Store)
      → count < limit
      → g.commit_lookup repo oid ≡ ok c
      → log_loop g repo limit end_code count (oid ∷ rest) s
        ≡ log_loop g repo limit end_code
            (count + 1)
            rest
            (record s { out = s.out ++ log_line (oid, c) })
  unfolding log_loop
  log_loop_hit repo limit end_code count oid rest c s room hit =
      rw (lt→leb limit count room, hit, put_log_line-kputs)

  log_loop_miss :
      (repo : Repo) (limit : ℕ) (end_code : GitError) (count : ℕ) (oid : Oid) (rest : List Oid)
      (e : GitError) (s : Store)
      → count < limit
      → g.commit_lookup repo oid ≡ failed e
      → log_loop g repo limit end_code count (oid ∷ rest) s
        ≡ log_loop g repo limit end_code count rest (record s { log = s.log ++ warn ∷ [] })
  unfolding log_loop
  log_loop_miss repo limit end_code count oid rest e s room miss =
      rw (lt→leb limit count room, miss)

  log_loop-LoopEnds :
      (repo : Repo) (room limit : ℕ) (end_code : GitError) (count : ℕ) (items : List Oid)
      (s : Store)
      → limit ≡ room + count
      → LoopEnds end_code s
          (concat (map log_line (take room (found repo items))))
          (log_loop g repo limit end_code count items s)
  log_loop-LoopEnds repo zero limit end_code count [] s e =
      (failure end_code, [], unfold log_loop in simp append-nil, inr refl)
  log_loop-LoopEnds repo (suc room) limit end_code count [] s e =
      (failure end_code, [], unfold log_loop in simp append-nil, inr refl)
  log_loop-LoopEnds repo zero limit end_code count (oid ∷ rest) s e = (
    success,
    [],
    unfold log_loop in rw (le→leb limit count (omega arith)) (simp append-nil),
    inl refl,
  )
  log_loop-LoopEnds repo (suc room) limit end_code count (oid ∷ rest) s e =
      elim (Reply-cases (g.commit_lookup repo oid)) [
        | inl (c, hit) ↦
            rw (log_loop_hit repo limit end_code count oid rest c s (omega arith) hit, hit, found)
              (LoopEnds-append end_code s (log_line (oid, c)) _ _
                (log_loop-LoopEnds repo room limit end_code (count + 1) rest _ (omega arith)))
        | inr (e', miss) ↦
            rw
              (
                log_loop_miss repo limit end_code count oid rest e' s (omega arith) miss,
                miss,
                found,
              )
              (LoopEnds-log end_code s warn _ _
                (log_loop-LoopEnds repo (suc room) limit end_code count rest _ e))
      ]

  -- The walker once it is set up.
  abbrev pub log_walker : Repo → Reply Walker
  log_walker repo = elim (g.revwalk_new repo) [
    | failed e ↦ failed e
    | ok w ↦ elim (g.revwalk_push_head w) [ failed e ↦ failed e | ok w' ↦ g.revwalk_sorting w' ]
  ]

  log_end-releases :
      (ret : Code) (s : Store) (held : List Handle)
      → s.held ≡ walker ∷ held
      → (code : Code) × (logs : List Level) × (log_end g ret s
          ≡ some (code, record { out = s.out; held = held; log = s.log ++ logs }))
        × ((ret ≡ success) ⊎ (ret ≡ failure iter_over) → code ≡ success)
  unfolding log_end
  log_end-releases success s held e = (success, warn ∷ [], ground arith, λ _. refl)
  log_end-releases (failure iter_over) s held e =
      (success, [], ground (arith, append-nil s.log), λ _. refl)
  log_end-releases (failure error) s held e = (failure error, warn ∷ [], ground arith, ground arith)
  log_end-releases (failure not_found) s held e =
      (failure not_found, warn ∷ [], ground arith, ground arith)
  log_end-releases (failure unborn_branch) s held e =
      (failure unborn_branch, warn ∷ [], ground arith, ground arith)
  log_end-releases (failure (other n)) s held e =
      (failure (other n), warn ∷ [], ground arith, ground arith)

  get_log-bind :
      (repo : Repo) (limit : ℕ) (w : Walker) (s t : Store) (ret : Code)
      → log_walker repo ≡ ok w
      → log_loop g repo limit
          (g.revwalk w).end_code
          0
          (g.revwalk w).items
          (record s { held = walker ∷ s.held })
        ≡ some (ret, t)
      → get_log g repo limit s ≡ log_end g ret t
  unfolding get_log
  get_log-bind repo limit w s t ret e l = ground arith

  get_log-walked :
      (repo : Repo) (limit : ℕ) (w : Walker) (s : Store) (t : Bytes)
      → log_walker repo ≡ ok w
      → LoopEnds
          (g.revwalk w).end_code
          (record s { held = walker ∷ s.held })
          t
          (log_loop g repo limit
            (g.revwalk w).end_code
            0
            (g.revwalk w).items
            (record s { held = walker ∷ s.held }))
      → (g.revwalk w).end_code ≡ iter_over
      → (logs : List Level) × (get_log g repo limit s
          ≡ some (success, record s { out = s.out ++ t; log = s.log ++ logs }))
  get_log-walked repo limit w s t walks (ret, logs, ran, code) over =
      let (c, more, released, ok_code) = log_end-releases ret _ s.held refl in
      (
        logs ++ more,
        get_log-bind repo limit w s _ ret walks ran
            ∙ released
            ∙ rw (ok_code (rw over at code), append_assoc s.log logs more),
      )

  -- When the walk can be set up and ends with GIT_ITEROVER, `get_log` succeeds: it appends one
  -- line for each of the first `limit` commits that can be looked up, in the walk's order, and
  -- frees every commit and the walker.
  pub get_log-lines :
      (repo : Repo) (limit : ℕ) (w : Walker) (s : Store)
      → log_walker repo ≡ ok w
      → (g.revwalk w).end_code ≡ iter_over
      → (logs : List Level) × (get_log g repo limit s
          ≡ some (
            success,
            record s {
              out = s.out ++ concat (map log_line (take limit (found repo (g.revwalk w).items)));
              log = s.log ++ logs;
            },
          ))
  get_log-lines repo limit w s walks over =
      get_log-walked repo limit w s _ walks
        (log_loop-LoopEnds repo limit limit (g.revwalk w).end_code 0 (g.revwalk w).items _
          (omega arith))
        over

  -- When the walker cannot be set up, `get_log` returns that failure, appends nothing, logs it
  -- once, and frees the walker if there is one.
  pub get_log-refuses :
      (repo : Repo) (limit : ℕ) (e : GitError) (s : Store)
      → log_walker repo ≡ failed e
      → get_log g repo limit s ≡ ends s (refuse e)
  unfolding get_log
  get_log-refuses repo limit e s h = grind (arith, append-nil)
