-- ===== src/Git/Status/Letters.antt =====
-- What `get_status_porcelain_z` of src/git_handler.c appends.
use magit.Base.{
  ℕ, ◌≡◌, ◌≢◌, ◌∙◌, ◌⊎◌, inl, inr, Option, none, some, List, [], ◌∷◌, ◌++◌, append_assoc,
  append-nil, Bytes, ◌==◌, ==_iff, Bool-cases,
}
use magit.Git.Api.{GitError, ok, failed, success, StatusEntry, Git}
use magit.Git.Store.{
  Level, status_list, debug, Store, bind_some, refuse, ends, refused, Reply-cases,
}
use magit.Git.Status.{StatusBits, entry_paths, put_entry, status_loop, get_status_porcelain_z}
use magit.Git.Status.Columns.{xy_of, letters-xy_of}
use magit.Git.Status.Paths.{NoNewPath, IsPath, IsOld, Named, entry_paths-Named}

abbrev pub old_text : Option Bytes → Bytes
old_text none = []
old_text (some old) = old ++ 0 ∷ []

-- One entry of the porcelain format, `XY path NUL [old NUL]`.
abbrev pub entry_text : ℕ × ℕ → Bytes → Option Bytes → Bytes
entry_text xy path old = xy.0 ∷ xy.1 ∷ b' ' ∷ (path ++ (0 ∷ old_text old))

module _ (b : StatusBits) where
  -- What is written and logged for the entries of a status list.
  pub data Listed : List StatusEntry → Bytes → List Level → Type 0 where
    at_end : Listed [] [] []
    current :
        {e : StatusEntry} {rest : List StatusEntry} {t : Bytes} {logs : List Level}
        → e.flags ≡ b.current
        → Listed rest t logs
        → Listed (e ∷ rest) t logs
    pathless :
        {e : StatusEntry} {rest : List StatusEntry} {t : Bytes} {logs : List Level}
        → e.flags ≢ b.current
        → NoNewPath e.index_to_workdir
        → NoNewPath e.head_to_index
        → Listed rest t logs
        → Listed (e ∷ rest) t (debug ∷ logs)
    entry :
        {e : StatusEntry} {rest : List StatusEntry} {t : Bytes} {logs : List Level} (path : Bytes)
        (old : Option Bytes)
        → e.flags ≢ b.current
        → IsPath e path
        → IsOld e old
        → Listed rest t logs
        → Listed (e ∷ rest) (entry_text (xy_of b e.flags) path old ++ t) logs

module _ (g : Git) (b : StatusBits) where
  open g use {Repo}

  abbrev Shown : List StatusEntry → Store → Option (Unit {0} × Store) → Type 0
  Shown entries s r =
      (t : Bytes) × (logs : List Level) × Listed b entries t logs
      × (r ≡ some (tt, record s { out = s.out ++ t; log = s.log ++ logs }))

  put_entry-Shown :
      (e : StatusEntry) (rest : List StatusEntry) (s : Store) (paths : Option Bytes × Option Bytes)
      → e.flags ≢ b.current
      → Named e paths
      → ((s : Store) → Shown rest s (status_loop g b rest s))
      → Shown
          (e ∷ rest)
          s
          (elim (put_entry (xy_of b e.flags) paths s) as (λ _. Option (Unit {0} × Store)) [
            | none ↦ none
            | some (_, s) ↦ status_loop g b rest s
          ])
  unfolding put_entry
  put_entry-Shown e rest s (none, old) shows (no_new, no_new') ih =
      let (t, logs, listed, ran) = ih (record s { log = s.log ++ debug ∷ [] }) in
      (t, debug ∷ logs, pathless shows no_new no_new' listed, ran ∙ simp append_assoc)
  put_entry-Shown e rest s (some path, none) shows (is_path, is_old) ih =
      let (t, logs, listed, ran) = ih _ in
      (_, logs, entry path none shows is_path is_old listed, ran ∙ simp append_assoc)
  put_entry-Shown e rest s (some path, some old) shows (is_path, is_old) ih =
      let (t, logs, listed, ran) = ih _ in
      (_, logs, entry path (some old) shows is_path is_old listed, ran ∙ simp append_assoc)

  status_loop-Shown :
      (entries : List StatusEntry) (s : Store) → Shown entries s (status_loop g b entries s)
  unfolding status_loop
  status_loop-Shown [] s = ([], [], at_end, simp append-nil)
  status_loop-Shown (e ∷ rest) s = elim (Bool-cases (e.flags == b.current)) [
    | inl h ↦
        let (t, logs, listed, ran) = status_loop-Shown rest s in
        (t, logs, current ((==_iff e.flags b.current).0 h) listed, rw h ran)
    | inr h ↦
        let shows : e.flags ≢ b.current =
          λ same. let on = (==_iff e.flags b.current).1 same in cc in
        let (t, logs, listed, ran) =
          put_entry-Shown e rest s (entry_paths e) shows (entry_paths-Named e)
            (status_loop-Shown rest) in
        (t, logs, listed, rw (h, letters-xy_of b e.flags) ran)
  ]

  -- If the status list cannot be made, `get_status_porcelain_z` returns that code and appends
  -- nothing. Otherwise it returns 0 with the list freed, and for each entry whose flags are not
  -- those of a current file it appends, in libgit2's order, `XY path NUL`. XY is `UU` for a
  -- conflict, `??` for a new file that the index has no flag of, and else the letters of the
  -- first flags of the index and of the work tree that the tables name, or spaces. The path is the
  -- newer one in the work tree or else in the index; behind it stands, with a NUL of its own, the
  -- older path of the work tree if it differs from the newer one there, or else that of the
  -- index if it differs from the newer one there. An entry without a newer path is logged and
  -- left out.
  pub get_status_porcelain_z-ends :
      (repo : Repo) (s : Store)
      → ((e : GitError) × (g.status_list_new repo ≡ failed e)
          × (get_status_porcelain_z g b repo s ≡ ends s (refuse e)))
        ⊎ ((entries : List StatusEntry) × (t : Bytes) × (logs : List Level) × (g.status_list_new
                repo
              ≡ ok entries)
            × Listed b entries t logs
            × (get_status_porcelain_z g b repo s
                ≡ ends s (record { code = success; appends = t; logs = debug ∷ logs })))
  unfolding get_status_porcelain_z
  get_status_porcelain_z-ends repo s = elim (Reply-cases (g.status_list_new repo)) [
    | inr (e, h) ↦ inl (e, h, rw h (refused e s))
    | inl (entries, h) ↦
        let (t, logs, listed, ran) =
          status_loop-Shown entries
            (record s { held = status_list ∷ s.held; log = s.log ++ debug ∷ [] }) in
        inr (
          entries,
          t,
          logs,
          h,
          listed,
          rw h (bind_some (status_loop g b entries) _ ran ∙ simp append_assoc),
        )
  ]
