-- ===== src/Git/Branches/Records.antt =====
-- The records that `append_branch_record` of src/git_handler.c writes.
use mathlib.Core.Path.{fun_ext}
use magit.Base.{
  ℕ, ◌≡◌, refl, inl, inr, Option, none, some, List, [], ◌∷◌, ◌++◌, append_assoc, append-nil, Bytes,
  if◌then◌else◌,
}
use magit.Git.Api.{GitError, not_found, Reply, ok, failed, Git}
use magit.Git.Store.{
  Handle, buf, debug, gh_git_err_level, Store, kputs, Answers, Answers-log, Reply-cases,
}
use magit.Git.Refs.{codes}
use magit.Git.Branches.{
  Track, untracked, gone, counts, or_empty, short_or_empty, track_text, write_branch_record,
  finish_record, track_record, resolve_record, upstream_failed, append_branch_record,
}

module _ (g : Git) where
  open g use {Repo, Ref, Oid}

  -- The record: ten fields, with a NUL behind each but the last.
  abbrev pub record_of : Ref → Bytes → Option Bytes → Track → Bytes → Bytes
  record_of ref short_name up track subject =
      (if g.branch_is_head ref then codes "*" else codes " ")
      ++ (0
          ∷ (short_name
              ++ (0
                  ∷ (g.reference_name ref
                      ++ (0
                          ∷ (short_or_empty up
                              ++ (0
                                  ∷ (or_empty up
                                      ++ (0
                                          ∷ (track_text g track
                                              ++ (0 ∷ 0 ∷ 0 ∷ 0 ∷ (subject ++ b'\n' ∷ []))))))))))))

  write_branch_record-kputs :
      (ref : Ref) (short_name : Bytes) (up : Option Bytes) (track : Track) (subject : Bytes)
      → write_branch_record g ref short_name up track subject
        ≡ kputs (record_of ref short_name up track subject)
  unfolding write_branch_record
  write_branch_record-kputs ref short_name up track subject = fun_ext λ s. simp append_assoc

  abbrev oid_of : Reply Oid → Option Oid
  oid_of (ok oid) = some oid
  oid_of (failed e) = none

  abbrev subject_of : Repo → Option Oid → Bytes
  subject_of repo none = []
  subject_of repo (some oid) = elim (g.commit_lookup repo oid) [
    | failed e ↦ []
    | ok c ↦ or_empty (g.commit_summary c)
  ]

  abbrev counts_of : Reply (ℕ × ℕ) → Reply Track
  counts_of (failed e) = failed e
  counts_of (ok n) = ok (counts n.0 n.1)

  -- No counts without an upstream and an oid; a missing upstream reference is gone.
  abbrev track_of : Repo → Option Bytes → Option Oid → Reply Track
  track_of repo (some up) (some oid) = elim (g.reference_name_to_id repo up) [
    | failed e ↦ ok gone
    | ok up_oid ↦ counts_of (g.graph_ahead_behind repo oid up_oid)
  ]
  track_of repo (some up) none = ok untracked
  track_of repo none oid = ok untracked

  -- The configured upstream; a branch without one is no failure.
  abbrev upstream_of : Reply Bytes → Reply (Option Bytes)
  upstream_of (ok up) = ok (some up)
  upstream_of (failed not_found) = ok none
  upstream_of (failed e) = failed e

  abbrev record_with : Ref → Bytes → Option Bytes → Bytes → Reply Track → Reply Bytes
  record_with ref short_name up subject (failed e) = failed e
  record_with ref short_name up subject (ok track) = ok (record_of ref short_name up track subject)

  abbrev with_buf : Option Bytes → List Handle → List Handle
  with_buf none hs = hs
  with_buf (some t) hs = buf ∷ hs

  -- Whether or not an upstream name is held, it is freed at the end.
  finish_record-Answers :
      (repo : Repo) (ref : Ref) (short_name : Bytes) (up : Option Bytes) (oid : Option Oid)
      (track : Track) (s : Store)
      → Answers (ok (record_of ref short_name up track (subject_of repo oid))) s (
          finish_record g repo ref short_name up oid track (record s { held = with_buf up s.held }))
  unfolding finish_record
  finish_record-Answers repo ref short_name none none track s =
      (debug ∷ [], rw write_branch_record-kputs)
  finish_record-Answers repo ref short_name (some up) none track s =
      (debug ∷ [], rw write_branch_record-kputs)
  finish_record-Answers repo ref short_name none (some oid) track s =
      elim (Reply-cases (g.commit_lookup repo oid)) [
        | inl (c, hit) ↦ ([], rw (hit, subject_of, write_branch_record-kputs) (simp append-nil))
        | inr (e, miss) ↦ (debug ∷ [], rw (miss, subject_of, write_branch_record-kputs))
      ]
  finish_record-Answers repo ref short_name (some up) (some oid) track s =
      elim (Reply-cases (g.commit_lookup repo oid)) [
        | inl (c, hit) ↦ ([], rw (hit, subject_of, write_branch_record-kputs) (simp append-nil))
        | inr (e, miss) ↦ (debug ∷ [], rw (miss, subject_of, write_branch_record-kputs))
      ]

  track_record-Answers :
      (repo : Repo) (ref : Ref) (short_name : Bytes) (up : Option Bytes) (oid : Option Oid)
      (s : Store)
      → Answers
          (record_with ref short_name up (subject_of repo oid) (track_of repo up oid))
          s
          (track_record g repo ref short_name up oid (record s { held = with_buf up s.held }))
  unfolding track_record
  track_record-Answers repo ref short_name none none s =
      finish_record-Answers repo ref short_name none none untracked s
  track_record-Answers repo ref short_name none (some oid) s =
      finish_record-Answers repo ref short_name none (some oid) untracked s
  track_record-Answers repo ref short_name (some up) none s =
      finish_record-Answers repo ref short_name (some up) none untracked s
  track_record-Answers repo ref short_name (some up) (some oid) s =
      elim (Reply-cases (g.reference_name_to_id repo up)) [
        | inr (e, lost) ↦
            rw (lost, track_of)
              (Answers-log
                (ok (record_of ref short_name (some up) gone (subject_of repo (some oid)))) s
                (debug ∷ [])
                (finish_record g repo ref short_name (some up) (some oid) gone
                  (record s { held = buf ∷ s.held; log = s.log ++ debug ∷ [] }))
                (finish_record-Answers repo ref short_name (some up) (some oid) gone
                  (record s { log = s.log ++ debug ∷ [] })))
        | inl (up_oid, there) ↦ elim (Reply-cases (g.graph_ahead_behind repo oid up_oid)) [
          | inr (e, fails) ↦ rw (there, track_of, fails) (gh_git_err_level e ∷ [], refl)
          | inl (n, fine) ↦
              rw (there, track_of, fine)
                (finish_record-Answers repo ref short_name (some up) (some oid) (counts n.0 n.1) s)
        ]
      ]

  -- The record of a branch, or why it has none.
  abbrev resolved : Repo → Ref → Bytes → Option Bytes → Reply Bytes
  resolved repo ref short_name up =
      let oid = oid_of (g.reference_name_to_id repo (g.reference_name ref)) in
      record_with ref short_name up (subject_of repo oid) (track_of repo up oid)

  resolve_record-Answers :
      (repo : Repo) (ref : Ref) (short_name : Bytes) (up : Option Bytes) (s : Store)
      → Answers
          (resolved repo ref short_name up)
          s
          (resolve_record g repo ref short_name up (record s { held = with_buf up s.held }))
  unfolding resolve_record
  resolve_record-Answers repo ref short_name up s =
      elim (Reply-cases (g.reference_name_to_id repo (g.reference_name ref))) [
        | inl (oid, there) ↦ rw there (track_record-Answers repo ref short_name up (some oid) s)
        | inr (e, lost) ↦ rw lost (
            Answers-log (record_with ref short_name up [] (track_of repo up none)) s (debug ∷ [])
              (track_record g repo ref short_name up none
                (record s { held = with_buf up s.held; log = s.log ++ debug ∷ [] }))
              (track_record-Answers repo ref short_name up none
                (record s { log = s.log ++ debug ∷ [] })))
      ]

  abbrev resolved_with : Repo → Ref → Bytes → Reply (Option Bytes) → Reply Bytes
  resolved_with repo ref short_name (failed e) = failed e
  resolved_with repo ref short_name (ok up) = resolved repo ref short_name up

  abbrev pub branch_record : Repo → Ref → Reply Bytes
  branch_record repo ref = elim (g.branch_name ref) [
    | failed e ↦ failed e
    | ok short_name ↦
        resolved_with repo ref short_name
          (upstream_of (g.branch_upstream_name repo (g.reference_name ref)))
  ]

  upstream-Answers :
      (repo : Repo) (ref : Ref) (short_name : Bytes) (s : Store) (e : GitError)
      → Answers
          (resolved_with repo ref short_name (upstream_of (failed e)))
          s
          (upstream_failed g repo ref short_name e s)
  unfolding upstream_failed
  upstream-Answers repo ref short_name s not_found =
      resolve_record-Answers repo ref short_name none s
  upstream-Answers repo ref short_name s e = (gh_git_err_level _ ∷ [], refl)

  -- `append_branch_record` appends the whole record of a branch or nothing. The record has the
  -- configured upstream, if any; counts of commits ahead and behind when both references resolve,
  -- "[gone]" when only the upstream's does not; and the commit's summary, or no text without one.
  -- It fails on the branch's name, on an upstream that is neither there nor missing, and on the
  -- counts. On every path it frees what it holds.
  pub append_branch_record-Answers :
      (repo : Repo) (ref : Ref) (s : Store)
      → Answers (branch_record repo ref) s (append_branch_record g repo ref s)
  unfolding append_branch_record
  append_branch_record-Answers repo ref s = elim (Reply-cases (g.branch_name ref)) [
    | inr (e, nameless) ↦ rw (nameless, branch_record) (gh_git_err_level e ∷ [], refl)
    | inl (short_name, named) ↦
        elim (Reply-cases (g.branch_upstream_name repo (g.reference_name ref))) [
          | inl (up, tracked) ↦
              rw (named, branch_record, tracked)
                (resolve_record-Answers repo ref short_name (some up) s)
          | inr (e, absent) ↦
              rw (named, branch_record, absent) (upstream-Answers repo ref short_name s e)
        ]
  ]
