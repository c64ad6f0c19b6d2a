-- ===== src/Git/History.antt =====
-- src/git_handler.c: `get_log`.
pub mod Records
use magit.Base.{
  ℕ, suc, ◌+◌, Bool, true, false, Option, none, some, List, [], ◌∷◌, ◌++◌, Bytes, ℤ, pos, leb, ◌==◌,
  if◌then◌else◌,
}
use magit.Git.Api.{
  GitError, iter_over, Reply, ok, failed, Code, success, failure, Signature, Walk, Git,
}
use magit.Git.Store.{
  walker, commit, warn, M, pure, ◌>>=◌, ◌>>◌, acquire, release, kputs, kputc, gh_log,
  gh_log_git_err, check,
}

abbrev pub form_feed : ℕ
form_feed = 0x0c

-- The text before the first newline, or all of it.
unfoldable pub first_line : Bytes → Bytes
first_line [] = []
first_line (c ∷ cs) = if c == b'\n' then [] else c ∷ first_line cs

abbrev pub author_name : Option Signature → Bytes
author_name none = []
author_name (some a) = a.name

abbrev pub author_time : Option Signature → ℤ
author_time none = pos 0
author_time (some a) = a.time

abbrev pub or_empty : Option Bytes → Bytes
or_empty none = []
or_empty (some t) = t

module _ (g : Git) where
  open g use {Repo, Oid, Commit, Walker}

  -- One line of the log, from `kputs(short_hash, out)` on.
  unfoldable pub put_log_line : Oid → Commit → M (Unit {0})
  put_log_line oid c = do
    kputs (g.oid_tostr oid)
    kputc form_feed
    kputc form_feed
    kputc form_feed
    kputs (author_name (g.commit_author c))
    kputc form_feed
    kputs (g.decimal (author_time (g.commit_author c)))
    kputc form_feed
    kputs (first_line (or_empty (g.commit_message c)))
    kputc b'\n'

  -- The loop, on what `git_revwalk_next` hands out; its result is `ret` behind the loop.
  unfoldable pub log_loop : Repo → ℕ → GitError → ℕ → List Oid → M Code
  log_loop repo limit end_code count [] = pure (failure end_code)
  log_loop repo limit end_code count (oid ∷ rest) =
      let skip = log_loop repo limit end_code count rest in
      let next = log_loop repo limit end_code (count + 1) rest in
      if leb limit count
      then pure success
      else check (g.commit_lookup repo oid) (λ e. do gh_log warn; skip)
          λ c. do acquire commit; put_log_line oid c; release commit; next

  -- From the test of GIT_ITEROVER on; `commit` is NULL there.
  unfoldable pub log_end : Code → M Code
  log_end (failure iter_over) = do release walker; pure success
  log_end ret = do gh_log warn; release walker; pure ret

  unfoldable pub get_log : Repo → ℕ → M Code
  get_log repo limit =
      check (g.revwalk_new repo) (λ e. do gh_log_git_err e; pure (failure e))
        λ w. do
          acquire walker
          check (g.revwalk_push_head w) (λ e. do gh_log_git_err e; release walker; pure (failure e))
              λ w.
                check (g.revwalk_sorting w)
                  (λ e. do gh_log_git_err e; release walker; pure (failure e))
                  λ w. do
                    let walk = g.revwalk w
                    ret ← log_loop repo limit walk.end_code 0 walk.items
                    log_end ret
