-- ===== src/Git/Status.antt =====
-- src/git_handler.c: `get_status_porcelain_z`. The flags of libgit2 that it tests are the bits of
-- `StatusBits`, whose values are libgit2's.
pub mod Columns
pub mod Paths
pub mod Letters
use Prim.Native.Nat.{bit_and, bit_or}
use magit.Base.{
  ℕ, Bool, true, false, not, ◌&&◌, Option, none, some, List, [], ◌∷◌, Bytes, ◌==◌, if◌then◌else◌,
}
use magit.Git.Api.{GitError, Reply, ok, failed, Code, success, failure, Delta, StatusEntry, Git}
use magit.Git.Store.{
  status_list, debug, M, pure, ◌>>=◌, ◌>>◌, acquire, release, kputs, kputc, gh_log, gh_log_git_err,
  check,
}

-- GIT_STATUS_CURRENT and the other values of git_status_t that the code names.
pub record StatusBits : Type 0 where
  pub current : ℕ
  pub index_new : ℕ
  pub index_modified : ℕ
  pub index_deleted : ℕ
  pub index_renamed : ℕ
  pub index_typechange : ℕ
  pub wt_new : ℕ
  pub wt_modified : ℕ
  pub wt_deleted : ℕ
  pub wt_renamed : ℕ
  pub wt_typechange : ℕ
  pub conflicted : ℕ

-- s & m
abbrev pub has : ℕ → ℕ → Bool
has s m = not (bit_and s m == 0)

-- strcmp(a, b) == 0
unfoldable pub equal : Bytes → Bytes → Bool
equal [] [] = true
equal (x ∷ xs) (y ∷ ys) = x == y && equal xs ys
equal _ _ = false

module _ (b : StatusBits) where
  unfoldable pub index_letter : ℕ → ℕ
  index_letter s =
      if has s b.index_new
      then b'A'
      else if has s b.index_modified
      then b'M'
      else if has s b.index_deleted
      then b'D'
      else if has s b.index_renamed
      then b'R'
      else if has s b.index_typechange
      then b'T'
      else b' '

  unfoldable pub worktree_letter : ℕ → ℕ
  worktree_letter s =
      if has s b.wt_new
      then b'?'
      else if has s b.wt_modified
      then b'M'
      else if has s b.wt_deleted
      then b'D'
      else if has s b.wt_renamed
      then b'R'
      else if has s b.wt_typechange
      then b'T'
      else b' '

  abbrev index_mask : ℕ
  index_mask =
      bit_or (bit_or (bit_or (bit_or b.index_new b.index_modified) b.index_deleted) b.index_renamed)
        b.index_typechange

  -- X and Y as they are written.
  unfoldable pub letters : ℕ → ℕ × ℕ
  letters s =
      let x = index_letter s in
      let y = worktree_letter s in
      let x' = if has s b.wt_new && not (has s index_mask) then b'?' else x in
      if has s b.conflicted then (b'U', b'U') else (x', y)

-- The newer path of a pair that differs, and the older: `none` where `strcmp` gives 0.
abbrev pub old_unless_equal : Bytes → Option Bytes → Option Bytes
old_unless_equal path none = none
old_unless_equal path (some old) = if equal old path then none else some old

abbrev pub new_of : Option Delta → Option Bytes
new_of none = none
new_of (some d) = d.new_path

abbrev pub old_of : Option Delta → Option Bytes
old_of none = none
old_of (some d) = d.old_path

-- `if (!old_path && e->head_to_index && …)`
abbrev pub old_in_index : Option Bytes → Option Bytes → Option Bytes
old_in_index none old = none
old_in_index (some new) old = old_unless_equal new old

abbrev pub first_some : Option Bytes → Option Bytes → Option Bytes
first_some none b = b
first_some (some a) b = some a

-- The path and the old path of an entry.
unfoldable pub paths_of : Option Bytes → StatusEntry → Option Bytes × Option Bytes
paths_of (some path) e = (
  some path,
  first_some (old_unless_equal path (old_of e.index_to_workdir))
      (old_in_index (new_of e.head_to_index) (old_of e.head_to_index)),
)
paths_of none e =
    (new_of e.head_to_index, old_in_index (new_of e.head_to_index) (old_of e.head_to_index))

abbrev pub entry_paths : StatusEntry → Option Bytes × Option Bytes
entry_paths e = paths_of (new_of e.index_to_workdir) e

unfoldable pub put_old : Option Bytes → M (Unit {0})
put_old none = pure tt
put_old (some old) = do kputs old; kputc 0

-- The body of the loop from `if (!path)` on.
unfoldable pub put_entry : ℕ × ℕ → Option Bytes × Option Bytes → M (Unit {0})
unfolding put_old
put_entry xy (none, old_path) = gh_log debug
put_entry xy (some path, old_path) = do
  kputc xy.0
  kputc xy.1
  kputc b' '
  kputs path
  kputc 0
  put_old old_path

module _ (g : Git) (b : StatusBits) where
  open g use {Repo}

  unfoldable pub status_loop : List StatusEntry → M (Unit {0})
  status_loop [] = pure tt
  status_loop (e ∷ rest) =
      if e.flags == b.current
      then status_loop rest
      else (do put_entry (letters b e.flags) (entry_paths e); status_loop rest)

  unfoldable pub get_status_porcelain_z : Repo → M Code
  get_status_porcelain_z repo =
      check (g.status_list_new repo) (λ e. do gh_log_git_err e; pure (failure e))
        λ entries. do
          acquire status_list
          gh_log debug
          status_loop entries
          release status_list
          pure success
