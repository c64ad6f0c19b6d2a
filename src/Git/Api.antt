-- ===== src/Git/Api.antt =====
-- The calls of libgit2 in src/git_handler.c, as functions of their arguments: the repository does
-- not change while a request is served. `decimal` is how kputl, kputuw and ksprintf print a number. A call that can fail answers `ok` with what it puts into
-- its out-parameters, or `failed` with its negative code.
use magit.Base.{ℕ, Bool, Option, List, Bytes, ℤ}

-- The codes that the source names, and the rest of the negative ones. `error` is GIT_ERROR, -1.
pub data GitError : Type 0 where
  error not_found unborn_branch iter_over : GitError
  other : ℕ → GitError

pub data Reply (A : Type 0) : Type 0 where
  ok : A → Reply A
  failed : GitError → Reply A

-- What an `int` function returns: 0 or a negative code.
pub data Code : Type 0 where
  success : Code
  failure : GitError → Code

-- An iterator: what successive calls of its `next` hand out, and the code that ends them.
pub record Walk (A : Type 0) : Type 0 where
  pub items : List A
  pub end_code : GitError

-- The paths of a git_diff_delta: those of its old and its new file.
pub record Delta : Type 0 where
  pub old_path : Option Bytes
  pub new_path : Option Bytes

-- A git_status_entry: its flags, and its deltas where they are not NULL.
pub record StatusEntry : Type 0 where
  pub flags : ℕ
  pub head_to_index : Option Delta
  pub index_to_workdir : Option Delta

pub record Signature : Type 0 where
  pub name : Bytes
  pub time : ℤ

pub record ConfigEntry : Type 0 where
  pub name : Bytes
  pub value : Option Bytes

-- What git_worktree_is_locked says: not locked, or locked for a reason that may be NULL.
pub record Lock : Type 0 where
  pub is_locked : Bool
  pub reason : Option Bytes

pub record Git : Type 1 where
  pub Repo : Type 0
  pub Ref : Type 0
  pub Object : Type 0
  pub Commit : Type 0
  pub Oid : Type 0
  pub Tag : Type 0
  pub Tree : Type 0
  pub Walker : Type 0
  pub Index : Type 0
  pub Diff : Type 0
  pub Config : Type 0
  pub Worktree : Type 0
  pub Odb : Type 0
  pub Graph : Type 0
  pub repository_open_ext : Bytes → Reply Repo
  pub repository_discover : Bytes → Reply Bytes
  pub repository_workdir : Repo → Option Bytes
  pub repository_path : Repo → Option Bytes
  pub repository_is_bare : Repo → Bool
  pub repository_head : Repo → Reply Ref
  pub repository_head_detached : Repo → Bool
  pub repository_index : Repo → Reply Index
  pub repository_config : Repo → Reply Config
  pub repository_odb : Repo → Reply Odb
  pub branch_lookup : Repo → Bytes → Reply Ref
  pub branch_upstream : Ref → Reply Ref
  pub branch_name : Ref → Reply Bytes
  pub branch_is_head : Ref → Bool
  pub branch_upstream_name : Repo → Bytes → Reply Bytes
  pub branch_iterator : Repo → Reply (Walk Ref)
  pub reference_lookup : Repo → Bytes → Reply Ref
  pub reference_name : Ref → Bytes
  pub reference_is_symbolic : Ref → Bool
  pub reference_symbolic_target : Ref → Option Bytes
  pub reference_target : Ref → Option Oid
  pub reference_shorthand : Ref → Bytes
  pub reference_peel_commit : Ref → Reply Commit
  pub reference_peel_tree : Ref → Reply Tree
  pub reference_name_to_id : Repo → Bytes → Reply Oid
  pub graph_ahead_behind : Repo → Oid → Oid → Reply (ℕ × ℕ)
  pub revparse_single : Repo → Bytes → Reply Object
  pub object_short_id : Object → Reply Bytes
  pub object_id : Object → Oid
  pub object_lookup : Repo → Oid → Reply Object
  pub object_peel_commit : Object → Reply Object
  pub oid_tostr : Oid → Bytes
  pub oid_equal : Oid → Oid → Bool
  pub commit_lookup : Repo → Oid → Reply Commit
  pub commit_id : Commit → Oid
  pub commit_summary : Commit → Option Bytes
  pub commit_author : Commit → Option Signature
  pub commit_message : Commit → Option Bytes
  pub revwalk_new : Repo → Reply Walker
  pub revwalk_push_head : Walker → Reply Walker
  pub revwalk_sorting : Walker → Reply Walker
  pub revwalk : Walker → Walk Oid
  pub tag_list : Repo → Reply (List Bytes)
  pub tag_foreach : Repo → Reply (List (Bytes × Oid))
  pub tag_lookup : Repo → Oid → Reply Tag
  pub tag_target_id : Tag → Oid
  pub index_read : Index → Reply Index
  pub diff_tree_to_index : Repo → Option Tree → Index → Reply Diff
  pub diff_index_to_workdir : Repo → Reply Diff
  pub diff_find_similar : Diff → Reply Diff
  pub diff_to_buf : Diff → Reply Bytes
  pub status_list_new : Repo → Reply (List StatusEntry)
  pub config_get_string_buf : Config → Bytes → Reply (Option Bytes)
  pub config_iterator_new : Config → Reply (Walk ConfigEntry)
  pub worktree_list : Repo → Reply (List Bytes)
  pub worktree_lookup : Repo → Bytes → Reply Worktree
  pub worktree_path : Worktree → Bytes
  pub worktree_open : Worktree → Reply Repo
  pub worktree_is_locked : Worktree → Lock
  pub worktree_is_prunable : Worktree → Bool
  pub commit_graph_open : Bytes → Reply Graph
  pub odb_set_commit_graph : Odb → Graph → Reply Odb
  pub libgit2_version : ℕ × ℕ × ℕ
  pub decimal : ℤ → Bytes
