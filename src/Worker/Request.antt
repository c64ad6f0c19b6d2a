-- ===== src/Worker/Request.antt =====
-- src/git_handler.c: `git_root_req_T` and `git_root_request_cleanup`.
use magit.Base.{ℕ, Bool, Option, none, List, [], ◌∷◌, Bytes, ◌==◌, if◌then◌else◌}
use magit.Git.Api.{Code}

-- The strings of a request.
pub data Field : Type 0 where
  pwd repo_path dot_git_dir root rev_head list_z branch upstream_branch head_log_line subj : Field
  upstream_subj tag_desc opt_tag_desc_head version worktree_porcelain : Field
  config_status_show_untracked_files status diff staged stash branches revision_by_idx : Field
  logs rev_short_head tag_master tag_origin_master origin_head tag_origin_head : Field
  upstream_branch_master : Field

-- The place of a field in the structure.
unfoldable pub offset : Field → ℕ
offset pwd = 0
offset repo_path = 1
offset dot_git_dir = 2
offset root = 3
offset rev_head = 4
offset list_z = 5
offset branch = 6
offset upstream_branch = 7
offset head_log_line = 8
offset subj = 9
offset upstream_subj = 10
offset tag_desc = 11
offset opt_tag_desc_head = 12
offset version = 13
offset worktree_porcelain = 14
offset config_status_show_untracked_files = 15
offset status = 16
offset diff = 17
offset staged = 18
offset stash = 19
offset branches = 20
offset revision_by_idx = 21
offset logs = 22
offset rev_short_head = 23
offset tag_master = 24
offset tag_origin_master = 25
offset origin_head = 26
offset tag_origin_head = 27
offset upstream_branch_master = 28

abbrev pub Strings : Type 0
Strings = Field → Option Bytes

unfoldable pub put : Field → Option Bytes → Strings → Strings
put f v strings h = if offset f == offset h then v else strings h

-- A request: `none` is a NULL string, and `opened` says whether `repo` is not NULL.
pub record Request : Type 0 where
  pub id : ℕ
  pub strings : Strings
  pub opened : Bool
  pub is_bare : ℕ
  pub result : Code

-- The strings that git_root_request_cleanup frees, in its order.
unfoldable pub freed_fields : List Field
freed_fields =
    pwd ∷ repo_path ∷ dot_git_dir ∷ root ∷ rev_head ∷ list_z ∷ branch ∷ upstream_subj ∷ version
    ∷ subj ∷ opt_tag_desc_head ∷ worktree_porcelain ∷ config_status_show_untracked_files ∷ status
    ∷ diff ∷ staged ∷ stash ∷ branches ∷ revision_by_idx ∷ upstream_branch ∷ head_log_line
    ∷ tag_desc ∷ logs ∷ []

free_all : List Field → Strings → Strings
free_all [] strings = strings
free_all (f ∷ rest) strings = free_all rest (put f none strings)

-- The strings that are still allocated when the request is gone.
unfoldable pub git_root_request_cleanup : Strings → Strings
unfolding free_all
git_root_request_cleanup strings = free_all freed_fields strings
