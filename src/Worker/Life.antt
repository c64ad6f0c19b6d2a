-- ===== src/Worker/Life.antt =====
-- What `git_root_request_cleanup` of src/git_handler.c frees and what it leaves.
use magit.Base.{◌≡◌, refl, none}
use magit.Worker.Request.{
  Field, pwd, repo_path, dot_git_dir, root, rev_head, list_z, branch, upstream_branch,
  head_log_line, subj, upstream_subj, tag_desc, opt_tag_desc_head, version, worktree_porcelain,
  config_status_show_untracked_files, status, diff, staged, stash, branches, revision_by_idx, logs,
  rev_short_head, tag_master, tag_origin_master, origin_head, tag_origin_head,
  upstream_branch_master, offset, Strings, put, freed_fields, git_root_request_cleanup,
}

-- The strings of a request that nothing frees.
abbrev pub leaked : Strings → Strings
leaked strings rev_short_head = strings rev_short_head
leaked strings tag_master = strings tag_master
leaked strings tag_origin_master = strings tag_origin_master
leaked strings origin_head = strings origin_head
leaked strings tag_origin_head = strings tag_origin_head
leaked strings upstream_branch_master = strings upstream_branch_master
leaked strings _ = none

-- When a request is cleaned up, exactly six of its strings stay allocated if they were created:
-- the short hash of HEAD, the three tags, the head of origin and the upstream of master. Every
-- other string of the request is freed.
pub git_root_request_cleanup-leaked :
    (strings : Strings) (f : Field) → git_root_request_cleanup strings f ≡ leaked strings f
unfolding git_root_request_cleanup freed_fields put offset
git_root_request_cleanup-leaked strings pwd = refl
git_root_request_cleanup-leaked strings repo_path = refl
git_root_request_cleanup-leaked strings dot_git_dir = refl
git_root_request_cleanup-leaked strings root = refl
git_root_request_cleanup-leaked strings rev_head = refl
git_root_request_cleanup-leaked strings list_z = refl
git_root_request_cleanup-leaked strings branch = refl
git_root_request_cleanup-leaked strings upstream_branch = refl
git_root_request_cleanup-leaked strings head_log_line = refl
git_root_request_cleanup-leaked strings subj = refl
git_root_request_cleanup-leaked strings upstream_subj = refl
git_root_request_cleanup-leaked strings tag_desc = refl
git_root_request_cleanup-leaked strings opt_tag_desc_head = refl
git_root_request_cleanup-leaked strings version = refl
git_root_request_cleanup-leaked strings worktree_porcelain = refl
git_root_request_cleanup-leaked strings config_status_show_untracked_files = refl
git_root_request_cleanup-leaked strings status = refl
git_root_request_cleanup-leaked strings diff = refl
git_root_request_cleanup-leaked strings staged = refl
git_root_request_cleanup-leaked strings stash = refl
git_root_request_cleanup-leaked strings branches = refl
git_root_request_cleanup-leaked strings revision_by_idx = refl
git_root_request_cleanup-leaked strings logs = refl
git_root_request_cleanup-leaked strings rev_short_head = refl
git_root_request_cleanup-leaked strings tag_master = refl
git_root_request_cleanup-leaked strings tag_origin_master = refl
git_root_request_cleanup-leaked strings origin_head = refl
git_root_request_cleanup-leaked strings tag_origin_head = refl
git_root_request_cleanup-leaked strings upstream_branch_master = refl
