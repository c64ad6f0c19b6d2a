-- ===== src/Tests/Answered.antt =====
-- A request of src/git_handler.c whose repository is opened: its threads, its later steps and its
-- response.
use magit.Base.{◌⊎◌, ◌≡◌, refl, false, none, some, List}
use magit.Git.Api.{GitError, error, ok, failed, success, failure}
use magit.Git.Refs.{
  codes, starts_with, get_upstream_branch, get_rev_parse_short_head, get_symbolic_ref,
  get_origin_head, get_ref_oid, get_stash_oid, get_tag_master_oid, get_rev_parse_verify,
  get_branch_upstream_name, git_head_subject, shorthand_of, git_symbolic_ref_short_head,
  git_rev_head, symbolic_target, resolve_head, rev_head_target,
}
use magit.Git.History.{first_line, put_log_line, log_loop, log_end, get_log}
use magit.Git.Graph.{attach_commit_graph, load_commit_graph}
use magit.Git.Branches.{
  shorten_upstream, track_text, write_branch_record, finish_record, track_record, resolve_record,
  upstream_failed, append_branch_record, after_record, branch_loop, branches_end, get_branch_list,
  free_buf,
}
use magit.Git.Config.{
  get_config_status_show_untracked_files, config_loop, config_end, git_config_list_z, put_value,
}
use magit.Git.Tags.{
  short_tag_name, tag_cb, tag_foreach, put_match, foreach_failed, get_tag_desc_if_match,
  tag_matches, tag_names_loop, visit_commit, describe_loop, put_tag_name, describe_walk,
  get_tag_desc,
}
use magit.Git.Worktrees.{
  put_lock, put_head, put_bare, put_main, put_worktree_head, put_prunable, put_linked,
  worktree_loop, list_worktrees_porcelain,
}
use magit.Git.Diffs.{
  put_patch, get_diff_patch, staged_patch, without_head, staged_with, with_head, staged_head,
  get_staged,
}
use magit.Git.Status.{
  equal, index_letter, worktree_letter, letters, paths_of, put_entry, status_loop,
  get_status_porcelain_z, put_old,
}
use magit.Git.Store.{gh_git_err_level}
use magit.Worker.Request.{Request}
use magit.Worker.Tasks.{
  Answer, run_query, tasks, parallel_task_runner, task_config_list_z, task_head_subject,
  task_tag_desc, task_tag_desc_if_match, task_worktrees_porcelain, task_config_show_untracked,
  task_status_porcelain_z, task_diff_patch, task_staged, task_stash_oid, task_branch_list,
  task_rev_parse_verify, task_log, task_rev_parse_short_head, task_tag_master,
  task_tag_origin_master, task_tag_origin_head, task_origin_head, task_upstream_branch_master,
  task_symbolic_ref_short_head, task_branch_upstream_name, task_upstream_subj,
}
use magit.Worker.Threads.{run_parallel_tasks}
use magit.Message.Response.{Res}
use magit.Worker.Handler.{gates, row, Phases, after_git_root, run_phases, finish, git_root_worker}
use magit.Worker.Gates.{answer}
use magit.Worker.Collected.{Collected, Phased}
use magit.Worker.Whole.{git_root_worker-answer}
use magit.Tests.{sample, bits}

abbrev request : Request
request = record {
  id = 3;
  strings = λ f. some (codes "/w/");
  opened = false;
  is_bare = 0;
  result = failure error;
}

graph_loaded : (a : Answer) × (run_query (load_commit_graph sample tt) ≡ some a)
unfolding run_query load_commit_graph attach_commit_graph
graph_loaded = (_, refl)

phases_run : (p : Phases) × (run_phases sample bits tt ≡ some p)
unfolding run_phases run_query task_symbolic_ref_short_head task_branch_upstream_name
    task_upstream_subj get_branch_upstream_name git_head_subject shorthand_of
    git_symbolic_ref_short_head git_rev_head symbolic_target resolve_head rev_head_target
    starts_with
phases_run = (_, refl)

threads_run :
    (answers : List Answer) × (run_parallel_tasks
        (parallel_task_runner sample bits (codes "/w/"))
        (tasks sample bits)
      ≡ some answers)
unfolding run_parallel_tasks parallel_task_runner tasks run_query task_config_list_z
    task_head_subject task_tag_desc task_tag_desc_if_match task_worktrees_porcelain
    task_config_show_untracked task_status_porcelain_z task_diff_patch task_staged task_stash_oid
    task_branch_list task_rev_parse_verify task_log task_rev_parse_short_head task_tag_master
    task_tag_origin_master task_tag_origin_head task_origin_head task_upstream_branch_master
    starts_with get_upstream_branch get_rev_parse_short_head get_symbolic_ref get_origin_head
    get_ref_oid get_stash_oid get_tag_master_oid get_rev_parse_verify git_head_subject
    symbolic_target first_line put_log_line log_loop log_end get_log shorten_upstream track_text
    write_branch_record finish_record track_record resolve_record upstream_failed
    append_branch_record after_record branch_loop branches_end get_branch_list free_buf
    get_config_status_show_untracked_files config_loop config_end git_config_list_z put_value
    short_tag_name tag_cb tag_foreach put_match foreach_failed get_tag_desc_if_match tag_matches
    tag_names_loop visit_commit describe_loop put_tag_name describe_walk get_tag_desc put_lock
    put_head put_bare put_main put_worktree_head put_prunable put_linked worktree_loop
    list_worktrees_porcelain put_patch get_diff_patch staged_patch without_head staged_with
    with_head staged_head get_staged equal index_letter worktree_letter letters paths_of put_entry
    status_loop get_status_porcelain_z put_old gh_git_err_level
threads_run = (_, refl)

abbrev done : Request
done = finish sample bits request tt threads_run.0 phases_run.0

request_run : git_root_worker sample bits request ≡ some done
unfolding git_root_worker
request_run = rw (graph_loaded.1, threads_run.1, phases_run.1) refl

-- The seven required answers are there, so a response is sent.
response_sent : (res : Res) × ((after_git_root success done).sent ≡ some res)
unfolding after_git_root finish gates row threads_run phases_run
response_sent = (_, refl)

git_root_worker-answer_example :
    ((e : GitError) × (sample.repository_open_ext (codes "/w/") ≡ failed e)
      × ((after_git_root success done).sent ≡ none))
    ⊎ ((repo : Unit {0}) × (sample.repository_open_ext (codes "/w/") ≡ ok repo)
        × (answers : List Answer) × (p : Phases) × Collected sample bits repo answers
        × Phased sample bits repo p
        × ((after_git_root success done).sent
            ≡ answer sample bits request repo answers p (sample.repository_workdir repo)))
git_root_worker-answer_example =
    git_root_worker-answer sample bits request done (codes "/w/") refl refl request_run
