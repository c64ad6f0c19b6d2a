-- ===== src/Tests/Queries.antt =====
-- The queries of src/git_handler.c on the sample repository.
use magit.Base.{◌⊎◌, Bytes, ◌≡◌, refl, none, some, List, [], ◌∷◌, take, concat, map}
use magit.Git.Api.{ok, failed, not_found, iter_over, success, GitError, StatusEntry, Git}
use magit.Git.Store.{Level, debug, refuse, Answers, ends, ends_or_fault}
use magit.Git.Refs.{codes, git_head_subject}
use magit.Git.Refs.Outcomes.{subject, git_head_subject-ends}
use magit.Git.History.{get_log}
use magit.Git.History.Records.{log_line, found, get_log-lines}
use magit.Git.Branches.{append_branch_record, get_branch_list}
use magit.Git.Branches.Records.{branch_record, append_branch_record-Answers}
use magit.Git.Branches.Listing.{Ran, records, get_branch_list-Ran}
use magit.Git.Status.{get_status_porcelain_z}
use magit.Git.Status.Letters.{Listed, get_status_porcelain_z-ends}
use magit.Git.Config.{git_config_list_z}
use magit.Git.Config.Listing.{config_list, git_config_list_z-ends}
use magit.Git.Diffs.{get_staged}
use magit.Git.Diffs.Patches.{staged, get_staged-ends}
use magit.Git.Tags.{get_tag_desc_if_match, get_tag_desc}
use magit.Git.Tags.Nearest.{description, get_tag_desc-ends}
use magit.Git.Tags.Fault.{get_tag_desc_faults}
use magit.Git.Tags.Match.{name_at_head, get_tag_desc_if_match-ends}
use magit.Git.Worktrees.{list_worktrees_porcelain}
use magit.Git.Worktrees.Entries.{main_lines, listed, list_worktrees_porcelain-ends}
use magit.Tests.{main, sample, bits, start}

git_head_subject-ends_example :
    git_head_subject sample tt (codes "HEAD") start
    ≡ ends_or_fault start (subject sample tt (codes "HEAD"))
git_head_subject-ends_example = git_head_subject-ends sample tt (codes "HEAD") start

get_log-lines_example :
    (logs : List Level) × (get_log sample tt 30 start
      ≡ some (
        success,
        record start {
          out = concat (map (log_line sample) (take 30 (found sample tt (7 ∷ []))));
          log = logs;
        },
      ))
get_log-lines_example = get_log-lines sample tt 30 tt start refl refl

abbrev headless : Git
headless = record sample { revwalk_push_head = λ w. failed not_found }

append_branch_record-Answers_example :
    Answers (branch_record sample tt main) start (append_branch_record sample tt main start)
append_branch_record-Answers_example = append_branch_record-Answers sample tt main start

get_branch_list-Ran_example :
    Ran sample (records sample tt iter_over (main ∷ [])) start (get_branch_list sample tt start)
get_branch_list-Ran_example =
    get_branch_list-Ran sample tt (record { items = main ∷ []; end_code = iter_over }) start refl

get_status_porcelain_z-ends_example :
    ((e : GitError) × (sample.status_list_new tt ≡ failed e)
      × (get_status_porcelain_z sample bits tt start ≡ ends start (refuse e)))
    ⊎ ((entries : List StatusEntry) × (t : Bytes) × (logs : List Level) × (sample.status_list_new tt
          ≡ ok entries)
        × Listed bits entries t logs
        × (get_status_porcelain_z sample bits tt start
            ≡ ends start (record { code = success; appends = t; logs = debug ∷ logs })))
get_status_porcelain_z-ends_example = get_status_porcelain_z-ends sample bits tt start

git_config_list_z-ends_example :
    git_config_list_z sample tt start ≡ ends start (config_list sample tt)
git_config_list_z-ends_example = git_config_list_z-ends sample tt start

get_staged-ends_example : get_staged sample tt start ≡ ends start (staged sample tt)
get_staged-ends_example = get_staged-ends sample tt start

list_worktrees_porcelain-ends_example :
    list_worktrees_porcelain sample tt start
    ≡ ends start (listed sample (main_lines sample tt (codes "/w/")) tt (ok []))
list_worktrees_porcelain-ends_example =
    list_worktrees_porcelain-ends sample tt (codes "/w/") start refl

get_tag_desc_if_match-ends_example :
    get_tag_desc_if_match sample tt start ≡ ends start (name_at_head sample tt)
get_tag_desc_if_match-ends_example = get_tag_desc_if_match-ends sample tt start

get_tag_desc-ends_example :
    get_tag_desc sample tt start ≡ ends start (description sample tt (codes "v1" ∷ []))
get_tag_desc-ends_example = get_tag_desc-ends sample tt (codes "v1" ∷ []) start refl

abbrev unlisted : Git
unlisted = record sample { tag_list = λ r. failed not_found }

get_tag_desc_faults_example : get_tag_desc unlisted tt start ≡ none
get_tag_desc_faults_example =
    get_tag_desc_faults unlisted tt main 7 7 tt tt 7 not_found start refl refl refl refl refl refl
      refl refl
