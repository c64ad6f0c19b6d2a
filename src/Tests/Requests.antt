-- ===== src/Tests/Requests.antt =====
-- The worker of src/git_handler.c on the sample repository.
use magit.Base.{◌≡◌, refl, false, some, List, [], ◌∷◌}
use magit.Git.Api.{error, success, failure}
use magit.Git.Refs.{codes}
use magit.Message.Response.{Res}
use magit.Worker.Request.{rev_short_head, Strings, Request, git_root_request_cleanup}
use magit.Worker.Tasks.{Answer}
use magit.Worker.Life.{git_root_request_cleanup-leaked}
use magit.Worker.Handler.{Phases, row, after_git_root, finish}
use magit.Worker.Gates.{response, finish-answer}
use magit.Tests.{sample, bits}

abbrev no_text : Strings
no_text f = some []

abbrev request : Request
request = record { id = 3; strings = no_text; opened = false; is_bare = 0; result = failure error }

abbrev ok_answer : Answer
ok_answer = (success, codes "x")

-- Nineteen tasks that succeed.
abbrev answers : List Answer
answers =
    ok_answer ∷ ok_answer ∷ ok_answer ∷ ok_answer ∷ ok_answer ∷ ok_answer ∷ ok_answer ∷ ok_answer
    ∷ ok_answer ∷ ok_answer ∷ ok_answer ∷ ok_answer ∷ ok_answer ∷ ok_answer ∷ ok_answer ∷ ok_answer
    ∷ ok_answer ∷ ok_answer ∷ ok_answer ∷ []

abbrev phases : Phases
phases = record {
  rev = ok_answer;
  branch = ok_answer;
  upstream = ok_answer;
  upstream_subj = ok_answer;
}

abbrev pub sample_res : Res
sample_res = response sample bits request tt (codes "/w/") answers phases

finish-answer_example :
    (after_git_root success (finish sample bits request tt answers phases)).sent ≡ some sample_res
unfolding row
finish-answer_example = finish-answer sample bits request tt answers phases refl

git_root_request_cleanup-leaked_example : git_root_request_cleanup no_text rev_short_head ≡ some []
git_root_request_cleanup-leaked_example = git_root_request_cleanup-leaked no_text rev_short_head
