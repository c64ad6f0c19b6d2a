-- ===== src/Tests.antt =====
-- Runs of the models at concrete inputs, on a repository with one commit on one branch.
use magit.Base.{
  ℕ, ◌≡◌, refl, ◌<◌, Bool, true, false, Option, none, some, List, [], ◌∷◌, ◌++◌, Bytes, All, concat,
  inl, inr, pos, map, replicate, arith,
}
use magit.Git.Api.{
  GitError, not_found, iter_over, Reply, ok, failed, Code, success, failure, Walk, Delta,
  StatusEntry, Signature, ConfigEntry, Lock, Git,
}
use magit.Git.Store.{Store}
use magit.Git.Refs.{codes}
use magit.Git.Status.{StatusBits}
pub mod Answered
pub mod Capture
pub mod Dispatch
pub mod Finder
pub mod Framing
pub mod Log
pub mod Messages
pub mod Queries
pub mod Requests
pub mod Replies
pub mod Search
pub mod Service
pub mod Yanks

abbrev pub main : Bytes
main = codes "refs/heads/main"

abbrev pub sample : Git
sample = record {
  Repo = Unit {0};
  Ref = Bytes;
  Object = ℕ;
  Commit = ℕ;
  Oid = ℕ;
  Tag = ℕ;
  Tree = ℕ;
  Walker = Unit {0};
  Index = Unit {0};
  Diff = Bytes;
  Config = Unit {0};
  Worktree = Bytes;
  Odb = Unit {0};
  Graph = Unit {0};
  repository_open_ext = λ p. ok tt;
  repository_discover = λ p. ok (codes "/w/.git/");
  repository_workdir = λ r. some (codes "/w/");
  repository_path = λ r. some (codes "/w/.git/");
  repository_is_bare = λ r. false;
  repository_head = λ r. ok main;
  repository_head_detached = λ r. false;
  repository_index = λ r. ok tt;
  repository_config = λ r. ok tt;
  repository_odb = λ r. ok tt;
  branch_lookup = λ r n. ok main;
  branch_upstream = λ b. ok main;
  branch_name = λ b. ok (codes "main");
  branch_is_head = λ b. true;
  branch_upstream_name = λ r n. failed not_found;
  branch_iterator = λ r. ok (record { items = main ∷ []; end_code = iter_over });
  reference_lookup = λ r n. ok main;
  reference_name = λ b. b;
  reference_is_symbolic = λ b. true;
  reference_symbolic_target = λ b. some main;
  reference_target = λ b. some 7;
  reference_shorthand = λ b. codes "main";
  reference_peel_commit = λ b. ok 7;
  reference_peel_tree = λ b. ok 7;
  reference_name_to_id = λ r n. ok 7;
  graph_ahead_behind = λ r a b. ok (1, 0);
  revparse_single = λ r n. ok 7;
  object_short_id = λ o. ok (codes "07");
  object_id = λ o. o;
  object_lookup = λ r o. ok o;
  object_peel_commit = λ o. ok o;
  oid_tostr = λ o. codes "07";
  oid_equal = λ a b. true;
  commit_lookup = λ r o. ok o;
  commit_id = λ c. c;
  commit_summary = λ c. some (codes "first");
  commit_author = λ c. some (record { name = codes "Ann"; time = pos 5 });
  commit_message = λ c. some (codes "first");
  revwalk_new = λ r. ok tt;
  revwalk_push_head = λ w. ok w;
  revwalk_sorting = λ w. ok w;
  revwalk = λ w. record { items = 7 ∷ []; end_code = iter_over };
  tag_list = λ r. ok (codes "v1" ∷ []);
  tag_foreach = λ r. ok ((codes "refs/tags/v1", 7) ∷ []);
  tag_lookup = λ r o. ok o;
  tag_target_id = λ t. t;
  index_read = λ i. ok i;
  diff_tree_to_index = λ r t i. ok (codes "+x");
  diff_index_to_workdir = λ r. ok (codes "+y");
  diff_find_similar = λ d. ok d;
  diff_to_buf = λ d. ok d;
  status_list_new = λ r. ok (
      record {
        flags = 128;
        head_to_index = none;
        index_to_workdir =
            some (record { old_path = some (codes "a"); new_path = some (codes "a") });
      }
      ∷ []);
  config_get_string_buf = λ c n. ok (some (codes "no"));
  config_iterator_new = λ c. ok (record {
    items = record { name = codes "core.bare"; value = some (codes "false") } ∷ [];
    end_code = iter_over;
  });
  worktree_list = λ r. ok [];
  worktree_lookup = λ r n. ok n;
  worktree_path = λ w. w;
  worktree_open = λ w. ok tt;
  worktree_is_locked = λ w. record { is_locked = false; reason = none };
  worktree_is_prunable = λ w. false;
  commit_graph_open = λ p. failed not_found;
  odb_set_commit_graph = λ o c. ok o;
  libgit2_version = (1, 9, 0);
  decimal = λ n. codes "5";
}

abbrev pub bits : StatusBits
bits = record {
  current = 0;
  index_new = 1;
  index_modified = 2;
  index_deleted = 4;
  index_renamed = 8;
  index_typechange = 16;
  wt_new = 128;
  wt_modified = 256;
  wt_deleted = 512;
  wt_renamed = 2048;
  wt_typechange = 1024;
  conflicted = 32768;
}

abbrev pub start : Store
start = record { out = []; held = []; log = [] }
