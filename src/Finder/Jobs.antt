-- ===== src/Finder/Jobs.antt =====
-- src/json_msg_handler.c from the end of its parsing on, with the queueing of work in
-- src/search_helper.c, src/mru.c, src/yank.c and src/grep.c and the timer of src/timer.c.
-- A message comes parsed; what uv_queue_work, uv_spawn and uv_read_start answer is given.
pub mod Order
use magit.Base.{
  ℕ, Bool, true, false, ◌&&◌, ◌||◌, Option, none, some, List, [], ◌∷◌, ◌++◌, Bytes, ◌==◌, leb, ℤ,
  pos, negsuc, ◌≡◌, if◌then◌else◌,
}
use magit.Git.Refs.{codes}

pub record Message : Type 0 where
  pub cmd : Bytes
  pub value : Bytes
  pub mru_path : Bytes
  pub yank_path : Bytes
  pub list_cmd : Bytes
  pub seq : ℤ

pub data Kind : Type 0 where
  file_search mru_search yank_search grep : Kind

-- The search_data of a job, or the proc_ctx of a grep.
pub record Job : Type 0 where
  pub kind : Kind
  pub cmd : Bytes
  pub value : Bytes
  pub path : Bytes
  pub seq : ℤ

-- Whether the work could be queued or the process spawned, and whether its output can be read.
pub record Answer : Type 0 where
  pub queued : Bool
  pub spawned : Bool
  pub reading : Bool

-- The static variables (`child` says that g_child_req is not NULL; current_seq starts at 0 and never
-- falls, so it is a natural number), the messages that wait in timers, the work that is not done,
-- all the work that was started, the last first, and what write_mru was called with.
pub record State : Type 0 where
  pub cancel : Bool
  pub job : Bool
  pub current_seq : ℕ
  pub child : Bool
  pub timers : List Message
  pub running : List Job
  pub started : List Job
  pub written : List (Bytes × Bytes)

abbrev pub quiet : State
quiet = record {
  cancel = false;
  job = false;
  current_seq = 0;
  child = false;
  timers = [];
  running = [];
  started = [];
  written = [];
}

-- strcmp(s, t) == 0
unfoldable pub same_text : Bytes → Bytes → Bool
same_text [] [] = true
same_text [] (d ∷ t) = false
same_text (c ∷ s) [] = false
same_text (c ∷ s) (d ∷ t) = (c == d) && same_text s t

abbrev pub begin : Job → State → State
begin j st = record st { running = st.running ++ j ∷ []; started = j ∷ st.started }

-- queue_search, queue_mru_search and queue_yank_search
unfoldable pub queue_job : Answer → Job → State → State
queue_job a j st =
    if a.queued then begin j (record st { job = true }) else record st { job = false }

-- queue_grep; where uv_spawn fails, `job` stays set.
unfoldable pub queue_grep : Answer → Job → State → State
queue_grep a j st =
    if a.spawned
    then begin j (record st { job = true; child = a.reading })
    else record st { job = true; child = false }

abbrev pub job_of : Kind → Bytes → Bytes → Message → Job
job_of kind value path m = record {
  kind = kind;
  cmd = m.cmd;
  value = value;
  path = path;
  seq = m.seq;
}

pub data Command : Type 0 where
  file init_mru write_mru mru run_grep init_yank yank unknown : Command

unfoldable pub command_of : Bytes → Command
command_of cmd =
    if same_text cmd (codes "init_file")
      || (same_text cmd (codes "file")
          || (same_text cmd (codes "init_path") || same_text cmd (codes "path")))
    then file
    else if same_text cmd (codes "init_mru")
    then init_mru
    else if same_text cmd (codes "write_mru")
    then write_mru
    else if same_text cmd (codes "mru")
    then mru
    else if same_text cmd (codes "grep")
    then run_grep
    else if same_text cmd (codes "init_yank")
    then init_yank
    else if same_text cmd (codes "yank")
    then yank
    else unknown

unfoldable pub dispatch : Answer → Message → Command → State → State
dispatch a m file st = queue_job a (job_of file_search m.value m.list_cmd m) st
dispatch a m init_mru st = queue_job a (job_of mru_search [] m.mru_path m) st
dispatch a m write_mru st = record st { written = (m.mru_path, m.value) ∷ st.written }
dispatch a m mru st = queue_job a (job_of mru_search m.value m.mru_path m) st
dispatch a m run_grep st = queue_grep a (job_of grep [] m.list_cmd m) st
dispatch a m init_yank st = queue_job a (job_of yank_search [] m.yank_path m) st
dispatch a m yank st = queue_job a (job_of yank_search m.value m.yank_path m) st
dispatch a m unknown st = st

-- The new current_seq, if `seq >= current_seq`.
unfoldable pub accepted : ℤ → ℕ → Option ℕ
accepted (pos n) current = if leb current n then some n else none
accepted (negsuc n) current = none

-- request_cancel and timer_cond_schedule
unfoldable pub wait : Message → State → State
wait m st = record st { cancel = true; timers = m ∷ st.timers }

unfoldable pub handle_json_msg : Answer → Message → State → State
handle_json_msg a m st = elim (accepted m.seq st.current_seq) [
  | none ↦ st
  | some n ↦
      let now : State = record st { current_seq = n } in
      if st.job then wait m now else dispatch a m (command_of m.cmd) now
]

abbrev pub is_grep : Kind → Bool
is_grep grep = true
is_grep _ = false

-- after_fuzzy_file_search and its like, and on_proc_exit
unfoldable pub job_ends : Job → List Job → State → State
job_ends j rest st = record st {
  running = rest;
  job = false;
  child = if is_grep j.kind then false else st.child;
}

-- A message comes, a timer finds no job and hands its message on again, or work ends.
pub data Step : State → State → Type 0 where
  receives : {st : State} (a : Answer) (m : Message) → Step st (handle_json_msg a m st)
  fires :
      {st : State} (a : Answer) (before after : List Message) (m : Message)
      → st.timers ≡ before ++ m ∷ after
      → st.job ≡ false
      → Step st (handle_json_msg a m (record st { cancel = false; timers = before ++ after }))
  ends :
      {st : State} (before after : List Job) (j : Job)
      → st.running ≡ before ++ j ∷ after
      → Step st (job_ends j (before ++ after) st)

pub data Reaches : State → Type 0 where
  starts : Reaches quiet
  goes_on : {st later : State} → Reaches st → Step st later → Reaches later
