-- ===== src/Tests/Finder.antt =====
-- The fuzzy finder's helpers at concrete inputs.
use magit.Finder.Mru.{path_max, initial_cache_size, begun, eof, load_chars}
use magit.Finder.Mru.Overrun.{load_chars_overrun}
use magit.Finder.Fuzzy.{Found, fuzzy_match_recursive}
use magit.Finder.Fuzzy.Within.{Within}
use magit.Finder.Fuzzy.Result.{fuzzy_match_recursive-Within}
use magit.Finder.Jobs.{
  Message, Answer, State, Reaches, starts, goes_on, receives, file_search, job_of, quiet,
  handle_json_msg, job_ends, accepted, wait, dispatch, command_of, same_text, queue_job,
}
use magit.Finder.Jobs.Order.{IsOrdered, Reaches-IsOrdered}
use magit.Base.{
  ℤ, pos, replicate, ◌≢◌, ◌+◌, ◌<◌, ◌^◌, ◌≡◌, ◌⊎◌, inl, refl, true, some, none, [], ◌++◌, Bytes,
  All, arith,
}
use magit.Git.Refs.{codes}
use magit.Finder.Pool.{Pool, Address, init_str_pool, pool_str_with_len}
use magit.Finder.Pool.Strings.{IsValid, Holds, pool_str_with_len-Holds, init_str_pool-IsValid}
use magit.Finder.Escape.{json_escape}
use magit.Finder.Escape.Inverse.{unescape, ascii_only, must_escape, json_escape-unescape}

abbrev pool : Pool
pool = init_str_pool 4

-- A string that needs a second chunk.
pool_size : pool.sz + 3 + 2 < 2 ^ 64
unfolding init_str_pool
pool_size = omega arith

pool_str_with_len-Holds_example :
    (q : Pool) × (place : Address) × (pool_str_with_len pool (codes "abc") 0 ≡ some (q, place))
    × IsValid q
    × Holds q place (codes "abc")
    × ((a : Address) (t : Bytes) → Holds pool a t → Holds q a t)
pool_str_with_len-Holds_example =
    pool_str_with_len-Holds pool (codes "abc") 0 (init_str_pool-IsValid 4) pool_size (inl refl)

abbrev quoted : Bytes
quoted = codes "a\"b"

json_escape-unescape_example :
    ((t : Bytes) × (json_escape quoted ≡ some t) × (unescape t ≡ some (ascii_only quoted)))
    ⊎ (All (λ c. must_escape c ≡ true) quoted × (json_escape quoted ≡ none))
json_escape-unescape_example = json_escape-unescape quoted (omega arith)

abbrev no_number : Bytes → ℤ
no_number t = pos 1

-- One line of a file.
abbrev one_line : Bytes
one_line = codes "a:1\n"

one_line-plain : All (λ c. c ≢ 0) one_line
one_line-plain = ground arith

load_chars_overrun_example :
    load_chars no_number (begun initial_cache_size) (one_line ++ replicate (path_max + 1) eof)
    ≡ none
load_chars_overrun_example =
    load_chars_overrun no_number one_line (begun initial_cache_size) one_line-plain

abbrev message : Message
message = record {
  cmd = codes "file";
  value = codes "ab";
  mru_path = [];
  yank_path = [];
  list_cmd = codes "ls";
  seq = pos 4;
}

abbrev yes_all : Answer
yes_all = record { queued = true; spawned = true; reading = true }

-- A search starts, and a second message with a lower number is dropped.
two_messages : Reaches (
    handle_json_msg yes_all
      (record message { seq = pos 3 })
      (handle_json_msg yes_all message quiet))
two_messages =
    goes_on (goes_on starts (receives yes_all message))
      (receives yes_all (record message { seq = pos 3 }))

Reaches-IsOrdered_example : IsOrdered (
    handle_json_msg yes_all
      (record message { seq = pos 3 })
      (handle_json_msg yes_all message quiet))
Reaches-IsOrdered_example = Reaches-IsOrdered two_messages

-- A search that is cancelled before it starts: the flag of a superseded message is still set when a
-- third message comes between the end of the first search and the timer.
abbrev third : Message
third = record message { seq = pos 6 }

abbrev second_waits : State
second_waits =
    handle_json_msg yes_all (record message { seq = pos 5 }) (handle_json_msg yes_all message quiet)

third_starts_cancelled :
    (handle_json_msg yes_all third
      (job_ends (job_of file_search (codes "ab") (codes "ls") message) [] second_waits)).cancel
    ≡ true
unfolding handle_json_msg job_ends accepted wait dispatch command_of same_text queue_job
third_starts_cancelled = refl

abbrev four_cells : Bytes
four_cells = codes "0000"

fuzzy_match_recursive-Within_example :
    (f : Found) × (fuzzy_match_recursive
        (codes "Mn")
        4
        11
        256
        (codes "Mn")
        (codes "main")
        0
        0
        []
        (record { count = 0; match_pos = four_cells })
      ≡ some f)
    × (Within (codes "Mn") (codes "main") → f.ret ≡ 2)
    × ((f.ret ≡ 0) ⊎ Within (codes "Mn") (codes "main"))
fuzzy_match_recursive-Within_example =
    fuzzy_match_recursive-Within (codes "Mn") 4 11 (codes "Mn") (codes "main") four_cells 0
      (omega arith) (omega arith) (omega arith) (omega arith)
