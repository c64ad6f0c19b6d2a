-- ===== src/Git/Log.antt =====
-- The logging of src/git_handler.c. The printing of numbers is the parameter `decimal`, what
-- strftime writes is a parameter of a call, and messages come formatted.
pub mod Lines
pub mod Settings
pub mod Calls
use magit.Base.{
  ℕ, zero, suc, ◌+◌, ◌-◌, ◌≤◌, Bool, true, false, not, ◌&&◌, ◌||◌, Option, none, some, List, [],
  ◌∷◌, ◌++◌, Bytes, length, take, concat, replicate, ltb, leb, ◌==◌, if◌then◌else◌,
}
use magit.Git.Api.{GitError}
use magit.Git.Store.{Level, debug, info, warn, error_level, off, gh_git_err_level}
use magit.Git.Refs.{codes}

abbrev pub level_code : Level → ℕ
level_code debug = 0
level_code info = 1
level_code warn = 2
level_code error_level = 3
level_code off = 4

abbrev pub gh_slow_step_ms : ℕ
gh_slow_step_ms = 500

abbrev pub msg_size : ℕ
msg_size = 1024

abbrev pub buf_size : ℕ
buf_size = 1280

abbrev pub what_size : ℕ
what_size = 256

abbrev pub newline : ℕ
newline = 10

unfoldable pub gh_log_level_name : Level → Bytes
gh_log_level_name debug = codes "DEBUG"
gh_log_level_name info = codes "INFO"
gh_log_level_name warn = codes "WARN"
gh_log_level_name error_level = codes "ERROR"
gh_log_level_name off = codes "?"

abbrev pub to_lower : ℕ → ℕ
to_lower c = if leb 65 c && leb c 90 then c + 32 else c

-- strcasecmp(s, t) == 0
unfoldable pub equal_fold : Bytes → Bytes → Bool
equal_fold [] [] = true
equal_fold [] (d ∷ t) = false
equal_fold (c ∷ s) [] = false
equal_fold (c ∷ s) (d ∷ t) = (to_lower c == to_lower d) && equal_fold s t

unfoldable pub gh_log_parse_level : Option Bytes → Level → Level
gh_log_parse_level none fallback = fallback
gh_log_parse_level (some s) fallback =
    if equal_fold s (codes "debug")
    then debug
    else if equal_fold s (codes "info")
    then info
    else if equal_fold s (codes "warn") || equal_fold s (codes "warning")
    then warn
    else if equal_fold s (codes "error")
    then error_level
    else if equal_fold s (codes "off") || equal_fold s (codes "none")
    then off
    else fallback

-- GIT_HANDLER_LOG_LEVEL and GIT_HANDLER_LOG_FILE, and whether the file can be opened.
pub record Environment : Type 0 where
  pub log_level : Option Bytes
  pub log_file : Option Bytes
  pub opens : Bool
  pub strerror : Bytes

-- g_log_once, g_log_level, whether g_log_fp is not NULL, and what was written to either stream.
pub record Logger : Type 0 where
  pub initialised : Bool
  pub threshold : Level
  pub to_file : Bool
  pub stderr : Bytes
  pub file : Bytes

abbrev pub unset : Logger
unset = record { initialised = false; threshold = info; to_file = false; stderr = []; file = [] }

open_log : Environment → Option Bytes → Logger → Logger
open_log env none l = l
open_log env (some []) l = l
open_log env (some (c ∷ path)) l = if env.opens then record l { to_file = true } else record l {
  stderr =
      l.stderr
      ++ (codes "git_handler: cannot open log file '"
          ++ ((c ∷ path) ++ (codes "': " ++ (env.strerror ++ newline ∷ []))));
}

unfoldable pub gh_log_init_once : Environment → Logger → Logger
unfolding open_log
gh_log_init_once env l =
    open_log env env.log_file
      (record l { threshold = gh_log_parse_level env.log_level l.threshold })

-- pthread_once
unfoldable pub log_once : Environment → Logger → Logger
log_once env l = if l.initialised then l else record (gh_log_init_once env l) { initialised = true }

-- What a call of gh_log is given, and what it asks of the clock and of pthread_self.
pub record Call : Type 0 where
  pub level : Level
  pub time : Bytes
  pub millis : ℕ
  pub thread : ℕ
  pub func : Bytes
  pub line : ℕ
  pub message : Bytes

-- What vsnprintf and snprintf leave in an array of this size, without the final NUL.
abbrev pub printed : ℕ → Bytes → Bytes
printed size t = take (size - 1) t

-- %-5s
unfoldable pub pad_right : ℕ → Bytes → Bytes
pad_right n t = t ++ replicate (n - length t) 32

-- %03ld of a number whose decimals are given
unfoldable pub pad_zeros : ℕ → Bytes → Bytes
pad_zeros n t = replicate (n - length t) 48 ++ t

-- buf[n - 1] = c, for an index within the array's text.
abbrev pub set_last : ℕ → ℕ → Bytes → Bytes
set_last n c t = take (n - 1) t ++ c ∷ []

module _ (decimal : ℕ → Bytes) where
  -- The parts of the line, up to its newline.
  abbrev pub line_parts : Call → List Bytes
  line_parts c =
      c.time
      ∷ codes "."
      ∷ pad_zeros 3 (decimal c.millis)
      ∷ codes " ["
      ∷ pad_right 5 (gh_log_level_name c.level)
      ∷ codes "] ["
      ∷ decimal c.thread
      ∷ codes "] "
      ∷ c.func
      ∷ codes ":"
      ∷ decimal c.line
      ∷ codes ": "
      ∷ printed msg_size c.message
      ∷ []

  -- The whole line, as if the array were long enough.
  unfoldable pub whole_line : Call → Bytes
  whole_line c = concat (line_parts c) ++ newline ∷ []

  unfoldable pub gh_log_line : Call → Bytes
  gh_log_line c =
      let t = whole_line c in
      let n = length t in
      if leb buf_size n
      then set_last (buf_size - 1) newline (printed buf_size t)
      else printed buf_size t

  unfoldable pub fwrite : Bytes → Logger → Logger
  fwrite t l =
      if l.to_file then record l { file = l.file ++ t } else record l { stderr = l.stderr ++ t }

  unfoldable pub gh_log : Environment → Call → Logger → Logger
  gh_log env c l =
      let m = log_once env l in
      if ltb (level_code c.level) (level_code m.threshold) then m else fwrite (gh_log_line c) m

  -- gh_log_git_error; the code is negative, and printed as it is.
  unfoldable pub git_error_message : Bytes → Bytes → Option Bytes → Bytes
  git_error_message what code none =
      printed what_size what
      ++ (codes " failed: code=" ++ (code ++ (codes ": " ++ codes "no libgit2 error message")))
  git_error_message what code (some m) =
      printed what_size what ++ (codes " failed: code=" ++ (code ++ (codes ": " ++ m)))

  -- gh_log_step: `rc` is zero, `optional`, and the milliseconds that the step took.
  unfoldable pub step_level : Bool → Bool → ℕ → Level
  step_level rc_is_zero optional ms =
      if (not rc_is_zero && not optional) || leb gh_slow_step_ms ms then warn else debug

  unfoldable pub step_message : Bytes → Bytes → ℕ → Bytes
  step_message name rc ms =
      codes "step "
      ++ (name
          ++ (codes ": rc="
              ++ (rc
                  ++ (codes " in "
                      ++ (decimal ms
                          ++ (codes " ms"
                              ++ (if leb gh_slow_step_ms ms then codes " (slow)" else [])))))))

  unfoldable pub gh_log_step :
      Environment → Call → Bytes → Bool → Bytes → ℕ → Bool → Logger → Logger
  gh_log_step env c name rc_is_zero rc ms optional l =
      gh_log env
        (record c { level = step_level rc_is_zero optional ms; message = step_message name rc ms })
        l

  unfoldable pub gh_log_git_error :
      Environment → Call → Bytes → Bytes → Option Bytes → Logger → Logger
  gh_log_git_error env c what code last l =
      gh_log env (record c { message = git_error_message what code last }) l
