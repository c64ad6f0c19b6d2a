-- ===== src/Git/Log/Calls.antt =====
-- The calls of `gh_log` in src/git_handler.c one after the other.
use magit.Base.{
  ℕ, ◌≡◌, refl, sym, ap, ◌∙◌, Bool, true, false, Option, none, some, List, [], ◌∷◌, ◌++◌,
  append_assoc, append-nil, Bytes, ltb, Bool-cases, inl, inr, if◌then◌else◌,
}
use magit.Git.Store.{Level, info}
use magit.Git.Log.{
  Environment, Logger, unset, Call, level_code, gh_log_parse_level, gh_log_init_once, open_log,
  log_once, gh_log_line, fwrite, gh_log,
}
use magit.Git.Log.Settings.{
  level_of, below, goes_to_file, complaint, level_code-below, gh_log_parse_level-level_of,
}

same_branches : (b : Bool) (l : Logger) → (if b then l else l) ≡ l
same_branches true l = refl
same_branches false l = refl

-- pthread_once runs its function only once.
log_once_again : (env : Environment) (l : Logger) → l.initialised ≡ true → log_once env l ≡ l
unfolding log_once
log_once_again env l e =
    ap (λ b. if b then l else record (gh_log_init_once env l) { initialised = true }) e

log_once-initialised : (env : Environment) (l : Logger) → (log_once env l).initialised ≡ true
unfolding log_once
log_once-initialised env l = elim (Bool-cases l.initialised) [ inl e ↦ simp e | inr e ↦ simp e ]

open_log-threshold :
    (env : Environment) (path : Option Bytes) (l : Logger)
    → (open_log env path l).threshold ≡ l.threshold
unfolding open_log
open_log-threshold env none l = refl
open_log-threshold env (some []) l = refl
open_log-threshold env (some (c ∷ path)) l = elim (Bool-cases env.opens) [
  | inl e ↦ simp e
  | inr e ↦ simp e
]

-- The level comes from the environment of the first call.
log_once-threshold :
    (env : Environment) → (log_once env unset).threshold ≡ gh_log_parse_level env.log_level info
unfolding log_once gh_log_init_once
log_once-threshold env =
    open_log-threshold env env.log_file
      (record unset { threshold = gh_log_parse_level env.log_level info })

module _ (decimal : ℕ → Bytes) where
  -- The calls of a run, each with the environment at its time.
  unfoldable pub gh_log_all : List (Environment × Call) → Logger → Logger
  gh_log_all [] l = l
  gh_log_all ((env, c) ∷ calls) l = gh_log_all calls (gh_log decimal env c l)

  -- The line of a call, if it reaches a level.
  abbrev pub line_from : Level → Call → Bytes
  line_from level c = if below c.level level then [] else gh_log_line decimal c

  gh_log_from : Call → Logger → Logger
  gh_log_from c m =
      if ltb (level_code c.level) (level_code m.threshold)
      then m
      else fwrite decimal (gh_log_line decimal c) m

  -- The lines of the calls that reach a level.
  abbrev pub lines_from : Level → List (Environment × Call) → Bytes
  lines_from level [] = []
  lines_from level ((env, c) ∷ calls) = line_from level c ++ lines_from level calls

  fwrite-nil : (l : Logger) → fwrite decimal [] l ≡ l
  unfolding fwrite
  fwrite-nil l = simp append-nil (same_branches l.to_file l)

  fwrite-append :
      (s t : Bytes) (l : Logger) → fwrite decimal t (fwrite decimal s l) ≡ fwrite decimal (s ++ t) l
  unfolding fwrite
  fwrite-append s t l = elim (Bool-cases l.to_file) [
    | inl e ↦ simp (e, append_assoc)
    | inr e ↦ simp (e, append_assoc)
  ]

  fwrite-kept :
      (t : Bytes) (l : Logger)
      → ((fwrite decimal t l).initialised ≡ l.initialised)
        × ((fwrite decimal t l).threshold ≡ l.threshold)
  unfolding fwrite
  fwrite-kept t l = elim (Bool-cases l.to_file) [
    | inl e ↦ (simp e, simp e)
    | inr e ↦ (simp e, simp e)
  ]

  fwrite_if :
      (b : Bool) (t : Bytes) (l : Logger)
      → (if b then l else fwrite decimal t l) ≡ fwrite decimal (if b then [] else t) l
  fwrite_if true t l = sym (fwrite-nil l)
  fwrite_if false t l = refl

  gh_log-lines :
      (env : Environment) (c : Call) (l : Logger)
      → l.initialised ≡ true
      → gh_log decimal env c l ≡ fwrite decimal (line_from l.threshold c) l
  unfolding gh_log
  gh_log-lines env c l e =
      ap
        (λ m.
          if ltb (level_code c.level) (level_code m.threshold)
          then m
          else fwrite decimal (gh_log_line decimal c) m)
        (log_once_again env l e)
      ∙ ap (λ b. if b then l else fwrite decimal (gh_log_line decimal c) l)
          (level_code-below c.level l.threshold)
      ∙ fwrite_if (below c.level l.threshold) (gh_log_line decimal c) l

  gh_log_all-from :
      (calls : List (Environment × Call)) (l : Logger)
      → l.initialised ≡ true
      → gh_log_all calls l ≡ fwrite decimal (lines_from l.threshold calls) l
  unfolding gh_log_all
  gh_log_all-from [] l e = sym (fwrite-nil l)
  gh_log_all-from ((env, c) ∷ calls) l e =
      let line = line_from l.threshold c in
      let (still, level) = fwrite-kept line l in
      ap (gh_log_all calls) (gh_log-lines env c l e)
      ∙ gh_log_all-from calls (fwrite decimal line l) (still ∙ e)
      ∙ ap (λ v. fwrite decimal (lines_from v calls) (fwrite decimal line l)) level
      ∙ fwrite-append line (lines_from l.threshold calls) l

  gh_log_all-fwrite :
      (env : Environment) (c : Call) (calls : List (Environment × Call))
      → gh_log_all ((env, c) ∷ calls) unset
        ≡ fwrite decimal
            (lines_from (gh_log_parse_level env.log_level info) ((env, c) ∷ calls))
            (log_once env unset)
  unfolding gh_log_all gh_log gh_log_from
  gh_log_all-fwrite env c calls =
      let m = log_once env unset in
      ap (gh_log_all calls)
        (ap (λ x. gh_log_from c x) (sym (log_once_again env m (log_once-initialised env unset))))
      ∙ gh_log_all-from ((env, c) ∷ calls) m (log_once-initialised env unset)
      ∙ ap (λ v. fwrite decimal (lines_from v ((env, c) ∷ calls)) m) (log_once-threshold env)

  -- What the streams hold when a text is written to the log that this environment opened.
  abbrev Written : Environment → Bytes → Logger → Type 0
  Written env t l =
      (l.file ≡ (if goes_to_file env.log_file env.opens then t else []))
      × (l.stderr
          ≡ complaint env.log_file env.opens env.strerror
            ++ (if goes_to_file env.log_file env.opens then [] else t))

  fwrite-Written :
      (env : Environment) (t : Bytes) (path : Option Bytes) (opens : Bool)
      → env.log_file ≡ path
      → env.opens ≡ opens
      → Written env t (fwrite decimal t (log_once env unset))
  unfolding fwrite log_once gh_log_init_once open_log
  fwrite-Written env t none opens f o = rw f (refl, refl)
  fwrite-Written env t (some []) opens f o = rw f (refl, refl)
  fwrite-Written env t (some (c ∷ path)) true f o = rw (f, o) (refl, refl)
  fwrite-Written env t (some (c ∷ path)) false f o = rw (f, o) (refl, refl)

  -- From an unset log, a run of calls writes in order the lines of just those calls that are not
  -- below the level that the first call's GIT_HANDLER_LOG_LEVEL names, in upper or lower case, or
  -- INFO where it names none. They go to the file where the first call's environment names one
  -- that opens, with nothing on standard error, and else to standard error, with nothing in the
  -- file and behind the complaint about a named file that does not open. The environment of the
  -- later calls does not matter.
  pub gh_log_all-written :
      (env : Environment) (c : Call) (calls : List (Environment × Call))
      → let written = lines_from (level_of env.log_level) ((env, c) ∷ calls) in
        let to_file = goes_to_file env.log_file env.opens in
        let l = gh_log_all ((env, c) ∷ calls) unset in
        (l.file ≡ (if to_file then written else []))
        × (l.stderr
            ≡ complaint env.log_file env.opens env.strerror ++ (if to_file then [] else written))
  gh_log_all-written env c calls =
      let written = lines_from (level_of env.log_level) ((env, c) ∷ calls) in
      let ran : gh_log_all ((env, c) ∷ calls) unset ≡ fwrite decimal written (log_once env unset) =
        gh_log_all-fwrite env c calls
        ∙ ap (λ v. fwrite decimal (lines_from v ((env, c) ∷ calls)) (log_once env unset))
            (gh_log_parse_level-level_of env.log_level) in
      let (file, stderr) = fwrite-Written env written env.log_file env.opens refl refl in
      (ap (λ l. l.file) ran ∙ file, ap (λ l. l.stderr) ran ∙ stderr)
