-- ===== src/Git/Log/Settings.antt =====
-- The settings of the log of src/git_handler.c: its levels, its streams and its complaint.
use magit.Base.{
  ◌≡◌, refl, ap, Bool, true, false, Option, none, some, List, [], ◌∷◌, ◌++◌, map, ◌&&◌, ◌||◌, ◌==◌,
  Bytes, ltb, if◌then◌else◌,
}
use magit.Git.Store.{Level, debug, info, warn, error_level, off}
use magit.Git.Refs.{codes}
use magit.Git.Status.{equal}
use magit.Git.Log.{level_code, gh_log_parse_level, to_lower, equal_fold, newline}

-- What is said of the settings of the log, apart from the code that reads them.
-- The names of the levels, and the level that a text names in upper or lower case.
abbrev level_names : List (Bytes × Level)
level_names =
    (codes "debug", debug)
    ∷ (codes "info", info)
    ∷ (codes "warn", warn)
    ∷ (codes "warning", warn)
    ∷ (codes "error", error_level)
    ∷ (codes "off", off)
    ∷ (codes "none", off)
    ∷ []

abbrev level_in : List (Bytes × Level) → Bytes → Level → Level
level_in [] s fallback = fallback
level_in ((name, level) ∷ names) s fallback =
    if equal s name then level else level_in names s fallback

abbrev pub level_of : Option Bytes → Level
level_of none = info
level_of (some s) = level_in level_names (map to_lower s) info

-- A call of the first level is not written where the second is asked for.
abbrev pub below : Level → Level → Bool
below debug debug = false
below debug info = true
below debug warn = true
below debug error_level = true
below debug off = true
below info debug = false
below info info = false
below info warn = true
below info error_level = true
below info off = true
below warn debug = false
below warn info = false
below warn warn = false
below warn error_level = true
below warn off = true
below error_level debug = false
below error_level info = false
below error_level warn = false
below error_level error_level = false
below error_level off = true
below off debug = false
below off info = false
below off warn = false
below off error_level = false
below off off = false

-- Whether the log goes to a file, and what is said where that file cannot be opened.
abbrev pub goes_to_file : Option Bytes → Bool → Bool
goes_to_file none opens = false
goes_to_file (some []) opens = false
goes_to_file (some (c ∷ path)) opens = opens

abbrev pub complaint : Option Bytes → Bool → Bytes → Bytes
complaint none opens strerror = []
complaint (some []) opens strerror = []
complaint (some (c ∷ path)) true strerror = []
complaint (some (c ∷ path)) false strerror =
    codes "git_handler: cannot open log file '"
    ++ ((c ∷ path) ++ (codes "': " ++ (strerror ++ newline ∷ [])))

pub level_code-below : (c t : Level) → ltb (level_code c) (level_code t) ≡ below c t
level_code-below debug debug = refl
level_code-below debug info = refl
level_code-below debug warn = refl
level_code-below debug error_level = refl
level_code-below debug off = refl
level_code-below info debug = refl
level_code-below info info = refl
level_code-below info warn = refl
level_code-below info error_level = refl
level_code-below info off = refl
level_code-below warn debug = refl
level_code-below warn info = refl
level_code-below warn warn = refl
level_code-below warn error_level = refl
level_code-below warn off = refl
level_code-below error_level debug = refl
level_code-below error_level info = refl
level_code-below error_level warn = refl
level_code-below error_level error_level = refl
level_code-below error_level off = refl
level_code-below off debug = refl
level_code-below off info = refl
level_code-below off warn = refl
level_code-below off error_level = refl
level_code-below off off = refl

equal_fold-equal : (s t : Bytes) → equal_fold s t ≡ equal (map to_lower s) (map to_lower t)
unfolding equal_fold equal
equal_fold-equal [] [] = refl
equal_fold-equal [] (d ∷ t) = refl
equal_fold-equal (c ∷ s) [] = refl
equal_fold-equal (c ∷ s) (d ∷ t) = ap (λ b. (to_lower c == to_lower d) && b) (equal_fold-equal s t)

or_if :
    (a b : Bool) (l r : Level) → (if a || b then l else r) ≡ (if a then l else if b then l else r)
or_if true b l r = refl
or_if false b l r = refl

pub gh_log_parse_level-level_of : (s : Option Bytes) → gh_log_parse_level s info ≡ level_of s
unfolding gh_log_parse_level
gh_log_parse_level-level_of none = refl
gh_log_parse_level-level_of (some s) = simp (or_if, equal_fold-equal)
