-- ===== src/Git/Store.antt =====
-- The state that the queries of src/git_handler.c work on, and the pure form of their results.
use magit.Base.{
  ℕ, Bool, true, false, ◌≡◌, refl, ap, ◌∙◌, append-nil, ◌⊎◌, inl, inr, Option, none, some, List, [],
  ◌∷◌, ◌++◌, append_assoc, Bytes, if◌then◌else◌,
}
use magit.Git.Api.{GitError, not_found, unborn_branch, Reply, ok, failed, Code, success, failure}

-- gh_log_level_t
pub data Level : Type 0 where
  debug info warn error_level off : Level

-- gh_git_err_level
unfoldable pub gh_git_err_level : GitError → Level
gh_git_err_level not_found = debug
gh_git_err_level unborn_branch = debug
gh_git_err_level _ = error_level

-- The kinds of things that the code must free.
pub data Handle : Type 0 where
  reference object commit walker branch_iterator index diff buf config config_iterator : Handle
  status_list worktree repository strarray odb commit_graph tag text : Handle

abbrev same : Handle → Handle → Bool
same reference reference = true
same object object = true
same commit commit = true
same walker walker = true
same branch_iterator branch_iterator = true
same index index = true
same diff diff = true
same buf buf = true
same config config = true
same config_iterator config_iterator = true
same status_list status_list = true
same worktree worktree = true
same repository repository = true
same strarray strarray = true
same odb odb = true
same commit_graph commit_graph = true
same tag tag = true
same text text = true
same _ _ = false

-- The bytes of the output buffer, the handles that are held, and the level of each log call.
pub record Store : Type 0 where
  pub out : Bytes
  pub held : List Handle
  pub log : List Level

-- `none` is a fault: a handle freed that is not held, or a NULL string read.
abbrev pub M : Type 0 → Type 0
M A = Store → Option (A × Store)

abbrev pub pure : {A : Type 0} → A → M A
pure a s = some (a, s)

infixl 5 ◌>>=◌ ◌>>◌
abbrev pub ◌>>=◌ : {A B : Type 0} → M A → (A → M B) → M B
◌>>=◌ m f s = elim (m s) [ none ↦ none | some (a, t) ↦ f a t ]

abbrev pub ◌>>◌ : {B : Type 0} → M (Unit {0}) → M B → M B
m >> k = m >>= λ _. k

abbrev pub acquire : Handle → M (Unit {0})
acquire h s = some (tt, record s { held = h ∷ s.held })

abbrev remove : Handle → List Handle → Option (List Handle)
remove h [] = none
remove h (k ∷ ks) =
    if same h k then some ks else elim (remove h ks) [ none ↦ none | some rest ↦ some (k ∷ rest) ]

abbrev pub release : Handle → M (Unit {0})
release h s = elim (remove h s.held) [ none ↦ none | some ks ↦ some (tt, record s { held = ks }) ]

-- kputs, kputsn
abbrev pub kputs : Bytes → M (Unit {0})
kputs t s = some (tt, record s { out = s.out ++ t })

abbrev pub kputc : ℕ → M (Unit {0})
kputc c = kputs (c ∷ [])

-- kputs of a string that may be NULL
abbrev pub kputs_or_fault : Option Bytes → M (Unit {0})
kputs_or_fault none s = none
kputs_or_fault (some t) s = kputs t s

abbrev pub gh_log : Level → M (Unit {0})
gh_log l s = some (tt, record s { log = s.log ++ l ∷ [] })

-- GH_LOG_GIT_ERR
abbrev pub gh_log_git_err : GitError → M (Unit {0})
gh_log_git_err e = gh_log (gh_git_err_level e)

-- The test of a return code, with what follows in either case.
abbrev pub check : {A B : Type 0} → Reply A → (GitError → M B) → (A → M B) → M B
check (failed e) fails goes_on = fails e
check (ok a) fails goes_on = goes_on a

-- The pure form of a query: its code, what it appends, and what it logs.
pub record Outcome : Type 0 where
  pub code : Code
  pub appends : Bytes
  pub logs : List Level

abbrev pub done : Bytes → Outcome
done t = record { code = success; appends = t; logs = [] }

-- GH_CHECK_RET
abbrev pub refuse : GitError → Outcome
refuse e = record { code = failure e; appends = []; logs = gh_git_err_level e ∷ [] }

infixl 6 ◌▷◌
abbrev pub ◌▷◌ : {A : Type 0} → Reply A → (A → Outcome) → Outcome
failed e ▷ f = refuse e
ok a ▷ f = f a

-- The query ends with this outcome, and holds just the handles that it held before.
abbrev pub ends : Store → Outcome → Option (Code × Store)
ends s o = some (o.code, record s { out = s.out ++ o.appends; log = s.log ++ o.logs })

-- A query and its pure form agree when they agree on both answers of the call at their head.
pub check-ends :
    {A : Type 0} (r : Reply A) (fails : GitError → M Code) (goes_on : A → M Code) (f : A → Outcome)
    (s t : Store)
    → ((e : GitError) → fails e s ≡ ends t (refuse e))
    → ((a : A) → goes_on a s ≡ ends t (f a))
    → check r fails goes_on s ≡ ends t (r ▷ f)
check-ends (failed e) fails goes_on f s t no_good good = no_good e
check-ends (ok a) fails goes_on f s t no_good good = good a

-- A failure that is returned and not logged.
abbrev pub quiet : GitError → Outcome
quiet e = record { code = failure e; appends = []; logs = [] }

-- The end of a query that may fault: `none` is a fault.
abbrev pub ends_or_fault : Store → Option Outcome → Option (Code × Store)
ends_or_fault s none = none
ends_or_fault s (some o) = ends s o

pub Reply-cases :
    {A : Type 0} (r : Reply A) → ((a : A) × (r ≡ ok a)) ⊎ ((e : GitError) × (r ≡ failed e))
Reply-cases (ok a) = inl (a, refl)
Reply-cases (failed e) = inr (e, refl)

pub Code-cases : (c : Code) → (c ≡ success) ⊎ ((e : GitError) × (c ≡ failure e))
Code-cases success = inl refl
Code-cases (failure e) = inr (e, refl)

-- A query that appends a text and succeeds, or fails and appends nothing; it holds what it held.
abbrev pub Answers : Reply Bytes → Store → Option (Code × Store) → Type 0
Answers (ok t) s r =
    (logs : List Level) × (r ≡ some (success, record s { out = s.out ++ t; log = s.log ++ logs }))
Answers (failed e) s r =
    (logs : List Level) × (r ≡ some (failure e, record s { log = s.log ++ logs }))

-- Log lines that come first are among those of the whole.
pub Answers-log :
    (a : Reply Bytes) (s : Store) (ls : List Level) (r : Option (Code × Store))
    → Answers a (record s { log = s.log ++ ls }) r
    → Answers a s r
Answers-log (ok t) s ls r (logs, e) = (ls ++ logs, rw (append_assoc s.log ls logs) at e)
Answers-log (failed f) s ls r (logs, e) = (ls ++ logs, rw (append_assoc s.log ls logs) at e)

-- A query in a loop's body in front of the rest of the loop.
abbrev pub join : Reply Bytes → Reply Bytes → Reply Bytes
join (failed e) b = failed e
join (ok t) (failed e) = failed e
join (ok t) (ok u) = ok (t ++ u)

pub bind_some :
    {A B : Type 0} (m : M A) (f : A → M B) {a : A} {s t : Store}
    → m s ≡ some (a, t)
    → (m >>= f) s ≡ f a t
bind_some m f e = ap (λ r. elim r [ none ↦ none | some (a, t) ↦ f a t ]) e

same_self : (h : Handle) → same h h ≡ true
same_self reference = refl
same_self object = refl
same_self commit = refl
same_self walker = refl
same_self branch_iterator = refl
same_self index = refl
same_self diff = refl
same_self buf = refl
same_self config = refl
same_self config_iterator = refl
same_self status_list = refl
same_self worktree = refl
same_self repository = refl
same_self strarray = refl
same_self odb = refl
same_self commit_graph = refl
same_self tag = refl
same_self text = refl

release_top : (h : Handle) (s : Store) → release h (record s { held = h ∷ s.held }) ≡ some (tt, s)
release_top h s = rw (same_self h, release, remove)

-- A query that ends with what it held, between the taking of one more handle and its release.
pub holding-ends :
    (h : Handle) (m : M Code) (s : Store) (o : Outcome)
    → m (record s { held = h ∷ s.held }) ≡ ends (record s { held = h ∷ s.held }) o
    → (acquire h >> (m >>= λ ret. release h >> pure ret)) s ≡ ends s o
holding-ends h m s o e =
    bind_some m (λ ret. release h >> pure ret) e
    ∙ bind_some (release h) (λ _. pure o.code)
        {s = record { out = s.out ++ o.appends; held = h ∷ s.held; log = s.log ++ o.logs }}
        (release_top h (record s { out = s.out ++ o.appends; log = s.log ++ o.logs }))

pub refused :
    (e : GitError) (s : Store) → (gh_log_git_err e >> pure (failure e)) s ≡ ends s (refuse e)
refused e s = simp append-nil

-- GH_CHECK_RET in front of the rest.
abbrev pub checked : {A : Type 0} → Reply A → (A → M Code) → M Code
checked r goes_on = check r (λ e. gh_log_git_err e >> pure (failure e)) goes_on

pub checked-ends :
    {A : Type 0} (r : Reply A) (goes_on : A → M Code) (f : A → Outcome) (s : Store)
    → ((a : A) → goes_on a s ≡ ends s (f a))
    → checked r goes_on s ≡ ends s (r ▷ f)
checked-ends r goes_on f s good = check-ends r _ goes_on f s s (λ e. refused e s) good
