-- ===== src/Git/Status/Paths.antt =====
-- The paths of an entry of git status as src/git_handler.c finds them.
use magit.Base.{
  ◌≡◌, ◌≢◌, refl, sym, ap, ◌∙◌, ◌⊎◌, inl, inr, Option, none, some, Bytes, Bool-cases, Option-cases,
}
use magit.Git.Api.{Delta, StatusEntry}
use magit.Git.Status.{
  equal, new_of, old_of, old_unless_equal, old_in_index, first_some, paths_of, entry_paths,
}
use magit.Git.Status.Columns.{equal-true, equal-false}

-- The newer path of a pair.
abbrev NewPath : Option Delta → Bytes → Type 0
NewPath d path = (delta : Delta) × (d ≡ some delta) × (delta.new_path ≡ some path)

-- The older path of a pair where it differs from the newer.
abbrev Renamed : Option Delta → Bytes → Type 0
Renamed d old =
    (delta : Delta) × (d ≡ some delta)
    × (new : Bytes) × (delta.new_path ≡ some new)
    × (delta.old_path ≡ some old)
    × (old ≢ new)

abbrev pub NoNewPath : Option Delta → Type 0
NoNewPath d = (path : Bytes) → ¬ NewPath d path

abbrev NotRenamed : Option Delta → Type 0
NotRenamed d = (old : Bytes) → ¬ Renamed d old

-- The path of an entry: the newer one in the work tree, or without one that in the index.
abbrev pub IsPath : StatusEntry → Bytes → Type 0
IsPath e path =
    NewPath e.index_to_workdir path ⊎ (NoNewPath e.index_to_workdir × NewPath e.head_to_index path)

-- The older path of an entry: that of the work tree if it differs, or else that of the index.
abbrev pub IsOld : StatusEntry → Option Bytes → Type 0
IsOld e none = NotRenamed e.index_to_workdir × NotRenamed e.head_to_index
IsOld e (some old) =
    Renamed e.index_to_workdir old ⊎ (NotRenamed e.index_to_workdir × Renamed e.head_to_index old)

abbrev OldOf : Option Delta → Option Bytes → Type 0
OldOf d none = NotRenamed d
OldOf d (some old) = Renamed d old

-- Both paths of a pair.
abbrev Paths : Option Delta → Type 0
Paths d =
    ((new_of d ≡ none) × NoNewPath d)
    ⊎ ((new : Bytes) × (new_of d ≡ some new)
        × NewPath d new
        × (old : Option Bytes) × (old_unless_equal new (old_of d) ≡ old)
        × OldOf d old)

pair-Paths :
    (d : Delta) (new : Bytes) (old : Option Bytes)
    → d.new_path ≡ some new
    → d.old_path ≡ old
    → Paths (some d)
pair-Paths d new none n o = inr (
  new,
  n,
  (d, refl, n),
  none,
  ap (old_unless_equal new) o,
  λ old (delta, same, new', n', o', differs).
      let here : d ≡ delta = cc in
      let clash : none ≡ some old = sym o ∙ ap (λ d. d.old_path) here ∙ o' in cc,
)
pair-Paths d new (some old) n o = elim (Bool-cases (equal old new)) [
  | inl e ↦ inr (
    new,
    n,
    (d, refl, n),
    none,
    ap (old_unless_equal new) o ∙ rw e refl,
    λ old' (delta, same, new', n', o', differs).
        let here : d ≡ delta = cc in
        let olds : some old ≡ some old' = sym o ∙ ap (λ d. d.old_path) here ∙ o' in
        let news : some new ≡ some new' = sym n ∙ ap (λ d. d.new_path) here ∙ n' in
        let equals : old ≡ new = equal-true old new e in differs cc,
  )
  | inr e ↦ inr (
    new,
    n,
    (d, refl, n),
    some old,
    ap (old_unless_equal new) o ∙ rw e refl,
    (d, refl, new, n, o, equal-false old new e),
  )
]

delta-Paths : (d : Option Delta) → Paths d
delta-Paths none = inl (refl, λ path (delta, same, n). cc)
delta-Paths (some d) = elim (Option-cases d.new_path) [
  | inl n ↦ inl (
    n,
    λ path (delta, same, n').
        let here : d ≡ delta = cc in
        let clash : none ≡ some path = sym n ∙ ap (λ d. d.new_path) here ∙ n' in cc,
  )
  | inr (new, n) ↦ pair-Paths d new d.old_path n refl
]

no_path-NotRenamed : (d : Option Delta) → NoNewPath d → NotRenamed d
no_path-NotRenamed d h old (delta, same, new, n, o, differs) = h new (delta, same, n)

-- The older path in the index, with or without a newer one.
index_old :
    (d : Option Delta)
    → (old : Option Bytes) × (old_in_index (new_of d) (old_of d) ≡ old) × OldOf d old
index_old d = elim (delta-Paths d) [
  | inl (e, h) ↦ (none, ap (λ n. old_in_index n (old_of d)) e, no_path-NotRenamed d h)
  | inr (new, e, path, old, o, is) ↦ (old, ap (λ n. old_in_index n (old_of d)) e ∙ o, is)
]

-- What the code takes for an entry's paths.
abbrev pub Named : StatusEntry → Option Bytes × Option Bytes → Type 0
Named e (none, old) = NoNewPath e.index_to_workdir × NoNewPath e.head_to_index
Named e (some path, old) = IsPath e path × IsOld e old

first-IsOld :
    (e : StatusEntry) (o i : Option Bytes)
    → OldOf e.index_to_workdir o
    → OldOf e.head_to_index i
    → IsOld e (first_some o i)
first-IsOld e none none h k = (h, k)
first-IsOld e none (some i) h k = inr (h, k)
first-IsOld e (some o) i h k = inl h

pub entry_paths-Named : (e : StatusEntry) → Named e (entry_paths e)
unfolding paths_of
entry_paths-Named e =
    let (i, taken, is) = index_old e.head_to_index in
    elim (delta-Paths e.index_to_workdir) [
      | inr (path, found, newer, o, old, was) ↦
          rw (found, old, taken) (inl newer, first-IsOld e o i was is)
      | inl (missing, none_new) ↦ elim (delta-Paths e.head_to_index) [
        | inl (missing', none_new') ↦ rw (missing, missing') (none_new, none_new')
        | inr (path, found, newer, o, old, was) ↦
            rw (missing, found, old)
              (
                inr (none_new, newer),
                first-IsOld e none o (no_path-NotRenamed e.index_to_workdir none_new) was,
              )
      ]
    ]
