-- ===== src/Finder/Fuzzy/Finish.antt =====
-- What follows the loop of `fuzzy_match_recursive` in src/fuzzy.c.
use magit.Base.{
  ℕ, ◌+◌, ◌≤◌, ◌<◌, ◌≡◌, ◌≢◌, refl, sym, ap, subst, ◌∙◌, ◌⊎◌, inl, inr, arith, Option, none, some,
  List, [], ◌∷◌, ◌++◌, Bytes, length, drop, ltb, ltb→lt, Bool-cases, some_bind,
}
use magit.Finder.Fuzzy.{
  recursion_limit, fuzzy_match_compute_score, Shared, Found, Local, Scan, early, ended, choose,
  without_match, finish_search,
}
use magit.Finder.Fuzzy.Search.{Ends}
use magit.Finder.Fuzzy.Within.{skips}
use magit.Finder.Fuzzy.Within.{Within, Later, Honest, Added, Rising-wider}
use magit.Finder.Fuzzy.Score.{fuzzy_match_compute_score_pos}

pub Within-drop : (w line : Bytes) → Within w (drop 1 line) → Within w line
Within-drop w [] h = h
Within-drop w (c ∷ line) h = skips c h

pub scored :
    (str : Bytes) (size : ℕ) (ms : List ℕ)
    → 1 ≤ length ms
    → (score : ℕ) × (fuzzy_match_compute_score str size ms ≡ some score)
unfolding fuzzy_match_compute_score
scored str size [] h = elim h [ ]
scored str size (m ∷ ms) h = (_, refl)

pub choose_lem :
    (score : ℕ) (best : Option Found) (l : Local)
    → ((choose score best l).ret ≡ length l.matches) × ((choose score best l).shared ≡ l.shared)
unfolding choose
choose_lem score none l = (refl, refl)
choose_lem score (some b) l = elim (Bool-cases (ltb score b.score)) [
  | inl e ↦ (rw e refl, rw e refl)
  | inr e ↦ (rw e refl, rw e refl)
]

pub without_match_lem :
    (w line : Bytes) (score : ℕ) (best : Option Found) (l : Local)
    → Honest w line best
    → ((without_match score best l).ret ≢ 0 → Within w line)
      × ((without_match score best l).shared ≡ l.shared)
unfolding without_match
without_match_lem w line score none l h = (λ z. elim (z refl) [ ], refl)
without_match_lem w line score (some b) l (inl e) = cc
without_match_lem w line score (some b) l (inr h) = (λ _. h, refl)

pub without_match_small :
    (score : ℕ) (best : Option Found) (l : Local)
    → (without_match score best l).ret ≤ length l.matches
unfolding without_match
without_match_small score none l = omega arith
without_match_small score (some b) l = omega arith

pub without_match_score :
    (w line : Bytes) (score : ℕ) (best : Option Found) (l : Local)
    → Honest w line best
    → ((without_match score best l).score ≡ score) ⊎ Within w line
unfolding without_match
without_match_score w line score none l h = inl refl
without_match_score w line score (some b) l (inl e) = cc
without_match_score w line score (some b) l (inr h) = inr h

pub choose-le : (score : ℕ) (best : Option Found) (l : Local) → score ≤ (choose score best l).score
unfolding choose
choose-le score none l = omega arith
choose-le score (some b) l = elim (Bool-cases (ltb score b.score)) [
  | inl e ↦ rw e (omega (arith, ltb→lt score b.score e))
  | inr e ↦ rw e (omega arith)
]

-- The score of the matches of a search from the start of a short line.
pub scored_pos :
    (str line : Bytes) (size score : ℕ) (l m : Local)
    → Added l (length line) m
    → fuzzy_match_compute_score str size m.matches ≡ some score
    → 1 ≤ length m.matches
    → l.matches ≡ []
    → l.str_idx ≡ 0
    → size ≡ length line
    → length line ≤ 28
    → 0 < score
scored_pos str line size score l m (added, same, rises) e some_match from start whole short =
    let all : m.matches ≡ added = same ∙ ap (λ ms. ms ++ added) from in
    let few : length added ≡ length m.matches = sym (ap length all) in
    let rises' =
      Rising-wider 0 l.str_idx (l.str_idx + length line) size added (omega arith) (omega arith)
        rises in
    let (score', e', positive) =
      fuzzy_match_compute_score_pos str size added rises' (omega arith) (omega arith) in
    let agree : some score ≡ some score' =
      sym e ∙ ap (fuzzy_match_compute_score str size) all ∙ e' in
    let equal : score ≡ score' = cc in omega arith

-- What a call promises: a result that is not 0 says that the word stands in the line, and where the
-- matches have room and the call is not one too many, such a word is found.
-- What the score is: in a line of at most 28 bytes, searched from its start, it is as it was or
-- above 0, and above 0 if the word is found.
abbrev pub Scored : ℕ → ℕ → ℕ → Bytes → Bytes → ℕ → ℕ → List ℕ → Found → Type 0
Scored str_len limit calls w line i score src f =
    src ≡ []
    → i ≡ 0
    → str_len ≡ length line
    → length line ≤ 28
    → ((f.score ≡ score) ⊎ (0 < f.score))
      × (calls < recursion_limit → length w ≤ limit → Within w line → 0 < f.score)

abbrev pub Answers : ℕ → ℕ → ℕ → Bytes → Bytes → ℕ → ℕ → List ℕ → Shared → Found → Type 0
Answers str_len limit calls w line i score src old f =
    (f.ret ≢ 0 → Within w line)
    × (calls < recursion_limit
        → length src + length w ≤ limit
        → Within w line
        → f.ret ≡ length src + length w)
    × (length src ≤ limit → f.ret ≤ limit)
    × ((f.score ≡ score) ⊎ Within w line)
    × Scored str_len limit calls w line i score src f
    × Later old f.shared

module _ (limit : ℕ) (call : ℕ → List ℕ → Shared → Option Found) (w line : Bytes) (calls size : ℕ)
    (good : (i : ℕ) (ms : List ℕ) (t : Shared)
      → calls ≤ t.count
      → length t.match_pos ≡ size
      → (f : Found) × (call i ms t ≡ some f) × (f.ret ≢ 0 → Within w line) × Later t f.shared)
    (whole_word : Bytes) (str_len : ℕ) where
  pub finish_lem :
      (score : ℕ) (l : Local) (x : Scan)
      → 1 ≤ length w
      → Ends limit call w line calls size good w line l x
      → (f : Found) × (finish_search whole_word str_len score x ≡ some f)
        × Answers str_len limit calls w line l.str_idx score l.matches l.shared f
  unfolding Ends finish_search
  finish_lem score l (early t) filled (later, many) = (
    _,
    refl,
    (
      λ z. elim (z refl) [ ],
      λ few room h. omega arith,
      λ _. omega arith,
      inl refl,
      λ from start same short. (inl refl, λ few room h. absurd (omega (arith, ap length from))),
      later,
    ),
  )
  finish_lem score l (ended [] m) filled (later, honest, found, complete, small, rises) =
      let (inside, size) = found refl in
      let (mine, e) = scored whole_word str_len m.matches (omega (arith, size)) in
      let (ret, same) = choose_lem mine m.best m in
      (
        choose mine m.best m,
        some_bind _ e,
        (
          λ z. inside,
          λ few room h. ret ∙ size,
          λ h. omega (arith, small h, ret),
          inr inside,
          λ from start same short.
              let positive =
                scored_pos whole_word line str_len mine l m rises e (omega (arith, size)) from start
                  same short in
              let above : 0 < (choose mine m.best m).score =
                omega (arith, choose-le mine m.best m) in
              (inr above, λ few room h. above),
          subst (Later l.shared) (sym same) later,
        ),
      )
  finish_lem score l (ended (p ∷ pat) m) filled (later, honest, found, complete, small, rises) =
      let (truth, same) = without_match_lem w line score m.best m honest in
      let kept = without_match_score w line score m.best m honest in
      (
        without_match score m.best m,
        refl,
        (
          truth,
          λ few room h. let gone = complete h in cc,
          λ h. omega (arith, small h, without_match_small score m.best m),
          kept,
          λ from start same short. (
            elim kept [ inl e ↦ inl e | inr h ↦ let gone = complete h in cc ],
            λ few room h. let gone = complete h in cc,
          ),
          subst (Later l.shared) (sym same) later,
        ),
      )
