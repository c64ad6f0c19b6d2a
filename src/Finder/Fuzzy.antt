-- ===== src/Finder/Fuzzy.antt =====
-- src/fuzzy.c: `fuzzy_match_recursive` and its score. A write past the end of `match_pos` is a
-- fault, the result `none`, as is a call at a depth that the fuel does not reach. `matches` is the
-- list of its entries that are written; a byte of the search word behind its end is a NUL.
pub mod Within
pub mod Search
pub mod Score
pub mod Finish
pub mod Result
use magit.Base.{
  ℕ, zero, suc, ◌+◌, ◌-◌, ◌*◌, ◌%◌, ◌^◌, min, Bool, true, false, ◌&&◌, ◌||◌, Option, none, some,
  List, [], ◌∷◌, ◌++◌, Bytes, length, take, drop, ltb, leb, ◌==◌, sub64, memcpy, ◌>>=◌,
  if◌then◌else◌,
}
use magit.Git.Log.{to_lower}

abbrev pub max_fuzzy_matches : ℕ
max_fuzzy_matches = 256

abbrev pub recursion_limit : ℕ
recursion_limit = 10

abbrev pub add64 : ℕ → ℕ → ℕ
add64 a b = (a + b) % 2 ^ 64

byte_at : ℕ → Bytes → ℕ
byte_at n [] = 0
byte_at zero (c ∷ s) = c
byte_at (suc n) (c ∷ s) = byte_at n s

-- The bonus for the byte in front of a match.
unfoldable pub neighbor_bonus : Bytes → ℕ → ℕ → ℕ
unfolding byte_at
neighbor_bonus str zero score = add64 score 15
neighbor_bonus str (suc before) score =
    let neighbor = byte_at before str in
    if (neighbor == 47) || (neighbor == 92)
    then add64 score 30
    else if (neighbor == 32) || (neighbor == 95)
    then add64 score 25
    else score

-- The loop over the matches but the first.
unfoldable pub order_bonuses : Bytes → ℕ → ℕ → List ℕ → ℕ
order_bonuses str score prev [] = score
order_bonuses str score prev (curr ∷ rest) =
    let ordered =
      if curr == prev + 1 then add64 score 40 else sub64 score (2 * sub64 curr prev % 2 ^ 64) in
    order_bonuses str (neighbor_bonus str curr ordered) curr rest

-- With no match the code would read an entry that was not written.
unfoldable pub fuzzy_match_compute_score : Bytes → ℕ → List ℕ → Option ℕ
fuzzy_match_compute_score str size [] = none
fuzzy_match_compute_score str size (first ∷ rest) =
    let led = sub64 100 (min 15 (5 * first)) in
    let unmatched = sub64 size (length rest + 1) in
    some (order_bonuses str (neighbor_bonus str first (sub64 led unmatched)) first rest)

-- *recursion_count and result->match_pos
pub record Shared : Type 0 where
  pub count : ℕ
  pub match_pos : Bytes

-- What a call returns, *out_score, the entries of `matches`, and what the calls share.
pub record Found : Type 0 where
  pub ret : ℕ
  pub score : ℕ
  pub matches : List ℕ
  pub shared : Shared

-- The locals of the loop: the place in the line, the index that is recorded, the entries of
-- `matches`, and the best recursive match.
pub record Local : Type 0 where
  pub str_counter : ℕ
  pub str_idx : ℕ
  pub matches : List ℕ
  pub best : Option Found
  pub shared : Shared

-- How the loop ends: with a return of 0, or with the rest of the pattern.
pub data Scan : Type 0 where
  early : Shared → Scan
  ended : Bytes → Local → Scan

abbrev pub better : Option Found → Found → Option Found
better none f = some f
better (some b) f = if ltb b.score f.score then some f else some b

-- The recursive call's result, if it is not 0.
unfoldable pub note_recursive : Found → Local → Local
note_recursive f l = elim f.ret [
  | zero ↦ record l { shared = f.shared }
  | suc n ↦ record l { best = better l.best f; shared = f.shared }
]

abbrev pub advance : Local → Local
advance l = record l { str_counter = l.str_counter + 1; str_idx = l.str_idx + 1 }

abbrev pub record_match : Local → Local
record_match l = record l { matches = l.matches ++ l.str_idx ∷ [] }

-- result->match_pos[str_counter] = '1'
unfoldable pub mark : Local → Option Local
mark l = memcpy l.shared.match_pos l.str_counter (49 ∷ []) >>= λ buf.
    some (record l { shared = record { count = l.shared.count; match_pos = buf } })

-- What becomes of a letter that matches: the code returns 0, or goes on.
pub data Letter : Type 0 where
  stops : Shared → Letter
  matches_on : Local → Letter

-- `limit` is max_matches.
module _ (limit : ℕ) (call : ℕ → List ℕ → Shared → Option Found) where
  unfoldable pub match_letter : Local → Option Letter
  match_letter l = mark l >>= λ m. elim (leb limit (length m.matches)) [
    | true ↦ some (stops m.shared)
    | false ↦ call (m.str_idx + 1) m.matches m.shared >>= λ f.
        some (matches_on (advance (record_match (note_recursive f m))))
  ]

  -- The loop, over what is left of the line and of the pattern.
  unfoldable pub scan : Bytes → Bytes → Local → Option Scan
  scan line [] l = some (ended [] l)
  scan [] (p ∷ pat) l = some (ended (p ∷ pat) l)
  scan (c ∷ line) (p ∷ pat) l = elim (to_lower p == to_lower c) [
    | false ↦ scan line (p ∷ pat) (advance l)
    | true ↦
        match_letter l >>= λ r. elim r [ stops s ↦ some (early s) | matches_on m ↦ scan line pat m ]
  ]

-- Behind the loop, with the whole pattern matched or not.
unfoldable pub choose : ℕ → Option Found → Local → Found
choose score none l = record {
  ret = length l.matches;
  score = score;
  matches = l.matches;
  shared = l.shared;
}
choose score (some b) l =
    if ltb score b.score
    then record { ret = length l.matches; score = b.score; matches = b.matches; shared = l.shared }
    else record { ret = length l.matches; score = score; matches = l.matches; shared = l.shared }

unfoldable pub without_match : ℕ → Option Found → Local → Found
without_match score none l = record {
  ret = 0;
  score = score;
  matches = l.matches;
  shared = l.shared;
}
without_match score (some b) l = record {
  ret = length l.matches;
  score = b.score;
  matches = b.matches;
  shared = l.shared;
}

module _ (whole_word : Bytes) (str_len : ℕ) where
  unfoldable pub finish_search : ℕ → Scan → Option Found
  finish_search score (early s) = some (record { ret = 0; score = score; matches = []; shared = s })
  finish_search score (ended [] l) =
      fuzzy_match_compute_score whole_word str_len l.matches >>= λ mine. some (choose mine l.best l)
  finish_search score (ended (p ∷ pat) l) = some (without_match score l.best l)

  -- The fuel is how deep the calls may nest; recursiveMatches has all its entries.
  unfoldable pub fuzzy_match_recursive :
      ℕ → ℕ → Bytes → Bytes → ℕ → ℕ → List ℕ → Shared → Option Found
  fuzzy_match_recursive zero limit search_word line str_idx score src shared = none
  fuzzy_match_recursive (suc n) limit search_word line str_idx score src shared =
      let counted : Shared = record shared { count = shared.count + 1 } in
      elim (leb recursion_limit counted.count) [
        | true ↦ some (record { ret = 0; score = score; matches = src; shared = counted })
        | false ↦
            scan limit
              (λ i ms t.
                fuzzy_match_recursive n max_fuzzy_matches search_word (drop 1 line) i 0 ms t)
              line search_word
              (record {
                str_counter = 0;
                str_idx = str_idx;
                matches = src;
                best = none;
                shared = counted;
              })
            >>= finish_search score
      ]
