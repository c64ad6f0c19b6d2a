-- ===== src/Finder/Fuzzy/Score.antt =====
-- The score that `fuzzy_match_compute_score` of src/fuzzy.c gives to the matches in a short line.
use magit.Base.{
  ℕ, zero, suc, ◌+◌, ◌-◌, ◌*◌, ◌%◌, ◌^◌, ◌≤◌, ◌<◌, min, ◌≡◌, arith, some, List, [], ◌∷◌, Bytes,
  length, ◌==◌, sub64, sub64_lem, ==_iff, Bool-cases, refl, inl, inr, if◌then◌else◌,
}
use magit.Finder.Fuzzy.{add64, neighbor_bonus, order_bonuses, fuzzy_match_compute_score}
use magit.Finder.Fuzzy.Within.{Rising}

length-Rising : (lo hi : ℕ) (ns : List ℕ) → lo ≤ hi → Rising lo hi ns → lo + length ns ≤ hi
length-Rising lo hi [] h r = omega arith
length-Rising lo hi (n ∷ ns) h (a, b, r) =
    omega (arith, length-Rising (n + 1) hi ns (omega arith) r)

neighbor_bonus_bounds :
    (str : Bytes) (i score : ℕ)
    → score + 30 < 2 ^ 64
    → (score ≤ neighbor_bonus str i score) × (neighbor_bonus str i score ≤ score + 30)
unfolding neighbor_bonus
neighbor_bonus_bounds str zero score h = ground arith
neighbor_bonus_bounds str (suc i) score h = ground arith

ordered : ℕ → ℕ → ℕ → ℕ
ordered score prev curr =
    if curr == prev + 1 then add64 score 40 else sub64 score (2 * sub64 curr prev % 2 ^ 64)

-- A gap costs twice its length.
ordered_bounds :
    (score prev curr hi : ℕ)
    → prev < curr
    → curr < hi
    → hi ≤ 28
    → 2 * hi < score + 2 * prev
    → score + 40 < 2 ^ 64
    → (2 * hi < ordered score prev curr + 2 * curr) × (ordered score prev curr ≤ score + 40)
unfolding ordered
ordered_bounds score prev curr hi h k small enough room =
    let gap = sub64_lem curr prev (omega arith) (omega arith) in
    let cost : 2 * sub64 curr prev % 2 ^ 64 ≡ 2 * (curr - prev) = omega arith in
    let paid = sub64_lem score (2 * sub64 curr prev % 2 ^ 64) (omega arith) (omega arith) in
    elim (Bool-cases (curr == prev + 1)) [
      | inl e ↦ rw e (let next = (==_iff curr (prev + 1)).0 e in (omega arith, omega arith))
      | inr e ↦ rw e (omega arith, omega arith)
    ]

order_bonuses_pos :
    (str : Bytes) (score prev hi : ℕ) (rest : List ℕ)
    → Rising (prev + 1) hi rest
    → prev < hi
    → hi ≤ 28
    → 2 * hi < score + 2 * prev
    → score + 70 * length rest + 70 < 2 ^ 64
    → 0 < order_bonuses str score prev rest
unfolding order_bonuses ordered
order_bonuses_pos str score prev hi [] r h small enough room = omega arith
order_bonuses_pos str score prev hi (curr ∷ rest) (a, b, r) h small enough room =
    let (low, high) =
      ordered_bounds score prev curr hi (omega arith) b small enough (omega arith) in
    let (low', high') = neighbor_bonus_bounds str curr (ordered score prev curr) (omega arith) in
    order_bonuses_pos str (neighbor_bonus str curr (ordered score prev curr)) curr hi rest r b small
      (omega arith) (omega arith)

pub fuzzy_match_compute_score_pos :
    (str : Bytes) (size : ℕ) (ms : List ℕ)
    → Rising 0 size ms
    → 1 ≤ length ms
    → size ≤ 28
    → (score : ℕ) × (fuzzy_match_compute_score str size ms ≡ some score) × (0 < score)
unfolding fuzzy_match_compute_score
fuzzy_match_compute_score_pos str size [] r h small = elim h [ ]
fuzzy_match_compute_score_pos str size (first ∷ rest) (a, b, r) h small =
    let few = length-Rising (first + 1) size rest (omega arith) r in
    let led = sub64 100 (min 15 (5 * first)) in
    let e : led ≡ 100 - min 15 (5 * first) =
      sub64_lem 100 (min 15 (5 * first)) (omega arith) (omega arith) in
    let e' = sub64_lem size (length rest + 1) (omega arith) (omega arith) in
    let e'' = sub64_lem led (sub64 size (length rest + 1)) (omega arith) (omega arith) in
    let start = sub64 led (sub64 size (length rest + 1)) in
    let (low, high) = neighbor_bonus_bounds str first start (omega arith) in
    (
      _,
      refl,
      order_bonuses_pos str (neighbor_bonus str first start) first size rest r b small (omega arith)
          (omega arith),
    )
