-- ===== src/Finder/Text.antt =====
-- The C strings of the fuzzy finder: what string.h and stdlib.h say of the functions it calls.
use magit.Base.{
  ◌≡◌, ◌≢◌, refl, ap, All, ◌++◌, ==_ne, ℕ, zero, suc, ◌+◌, ◌-◌, ◌*◌, Bool, ◌&&◌, ◌||◌, Option, none,
  some, [], ◌∷◌, Bytes, length, drop, leb, ◌==◌, ℤ, pos, negsuc, if◌then◌else◌,
}
use magit.Git.Refs.{starts_with}

-- The string that starts at an array's first byte: up to its first NUL.
unfoldable pub c_string : Bytes → Bytes
c_string [] = []
c_string (c ∷ s) = if c == 0 then [] else c ∷ c_string s

-- A text without a NUL in front of another string.
pub c_string-append : (t s : Bytes) → All (λ c. c ≢ 0) t → c_string (t ++ s) ≡ t ++ c_string s
unfolding c_string
c_string-append [] s h = refl
c_string-append (c ∷ t) s (h, hs) = rw (==_ne c 0 h) (ap (λ t. c ∷ t) (c_string-append t s hs))

-- strstr, with the pointer moved behind what was found.
unfoldable pub behind : Bytes → Bytes → Option Bytes
behind needle [] = if starts_with needle [] then some [] else none
behind needle (c ∷ s) =
    if starts_with needle (c ∷ s) then some (drop (length needle) (c ∷ s)) else behind needle s

unfoldable pub is_digit : ℕ → Bool
is_digit c = leb 48 c && leb c 57

-- The number that the leading digits stand for, behind `acc`.
unfoldable pub digits_value : ℕ → Bytes → ℕ
digits_value acc [] = acc
digits_value acc (c ∷ s) = if is_digit c then digits_value (acc * 10 + (c - 48)) s else acc

abbrev pub is_space : ℕ → Bool
is_space c = (c == 32) || (leb 9 c && leb c 13)

abbrev pub negated : ℕ → ℤ
negated n = elim n [ zero ↦ pos 0 | suc m ↦ negsuc m ]

-- atoi, for a number that an int holds.
unfoldable pub atoi : Bytes → ℤ
atoi [] = pos 0
atoi (c ∷ s) =
    if is_space c
    then atoi s
    else if c == 45
    then negated (digits_value 0 s)
    else if c == 43
    then pos (digits_value 0 s)
    else pos (digits_value 0 (c ∷ s))
