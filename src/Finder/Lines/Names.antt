-- ===== src/Finder/Lines/Names.antt =====
-- The name that `get_file_name` of src/search_helper.c cuts out of a path.
use magit.Base.{
  ℕ, ◌+◌, ◌<◌, ◌≡◌, ◌≢◌, ◌⊎◌, inl, inr, refl, sym, ap, subst, ◌∙◌, arith, false, some, [], ◌∷◌,
  ◌++◌, append_assoc, append-nil, Bytes, All, All-append, length, length-append, lt→ltb, ◌==◌,
  ==_iff, Bool-cases, some_bind,
}
use magit.Finder.Mru.{path_max, put_char}
use magit.Finder.Lines.{name_byte, name_loop, get_file_name}

-- The part of a path behind its last slash.
abbrev pub HasName : Bytes → Bytes → Type 0
HasName path name =
    All (λ c. c ≢ 47) name × ((path ≡ name) ⊎ ((dir : Bytes) × (path ≡ dir ++ 47 ∷ name)))

pub HasName-slash :
    (buf path name : Bytes) (c : ℕ) → c ≡ 47 → HasName path name → HasName (buf ++ c ∷ path) name
HasName-slash buf path name c e (free, inl same) =
    (free, inr (buf, ap (λ d. buf ++ d ∷ path) e ∙ ap (λ p. buf ++ 47 ∷ p) same))
HasName-slash buf path name c e (free, inr (dir, same)) = (
  free,
  inr (
    buf ++ 47 ∷ dir,
    ap (λ d. buf ++ d ∷ path) e
        ∙ ap (λ p. buf ++ 47 ∷ p) same
        ∙ sym (append_assoc buf (47 ∷ dir) (47 ∷ name)),
  ),
)

pub put_char_fits :
    (buf : Bytes) (c : ℕ) → length buf < path_max → put_char buf c ≡ some (buf ++ c ∷ [])
unfolding put_char
put_char_fits buf c h = rw (lt→ltb (length buf) path_max h)

pub not-slash : (c : ℕ) → (c == 47) ≡ false → c ≢ 47
not-slash c h e = ground arith

pub name_loop_lem :
    (buf path : Bytes)
    → All (λ c. c ≢ 47) buf
    → length buf + length path < path_max
    → (name : Bytes) × (name_loop buf path ≡ some name)
      × (length name < path_max)
      × HasName (buf ++ path) name
unfolding name_loop name_byte
name_loop_lem buf [] h fits = (buf, refl, omega arith, (h, inl (append-nil buf)))
name_loop_lem buf (c ∷ path) h fits = elim (Bool-cases (c == 47)) [
  | inl e ↦
      let (name, ran, small, from) = name_loop_lem [] path tt (omega arith) in
      (name, rw e ran, small, HasName-slash buf path name c ((==_iff c 47).0 e) from)
  | inr e ↦
      let longer = buf ++ c ∷ [] in
      let (name, ran, small, from) =
        name_loop_lem longer path (All-append (λ c. c ≢ 47) buf (c ∷ []) h (not-slash c e, tt))
          (omega (arith, length-append buf (c ∷ []))) in
      (
        name,
        rw e (some_bind _ (put_char_fits buf c (omega arith)) ∙ ran),
        small,
        subst (λ p. HasName p name) (append_assoc buf (c ∷ []) path) from,
      )
]

pub get_file_name-HasName :
    (path : Bytes)
    → length path < path_max
    → (name : Bytes) × (get_file_name path ≡ some name) × HasName path name
unfolding get_file_name
get_file_name-HasName path fits =
    let (name, ran, small, from) = name_loop_lem [] path tt (omega arith) in
    (name, some_bind _ ran ∙ rw (lt→ltb (length name) path_max small), from)
