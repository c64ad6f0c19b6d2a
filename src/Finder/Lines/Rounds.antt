-- ===== src/Finder/Lines/Rounds.antt =====
-- One round of the loop of search_helper.c over the lines of a command.
use magit.Base.{
  ℕ, zero, suc, ◌≤◌, ◌<◌, ◌≡◌, ◌≢◌, refl, sym, ap, ◌∙◌, arith, Bool, true, false, Option, some,
  List, [], ◌∷◌, ◌++◌, append_assoc, append-nil, map, Bytes, All, All-weaken, concat, length,
  length-append, lt→ltb, ==_ne, ◌>>=◌, some_bind, if◌then◌else◌,
}
use magit.Finder.Growth.{grown, grown_room}
use magit.Finder.Mru.{path_max}
use magit.Finder.Text.{c_string-append, c_string}
use magit.Finder.Lines.{File, fgets, cut_last, load_line, put_file, load_loop}
use magit.Finder.Lines.Names.{HasName, get_file_name-HasName}

-- No newline and no NUL.
abbrev pub IsLine : Bytes → Type 0
IsLine t = All (λ c. (c ≢ 0) × (c ≢ 10)) t

pub fgets-line :
    (n : ℕ) (line rest : Bytes)
    → IsLine line
    → length line < n
    → fgets n (line ++ 10 ∷ rest) ≡ (line ++ 10 ∷ [], rest)
unfolding fgets
fgets-line zero line rest h fits = elim fits [ ]
fgets-line (suc n) [] rest h fits = refl
fgets-line (suc n) (c ∷ line) rest ((a, b), h) fits =
    rw (==_ne c 10 b) (ap (λ r. (c ∷ r.0, r.1)) (fgets-line n line rest h (omega arith)))

pub fgets-tail : (n : ℕ) (tail : Bytes) → IsLine tail → length tail ≤ n → fgets n tail ≡ (tail, [])
unfolding fgets
fgets-tail zero [] h fits = refl
fgets-tail zero (c ∷ tail) h fits = elim fits [ ]
fgets-tail (suc n) [] h fits = refl
fgets-tail (suc n) (c ∷ tail) ((a, b), h) fits =
    rw (==_ne c 10 b) (ap (λ r. (c ∷ r.0, r.1)) (fgets-tail n tail h (omega arith)))

pub cut_last-append : (t : Bytes) (c : ℕ) → cut_last (t ++ c ∷ []) ≡ some t
unfolding cut_last
cut_last-append [] c = refl
cut_last-append (d ∷ []) c = refl
cut_last-append (d ∷ (e ∷ t)) c = some_bind _ (cut_last-append (e ∷ t) c)

pub c_string-line : (t s : Bytes) → IsLine t → c_string (t ++ s) ≡ t ++ c_string s
c_string-line t s h = c_string-append t s (All-weaken t (λ c p. p.0) h)

-- The entry that is made of a path.
abbrev pub FileOf : Bool → Bytes → File → Type 0
FileOf no_path_trim path f =
    (f.file_path ≡ path)
    × (f.f_len ≡ length f.file_name)
    × (if no_path_trim then f.file_name ≡ path else HasName path f.file_name)

pub load_line_lem :
    (no_path_trim : Bool) (read path : Bytes)
    → cut_last (c_string read) ≡ some path
    → length path < path_max
    → (f : File) × (load_line no_path_trim read ≡ some f) × FileOf no_path_trim path f
unfolding load_line
load_line_lem true read path e fits = (_, some_bind _ e, (refl, refl, refl))
load_line_lem false read path e fits =
    let (name, ran, from) = get_file_name-HasName path fits in
    (_, some_bind _ e ∙ some_bind _ ran, (refl, refl, from))

abbrev pub FilesOf : Bool → List Bytes → List File → Type 0
FilesOf no_path_trim [] [] = Unit
FilesOf no_path_trim [] (f ∷ fs) = ⊥
FilesOf no_path_trim (p ∷ ps) [] = ⊥
FilesOf no_path_trim (p ∷ ps) (f ∷ fs) = FileOf no_path_trim p f × FilesOf no_path_trim ps fs

abbrev pub but_last : Bytes → Bytes
but_last [] = []
but_last (c ∷ []) = []
but_last (c ∷ (d ∷ s)) = c ∷ but_last (d ∷ s)

-- A last line without a newline loses its last byte.
abbrev pub shortened : Bytes → List Bytes
shortened [] = []
shortened (c ∷ t) = but_last (c ∷ t) ∷ []

pub cut_last-but_last : (c : ℕ) (t : Bytes) → cut_last (c ∷ t) ≡ some (but_last (c ∷ t))
unfolding cut_last
cut_last-but_last c [] = refl
cut_last-but_last c (d ∷ t) = some_bind _ (cut_last-but_last d t)

pub length-but_last : (c : ℕ) (t : Bytes) → length (but_last (c ∷ t)) ≡ length t
length-but_last c [] = refl
length-but_last c (d ∷ t) = ap suc (length-but_last d t)

-- One round of the loop, for what fgets hands over.
pub load_round :
    (n : ℕ) (no_path_trim : Bool) (size : ℕ) (files : List File) (file rest : Bytes)
    (read path : Bytes)
    → fgets 4095 file ≡ (read, rest)
    → 1 ≤ length read
    → cut_last (c_string read) ≡ some path
    → length path < path_max
    → 1 ≤ size
    → length files ≤ size
    → (f : File) × FileOf no_path_trim path f
      × (larger : ℕ) × (length (files ++ f ∷ []) ≤ larger)
      × (1 ≤ larger)
      × (load_loop (suc n) no_path_trim size files file
          ≡ load_loop n no_path_trim larger (files ++ f ∷ []) rest)
unfolding load_loop put_file
load_round n no_path_trim size files file rest [] path e nonempty cut fits filled room =
    elim nonempty [ ]
load_round n no_path_trim size files file rest (c ∷ read) path e nonempty cut fits filled room =
    let larger = grown size (length files) in
    let (more, some_room) = grown_room size (length files) filled room in
    let (f, ran, is_file) = load_line_lem no_path_trim (c ∷ read) path cut fits in
    (
      f,
      is_file,
      larger,
      omega (arith, length-append files (f ∷ [])),
      some_room,
      ap
            (λ r. elim r.0 as (λ _. Option (List File)) [
              | [] ↦ some files
              | d ∷ text ↦ load_line no_path_trim (d ∷ text) >>= λ f.
                  put_file files larger f >>= λ more. load_loop n no_path_trim larger more r.1
            ])
            e
          ∙ some_bind _ ran
          ∙ rw (lt→ltb (length files) larger more),
    )

abbrev pub terminated : List Bytes → Bytes
terminated lines = concat (map (λ l. l ++ 10 ∷ []) lines)

pub c_string-whole : (t : Bytes) → IsLine t → c_string t ≡ t
unfolding c_string
c_string-whole t h = ap c_string (sym (append-nil t)) ∙ c_string-line t [] h ∙ append-nil t

pub load_end :
    (n : ℕ) (no_path_trim : Bool) (size : ℕ) (files : List File)
    → load_loop (suc n) no_path_trim size files [] ≡ some files
unfolding load_loop fgets
load_end n no_path_trim size files = refl

pub cut_line : (l : Bytes) → IsLine l → cut_last (c_string (l ++ 10 ∷ [])) ≡ some l
unfolding c_string
cut_line l h = ap cut_last (c_string-line l (10 ∷ []) h) ∙ cut_last-append l 10

pub next_line :
    (l : Bytes) (lines : List Bytes) (tail : Bytes)
    → terminated (l ∷ lines) ++ tail ≡ l ++ 10 ∷ (terminated lines ++ tail)
next_line l lines tail =
    append_assoc (l ++ 10 ∷ []) (terminated lines) tail
    ∙ append_assoc l (10 ∷ []) (terminated lines ++ tail)
