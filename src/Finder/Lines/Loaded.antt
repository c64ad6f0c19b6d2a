-- ===== src/Finder/Lines/Loaded.antt =====
-- The files that search_helper.c loads from the output of a command.
use magit.Base.{
  ℕ, zero, suc, ◌+◌, ◌≤◌, ◌<◌, ◌≡◌, refl, sym, ap, ◌∙◌, arith, Bool, some, List, [], ◌∷◌, ◌++◌,
  append_assoc, append-nil, map, Bytes, All, take, length, length-append, lt→ltb, ℤ, some_bind,
}
use magit.Git.Refs.{codes}
use magit.Finder.Jobs.{same_text}
use magit.Finder.Reply.{Entry, max_response_lines, max_real_response_size, send_res_from_file_info}
use magit.Finder.Reply.Whole.{body, reply, send_res_from_file_info-writes}
use magit.Finder.Lines.{
  File, cut_last, load_loop, load_lines_from_fp_to_file_info, Cache, entry_of, init_file,
}
use magit.Finder.Lines.Rounds.{
  IsLine, fgets-line, fgets-tail, FilesOf, but_last, shortened, cut_last-but_last, length-but_last,
  load_round, terminated, c_string-whole, load_end, cut_line, next_line,
}

load_loop_lem :
    (n : ℕ) (no_path_trim : Bool) (size : ℕ) (files : List File) (lines : List Bytes) (tail : Bytes)
    → All (λ l. IsLine l × (length l < 4095)) lines
    → IsLine tail
    → length tail < 4096
    → 1 ≤ size
    → length files ≤ size
    → length lines + 2 ≤ n
    → (more : List File) × (load_loop n no_path_trim size files (terminated lines ++ tail)
        ≡ some (files ++ more))
      × FilesOf no_path_trim (lines ++ shortened tail) more
load_loop_lem zero no_path_trim size files lines tail h plain few filled room fuel =
    absurd (omega arith)
load_loop_lem (suc n) no_path_trim size files [] [] h plain few filled room fuel =
    ([], load_end n no_path_trim size files ∙ ap some (sym (append-nil files)), tt)
load_loop_lem (suc zero) no_path_trim size files [] (c ∷ t) h plain few filled room fuel =
    absurd (omega arith)
load_loop_lem (suc (suc n)) no_path_trim size files [] (c ∷ t) h plain few filled room fuel =
    let (f, is_file, larger, room', filled', ran) =
      load_round (suc n) no_path_trim size files (c ∷ t) [] (c ∷ t) (but_last (c ∷ t))
        (fgets-tail 4095 (c ∷ t) plain (omega arith)) (omega arith)
        (ap cut_last (c_string-whole (c ∷ t) plain) ∙ cut_last-but_last c t)
        (omega (arith, length-but_last c t)) filled room in
    (f ∷ [], ran ∙ load_end n no_path_trim larger (files ++ f ∷ []), (is_file, tt))
load_loop_lem (suc n) no_path_trim size files (l ∷ lines) tail h plain few filled room fuel =
    let ((is_line, short), h') = h in
    let rest = terminated lines ++ tail in
    let (f, is_file, larger, room', filled', ran) =
      load_round n no_path_trim size files (l ++ 10 ∷ rest) rest (l ++ 10 ∷ []) l
        (fgets-line 4095 l rest is_line short) (omega (arith, length-append l (10 ∷ [])))
        (cut_line l is_line) (omega arith) filled room in
    let (more, ran', are_files) =
      load_loop_lem n no_path_trim larger (files ++ f ∷ []) lines tail h' plain few filled' room'
        (omega arith) in
    (
      f ∷ more,
      ap (load_loop (suc n) no_path_trim size files) (next_line l lines tail)
          ∙ ran
          ∙ ran'
          ∙ ap some (append_assoc files (f ∷ []) more),
      (is_file, are_files),
    )

lines_fuel : (lines : List Bytes) (tail : Bytes) → length lines ≤ length (terminated lines ++ tail)
lines_fuel [] tail = omega arith
lines_fuel (l ∷ lines) tail = omega (
  arith,
  ap length (next_line l lines tail),
  length-append l (10 ∷ (terminated lines ++ tail)),
  lines_fuel lines tail,
)

pub load_lines-FilesOf :
    (no_path_trim : Bool) (size : ℕ) (lines : List Bytes) (tail : Bytes)
    → All (λ l. IsLine l × (length l < 4095)) lines
    → IsLine tail
    → length tail < 4096
    → 1 ≤ size
    → (files : List File) × (load_lines_from_fp_to_file_info no_path_trim size
          (terminated lines ++ tail)
        ≡ some files)
      × FilesOf no_path_trim (lines ++ shortened tail) files
unfolding load_lines_from_fp_to_file_info
load_lines-FilesOf no_path_trim size lines tail h plain few filled =
    load_loop_lem (length (terminated lines ++ tail) + 2) no_path_trim size [] lines tail h plain
      few filled (omega arith) (omega (arith, lines_fuel lines tail))

-- A path as it is listed.
abbrev pub listed : Bytes → Entry
listed p = record { file_path = p; match_pos_flag = 0 }

listed_files :
    (no_path_trim : Bool) (paths : List Bytes) (files : List File)
    → FilesOf no_path_trim paths files
    → (map entry_of files ≡ map listed paths) × (length files ≡ length paths)
listed_files no_path_trim [] [] h = (refl, refl)
listed_files no_path_trim [] (f ∷ fs) h = elim h [ ]
listed_files no_path_trim (p ∷ ps) [] h = elim h [ ]
listed_files no_path_trim (p ∷ ps) (f ∷ fs) ((path, len, name), h) =
    let (same, many) = listed_files no_path_trim ps fs h in
    (ap (λ p. listed p ∷ map entry_of fs) path ∙ ap (λ es. listed p ∷ es) same, ap suc many)

-- If the command prints lines of less than 4095 bytes without a NUL, and behind the last newline
-- less than 4096 bytes, init_file loads an entry for each line, and one without its last byte for
-- what follows the last newline: the path, its name, which is the path for init_path and the part
-- behind the last slash otherwise, and the name's length. The cache holds them with their number,
-- and the reply lists the first 100 paths, where it fits the buffer of 819200 bytes.
pub init_file-loads :
    (decimal : ℕ → Bytes) (cmd : Bytes) (seq : ℤ) (cache : Cache) (lines : List Bytes)
    (tail : Bytes)
    → All (λ l. IsLine l × (length l < 4095)) lines
    → IsLine tail
    → length tail < 4096
    → length (
        body decimal
          (codes "file")
          (take max_response_lines (map listed (lines ++ shortened tail)))
          seq)
      < max_real_response_size
    → (files : List File) × FilesOf
        (same_text cmd (codes "init_path"))
        (lines ++ shortened tail)
        files
      × (init_file decimal cmd (some (terminated lines ++ tail)) seq cache
          ≡ some (
            record { files = files; len = length (lines ++ shortened tail) },
            reply decimal
                (codes "file")
                (take max_response_lines (map listed (lines ++ shortened tail)))
                seq,
          ))
unfolding init_file
init_file-loads decimal cmd seq cache lines tail h plain few fits =
    let paths = lines ++ shortened tail in
    let (files, ran, are_files) =
      load_lines-FilesOf (same_text cmd (codes "init_path")) 5000 lines tail h plain few
        (omega arith) in
    let (same, many) = listed_files (same_text cmd (codes "init_path")) paths files are_files in
    let sent : send_res_from_file_info decimal (codes "file") (map entry_of files) seq
        ≡ some (reply decimal (codes "file") (take max_response_lines (map listed paths)) seq) =
      ap (λ es. send_res_from_file_info decimal (codes "file") es seq) same
      ∙ send_res_from_file_info-writes decimal (codes "file") (map listed paths) seq
      ∙ rw (
          lt→ltb
            (length (body decimal (codes "file") (take max_response_lines (map listed paths)) seq))
            max_real_response_size fits) in
    (
      files,
      are_files,
      some_bind _ ran
          ∙ some_bind _ sent
          ∙ ap
              (λ n. some (
                record { files = files; len = n },
                reply decimal (codes "file") (take max_response_lines (map listed paths)) seq,
              ))
              many,
    )
