-- ===== src/Tests/Replies.antt =====
-- A message to the fuzzy finder, the files that it loads, and its reply.
use magit.Base.{
  ℕ, ◌<◌, ◌≡◌, refl, arith, none, some, List, [], ◌∷◌, ◌++◌, map, take, Bytes, length, ltb, pos,
  if◌then◌else◌,
}
use magit.Git.Refs.{codes}
use magit.Finder.Jobs.{same_text}
use magit.Finder.Text.{c_string, digits_value, is_digit}
use magit.Finder.Input.{between, read_stdin}
use magit.Finder.Input.Frames.{read_stdin-frame}
use magit.Finder.Input.Digits.{framed}
use magit.Finder.Reply.{
  Entry, max_response_lines, max_real_response_size, send_res_from_file_info, head_text, entry_text,
  decimal_int,
}
use magit.Finder.Reply.Whole.{body, joined, reply, send_res_from_file_info-writes}
use magit.Finder.Lines.{File, Cache, init_file}
use magit.Finder.Lines.Loaded.{listed, init_file-loads}
use magit.Finder.Lines.Rounds.{FilesOf, terminated, shortened}

-- handle_json_msg as the list of the messages that it was called with.
abbrev noted : List Bytes → Bytes → List Bytes
noted l m = l ++ m ∷ []

abbrev ping : Bytes
ping = codes "{}"

-- Two messages in one read: the first is handed on with a byte of the second.
read_stdin-frame_example :
    read_stdin noted (framed (codes "2") ping ++ framed (codes "2") ping) (between [])
    ≡ some (between (noted [] (ping ++ c_string (take 1 (framed (codes "2") ping)))))
unfolding digits_value is_digit
read_stdin-frame_example =
    read_stdin-frame noted [] (codes "2") ping (framed (codes "2") ping) (refl, tt) (omega arith)
      refl (ground arith) (omega arith)

abbrev digits : ℕ → Bytes
digits n = codes "7"

abbrev one_result : List Entry
one_result = record { file_path = codes "a.c"; match_pos_flag = 4 } ∷ []

send_res_from_file_info-writes_example :
    send_res_from_file_info digits (codes "file") one_result (pos 7) ≡ (
      if ltb
        (length (body digits (codes "file") (take max_response_lines one_result) (pos 7)))
        max_real_response_size
      then some (reply digits (codes "file") (take max_response_lines one_result) (pos 7))
      else none)
send_res_from_file_info-writes_example =
    send_res_from_file_info-writes digits (codes "file") one_result (pos 7)

abbrev empty_cache : Cache
empty_cache = record { files = []; len = 0 }

abbrev two_lines : List Bytes
two_lines = codes "src/a.c" ∷ (codes "b.c" ∷ [])

small_reply :
    length (
      body digits
        (codes "file")
        (take max_response_lines (map listed (two_lines ++ shortened (codes "x"))))
        (pos 7))
    < max_real_response_size
unfolding head_text entry_text joined decimal_int
small_reply = omega arith

init_file-loads_example :
    (files : List File) × FilesOf
      (same_text (codes "init_file") (codes "init_path"))
      (two_lines ++ shortened (codes "x"))
      files
    × (init_file digits
          (codes "init_file")
          (some (terminated two_lines ++ codes "x"))
          (pos 7)
          empty_cache
        ≡ some (
          record { files = files; len = length (two_lines ++ shortened (codes "x")) },
          reply digits
              (codes "file")
              (take max_response_lines (map listed (two_lines ++ shortened (codes "x"))))
              (pos 7),
        ))
init_file-loads_example =
    init_file-loads digits (codes "init_file") (pos 7) empty_cache two_lines (codes "x")
      (ground arith) (ground arith) (omega arith) small_reply
